-- ===== src/Storytime/Review/Spent.antt =====
-- The rule of one spent appeal for each creator and piece of content.
use mathlib.Core.Path.{subst}
use sto_info_backend.Base.{
  ℕ, ◌≤◌, ◌≡◌, ◌≢◌, refl, sym, inl, inr, String, Bool, true, false, not, ◌&&◌, some, List, [], ◌∷◌,
  arith, ◌==◌, Bool-cases, Result, ok, err, Error, query_failed, Action, raise_if, ◌>>=◌,
  bad_request, bind-ok, bind-err,
}
use sto_info_backend.Store.{has_id, find?, any, count_where, HasDistinctIds}
use sto_info_backend.Store.Laws.{any_mono_false, count_where-eq_zero-any, find?-count_where}
use sto_info_backend.Storytime.Review.Data.{
  TargetType, Appeal, Desk, is_same_type, is_spent_on, appeal_row_id,
}

-- The primary key and UQ_storytime_appeal_one_per_target.
pub record AppealsValid (rows : List Appeal) : Type 0 where
  pub ids : HasDistinctIds appeal_row_id rows
  pub one : (t : TargetType) (id user : ℕ) → count_where (is_spent_on t id user) rows ≤ 1

-- A call that leaves the appeals valid and is not stopped by a unique index.
pub record IsSound {A : Type 0} (r : Result A × Desk) : Type 0 where
  pub valid : AppealsValid r.1.appeals
  pub answered : r.0 ≢ err query_failed

failed_as :
    {A B : Type 0} {x y : Error}
    → ◌≡◌ {A = Result B} (err x) (err y)
    → ◌≡◌ {A = Result A} (err x) (err y)
failed_as w = cc

IsSound-run :
    {A B : Type 0} (m : Action Desk A) (f : A → Action Desk B) (d : Desk) (r : Result A × Desk)
    → m d ≡ r
    → IsSound r
    → ((x : A) (d' : Desk) → m d ≡ (ok x, d') → AppealsValid d'.appeals → IsSound (f x d'))
    → IsSound ((m >>= f) d)
IsSound-run m f d (ok x, d') e h k = subst IsSound (sym (bind-ok m f d e)) (k x d' e h.valid)
IsSound-run m f d (err x, d') e h k =
    subst IsSound (sym (bind-err m f d e))
      (record { valid = h.valid; answered = λ w. h.answered (failed_as w) })

pub IsSound-bind :
    {A B : Type 0} (m : Action Desk A) (f : A → Action Desk B) (d : Desk)
    → IsSound (m d)
    → ((x : A) (d' : Desk) → m d ≡ (ok x, d') → AppealsValid d'.appeals → IsSound (f x d'))
    → IsSound ((m >>= f) d)
IsSound-bind m f d h k = IsSound-run m f d (m d) refl h k

pub IsSound-raise_if :
    {A : Type 0} (b : Bool) (m : String) (f : Unit {0} → Action Desk A) (d : Desk)
    → AppealsValid d.appeals
    → (b ≡ false → IsSound (f tt d))
    → IsSound ((raise_if b (bad_request m) >>= f) d)
IsSound-raise_if true m f d v h = record { valid = v; answered = λ w. cc }
IsSound-raise_if false m f d v h = h refl

-- Two tests of one key find the same rows.
pub same_key :
    (t s : TargetType) (id id' user user' : ℕ) (a x : Appeal)
    → is_spent_on t id user a ≡ true
    → is_spent_on s id' user' a ≡ true
    → is_spent_on t id user x ≡ true
    → is_spent_on s id' user' x ≡ true
unfolding is_spent_on is_same_type
same_key t s id id' user user' a x h k e = ground (arith, h, k, e)

-- The one row that meets a test that at most one row meets.
pub alone :
    (p : Appeal → Bool) (a : Appeal) (rows : List Appeal)
    → HasDistinctIds appeal_row_id rows
    → find? (λ b. b.id == a.id) rows ≡ some a
    → p a ≡ true
    → count_where p rows ≤ 1
    → any (λ b. not (b.id == a.id) && p b) rows ≡ false
unfolding find? any count_where has_id appeal_row_id
alone p a [] d h m one = refl
alone p a (x ∷ rows) (new, d) h m one = elim (Bool-cases (x.id == a.id)) [
  | inl here ↦
      let same : x ≡ a = ground (arith, here, h) in
      let none_left : count_where p rows ≡ 0 = ground (arith, same, m, one) in
      let rest =
        any_mono_false (λ b. not (b.id == a.id) && p b) p (λ b e. ground (arith, e)) rows
          (count_where-eq_zero-any p rows none_left) in
      ground (arith, here, rest)
  | inr later ↦
      let there : find? (λ b. b.id == a.id) rows ≡ some a = ground (arith, later, h) in
      let counted = find?-count_where p (λ b. b.id == a.id) rows a there m in
      ground (arith, later, counted, alone p a rows d there m)
]
