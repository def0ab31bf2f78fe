-- ===== src/Storytime/Review/Appealing.antt =====
-- The calls on appeals keep the rule, and are never stopped by the index that states it.
use mathlib.Core.Path.{subst}
use sto_info_backend.Base.{
  ℕ, ◌≡◌, refl, sym, ap, ◌∙◌, inl, inr, String, true, false, not, Option, none, some, List, arith,
  ◌==◌, Bool-cases, gets, ◌>>=◌, or_raise, not_found,
}
use sto_info_backend.Store.{has_id, find?}
use sto_info_backend.Store.Laws.{find?-holds}
use sto_info_backend.Storytime.Review.Data.{
  TargetType, AppealStatus, submitted, upheld, rejected, withdrawn, Appeal, Desk, Env, is_removed,
  is_submitted, is_spent, is_same_type, is_spent_on, appeal_row_id, refuses_appeal, save_appeal,
}
use sto_info_backend.Storytime.Review.Targets.{Target, find}
use sto_info_backend.Storytime.Review.Appeals.{
  CreateAppealDto, DecideAppealDto, new_appeal, unless_spent, spent_appeal, create_about,
  create_appeal, find_appeal, withdraw_found, withdraw, decided_appeal, carry_out, decide_found,
  decide,
}
use sto_info_backend.Storytime.Review.Spent.{
  AppealsValid, IsSound, IsSound-bind, IsSound-raise_if, alone,
}
use sto_info_backend.Storytime.Review.Trail.{or_raise-same}
use sto_info_backend.Storytime.Review.Calls.{find-same}
use sto_info_backend.Storytime.Review.Answers.{
  IsSound-insert_appeal, IsSound-save_appeal, IsSound-find, IsSound-or_raise, IsSound-carry_out,
}

IsSound-unless_spent :
    (env : Env) (dto : CreateAppealDto) (user : ℕ) (o : Option Appeal) (d : Desk)
    → AppealsValid d.appeals
    → has_id appeal_row_id env.new_id d.appeals ≡ false
    → spent_appeal dto user d ≡ o
    → IsSound (unless_spent env dto user o d)
unfolding unless_spent spent_appeal new_appeal is_spent_on is_same_type
IsSound-unless_spent env dto user (some a) d v new h = record { valid = v; answered = λ w. cc }
IsSound-unless_spent env dto user none d v new h =
    IsSound-insert_appeal (new_appeal env dto user) d v new h (ground arith)

IsSound-create_about :
    (env : Env) (dto : CreateAppealDto) (user : ℕ) (target : Target) (d : Desk)
    → AppealsValid d.appeals
    → has_id appeal_row_id env.new_id d.appeals ≡ false
    → IsSound (create_about env dto user target d)
unfolding create_about
IsSound-create_about env dto user target d v new =
    elim (Bool-cases (target.owner_user_id == user)) [
      | inl own ↦ rw own (
          IsSound-raise_if (not (is_removed target.content.moderation_status))
            "That content has not been removed."
            (λ _. gets (spent_appeal dto user) >>= unless_spent env dto user) d v
            (λ _. IsSound-unless_spent env dto user (spent_appeal dto user d) d v new refl))
      | inr other ↦ rw other (record { valid = v; answered = λ w. cc })
    ]

IsSound-create_appeal :
    (env : Env) (dto : CreateAppealDto) (user : ℕ) (d : Desk)
    → AppealsValid d.appeals
    → has_id appeal_row_id env.new_id d.appeals ≡ false
    → IsSound (create_appeal env dto user d)
unfolding create_appeal
IsSound-create_appeal env dto user d v new =
    let missing : String = "That content could not be found." in
    IsSound-bind (find dto.target_type dto.target_id)
      (λ o. or_raise o (not_found missing) >>= create_about env dto user) d
      (IsSound-find dto.target_type dto.target_id d v)
      (λ o d' h v'.
        IsSound-bind (or_raise o (not_found missing)) (create_about env dto user) d'
          (IsSound-or_raise o missing d' v')
          (λ target d'' h' v''. IsSound-create_about env dto user target d'' v'' (
            subst (λ x. has_id appeal_row_id env.new_id x.appeals ≡ false)
              (sym (
                (sym (ap (λ r. r.1) h') ∙ or_raise-same o (not_found missing) d')
                ∙ (sym (ap (λ r. r.1) h) ∙ find-same dto.target_type dto.target_id d)))
              new)))

found_id :
    (id : ℕ) (a : Appeal) (rows : List Appeal)
    → find? (λ b. b.id == id) rows ≡ some a
    → find? (λ b. b.id == a.id) rows ≡ some a
found_id id a rows h =
    let held = find?-holds (λ b. b.id == id) rows a h in
    let same : id ≡ a.id = ground (arith, held) in
    ap (λ n. find? (λ b. b.id == n) rows) (sym same) ∙ h

withdrawn-free :
    (a : Appeal) (rows : List Appeal)
    → refuses_appeal (record a { status = withdrawn }) rows ≡ false
unfolding refuses_appeal
withdrawn-free a rows = refl

withdrawn-fewer :
    (a : Appeal) (t : TargetType) (n user : ℕ)
    → is_spent_on t n user (record a { status = withdrawn }) ≡ true
    → is_spent_on t n user a ≡ true
unfolding is_spent_on
withdrawn-fewer a t n user h = ground (arith, h)

IsSound-withdraw_found :
    (id user : ℕ) (o : Option Appeal) (d : Desk)
    → AppealsValid d.appeals
    → find? (λ b. b.id == id) d.appeals ≡ o
    → IsSound (withdraw_found user o d)
unfolding withdraw_found
IsSound-withdraw_found id user none d v h = record { valid = v; answered = λ w. cc }
IsSound-withdraw_found id user (some a) d v h = elim (Bool-cases (a.appellant_user_id == user)) [
  | inl own ↦ rw own (
      IsSound-raise_if (not (is_submitted a.status)) "That appeal has already been decided."
        (λ _. save_appeal (record a { status = withdrawn })) d v
        (λ _.
          IsSound-save_appeal a (record a { status = withdrawn }) id d v h refl (withdrawn-fewer a)
            (withdrawn-free a d.appeals)))
  | inr other ↦ rw other (record { valid = v; answered = λ w. cc })
]

submitted-spent : (s : AppealStatus) → not (is_submitted s) ≡ false → is_spent s ≡ true
submitted-spent submitted h = refl
submitted-spent upheld h = refl
submitted-spent rejected h = refl
submitted-spent withdrawn h = cc

decided-fewer :
    (env : Env) (dto : DecideAppealDto) (actor : ℕ) (a : Appeal) (t : TargetType) (n user : ℕ)
    → is_spent a.status ≡ true
    → is_spent_on t n user (decided_appeal env dto actor a) ≡ true
    → is_spent_on t n user a ≡ true
unfolding is_spent_on decided_appeal
decided-fewer env dto actor a t n user s h = ground (arith, s, h)

own_key :
    (a : Appeal)
    → is_spent a.status ≡ true
    → is_spent_on a.target_type a.target_id a.appellant_user_id a ≡ true
unfolding is_spent_on is_same_type
own_key a s = ground (arith, s)

decided-free :
    (env : Env) (dto : DecideAppealDto) (actor : ℕ) (a : Appeal) (rows : List Appeal)
    → AppealsValid rows
    → find? (λ b. b.id == a.id) rows ≡ some a
    → is_spent a.status ≡ true
    → refuses_appeal (decided_appeal env dto actor a) rows ≡ false
unfolding refuses_appeal decided_appeal
decided-free env dto actor a rows v h s =
    let p = is_spent_on a.target_type a.target_id a.appellant_user_id in
    let others =
      alone p a rows v.ids h (own_key a s) (v.one a.target_type a.target_id a.appellant_user_id) in
    ground (arith, others)

IsSound-decide_found :
    (env : Env) (id : ℕ) (dto : DecideAppealDto) (actor : ℕ) (o : Option Appeal) (d : Desk)
    → AppealsValid d.appeals
    → find? (λ b. b.id == id) d.appeals ≡ o
    → IsSound (decide_found env dto actor o d)
unfolding decide_found
IsSound-decide_found env id dto actor none d v h = record { valid = v; answered = λ w. cc }
IsSound-decide_found env id dto actor (some a) d v h =
    IsSound-raise_if (not (is_submitted a.status))
      "That appeal has already been answered or withdrawn."
      (λ _. save_appeal (decided_appeal env dto actor a) >>= carry_out env dto actor) d v
      (λ waits.
        let s = submitted-spent a.status waits in
        IsSound-bind (save_appeal (decided_appeal env dto actor a)) (carry_out env dto actor) d
          (IsSound-save_appeal a (decided_appeal env dto actor a) id d v h
            (unfold decided_appeal in refl) (λ t n user. decided-fewer env dto actor a t n user s)
            (decided-free env dto actor a d.appeals v (found_id id a d.appeals h) s))
          (λ x d' _ v'. IsSound-carry_out env dto actor x d' v'))

-- Where no two appeals have one identifier and no creator has two spent appeals about one piece of
-- content, a creation of an appeal for which the database draws a new identifier, a withdrawal and a
-- decision leave that so, and none of them is stopped by the index that states it.
pub appeals-IsSound :
    (env : Env) (create : CreateAppealDto) (decision : DecideAppealDto) (id user : ℕ) (d : Desk)
    → AppealsValid d.appeals
    → has_id appeal_row_id env.new_id d.appeals ≡ false
    → IsSound (create_appeal env create user d)
      × IsSound (withdraw id user d)
      × IsSound (decide env id decision user d)
unfolding withdraw decide find_appeal
appeals-IsSound env create decision id user d v new = (
  IsSound-create_appeal env create user d v new,
  IsSound-withdraw_found id user (find_appeal id d) d v refl,
  IsSound-decide_found env id decision user (find_appeal id d) d v refl,
)
