-- ===== src/Store/Laws.antt =====
-- The laws of the statements on a table.
use sto_info_backend.Base.{
  ℕ, ◌+◌, ◌≡◌, ◌≢◌, refl, sym, ◌∙◌, ◌<◌, ◌≤◌, inl, inr, Bool, true, false, none, some, List, [],
  ◌∷◌, arith, ◌==◌, Bool-cases,
}
use mathlib.Core.Path.{fun_ext}
use mathlib.Core.Bool.{false≢true}
use sto_info_backend.Store.{
  keep, find?, any, count_where, update_where, has_id, save_row, HasDistinctIds,
}

-- A truth value as the number of rows that it adds to a count.
abbrev pub one_if : Bool → ℕ
one_if true = 1
one_if false = 0

module _ {ℓ} {A : Type ℓ} (p : A → Bool) where
  pub find?-cons_true : (x : A) (xs : List A) → p x ≡ true → find? p (x ∷ xs) ≡ some x
  unfolding find?
  find?-cons_true x xs e = rw e

  pub find?-holds : (xs : List A) (x : A) → find? p xs ≡ some x → p x ≡ true
  unfolding find?
  find?-holds [] x h = cc
  find?-holds (y ∷ xs) x h = elim (Bool-cases (p y)) [
    | inl e ↦ ground (arith, e)
    | inr e ↦ ground (arith, e, find?-holds xs x)
  ]

  pub keep-cons_true : (x : A) (xs : List A) → p x ≡ true → keep p (x ∷ xs) ≡ x ∷ keep p xs
  unfolding keep
  keep-cons_true x xs e = rw e

  pub keep-cons_false : (x : A) (xs : List A) → p x ≡ false → keep p (x ∷ xs) ≡ keep p xs
  unfolding keep
  keep-cons_false x xs e = rw e

  pub count_where-nil : count_where p [] ≡ 0
  unfolding count_where
  count_where-nil = refl

  pub count_where-cons :
      (x : A) (xs : List A) → count_where p (x ∷ xs) ≡ one_if (p x) + count_where p xs
  unfolding count_where
  count_where-cons x xs = ground arith

  pub any-eq_false-count_where : (xs : List A) → any p xs ≡ false → count_where p xs ≡ 0
  unfolding any count_where
  any-eq_false-count_where [] h = refl
  any-eq_false-count_where (x ∷ xs) h = ground (arith, any-eq_false-count_where xs)

  pub count_where-eq_zero-any : (xs : List A) → count_where p xs ≡ 0 → any p xs ≡ false
  unfolding any count_where
  count_where-eq_zero-any [] h = refl
  count_where-eq_zero-any (x ∷ xs) h = ground (arith, count_where-eq_zero-any xs)

  pub any-eq_true-count_where : (xs : List A) → any p xs ≡ true → 0 < count_where p xs
  unfolding any count_where
  any-eq_true-count_where [] h = cc
  any-eq_true-count_where (x ∷ xs) h = ground (arith, any-eq_true-count_where xs)

  pub count_where-eq_zero-find? : (xs : List A) → count_where p xs ≡ 0 → find? p xs ≡ none
  unfolding find? count_where
  count_where-eq_zero-find? [] h = refl
  count_where-eq_zero-find? (x ∷ xs) h = ground (arith, count_where-eq_zero-find? xs)

  pub find?-eq_none-count_where : (xs : List A) → find? p xs ≡ none → count_where p xs ≡ 0
  unfolding find? count_where
  find?-eq_none-count_where [] h = refl
  find?-eq_none-count_where (x ∷ xs) h = ground (arith, find?-eq_none-count_where xs)

  pub find?-eq_some-count_where : (xs : List A) (x : A) → find? p xs ≡ some x → 0 < count_where p xs
  unfolding find? count_where
  find?-eq_some-count_where [] x h = cc
  find?-eq_some-count_where (y ∷ xs) x h = ground (arith, find?-eq_some-count_where xs x)

  pub any-false_of_find? : (xs : List A) → find? p xs ≡ none → any p xs ≡ false
  unfolding find? any
  any-false_of_find? [] h = refl
  any-false_of_find? (x ∷ xs) h = ground (arith, any-false_of_find? xs)

  pub find?-has_id :
      (id : A → ℕ) (xs : List A) (x : A) → find? p xs ≡ some x → has_id id (id x) xs ≡ true
  unfolding find? has_id
  find?-has_id id [] x h = cc
  find?-has_id id (y ∷ xs) x h = ground (arith, find?-has_id id xs x)

-- A statement that finds the rows by another test.
module _ {ℓ} {A : Type ℓ} (p q : A → Bool) where
  pub count_where_mono :
      ((x : A) → p x ≡ true → q x ≡ true) → (xs : List A) → count_where p xs ≤ count_where q xs
  unfolding count_where
  count_where_mono h [] = omega arith
  count_where_mono h (x ∷ xs) = ground (arith, h x, count_where_mono h xs)

  pub any_mono_false :
      ((x : A) → p x ≡ true → q x ≡ true) → (xs : List A) → any q xs ≡ false → any p xs ≡ false
  unfolding any
  any_mono_false h [] e = refl
  any_mono_false h (x ∷ xs) e = ground (arith, h x, any_mono_false h xs)

  pub count_where-congr :
      ((x : A) → p x ≡ q x) → (xs : List A) → count_where p xs ≡ count_where q xs
  count_where-congr h xs = rw (fun_ext h)

  -- A row found by `q` that meets `p` too is counted by `p`.
  pub find?-count_where :
      (xs : List A) (x : A) → find? q xs ≡ some x → p x ≡ true → 0 < count_where p xs
  unfolding find? count_where
  find?-count_where [] x h e = cc
  find?-count_where (y ∷ xs) x h e = ground (arith, find?-count_where xs x)

-- An update of some rows that keeps their ids, and a test that it does not make true.
module _ {ℓ} {A : Type ℓ} (p q : A → Bool) (f : A → A) where
  pub count_where-update_where_le :
      ((x : A) → q x ≡ true → p (f x) ≡ true → p x ≡ true)
      → (xs : List A) → count_where p (update_where q f xs) ≤ count_where p xs
  unfolding count_where update_where
  count_where-update_where_le h [] = omega arith
  count_where-update_where_le h (x ∷ xs) = ground (arith, h x, count_where-update_where_le h xs)

  pub count_where-update_where_eq :
      ((x : A) → q x ≡ true → p (f x) ≡ p x)
      → (xs : List A) → count_where p (update_where q f xs) ≡ count_where p xs
  unfolding count_where update_where
  count_where-update_where_eq h [] = refl
  count_where-update_where_eq h (x ∷ xs) = ground (arith, h x, count_where-update_where_eq h xs)

  -- Every row that meets `p` is found by `q`, and does not meet `p` after the update.
  pub count_where-update_where_zero :
      ((x : A) → p x ≡ true → q x ≡ true)
      → ((x : A) → q x ≡ true → p (f x) ≡ false)
      → (xs : List A) → count_where p (update_where q f xs) ≡ 0
  unfolding count_where update_where
  count_where-update_where_zero g h [] = refl
  count_where-update_where_zero g h (x ∷ xs) =
      ground (arith, g x, h x, count_where-update_where_zero g h xs)

module _ {ℓ} {A : Type ℓ} (id : A → ℕ) where
  has_id-update_where :
      (q : A → Bool) (f : A → A)
      → ((x : A) → q x ≡ true → id (f x) ≡ id x)
      → (n : ℕ) (xs : List A) → has_id id n (update_where q f xs) ≡ has_id id n xs
  unfolding has_id update_where
  has_id-update_where q f h n [] = refl
  has_id-update_where q f h n (x ∷ xs) = ground (arith, h x, has_id-update_where q f h n xs)

  pub HasDistinctIds-update_where :
      (q : A → Bool) (f : A → A)
      → ((x : A) → q x ≡ true → id (f x) ≡ id x)
      → (xs : List A) → HasDistinctIds id xs
      → HasDistinctIds id (update_where q f xs)
  unfolding update_where
  HasDistinctIds-update_where q f h [] d = tt
  HasDistinctIds-update_where q f h (x ∷ xs) (new, d) = (
    elim (Bool-cases (q x)) [
      | inl e ↦ rw (e, h x e, has_id-update_where q f h (id x) xs) new
      | inr e ↦ rw (e, has_id-update_where q f h (id x) xs) new
    ],
    HasDistinctIds-update_where q f h xs d,
  )

  -- No row has the id, so a save of it changes nothing.
  save_row-has_id-false :
      (r : A) (xs : List A) → has_id id (id r) xs ≡ false → save_row id r xs ≡ xs
  unfolding has_id save_row
  save_row-has_id-false r [] h = refl
  save_row-has_id-false r (x ∷ xs) h = ground (arith, save_row-has_id-false r xs)

  pub HasDistinctIds-save_row :
      (r : A) (xs : List A) → HasDistinctIds id xs → HasDistinctIds id (save_row id r xs)
  unfolding save_row
  HasDistinctIds-save_row r xs =
      HasDistinctIds-update_where (λ x. id x == id r) (λ _. r) (λ x e. ground (arith, e)) xs

  pub save_row-cons_eq :
      (r x : A) (xs : List A)
      → id x ≡ id r
      → has_id id (id x) xs ≡ false
      → save_row id r (x ∷ xs) ≡ r ∷ xs
  unfolding save_row
  save_row-cons_eq r x xs e new = ground (arith, save_row-has_id-false r xs (rw (← e) new))

  pub save_row-cons_ne :
      (r x : A) (xs : List A) → id x ≢ id r → save_row id r (x ∷ xs) ≡ x ∷ save_row id r xs
  unfolding save_row
  save_row-cons_ne r x xs ne = ground arith

  id-ne_of_find? :
      (q : A → Bool) (r x : A) (xs : List A)
      → has_id id (id x) xs ≡ false
      → find? q xs ≡ some r
      → id x ≢ id r
  id-ne_of_find? q r x xs new h e = absurd (false≢true (sym new ∙ rw e (find?-has_id q id xs r h)))

  -- The write of one loaded row changes a count by that row alone.
  pub count_where-save_row :
      (p q : A → Bool) (r r' : A) (xs : List A)
      → HasDistinctIds id xs
      → find? q xs ≡ some r
      → id r' ≡ id r
      → count_where p (save_row id r' xs) + one_if (p r) ≡ count_where p xs + one_if (p r')
  unfolding find? count_where
  count_where-save_row p q r r' [] d h e = cc
  count_where-save_row p q r r' (x ∷ xs) (new, d) h e = elim (Bool-cases (q x)) [
    | inl here ↦
        let same : x ≡ r = ground (arith, here) in
        rw (save_row-cons_eq r' x xs (rw (same, e) refl) new) (rw same (ground arith))
    | inr later ↦
        let rest : find? q xs ≡ some r = ground (arith, later) in
        rw (save_row-cons_ne r' x xs (rw e (id-ne_of_find? q r x xs new rest)))
          (ground (arith, count_where-save_row p q r r' xs d rest e))
  ]

  -- The row that was written is found by a test that it and the old row alone meet.
  pub find?-save_row :
      (p q : A → Bool) (r r' : A) (xs : List A)
      → HasDistinctIds id xs
      → count_where p xs ≤ 1
      → find? q xs ≡ some r
      → id r' ≡ id r
      → p r ≡ true
      → p r' ≡ true
      → find? p (save_row id r' xs) ≡ some r'
  unfolding find? count_where
  find?-save_row p q r r' [] d one h e m m' = cc
  find?-save_row p q r r' (x ∷ xs) (new, d) one h e m m' = elim (Bool-cases (q x)) [
    | inl here ↦
        let same : x ≡ r = ground (arith, here) in
        rw (save_row-cons_eq r' x xs (rw (same, e) refl) new) (rw m' refl)
    | inr later ↦
        let rest : find? q xs ≡ some r = ground (arith, later) in
        let counted = find?-count_where p q xs r rest m in
        rw (save_row-cons_ne r' x xs (rw e (id-ne_of_find? q r x xs new rest))) (
          ground
            (arith, counted, find?-save_row p q r r' xs d (ground (arith, counted)) rest e m m'))
  ]

  -- The row that was written is found by a narrower test than the one that found the old row.
  pub find?-save_row_narrow :
      (p q : A → Bool) (r r' : A) (xs : List A)
      → HasDistinctIds id xs
      → find? q xs ≡ some r
      → id r' ≡ id r
      → ((x : A) → p x ≡ true → q x ≡ true)
      → p r' ≡ true
      → find? p (save_row id r' xs) ≡ some r'
  unfolding find?
  find?-save_row_narrow p q r r' [] d h e narrow m = cc
  find?-save_row_narrow p q r r' (x ∷ xs) (new, d) h e narrow m = elim (Bool-cases (q x)) [
    | inl here ↦
        let same : x ≡ r = ground (arith, here) in
        rw (save_row-cons_eq r' x xs (rw (same, e) refl) new) (rw m refl)
    | inr later ↦
        let rest : find? q xs ≡ some r = ground (arith, later) in
        rw (save_row-cons_ne r' x xs (rw e (id-ne_of_find? q r x xs new rest)))
          (ground (arith, narrow x, later, find?-save_row_narrow p q r r' xs d rest e narrow m))
  ]
