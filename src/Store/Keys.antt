-- ===== src/Store/Keys.antt =====
-- A column that is a key of its table: the row that a statement finds is the row of its key.
use sto_info_backend.Base.{
  ℕ, ◌≡◌, ◌≢◌, refl, sym, ◌∙◌, inl, inr, Bool, false, some, List, [], ◌∷◌, arith, ◌==◌, Bool-cases,
}
use mathlib.Core.Bool.{false≢true}
use sto_info_backend.Store.{keep, find?, has_id, update_where, save_row, HasDistinctIds}
use sto_info_backend.Store.Laws.{find?-has_id, save_row-cons_eq, save_row-cons_ne}

module _ {ℓ} {A : Type ℓ} (key : A → ℕ) where
  key-ne :
      (q : A → Bool) (x y : A) (xs : List A)
      → has_id key (key y) xs ≡ false
      → find? q xs ≡ some x
      → key y ≢ key x
  key-ne q x y xs new h e = absurd (false≢true (sym new ∙ rw e (find?-has_id q key xs x h)))

  update_where-absent :
      (f : A → A) (n : ℕ) (xs : List A)
      → has_id key n xs ≡ false
      → update_where (λ x. key x == n) f xs ≡ xs
  unfolding has_id update_where
  update_where-absent f n [] h = refl
  update_where-absent f n (x ∷ xs) h = ground (arith, update_where-absent f n xs)

  update_where-cons_here :
      (f : A → A) (r : A) (xs : List A)
      → has_id key (key r) xs ≡ false
      → update_where (λ x. key x == key r) f (r ∷ xs) ≡ f r ∷ xs
  unfolding update_where
  update_where-cons_here f r xs new = ground (arith, update_where-absent f (key r) xs new)

  update_where-here :
      (f : A → A) (r : A) (xs : List A)
      → has_id key (key r) xs ≡ false
      → key (f r) ≡ key r
      → update_where (λ x. key x == key r) f (r ∷ xs) ≡ save_row key (f r) (r ∷ xs)
  update_where-here f r xs new e =
      rw (save_row-cons_eq key (f r) r xs (sym e) new) (update_where-cons_here f r xs new)

  update_where-later :
      (f : A → A) (r x : A) (xs : List A)
      → key x ≢ key r
      → key (f r) ≡ key r
      → update_where (λ y. key y == key r) f xs ≡ save_row key (f r) xs
      → update_where (λ y. key y == key r) f (x ∷ xs) ≡ save_row key (f r) (x ∷ xs)
  unfolding update_where
  update_where-later f r x xs ne e h =
      rw (save_row-cons_ne key (f r) x xs (rw e ne)) (ground (arith, ne, h))

  keep-update_where_later :
      (p : A → Bool) (f : A → A) (r x : A) (xs : List A)
      → key x ≢ key r
      → keep p (update_where (λ y. key y == key r) f xs) ≡ keep p xs
      → keep p (update_where (λ y. key y == key r) f (x ∷ xs)) ≡ keep p (x ∷ xs)
  unfolding keep update_where
  keep-update_where_later p f r x xs ne h = ground (arith, ne, h)

  pub find?-by_key :
      (q : A → Bool) (x : A) (xs : List A)
      → HasDistinctIds key xs
      → find? q xs ≡ some x
      → find? (λ y. key y == key x) xs ≡ some x
  unfolding find?
  find?-by_key q x [] d h = cc
  find?-by_key q x (y ∷ ys) (new, d) h = elim (Bool-cases (q y)) [
    | inl here ↦ ground (arith, here)
    | inr later ↦
        let rest : find? q ys ≡ some x = ground (arith, later) in
        ground (arith, key-ne q x y ys new rest, find?-by_key q x ys d rest)
  ]

  -- An update by id writes the row that was found.
  pub update_where-save_row :
      (q : A → Bool) (f : A → A) (r : A) (xs : List A)
      → HasDistinctIds key xs
      → find? q xs ≡ some r
      → key (f r) ≡ key r
      → update_where (λ x. key x == key r) f xs ≡ save_row key (f r) xs
  unfolding find?
  update_where-save_row q f r [] d h e = cc
  update_where-save_row q f r (x ∷ xs) (new, d) h e = elim (Bool-cases (q x)) [
    | inl here ↦
        let same : x ≡ r = ground (arith, here) in
        rw same (update_where-here f r xs (rw (← same) new) e)
    | inr later ↦
        let rest : find? q xs ≡ some r = ground (arith, later) in
        update_where-later f r x xs (key-ne q r x xs new rest) e
          (update_where-save_row q f r xs d rest e)
  ]

  -- A test that neither the old row nor the new one meets finds what it found before.
  pub find?-save_row_other :
      (p q : A → Bool) (r r' : A) (xs : List A)
      → HasDistinctIds key xs
      → find? q xs ≡ some r
      → key r' ≡ key r
      → p r ≡ false
      → p r' ≡ false
      → find? p (save_row key r' xs) ≡ find? p xs
  unfolding find?
  find?-save_row_other p q r r' [] d h e m m' = cc
  find?-save_row_other p q r r' (x ∷ xs) (new, d) h e m m' = elim (Bool-cases (q x)) [
    | inl here ↦
        let same : x ≡ r = ground (arith, here) in
        rw (save_row-cons_eq key r' x xs (rw (same, e) refl) new) (rw (m', same, m) refl)
    | inr later ↦
        let rest : find? q xs ≡ some r = ground (arith, later) in
        rw (save_row-cons_ne key r' x xs (rw e (key-ne q r x xs new rest)))
          (ground (arith, find?-save_row_other p q r r' xs d rest e m m'))
  ]

  -- The update of a row that a test leaves out before and after changes nothing of what the test keeps.
  pub keep-update_where :
      (p q : A → Bool) (f : A → A) (r : A) (xs : List A)
      → HasDistinctIds key xs
      → find? q xs ≡ some r
      → p r ≡ false
      → p (f r) ≡ false
      → keep p (update_where (λ x. key x == key r) f xs) ≡ keep p xs
  unfolding find? keep
  keep-update_where p q f r [] d h m m' = cc
  keep-update_where p q f r (x ∷ xs) (new, d) h m m' = elim (Bool-cases (q x)) [
    | inl here ↦
        let same : x ≡ r = ground (arith, here) in
        rw (same, update_where-cons_here f r xs (rw (← same) new)) (rw (m, m') refl)
    | inr later ↦
        let rest : find? q xs ≡ some r = ground (arith, later) in
        keep-update_where_later p f r x xs (key-ne q r x xs new rest)
          (keep-update_where p q f r xs d rest m m')
  ]
