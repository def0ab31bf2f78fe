-- ===== src/Captains/Sorted.antt =====
-- The list of captains is a permutation in which pinned captains come first and neighbours are in order.
use sto_info_backend.Base.{
  ℕ, ◌+◌, ◌≡◌, refl, ap, sym, ◌∙◌, inl, inr, String, Bool, true, false, Option, none, some, List,
  [], ◌∷◌, arith, Bool-cases,
}
use mathlib.Core.Path.{subst}
use sto_info_backend.Store.{count_where}
use sto_info_backend.Store.Laws.{one_if, count_where-cons}
use sto_info_backend.Store.Order.{insert_sorted, sort_by}
use sto_info_backend.Captains.{
  CharacterSortBy, level, created_date, species, faction, class_, handle, CharacterSortOrder, Sign,
  flip, is_at_most, SortableCharacter, LocaleCompare, compare_numbers, directed, compare_handles,
  compare_pinned, compare_optional, compare_names, compare_figures, compare_field,
  compare_characters,
}

-- Every two neighbours are related.
abbrev pub IsChain {ℓ} : {A : Type ℓ} → (A → A → Bool) → List A → Type 0
IsChain r [] = Unit
IsChain r (a ∷ []) = Unit
IsChain r (a ∷ b ∷ rest) = (r a b ≡ true) × IsChain r (b ∷ rest)

module _ {ℓ} {A : Type ℓ} (r : A → A → Bool)
    (total : (a b : A) → r a b ≡ false → r b a ≡ true) where
  insert_sorted-cons_true :
      (x y : A) (ys : List A) → r x y ≡ true → insert_sorted r x (y ∷ ys) ≡ x ∷ y ∷ ys
  unfolding insert_sorted
  insert_sorted-cons_true x y ys e = rw e

  insert_sorted-cons_false :
      (x y : A) (ys : List A)
      → r x y ≡ false
      → insert_sorted r x (y ∷ ys) ≡ y ∷ insert_sorted r x ys
  unfolding insert_sorted
  insert_sorted-cons_false x y ys e = rw e

  insert_behind :
      (a x : A) (ys : List A)
      → r a x ≡ true
      → IsChain r (a ∷ ys)
      → IsChain r (a ∷ insert_sorted r x ys)
  unfolding insert_sorted
  insert_behind a x [] h c = (h, tt)
  insert_behind a x (y ∷ ys) h (ay, c) = elim (Bool-cases (r x y)) [
    | inl e ↦ subst (λ l. IsChain r (a ∷ l)) (sym (insert_sorted-cons_true x y ys e)) (h, (e, c))
    | inr e ↦
        subst (λ l. IsChain r (a ∷ l)) (sym (insert_sorted-cons_false x y ys e))
          (ay, insert_behind y x ys (total x y e) c)
  ]

  insert_sorted-IsChain : (x : A) (ys : List A) → IsChain r ys → IsChain r (insert_sorted r x ys)
  unfolding insert_sorted
  insert_sorted-IsChain x [] c = tt
  insert_sorted-IsChain x (y ∷ ys) c = elim (Bool-cases (r x y)) [
    | inl e ↦ subst (IsChain r) (sym (insert_sorted-cons_true x y ys e)) (e, c)
    | inr e ↦
        subst (IsChain r) (sym (insert_sorted-cons_false x y ys e))
          (insert_behind y x ys (total x y e) c)
  ]

  pub sort_by-IsChain : (xs : List A) → IsChain r (sort_by r xs)
  unfolding sort_by
  sort_by-IsChain [] = tt
  sort_by-IsChain (x ∷ xs) = insert_sorted-IsChain x (sort_by r xs) (sort_by-IsChain xs)

module _ {ℓ} {A : Type ℓ} (r : A → A → Bool) (p : A → Bool) where
  count_where-insert_sorted :
      (x : A) (ys : List A) → count_where p (insert_sorted r x ys) ≡ count_where p (x ∷ ys)
  unfolding insert_sorted count_where
  count_where-insert_sorted x [] = refl
  count_where-insert_sorted x (y ∷ ys) = ground (arith, count_where-insert_sorted x ys)

  pub count_where-sort_by : (xs : List A) → count_where p (sort_by r xs) ≡ count_where p xs
  unfolding sort_by
  count_where-sort_by [] = refl
  count_where-sort_by (x ∷ xs) =
      count_where-insert_sorted x (sort_by r xs)
      ∙ count_where-cons p x (sort_by r xs)
      ∙ ap (λ n. one_if (p x) + n) (count_where-sort_by xs)
      ∙ sym (count_where-cons p x xs)

pub IsChain-mono :
    {A : Type 0} (r s : A → A → Bool)
    → ((a b : A) → r a b ≡ true → s a b ≡ true)
    → (xs : List A) → IsChain r xs
    → IsChain s xs
IsChain-mono r s h [] c = tt
IsChain-mono r s h (a ∷ []) c = tt
IsChain-mono r s h (a ∷ b ∷ rest) (ab, c) = (h a b ab, IsChain-mono r s h (b ∷ rest) c)

-- `localeCompare` of two strings the other way round has the opposite sign.
abbrev pub IsAntisymmetric : LocaleCompare → Type 0
IsAntisymmetric locale = (s t : String) → locale t s ≡ flip (locale s t)

directed-flip : (o : CharacterSortOrder) (s : Sign) → directed o (flip s) ≡ flip (directed o s)
unfolding directed
directed-flip o s = ground arith

compare_numbers-flip : (m n : ℕ) → compare_numbers n m ≡ flip (compare_numbers m n)
compare_numbers-flip m n = ground arith

compare_optional-flip :
    {A : Type 0} (c : A → A → Sign)
    → ((a b : A) → c b a ≡ flip (c a b))
    → (x y : Option A) → compare_optional c y x ≡ flip (compare_optional c x y)
unfolding compare_optional
compare_optional-flip c h none none = refl
compare_optional-flip c h none (some b) = refl
compare_optional-flip c h (some a) none = refl
compare_optional-flip c h (some a) (some b) = h a b

compare_pinned-flip : (x y : Option ℕ) → compare_pinned y x ≡ flip (compare_pinned x y)
unfolding compare_pinned
compare_pinned-flip x y = ground arith

module _ (locale : LocaleCompare) (anti : IsAntisymmetric locale) (o : CharacterSortOrder) where
  compare_names-flip :
      (x y : Option String) → compare_names locale o y x ≡ flip (compare_names locale o x y)
  unfolding compare_names
  compare_names-flip =
      compare_optional-flip (λ s t. directed o (locale s t))
        (λ s t. ap (directed o) (anti s t) ∙ directed-flip o (locale s t))

  compare_figures-flip : (x y : Option ℕ) → compare_figures o y x ≡ flip (compare_figures o x y)
  unfolding compare_figures
  compare_figures-flip =
      compare_optional-flip (λ m n. directed o (compare_numbers m n))
        (λ m n. ap (directed o) (compare_numbers-flip m n) ∙ directed-flip o (compare_numbers m n))

  compare_field-flip :
      (k : CharacterSortBy) (a b : SortableCharacter)
      → compare_field locale k o b a ≡ flip (compare_field locale k o a b)
  unfolding compare_field compare_handles
  compare_field-flip handle a b =
      ap (directed o) (anti a.handle b.handle) ∙ directed-flip o (locale a.handle b.handle)
  compare_field-flip level a b = compare_figures-flip a.level b.level
  compare_field-flip created_date a b = compare_figures-flip a.created_date b.created_date
  compare_field-flip species a b = compare_names-flip a.species b.species
  compare_field-flip faction a b = compare_names-flip a.faction b.faction
  compare_field-flip class_ a b = compare_names-flip a.class_ b.class_

  pub characters-total :
      (k : CharacterSortBy) (a b : SortableCharacter)
      → is_at_most (compare_characters locale k o a b) ≡ false
      → is_at_most (compare_characters locale k o b a) ≡ true
  unfolding compare_characters compare_handles
  characters-total k a b h = ground (
    arith,
    h,
    compare_pinned-flip a.pinned_at b.pinned_at,
    compare_field-flip k a b,
    anti a.handle b.handle,
  )
