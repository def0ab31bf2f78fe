-- ===== src/Store/Order.antt =====
-- ORDER BY and OFFSET / LIMIT.
use sto_info_backend.Base.{ℕ, zero, suc, Bool, List, [], ◌∷◌, leb, if◌then◌else◌}

module _ {ℓ} {A : Type ℓ} (before : A → A → Bool) where
  unfoldable pub insert_sorted : A → List A → List A
  insert_sorted x [] = x ∷ []
  insert_sorted x (y ∷ ys) = if before x y then x ∷ y ∷ ys else y ∷ insert_sorted x ys

  -- ORDER BY; rows that tie keep the order of the table.
  unfoldable pub sort_by : List A → List A
  unfolding insert_sorted
  sort_by [] = []
  sort_by (x ∷ xs) = insert_sorted x (sort_by xs)

-- `createdAt DESC`
abbrev pub is_newer_first {ℓ} : {A : Type ℓ} → (A → ℕ) → A → A → Bool
is_newer_first created_at x y = leb (created_at y) (created_at x)

module _ {ℓ} {A : Type ℓ} where
  -- OFFSET
  unfoldable pub drop : ℕ → List A → List A
  drop zero xs = xs
  drop (suc n) [] = []
  drop (suc n) (x ∷ xs) = drop n xs

  -- LIMIT
  unfoldable pub take : ℕ → List A → List A
  take zero xs = []
  take (suc n) [] = []
  take (suc n) (x ∷ xs) = x ∷ take n xs
