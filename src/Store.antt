-- ===== src/Store.antt =====
-- A table of the database: the list of its rows. The statements that the services send through
-- TypeORM are functions on that list: a `where` is a Boolean test, an UPDATE goes by the id.
pub mod Laws
pub mod Dict
pub mod Order
pub mod Sets
pub mod Keys
use sto_info_backend.Base.{
  ℕ, suc, ◌≡◌, Bool, true, false, ◌||◌, Option, none, some, List, [], ◌∷◌, ◌==◌, if◌then◌else◌,
}

module _ {ℓ} {A : Type ℓ} where
  -- SELECT ... WHERE p
  unfoldable pub keep : (A → Bool) → List A → List A
  keep p [] = []
  keep p (x ∷ xs) = if p x then x ∷ keep p xs else keep p xs

  -- `findOne`, `getOne`: the first row that fits
  unfoldable pub find? : (A → Bool) → List A → Option A
  find? p [] = none
  find? p (x ∷ xs) = if p x then some x else find? p xs

  -- `getExists`, `some`
  unfoldable pub any : (A → Bool) → List A → Bool
  any p [] = false
  any p (x ∷ xs) = p x || any p xs

  -- `getCount`, `count`
  unfoldable pub count_where : (A → Bool) → List A → ℕ
  count_where p [] = 0
  count_where p (x ∷ xs) = if p x then suc (count_where p xs) else count_where p xs

  -- UPDATE ... WHERE p
  unfoldable pub update_where : (A → Bool) → (A → A) → List A → List A
  update_where p f [] = []
  update_where p f (x ∷ xs) = (if p x then f x else x) ∷ update_where p f xs

module _ {ℓ} {A : Type ℓ} (id : A → ℕ) where
  -- whether some row has this id
  unfoldable pub has_id : ℕ → List A → Bool
  unfolding any
  has_id n = any (λ x. id x == n)

  -- `save` of a row that was loaded: its columns are written by id
  unfoldable pub save_row : A → List A → List A
  unfolding update_where
  save_row r = update_where (λ x. id x == id r) (λ _. r)

  -- The primary key: no two rows have one id.
  abbrev pub HasDistinctIds : List A → Type 0
  HasDistinctIds [] = Unit
  HasDistinctIds (x ∷ xs) = (has_id (id x) xs ≡ false) × HasDistinctIds xs

-- `ids.includes(n)`, `n IN (ids)`
unfoldable pub contains : ℕ → List ℕ → Bool
unfolding any
contains n = any (λ m. m == n)
