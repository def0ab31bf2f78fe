-- ===== src/Store/Sets.antt =====
-- A JavaScript `Set` of identifiers or codes, in insertion order.
use sto_info_backend.Base.{ℕ, ◌≡◌, refl, not, ◌&&◌, ◌||◌, List, [], ◌∷◌, arith, ◌==◌, if◌then◌else◌}
use sto_info_backend.Store.{keep, contains}

-- `set.add(n)`
unfoldable pub set_add : ℕ → List ℕ → List ℕ
set_add n [] = n ∷ []
set_add n (m ∷ ms) = if m == n then m ∷ ms else m ∷ set_add n ms

-- `set.delete(n)`
unfoldable pub set_delete : ℕ → List ℕ → List ℕ
unfolding keep
set_delete n = keep (λ m. not (m == n))

pub contains-set_add :
    (n m : ℕ) (xs : List ℕ) → contains n (set_add m xs) ≡ (m == n || contains n xs)
unfolding contains set_add
contains-set_add n m [] = refl
contains-set_add n m (x ∷ xs) = ground (arith, contains-set_add n m xs)

pub contains-set_delete :
    (n m : ℕ) (xs : List ℕ) → contains n (set_delete m xs) ≡ (not (m == n) && contains n xs)
unfolding contains set_delete
contains-set_delete n m [] = ground arith
contains-set_delete n m (x ∷ xs) = ground (arith, contains-set_delete n m xs)
