-- ===== src/Storytime/Ordering/Tests.antt =====
-- The theorems about positions at concrete inputs.
use sto_info_backend.Base.{ℕ, ◌≡◌, ◌<◌, refl, true, false, some, [], ◌∷◌, arith, map}
use sto_info_backend.Storytime.Ordering.{place_between, place_between_neighbours, renumber}
use sto_info_backend.Storytime.Ordering.Room.{
  place_between-fits, HasRoom, renumber-HasRoom, all_fit, all_fit-power,
}

crowded : (place_between (some 4) (some 5)).requires_renumber ≡ true
unfolding place_between place_between_neighbours
crowded = refl

place_between-fits_example :
    let r = place_between (some 1000) (some 2000) in
    (r.requires_renumber ≡ false → (1000 < r.order_index) × (r.order_index < 2000))
    × (r.requires_renumber ≡ true → (i : ℕ) → 1000 < i → ¬ (i < 2000))
place_between-fits_example = place_between-fits (some 1000) (some 2000)

renumber-HasRoom_example :
    (map (λ n. n.id) (renumber (3 ∷ 1 ∷ 2 ∷ [])) ≡ 3 ∷ 1 ∷ 2 ∷ [])
    × HasRoom (renumber (3 ∷ 1 ∷ 2 ∷ []))
renumber-HasRoom_example = renumber-HasRoom (3 ∷ 1 ∷ 2 ∷ [])

-- The gap of 1000 takes nine.
nine_fit : all_fit 9 1000 2000 ≡ true
nine_fit = all_fit-power 9 1000 2000 (omega arith)
