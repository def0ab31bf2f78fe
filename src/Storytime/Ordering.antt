-- ===== src/Storytime/Ordering.antt =====
-- storytime/shared/storytime-ordering.service.ts: positions in the ordered collections. Positions are
-- whole numbers of at least 0, so `Math.floor(n / 2)` is the division of ℕ.
pub mod Room
mod Tests
use sto_info_backend.Base.{
  ℕ, suc, ◌+◌, ◌-◌, ◌*◌, ◌/◌, ◌≡◌, ◌≤◌, ◌<◌, refl, Bool, true, false, Option, none, some, List, [],
  ◌∷◌, arith, ltb, if◌then◌else◌,
}

abbrev pub order_index_gap : ℕ
order_index_gap = 1000

abbrev pub order_index_start : ℕ
order_index_start = 1000

abbrev pub minimum_divisible_gap : ℕ
minimum_divisible_gap = 2

pub record OrderPlacement : Type 0 where
  pub order_index : ℕ
  pub requires_renumber : Bool

unfoldable pub next_index : Option ℕ → ℕ
next_index none = order_index_start
next_index (some highest) = highest + order_index_gap

unfoldable pub place_before_first : ℕ → OrderPlacement
place_before_first next =
    if ltb next minimum_divisible_gap
    then record { order_index = 0; requires_renumber = true }
    else record { order_index = next / 2; requires_renumber = false }

-- The gap is an integer in the code: below 2, negative ones included, nothing fits. `next - previous`
-- stops at 0 here, where the test comes out the same.
unfoldable pub place_between_neighbours : ℕ → ℕ → OrderPlacement
place_between_neighbours previous next =
    if ltb (next - previous) minimum_divisible_gap
    then record { order_index = previous; requires_renumber = true }
    else record { order_index = previous + (next - previous) / 2; requires_renumber = false }

unfoldable pub place_between : Option ℕ → Option ℕ → OrderPlacement
unfolding place_before_first place_between_neighbours
place_between none none = record { order_index = order_index_start; requires_renumber = false }
place_between none (some next) = place_before_first next
place_between (some previous) none = record {
  order_index = previous + order_index_gap;
  requires_renumber = false;
}
place_between (some previous) (some next) = place_between_neighbours previous next

pub record Numbered : Type 0 where
  pub id : ℕ
  pub order_index : ℕ

-- `map`, with the position of each item.
unfoldable pub renumber_from : ℕ → List ℕ → List Numbered
renumber_from position [] = []
renumber_from position (i ∷ ids) =
    record { id = i; order_index = order_index_start + position * order_index_gap }
    ∷ renumber_from (suc position) ids

unfoldable pub renumber : List ℕ → List Numbered
unfolding renumber_from
renumber ids = renumber_from 0 ids
