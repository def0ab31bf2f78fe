-- ===== src/Storytime/Ordering/Room.antt =====
-- A position fits between its neighbours, and a renumbered collection has room everywhere.
use sto_info_backend.Base.{
  ℕ, zero, suc, ◌+◌, ◌*◌, ◌^◌, ◌≡◌, ◌≤◌, ◌<◌, refl, ap, Bool, true, false, Option, none, some, List,
  [], ◌∷◌, arith, map,
}
use sto_info_backend.Storytime.Ordering.{
  place_before_first, place_between_neighbours, place_between, Numbered, renumber_from, renumber,
}

-- A position that a neighbour on either side, where there is one, leaves free.
abbrev pub IsAfter : Option ℕ → ℕ → Type 0
IsAfter none i = 0 < i
IsAfter (some p) i = p < i

abbrev pub IsBefore : Option ℕ → ℕ → Type 0
IsBefore none i = Unit
IsBefore (some n) i = i < n

-- `placeBetween`, whatever the neighbours: a position that it gives without asking for a renumber lies
-- strictly between them (above 0 where there is none before it), and it asks for one only where no
-- whole number does.
pub place_between-fits :
    (previous next : Option ℕ)
    → let r = place_between previous next in
      (r.requires_renumber ≡ false → IsAfter previous r.order_index × IsBefore next r.order_index)
      × (r.requires_renumber ≡ true → (i : ℕ) → IsAfter previous i → ¬ IsBefore next i)
unfolding place_between place_before_first place_between_neighbours
place_between-fits none none = (λ _. (ground arith, tt), λ e. cc)
place_between-fits none (some n) = (λ e. ground (arith, e), λ e i a b. ground (arith, e, a, b))
place_between-fits (some p) none = (λ _. (ground arith, tt), λ e. cc)
place_between-fits (some p) (some n) = (λ e. ground (arith, e), λ e i a b. ground (arith, e, a, b))

-- Every two neighbours of a list, and the room between them.
abbrev pub HasRoom : List Numbered → Type 0
HasRoom [] = Unit
HasRoom (a ∷ []) = Unit
HasRoom (a ∷ b ∷ rest) =
    ((place_between (some a.order_index) (some b.order_index)).requires_renumber ≡ false)
    × HasRoom (b ∷ rest)

renumber_from-HasRoom : (k : ℕ) (ids : List ℕ) → HasRoom (renumber_from k ids)
unfolding renumber_from place_between place_between_neighbours
renumber_from-HasRoom k [] = tt
renumber_from-HasRoom k (i ∷ []) = tt
renumber_from-HasRoom k (i ∷ j ∷ ids) = (ground arith, renumber_from-HasRoom (suc k) (j ∷ ids))

renumber_from-ids : (k : ℕ) (ids : List ℕ) → map (λ n. n.id) (renumber_from k ids) ≡ ids
unfolding renumber_from
renumber_from-ids k [] = refl
renumber_from-ids k (i ∷ ids) = ap (λ r. i ∷ r) (renumber_from-ids (suc k) ids)

-- `renumber` gives every item a position, in the order given, and leaves room: between any two
-- neighbours, `placeBetween` then asks for no renumber.
pub renumber-HasRoom :
    (ids : List ℕ) → (map (λ n. n.id) (renumber ids) ≡ ids) × HasRoom (renumber ids)
unfolding renumber
renumber-HasRoom ids = (renumber_from-ids 0 ids, renumber_from-HasRoom 0 ids)

-- One item after another placed directly behind the same neighbour: whether none needed a renumber.
abbrev pub all_fit : ℕ → ℕ → ℕ → Bool
all_fit zero previous next = true
all_fit (suc k) previous next =
    let r = place_between (some previous) (some next) in
    let rest = all_fit k previous r.order_index in
    elim r.requires_renumber [ true ↦ false | false ↦ rest ]

fits-half :
    (previous next g : ℕ)
    → previous + 2 * g ≤ next
    → 0 < g
    → let r = place_between (some previous) (some next) in
      (r.requires_renumber ≡ false) × (previous + g ≤ r.order_index)
unfolding place_between place_between_neighbours
fits-half previous next g room pos = (ground (arith, room, pos), ground (arith, room, pos))

positive-power : (k : ℕ) → 0 < 2 ^ k
positive-power zero = omega arith
positive-power (suc k) = omega (arith, positive-power k)

-- A gap of at least 2 to the k takes k items placed one after the other directly behind the same
-- neighbour without a renumber.
pub all_fit-power : (k previous next : ℕ) → previous + 2 ^ k ≤ next → all_fit k previous next ≡ true
all_fit-power zero previous next room = refl
all_fit-power (suc k) previous next room =
    let (fits, half) = fits-half previous next (2 ^ k) (omega (arith, room)) (positive-power k) in
    let rest =
      all_fit-power k previous (place_between (some previous) (some next)).order_index half in
    ground (arith, fits, rest)
