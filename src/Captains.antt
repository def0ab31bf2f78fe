-- ===== src/Captains.antt =====
-- sto/character/character-sort.utility.ts: the order of an account's captains. `Array.sort` puts the
-- elements in the order of the comparison and keeps those that tie as they were, as `sort_by` does.
pub mod Sorted
pub mod Groups
mod Tests
use Prim.Native.Nat.{compare, Ordering}
use sto_info_backend.Base.{ℕ, String, Bool, true, false, Option, none, some, List}
use sto_info_backend.Store.Order.{sort_by}

pub data CharacterSortBy : Type 0 where
  handle level created_date species faction class_ : CharacterSortBy

pub data CharacterSortOrder : Type 0 where
  asc desc : CharacterSortOrder

-- The sign of the number that a comparison returns.
pub data Sign : Type 0 where
  negative equal positive : Sign

abbrev pub flip : Sign → Sign
flip negative = positive
flip equal = equal
flip positive = negative

abbrev pub is_at_most : Sign → Bool
is_at_most negative = true
is_at_most equal = true
is_at_most positive = false

-- A lookup relation that is missing, or has no name, is none.
pub record SortableCharacter : Type 0 where
  pub id : ℕ
  pub handle : String
  pub level : Option ℕ
  pub created_date : Option ℕ
  pub pinned_at : Option ℕ
  pub species : Option String
  pub faction : Option String
  pub class_ : Option String

-- `localeCompare` of the runtime, case-insensitive.
abbrev pub LocaleCompare : Type 0
LocaleCompare = String → String → Sign

-- `a - b`
abbrev pub compare_numbers : ℕ → ℕ → Sign
compare_numbers a b = elim (compare a b) [
  | Ordering.lt ↦ negative
  | Ordering.eq ↦ equal
  | Ordering.gt ↦ positive
]

-- `direction * n`
unfoldable pub directed : CharacterSortOrder → Sign → Sign
directed asc s = s
directed desc s = flip s

unfoldable pub compare_handles : LocaleCompare → SortableCharacter → SortableCharacter → Sign
compare_handles locale a b = locale a.handle b.handle

unfoldable pub compare_pinned : Option ℕ → Option ℕ → Sign
compare_pinned none none = equal
compare_pinned none (some t) = positive
compare_pinned (some s) none = negative
compare_pinned (some s) (some t) = equal

-- The missing values come last in both directions.
unfoldable pub compare_optional {ℓ} : {A : Type ℓ} → (A → A → Sign) → Option A → Option A → Sign
compare_optional compare none none = equal
compare_optional compare none (some b) = positive
compare_optional compare (some a) none = negative
compare_optional compare (some a) (some b) = compare a b

unfoldable pub compare_names :
    LocaleCompare → CharacterSortOrder → Option String → Option String → Sign
unfolding compare_optional directed
compare_names locale order = compare_optional (λ a b. directed order (locale a b))

unfoldable pub compare_figures : CharacterSortOrder → Option ℕ → Option ℕ → Sign
unfolding compare_optional directed
compare_figures order = compare_optional (λ a b. directed order (compare_numbers a b))

unfoldable pub compare_field :
    LocaleCompare
    → CharacterSortBy
    → CharacterSortOrder
    → SortableCharacter
    → SortableCharacter
    → Sign
compare_field locale level order a b = compare_figures order a.level b.level
compare_field locale created_date order a b = compare_figures order a.created_date b.created_date
compare_field locale species order a b = compare_names locale order a.species b.species
compare_field locale faction order a b = compare_names locale order a.faction b.faction
compare_field locale class_ order a b = compare_names locale order a.class_ b.class_
compare_field locale handle order a b = directed order (compare_handles locale a b)

-- `if (x !== 0) return x; return y`
abbrev pub or_next : Sign → Sign → Sign
or_next negative s = negative
or_next equal s = s
or_next positive s = positive

unfoldable pub compare_characters :
    LocaleCompare
    → CharacterSortBy
    → CharacterSortOrder
    → SortableCharacter
    → SortableCharacter
    → Sign
compare_characters locale field order a b =
    or_next (compare_pinned a.pinned_at b.pinned_at)
      (or_next (compare_field locale field order a b) (compare_handles locale a b))

unfoldable pub sort_characters :
    LocaleCompare
    → CharacterSortBy
    → CharacterSortOrder
    → List SortableCharacter
    → List SortableCharacter
unfolding sort_by
sort_characters locale field order =
    sort_by (λ a b. is_at_most (compare_characters locale field order a b))
