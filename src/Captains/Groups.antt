-- ===== src/Captains/Groups.antt =====
-- Where the pinned captains and those that miss the field stand in the sorted list.
use sto_info_backend.Base.{◌≡◌, Bool, true, false, not, ◌&&◌, ◌||◌, List, arith, is_none}
use sto_info_backend.Store.{count_where}
use sto_info_backend.Captains.{
  CharacterSortBy, level, created_date, species, faction, class_, handle, CharacterSortOrder,
  is_at_most, SortableCharacter, LocaleCompare, compare_pinned, compare_optional, compare_names,
  compare_figures, compare_field, compare_characters, sort_characters,
}
use sto_info_backend.Captains.Sorted.{
  IsChain, IsChain-mono, IsAntisymmetric, characters-total, sort_by-IsChain, count_where-sort_by,
}

abbrev pub is_missing : CharacterSortBy → SortableCharacter → Bool
is_missing handle c = false
is_missing level c = is_none c.level
is_missing created_date c = is_none c.created_date
is_missing species c = is_none c.species
is_missing faction c = is_none c.faction
is_missing class_ c = is_none c.class_

-- The second is pinned only where the first is; where both are or neither is, the second misses the
-- field where the first does.
abbrev pub is_grouped : CharacterSortBy → SortableCharacter → SortableCharacter → Bool
is_grouped k a b =
    (is_none b.pinned_at || not (is_none a.pinned_at))
    && (not (is_missing k a) || is_missing k b || not (is_none a.pinned_at) && is_none b.pinned_at)

in_order-is_grouped :
    (locale : LocaleCompare) (k : CharacterSortBy) (o : CharacterSortOrder)
    (a b : SortableCharacter)
    → is_at_most (compare_characters locale k o a b) ≡ true
    → is_grouped k a b ≡ true
unfolding compare_characters compare_pinned compare_field compare_names compare_figures
    compare_optional
in_order-is_grouped locale handle o a b h = ground (arith, h)
in_order-is_grouped locale level o a b h = ground (arith, h)
in_order-is_grouped locale created_date o a b h = ground (arith, h)
in_order-is_grouped locale species o a b h = ground (arith, h)
in_order-is_grouped locale faction o a b h = ground (arith, h)
in_order-is_grouped locale class_ o a b h = ground (arith, h)

-- Where `localeCompare` changes its sign with the order of its arguments: `sortCharacters` returns the
-- captains it was given, each as often, and of any two neighbours the first does not come after the
-- second in the comparison, is pinned where the second is, and, where both are pinned or neither is,
-- misses the field only where the second does, in both directions.
pub sort_characters-IsChain :
    (locale : LocaleCompare)
    → IsAntisymmetric locale
    → (k : CharacterSortBy) (o : CharacterSortOrder) (cs : List SortableCharacter)
    → ((p : SortableCharacter → Bool)
        → count_where p (sort_characters locale k o cs) ≡ count_where p cs)
      × IsChain
          (λ a b. is_at_most (compare_characters locale k o a b))
          (sort_characters locale k o cs)
      × IsChain (is_grouped k) (sort_characters locale k o cs)
unfolding sort_characters
sort_characters-IsChain locale anti k o cs =
    let r = λ (a b : SortableCharacter). is_at_most (compare_characters locale k o a b) in
    let chain = sort_by-IsChain r (characters-total locale anti o k) cs in
    (
      λ p. count_where-sort_by r p cs,
      chain,
      IsChain-mono r (is_grouped k) (in_order-is_grouped locale k o) _ chain,
    )
