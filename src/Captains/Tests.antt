-- ===== src/Captains/Tests.antt =====
-- A run of the sort, and the theorem about it at a concrete input.
use sto_info_backend.Base.{ℕ, ◌≡◌, refl, Bool, none, some, List, [], ◌∷◌, map, Option}
use sto_info_backend.Store.{count_where}
use sto_info_backend.Store.Order.{sort_by, insert_sorted}
use sto_info_backend.Captains.{
  level, desc, equal, is_at_most, SortableCharacter, LocaleCompare, compare_characters,
  compare_pinned, compare_field, compare_figures, compare_optional, compare_handles, directed,
  sort_characters,
}
use sto_info_backend.Captains.Sorted.{IsChain}
use sto_info_backend.Captains.Groups.{is_grouped, sort_characters-IsChain}

-- A locale in which all names are alike.
abbrev indifferent : LocaleCompare
indifferent s t = equal

abbrev captain : ℕ → Option ℕ → Option ℕ → SortableCharacter
captain n lv pinned = record {
  id = n;
  handle = "kirk";
  level = lv;
  created_date = none;
  pinned_at = pinned;
  species = none;
  faction = none;
  class_ = none;
}

abbrev crew : List SortableCharacter
crew =
    captain 1 none none
    ∷ captain 2 (some 10) none
    ∷ captain 3 (some 65) none
    ∷ captain 4 none (some 7)
    ∷ []

crew_by_level : map (λ c. c.id) (sort_characters indifferent level desc crew) ≡ 4 ∷ 3 ∷ 2 ∷ 1 ∷ []
unfolding sort_characters sort_by insert_sorted compare_characters compare_pinned compare_field
    compare_figures compare_optional compare_handles directed
crew_by_level = refl

sort_characters-IsChain_example :
    ((p : SortableCharacter → Bool)
      → count_where p (sort_characters indifferent level desc crew) ≡ count_where p crew)
    × IsChain
        (λ a b. is_at_most (compare_characters indifferent level desc a b))
        (sort_characters indifferent level desc crew)
    × IsChain (is_grouped level) (sort_characters indifferent level desc crew)
sort_characters-IsChain_example = sort_characters-IsChain indifferent (λ s t. refl) level desc crew
