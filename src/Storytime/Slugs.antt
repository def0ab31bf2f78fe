-- ===== src/Storytime/Slugs.antt =====
-- storytime/shared/storytime-slug.service.ts and shared/utilities/slug.utility.ts: the slug of an entity,
-- and the memory of those that entities used to have.
pub mod Shape
pub mod Search
pub mod Memory
mod Tests
use sto_info_backend.Base.{
  ℕ, zero, suc, ◌+◌, ◌-◌, ◌/◌, ◌%◌, String, Bool, true, false, not, ◌&&◌, ◌||◌, Option, none, some,
  List, [], ◌∷◌, ◌++◌, ◌==◌, leb, ltb, if◌then◌else◌, is_none, Action, Result, ok, err, pure, gets,
  or_raise, ◌>>=◌, raise, internal, query_failed,
}
unfoldable pub use sto_info_backend.Texts.{Text, length, is_empty, is_same_text}
use sto_info_backend.Store.{keep, find?, any}
use sto_info_backend.Store.Order.{take}
use sto_info_backend.Storytime.Review.Data.{TargetType, is_same_type}

abbrev pub is_alphanumeric : ℕ → Bool
is_alphanumeric c = leb b'0' c && leb c b'9' || leb b'a' c && leb c b'z'

-- `replaceAll(NON_ALPHANUMERIC_PATTERN, '-')`: the flag is whether a run is being replaced.
unfoldable pub hyphenate : Bool → Text → Text
hyphenate run [] = []
hyphenate run (c ∷ cs) =
    let next = hyphenate (not (is_alphanumeric c)) cs in
    if is_alphanumeric c then c ∷ next else if run then next else b'-' ∷ next

unfoldable pub drop_leading_hyphens : Text → Text
drop_leading_hyphens [] = []
drop_leading_hyphens (c ∷ cs) = if c == b'-' then drop_leading_hyphens cs else c ∷ cs

unfoldable pub trim_trailing_hyphens : Text → Text
trim_trailing_hyphens [] = []
trim_trailing_hyphens (c ∷ cs) =
    let rest = trim_trailing_hyphens cs in if c == b'-' && is_empty rest then [] else c ∷ rest

-- Outside this code: `toLowerCase`, `normalize('NFKD')` and the removal of the combining diacritics.
unfoldable pub normalise_to_slug : (Text → Text) → Text → ℕ → Text
unfolding hyphenate drop_leading_hyphens trim_trailing_hyphens take
normalise_to_slug fold value max_length =
    trim_trailing_hyphens (
      take max_length (trim_trailing_hyphens (drop_leading_hyphens (hyphenate false (fold value)))))

-- A desired slug is none where it is missing or empty. The test of the caller's own table is its own.
pub record SlugRequest : Type 0 where
  pub desired_slug : Option Text
  pub title : Text
  pub target_type : TargetType
  pub story_id : Option ℕ
  pub is_taken_by_live_entity : Text → Bool

-- `StorytimeSlugHistoryEntity`
pub record SlugHistory : Type 0 where
  pub target_type : TargetType
  pub target_id : ℕ
  pub story_id : Option ℕ
  pub slug : Text
  pub replaced_at : ℕ

abbrev pub Slugs : Type 0
Slugs = List SlugHistory

unfoldable pub or_fallback : Text → Text
or_fallback [] = b'u' ∷ b'n' ∷ b't' ∷ b'i' ∷ b't' ∷ b'l' ∷ b'e' ∷ b'd' ∷ []
or_fallback (c ∷ cs) = c ∷ cs

unfoldable pub from_title : (Text → Text) → Text → Text → Text
unfolding or_fallback normalise_to_slug
from_title fold [] title = or_fallback (normalise_to_slug fold title 220)
from_title fold (c ∷ cs) title = c ∷ cs

unfoldable pub from_desired : (Text → Text) → Option Text → Text
unfolding normalise_to_slug
from_desired fold none = []
from_desired fold (some slug) = normalise_to_slug fold slug 220

unfoldable pub build_stem : (Text → Text) → Option Text → Text → Text
unfolding from_title from_desired
build_stem fold desired title = from_title fold (from_desired fold desired) title

-- The decimal digits of a number below a thousand; the attempts end at two hundred.
unfoldable pub digits : ℕ → Text
digits n =
    if ltb n 10
    then (b'0' + n) ∷ []
    else if ltb n 100
    then (b'0' + n / 10) ∷ (b'0' + n % 10) ∷ []
    else (b'0' + n / 100) ∷ (b'0' + n / 10 % 10) ∷ (b'0' + n % 10) ∷ []

unfoldable pub suffix : ℕ → Text
unfolding digits
suffix attempt = b'-' ∷ digits (attempt + 1)

unfoldable pub build_candidate : Text → ℕ → Text
unfolding suffix take
build_candidate stem zero = stem
build_candidate stem (suc n) = take (220 - length (suffix (suc n))) stem ++ suffix (suc n)

-- `storyId ?? IsNull()`
abbrev pub is_same_story : Option ℕ → Option ℕ → Bool
is_same_story none none = true
is_same_story none (some n) = false
is_same_story (some m) none = false
is_same_story (some m) (some n) = m == n

unfoldable pub is_history_of : TargetType → Text → Option ℕ → SlugHistory → Bool
unfolding is_same_type is_same_text
is_history_of t slug story h =
    is_same_type t h.target_type && is_same_text slug h.slug && is_same_story story h.story_id

-- `order: { replacedAt: 'DESC' }`, the first
unfoldable pub newer : SlugHistory → Option SlugHistory → SlugHistory
newer h none = h
newer h (some k) = if ltb h.replaced_at k.replaced_at then k else h

unfoldable pub newest : Slugs → Option SlugHistory
unfolding newer
newest [] = none
newest (h ∷ hs) = some (newer h (newest hs))

unfoldable pub target_of : Option SlugHistory → Option ℕ
target_of none = none
target_of (some h) = some h.target_id

unfoldable pub find_by_retired_slug : TargetType → Text → Option ℕ → Slugs → Option ℕ
unfolding keep is_history_of newest target_of
find_by_retired_slug t slug story hs = target_of (newest (keep (is_history_of t slug story) hs))

unfoldable pub is_taken : SlugRequest → Slugs → Text → Bool
unfolding find_by_retired_slug
is_taken r hs candidate =
    r.is_taken_by_live_entity candidate
    || not (is_none (find_by_retired_slug r.target_type candidate r.story_id hs))

-- The loop with the attempts that are left and the number of the next.
unfoldable pub first_free : ℕ → ℕ → Text → SlugRequest → Slugs → Option Text
unfolding is_taken build_candidate
first_free zero attempt stem r hs = none
first_free (suc left) attempt stem r hs =
    let rest = first_free left (suc attempt) stem r hs in
    if is_taken r hs (build_candidate stem attempt)
    then rest
    else some (build_candidate stem attempt)

unfoldable pub generate_unique_slug : (Text → Text) → SlugRequest → Action Slugs Text
unfolding first_free build_stem
generate_unique_slug fold r = do
  slug ← gets (first_free 200 0 (build_stem fold r.desired_slug r.title) r)
  or_raise slug (internal "Unable to find a free slug")

-- UQ_storytime_slug_history
unfoldable pub insert_history : SlugHistory → Action Slugs (Unit {0})
unfolding any is_history_of
insert_history h hs =
    if any (is_history_of h.target_type h.slug h.story_id) hs
    then (err query_failed, hs)
    else (ok tt, h ∷ hs)

unfoldable pub unless_recorded : SlugHistory → Option SlugHistory → Action Slugs (Unit {0})
unless_recorded h none = insert_history h
unless_recorded h (some k) = pure tt

unfoldable pub retired : ℕ → TargetType → ℕ → Text → Option ℕ → SlugHistory
retired now t target_id previous story = record {
  target_type = t;
  target_id = target_id;
  story_id = story;
  slug = previous;
  replaced_at = now;
}

unfoldable pub record_if : Bool → SlugHistory → Action Slugs (Unit {0})
unfolding find? is_history_of
record_if true h = pure tt
record_if false h = do
  recorded ← gets (find? (is_history_of h.target_type h.slug h.story_id))
  unless_recorded h recorded

unfoldable pub record_retired_slug :
    ℕ → TargetType → ℕ → Text → Text → Option ℕ → Action Slugs (Unit {0})
unfolding retired
record_retired_slug now t target_id previous current story =
    record_if (is_same_text previous current) (retired now t target_id previous story)
