-- ===== src/Storytime/Slugs/Tests.antt =====
-- The theorems about slugs at concrete inputs.
use sto_info_backend.Base.{◌≡◌, ◌≢◌, refl, Bool, false, none, [], ◌∷◌, arith, ok, is_none}
use sto_info_backend.Storytime.Review.Data.{story, is_same_type, type_rank}
use sto_info_backend.Storytime.Slugs.{
  Text, SlugRequest, Slugs, is_same_text, hyphenate, drop_leading_hyphens, trim_trailing_hyphens,
  normalise_to_slug, build_stem, from_desired, from_title, or_fallback, build_candidate, suffix,
  digits, is_history_of, newer, newest, target_of, find_by_retired_slug, is_taken,
  generate_unique_slug, record_retired_slug,
}
use sto_info_backend.Store.{keep}
use sto_info_backend.Store.Order.{take}
use sto_info_backend.Storytime.Slugs.Search.{generate_unique_slug-returns}
use sto_info_backend.Storytime.Slugs.Memory.{record_retired_slug-kept}

abbrev voyage : Text
voyage = b'v' ∷ b'o' ∷ b'y' ∷ []

abbrev same : Text → Text
same s = s

abbrev is_voyage : Text → Bool
is_voyage s = is_same_text s voyage

-- A Story named as one that exists.
abbrev request : SlugRequest
request = record {
  desired_slug = none;
  title = b' ' ∷ b'v' ∷ b'o' ∷ b'y' ∷ b'!' ∷ [];
  target_type = story;
  story_id = none;
  is_taken_by_live_entity = is_voyage;
}

-- The slug of the second attempt belonged to an entity before.
abbrev history : Slugs
history =
    record {
      target_type = story;
      target_id = 5;
      story_id = none;
      slug = b'v' ∷ b'o' ∷ b'y' ∷ b'-' ∷ b'2' ∷ [];
      replaced_at = 10;
    }
    ∷ []

abbrev third : Text
third = b'v' ∷ b'o' ∷ b'y' ∷ b'-' ∷ b'3' ∷ []

free : is_taken request history (build_candidate (build_stem same none request.title) 2) ≡ false
unfolding is_taken build_candidate suffix digits build_stem from_desired from_title or_fallback
    normalise_to_slug hyphenate drop_leading_hyphens trim_trailing_hyphens take find_by_retired_slug
    keep is_history_of newest newer target_of is_same_text is_same_type type_rank
free = refl

stem_is : build_stem same none request.title ≡ voyage
unfolding build_stem from_desired from_title or_fallback normalise_to_slug hyphenate
    drop_leading_hyphens trim_trailing_hyphens take
stem_is = refl

generate_unique_slug-returns_example :
    (s : Text) × (generate_unique_slug same request history ≡ (ok s, history))
generate_unique_slug-returns_example =
    generate_unique_slug-returns same request history 2 (omega arith) free

different : is_same_text voyage third ≡ false
unfolding is_same_text
different = refl

record_retired_slug-kept_example :
    let done = record_retired_slug 20 story 6 voyage third none history in
    (done.0 ≡ ok tt)
    × (is_none (find_by_retired_slug story voyage none done.1) ≡ false)
    × ((generate_unique_slug same request done.1).0 ≢ ok voyage)
record_retired_slug-kept_example =
    record_retired_slug-kept same 20 6 voyage third request history different
