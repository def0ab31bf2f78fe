-- ===== src/Storytime/Slugs/Search.antt =====
-- The search for a slug that is free.
use mathlib.Core.Path.{subst}
use mathlib.Core.Bool.{true≢false}
use sto_info_backend.Base.{
  ℕ, zero, suc, ◌+◌, ◌≤◌, ◌<◌, ◌≡◌, ◌≢◌, sym, ◌∙◌, ap, inl, inr, false, Option, none, some, arith,
  Bool-cases, Error, ok, or_raise, internal,
}
use sto_info_backend.Storytime.Slugs.{
  Text, SlugRequest, Slugs, build_stem, build_candidate, find_by_retired_slug, is_taken, first_free,
  generate_unique_slug,
}
use sto_info_backend.Storytime.Slugs.Shape.{IsSlug, build_stem-IsSlug, build_candidate-IsSlug}

-- What the loop returns is a candidate of one of its attempts, and free.
first_free-free :
    (left attempt : ℕ) (stem : Text) (r : SlugRequest) (hs : Slugs) (s : Text)
    → first_free left attempt stem r hs ≡ some s
    → (j : ℕ) × (attempt ≤ j)
      × (j < attempt + left)
      × (s ≡ build_candidate stem j)
      × (is_taken r hs s ≡ false)
unfolding first_free
first_free-free zero attempt stem r hs s h = cc
first_free-free (suc left) attempt stem r hs s h =
    elim (Bool-cases (is_taken r hs (build_candidate stem attempt))) [
      | inl taken ↦
          let (j, low, high, same, free) =
            first_free-free left (suc attempt) stem r hs s (ground (arith, taken, h)) in
          (j, omega arith, omega arith, same, free)
      | inr free ↦
          let same : s ≡ build_candidate stem attempt = ground (arith, free, h) in
          (attempt, omega arith, omega arith, same, ap (is_taken r hs) same ∙ free)
    ]

-- The loop finds something where one of its attempts is free.
first_free-some :
    (left attempt j : ℕ) (stem : Text) (r : SlugRequest) (hs : Slugs)
    → attempt ≤ j
    → j < attempt + left
    → is_taken r hs (build_candidate stem j) ≡ false
    → (s : Text) × (first_free left attempt stem r hs ≡ some s)
unfolding first_free
first_free-some zero attempt j stem r hs low high free = absurd (omega arith)
first_free-some (suc left) attempt j stem r hs low high free =
    elim (Bool-cases (is_taken r hs (build_candidate stem attempt))) [
      | inl taken ↦
          let later : attempt ≢ j = λ e.
            absurd (
              true≢false (sym taken ∙ ap (λ n. is_taken r hs (build_candidate stem n)) e ∙ free)) in
          let (s, found) =
            first_free-some left (suc attempt) j stem r hs (ground (arith, later, low))
              (omega arith) free in
          (s, ground (arith, taken, found))
      | inr here ↦ (build_candidate stem attempt, ground (arith, here))
    ]

not_taken :
    (r : SlugRequest) (hs : Slugs) (s : Text)
    → is_taken r hs s ≡ false
    → (r.is_taken_by_live_entity s ≡ false)
      × (find_by_retired_slug r.target_type s r.story_id hs ≡ none)
unfolding is_taken
not_taken r hs s h = ground (arith, h)

or_raise-some :
    (o : Option Text) (e : Error) (hs : Slugs) (s : Text) → (or_raise o e hs).0 ≡ ok s → o ≡ some s
or_raise-some none e hs s h = cc
or_raise-some (some t) e hs s h = cc

pub generate_unique_slug-IsSlug :
    (fold : Text → Text) (r : SlugRequest) (hs : Slugs) (s : Text)
    → (generate_unique_slug fold r hs).0 ≡ ok s
    → IsSlug s
      × (r.is_taken_by_live_entity s ≡ false)
      × (find_by_retired_slug r.target_type s r.story_id hs ≡ none)
unfolding generate_unique_slug
generate_unique_slug-IsSlug fold r hs s h =
    let stem = build_stem fold r.desired_slug r.title in
    let found =
      or_raise-some (first_free 200 0 stem r hs) (internal "Unable to find a free slug") hs s h in
    let (j, low, high, same, free) = first_free-free 200 0 stem r hs s found in
    let shaped =
      build_candidate-IsSlug stem j (omega arith) (build_stem-IsSlug fold r.desired_slug r.title) in
    let (live, retired) = not_taken r hs s free in (subst IsSlug (sym same) shaped, live, retired)

-- The loop ends with a slug where one of its two hundred candidates is free.
pub generate_unique_slug-returns :
    (fold : Text → Text) (r : SlugRequest) (hs : Slugs) (attempt : ℕ)
    → attempt < 200
    → is_taken r hs (build_candidate (build_stem fold r.desired_slug r.title) attempt) ≡ false
    → (s : Text) × (generate_unique_slug fold r hs ≡ (ok s, hs))
unfolding generate_unique_slug
generate_unique_slug-returns fold r hs attempt h free =
    let stem = build_stem fold r.desired_slug r.title in
    let (s, found) = first_free-some 200 0 attempt stem r hs (omega arith) (omega arith) free in
    (s, ap (λ o. or_raise o (internal "Unable to find a free slug") hs) found)
