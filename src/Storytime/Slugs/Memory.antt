-- ===== src/Storytime/Slugs/Memory.antt =====
-- The retired slugs: the record of them and the search.
use sto_info_backend.Base.{
  ℕ, ◌≡◌, ◌≢◌, refl, ap, inl, inr, true, false, Option, none, some, [], ◌∷◌, arith, Bool-cases, ok,
  is_none,
}
use sto_info_backend.Store.{keep, find?, any}
use sto_info_backend.Storytime.Review.Data.{TargetType, is_same_type}
use sto_info_backend.Storytime.Slugs.{
  Text, SlugRequest, SlugHistory, Slugs, is_same_text, is_same_story, is_history_of, newest,
  target_of, find_by_retired_slug, insert_history, unless_recorded, retired, record_if,
  record_retired_slug, generate_unique_slug,
}
use sto_info_backend.Storytime.Slugs.Search.{generate_unique_slug-IsSlug}

is_same_text_refl : (s : Text) → is_same_text s s ≡ true
unfolding is_same_text
is_same_text_refl [] = refl
is_same_text_refl (c ∷ cs) = ground (arith, is_same_text_refl cs)

is_same_story_refl : (o : Option ℕ) → is_same_story o o ≡ true
is_same_story_refl none = refl
is_same_story_refl (some n) = ground arith

-- A slug with a row is found.
found_of :
    (t : TargetType) (slug : Text) (story : Option ℕ) (hs : Slugs)
    → any (is_history_of t slug story) hs ≡ true
    → is_none (find_by_retired_slug t slug story hs) ≡ false
unfolding find_by_retired_slug any keep newest target_of
found_of t slug story [] h = cc
found_of t slug story (x ∷ hs) h = elim (Bool-cases (is_history_of t slug story x)) [
  | inl here ↦ rw here refl
  | inr later ↦ rw later (found_of t slug story hs (ground (arith, later, h)))
]

any-find? :
    (t : TargetType) (slug : Text) (story : Option ℕ) (hs : Slugs) (h : SlugHistory)
    → find? (is_history_of t slug story) hs ≡ some h
    → any (is_history_of t slug story) hs ≡ true
unfolding find? any
any-find? t slug story [] h e = cc
any-find? t slug story (x ∷ hs) h e = ground (arith, e, any-find? t slug story hs h)

any-none :
    (t : TargetType) (slug : Text) (story : Option ℕ) (hs : Slugs)
    → find? (is_history_of t slug story) hs ≡ none
    → any (is_history_of t slug story) hs ≡ false
unfolding find? any
any-none t slug story [] e = refl
any-none t slug story (x ∷ hs) e = ground (arith, e, any-none t slug story hs)

own_key : (h : SlugHistory) → is_history_of h.target_type h.slug h.story_id h ≡ true
unfolding is_history_of is_same_type
own_key h = ground (arith, is_same_text_refl h.slug, is_same_story_refl h.story_id)

-- The call of one that is not recorded stores it; a second call changes nothing.
unless_recorded-recorded :
    (h : SlugHistory) (o : Option SlugHistory) (hs : Slugs)
    → find? (is_history_of h.target_type h.slug h.story_id) hs ≡ o
    → ((unless_recorded h o hs).0 ≡ ok tt)
      × (any (is_history_of h.target_type h.slug h.story_id) (unless_recorded h o hs).1 ≡ true)
unfolding unless_recorded insert_history any
unless_recorded-recorded h none hs e =
    let new = any-none h.target_type h.slug h.story_id hs e in ground (arith, new, own_key h)
unless_recorded-recorded h (some k) hs e = (refl, any-find? h.target_type h.slug h.story_id hs k e)

-- Recording that an entity has stopped using a slug that differs from its present one always succeeds, is
-- never stopped by the index, and from then on the slug leads to an entity and is generated for no request
-- of its kind and Story, not even one of the same entity.
pub record_retired_slug-kept :
    (fold : Text → Text) (now : ℕ) (target_id : ℕ) (previous current : Text) (r : SlugRequest)
    (hs : Slugs)
    → is_same_text previous current ≡ false
    → let done = record_retired_slug now r.target_type target_id previous current r.story_id hs in
      (done.0 ≡ ok tt)
      × (is_none (find_by_retired_slug r.target_type previous r.story_id done.1) ≡ false)
      × ((generate_unique_slug fold r done.1).0 ≢ ok previous)
unfolding record_retired_slug record_if retired
record_retired_slug-kept fold now target_id previous current r hs differ =
    let h = retired now r.target_type target_id previous r.story_id in
    let (answered, recorded) =
      unless_recorded-recorded h (find? (is_history_of r.target_type previous r.story_id) hs) hs
        refl in
    let hs' =
      (unless_recorded h (find? (is_history_of r.target_type previous r.story_id) hs) hs).1 in
    let found = found_of r.target_type previous r.story_id hs' recorded in
    let refused : (generate_unique_slug fold r hs').0 ≢ ok previous = λ e.
      let (shaped, live, free) = generate_unique_slug-IsSlug fold r hs' previous e in
      ground (arith, found, ap is_none free) in
    rw differ (answered, found, refused)
