-- ===== src/Storytime/Review/Contents.antt =====
-- What is found of a piece of content, before and after its moderation columns were written.
use sto_info_backend.Base.{
  ℕ, ◌≡◌, refl, ap, ◌∙◌, inl, inr, true, Option, none, some, List, [], ◌∷◌, arith, Option-cases,
}
use mathlib.Core.Option
use sto_info_backend.Store.{find?}
use sto_info_backend.Storytime.Review.Data.{
  TargetType, story, chapter, character, arc, media, crew_credit, comment, spotlight, Content,
  Owned, Child, Desk,
}
use sto_info_backend.Storytime.Review.Targets.{
  Target, is_moderatable, is_owned, is_child, from_owned, child_of, from_story_child, lookup_target,
  write_owned, write_child, save_content,
}

find?-write_owned :
    (id : ℕ) (c : Content) (o : Owned) (xs : List Owned)
    → c.id ≡ id
    → find? (is_owned id) xs ≡ some o
    → find? (is_owned id) (write_owned c xs) ≡ some (record o { content = c })
unfolding find? write_owned is_owned
find?-write_owned id c o [] e h = cc
find?-write_owned id c o (x ∷ xs) e h = ground (arith, find?-write_owned id c o xs e, h)

find?-write_child :
    (id : ℕ) (c : Content) (o : Child) (xs : List Child)
    → c.id ≡ id
    → find? (is_child id) xs ≡ some o
    → find? (is_child id) (write_child c xs) ≡ some (record o { content = c })
unfolding find? write_child is_child
find?-write_child id c o [] e h = cc
find?-write_child id c o (x ∷ xs) e h = ground (arith, find?-write_child id c o xs e, h)

owned_id :
    (id : ℕ) (o : Owned) (xs : List Owned) → find? (is_owned id) xs ≡ some o → o.content.id ≡ id
unfolding find? is_owned
owned_id id o [] h = cc
owned_id id o (x ∷ xs) h = ground (arith, h, owned_id id o xs)

child_id :
    (id : ℕ) (o : Child) (xs : List Child) → find? (is_child id) xs ≡ some o → o.content.id ≡ id
unfolding find? is_child
child_id id o [] h = cc
child_id id o (x ∷ xs) h = ground (arith, h, child_id id o xs)

from_owned-inversion :
    (o : Option Owned) (t : Target)
    → from_owned o ≡ some t
    → (x : Owned) × (o ≡ some x) × (t.content ≡ x.content) × (from_owned (some x) ≡ some t)
unfolding from_owned
from_owned-inversion none t h = cc
from_owned-inversion (some x) t h = (x, refl, ground (arith, h), h)

from_child-inversion :
    (stories : List Owned) (o : Option Child) (t : Target)
    → from_story_child stories o ≡ some t
    → (c : Child) × (o ≡ some c)
      × (t.content ≡ c.content)
      × (child_of c (find? (is_owned c.story_id) stories) ≡ some t)
unfolding from_story_child child_of
from_child-inversion stories none t h = cc
from_child-inversion stories (some c) t h =
    elim (Option-cases (find? (is_owned c.story_id) stories)) [
      | inl gone ↦ ground (arith, gone, h)
      | inr (s, there) ↦ (c, refl, ground (arith, there, h), h)
    ]

child_of-content :
    (c : Content) (x : Child) (o : Option Owned) (t : Target)
    → child_of x o ≡ some t
    → child_of (record x { content = c }) o ≡ some (record t { content = c })
unfolding child_of
child_of-content c x none t h = cc
child_of-content c x (some s) t h = ap (Option.map (λ (y : Target). record y { content = c })) h

saved_owned :
    (id : ℕ) (c : Content) (xs : List Owned) (t : Target)
    → c.id ≡ t.content.id
    → from_owned (find? (is_owned id) xs) ≡ some t
    → from_owned (find? (is_owned id) (write_owned c xs)) ≡ some (record t { content = c })
unfolding from_owned
saved_owned id c xs t e h =
    let (x, found, same, from) = from_owned-inversion (find? (is_owned id) xs) t h in
    let own = owned_id id x xs found in
    ap from_owned (find?-write_owned id c x xs (ground (arith, e, same, own)) found)
    ∙ ap (Option.map (λ (y : Target). record y { content = c })) from

saved_child :
    (id : ℕ) (c : Content) (stories : List Owned) (xs : List Child) (t : Target)
    → c.id ≡ t.content.id
    → from_story_child stories (find? (is_child id) xs) ≡ some t
    → from_story_child stories (find? (is_child id) (write_child c xs))
      ≡ some (record t { content = c })
unfolding from_story_child child_of
saved_child id c stories xs t e h =
    let (x, found, same, from) = from_child-inversion stories (find? (is_child id) xs) t h in
    let own = child_id id x xs found in
    ap (from_story_child stories) (find?-write_child id c x xs (ground (arith, e, same, own)) found)
    ∙ child_of-content c x (find? (is_owned x.story_id) stories) t from

-- Content that is found is found as it was written.
pub lookup_target-save_content :
    (t : TargetType) (id : ℕ) (c : Content) (desk : Desk) (target : Target)
    → c.id ≡ target.content.id
    → lookup_target t id desk ≡ some target
    → lookup_target t id (save_content t c desk) ≡ some (record target { content = c })
unfolding lookup_target save_content
lookup_target-save_content story id c desk target e h = saved_owned id c desk.stories target e h
lookup_target-save_content arc id c desk target e h = saved_owned id c desk.arcs target e h
lookup_target-save_content chapter id c desk target e h =
    saved_child id c desk.stories desk.chapters target e h
lookup_target-save_content character id c desk target e h =
    saved_child id c desk.stories desk.characters target e h
lookup_target-save_content media id c desk target e h = cc
lookup_target-save_content crew_credit id c desk target e h = cc
lookup_target-save_content comment id c desk target e h = cc
lookup_target-save_content spotlight id c desk target e h = cc

-- It is of the identifier by which it was sought.
pub lookup_target-id :
    (t : TargetType) (id : ℕ) (desk : Desk) (target : Target)
    → lookup_target t id desk ≡ some target
    → target.content.id ≡ id
unfolding lookup_target
lookup_target-id story id desk target h =
    let (x, found, same, from) = from_owned-inversion (find? (is_owned id) desk.stories) target h in
    ap (λ c. c.id) same ∙ owned_id id x desk.stories found
lookup_target-id arc id desk target h =
    let (x, found, same, from) = from_owned-inversion (find? (is_owned id) desk.arcs) target h in
    ap (λ c. c.id) same ∙ owned_id id x desk.arcs found
lookup_target-id chapter id desk target h =
    let (x, found, same, from) =
      from_child-inversion desk.stories (find? (is_child id) desk.chapters) target h in
    ap (λ c. c.id) same ∙ child_id id x desk.chapters found
lookup_target-id character id desk target h =
    let (x, found, same, from) =
      from_child-inversion desk.stories (find? (is_child id) desk.characters) target h in
    ap (λ c. c.id) same ∙ child_id id x desk.characters found
lookup_target-id media id desk target h = cc
lookup_target-id crew_credit id desk target h = cc
lookup_target-id comment id desk target h = cc
lookup_target-id spotlight id desk target h = cc

-- What is found can be removed.
pub lookup_target-moderatable :
    (t : TargetType) (id : ℕ) (desk : Desk) (target : Target)
    → lookup_target t id desk ≡ some target
    → is_moderatable t ≡ true
unfolding lookup_target is_moderatable
lookup_target-moderatable story id desk target h = refl
lookup_target-moderatable arc id desk target h = refl
lookup_target-moderatable chapter id desk target h = refl
lookup_target-moderatable character id desk target h = refl
lookup_target-moderatable media id desk target h = cc
lookup_target-moderatable crew_credit id desk target h = cc
lookup_target-moderatable comment id desk target h = cc
lookup_target-moderatable spotlight id desk target h = cc

-- What is found depends on the four tables alone.
pub lookup_target-congr :
    (t : TargetType) (id : ℕ) (d d' : Desk)
    → d.stories ≡ d'.stories
    → d.arcs ≡ d'.arcs
    → d.chapters ≡ d'.chapters
    → d.characters ≡ d'.characters
    → lookup_target t id d ≡ lookup_target t id d'
unfolding lookup_target
lookup_target-congr story id d d' s a c k = ap (λ x. from_owned (find? (is_owned id) x)) s
lookup_target-congr arc id d d' s a c k = ap (λ x. from_owned (find? (is_owned id) x)) a
lookup_target-congr chapter id d d' s a c k =
    ap (λ x. from_story_child x (find? (is_child id) d.chapters)) s
    ∙ ap (λ x. from_story_child d'.stories (find? (is_child id) x)) c
lookup_target-congr character id d d' s a c k =
    ap (λ x. from_story_child x (find? (is_child id) d.characters)) s
    ∙ ap (λ x. from_story_child d'.stories (find? (is_child id) x)) k
lookup_target-congr media id d d' s a c k = refl
lookup_target-congr crew_credit id d d' s a c k = refl
lookup_target-congr comment id d d' s a c k = refl
lookup_target-congr spotlight id d d' s a c k = refl
