-- ===== src/Storytime/Review/Audit.antt =====
-- The content against the audit: what it is that the entries account for it.
use mathlib.Core.Path.{subst}
use sto_info_backend.Base.{
  ℕ, ◌≡◌, refl, sym, ◌∙◌, inl, inr, Bool, Option, none, some, if◌then◌else◌, Bool-cases, is_some_of,
  true, false, not, ◌&&◌, List, [], ◌∷◌, arith, ◌==◌,
}
use sto_info_backend.Store.{any, find?}
use sto_info_backend.Store.Laws.{any_mono_false}
use sto_info_backend.Storytime.Review.Data.{
  TargetType, story, chapter, character, arc, media, crew_credit, comment, spotlight, ActionKind,
  removal, restoration, report_resolved, appeal_upheld, appeal_rejected, ActionEntry, Content,
  Owned, Child, Desk, is_removed, is_same_type, type_rank,
}
use sto_info_backend.Storytime.Review.Targets.{
  is_moderatable, write_owned, write_child, save_content,
}

abbrev is_removal : ActionKind → Bool
is_removal removal = true
is_removal restoration = false
is_removal report_resolved = false
is_removal appeal_upheld = false
is_removal appeal_rejected = false

-- A removal or a restoration.
abbrev pub is_act : ActionKind → Bool
is_act removal = true
is_act restoration = true
is_act report_resolved = false
is_act appeal_upheld = false
is_act appeal_rejected = false

unfoldable pub is_act_on : TargetType → ℕ → ActionEntry → Bool
unfolding is_same_type
is_act_on t id e = is_same_type t e.target_type && e.target_id == id && is_act e.kind

-- The state of content against the latest act on it: removed by the actor of a removal, or else active.
unfoldable pub agrees : Content → Option ActionEntry → Bool
agrees c none = not (is_removed c.moderation_status)
agrees c (some e) =
    if is_removal e.kind
    then is_removed c.moderation_status && is_some_of e.actor_user_id c.removed_by_user_id
    else not (is_removed c.moderation_status)

-- Content that the latest act on it does not account for.
unfoldable pub is_gap : TargetType → List ActionEntry → Content → Bool
unfolding find? is_act_on agrees
is_gap t entries c = not (agrees c (find? (is_act_on t c.id) entries))

pub record IsAudited (desk : Desk) : Type 0 where
  pub of_stories : any (λ o. is_gap story desk.actions o.content) desk.stories ≡ false
  pub of_arcs : any (λ o. is_gap arc desk.actions o.content) desk.arcs ≡ false
  pub of_chapters : any (λ o. is_gap chapter desk.actions o.content) desk.chapters ≡ false
  pub of_characters : any (λ o. is_gap character desk.actions o.content) desk.characters ≡ false

-- An entry that is no act on content leaves its gap as it was.
gap-other :
    (t : TargetType) (e : ActionEntry) (es : List ActionEntry) (c : Content)
    → is_act_on t c.id e ≡ false
    → is_gap t (e ∷ es) c ≡ is_gap t es c
unfolding is_gap find?
gap-other t e es c h = rw h refl

gaps-owned :
    (t : TargetType) (e : ActionEntry) (es : List ActionEntry) (xs : List Owned)
    → ((id : ℕ) → is_act_on t id e ≡ false)
    → any (λ o. is_gap t es o.content) xs ≡ false
    → any (λ o. is_gap t (e ∷ es) o.content) xs ≡ false
gaps-owned t e es xs apart h =
    any_mono_false _ _ (λ o g. sym (gap-other t e es o.content (apart o.content.id)) ∙ g) xs h

gaps-children :
    (t : TargetType) (e : ActionEntry) (es : List ActionEntry) (xs : List Child)
    → ((id : ℕ) → is_act_on t id e ≡ false)
    → any (λ o. is_gap t es o.content) xs ≡ false
    → any (λ o. is_gap t (e ∷ es) o.content) xs ≡ false
gaps-children t e es xs apart h =
    any_mono_false _ _ (λ o g. sym (gap-other t e es o.content (apart o.content.id)) ∙ g) xs h

not_act :
    (t : TargetType) (id : ℕ) (e : ActionEntry) → is_act e.kind ≡ false → is_act_on t id e ≡ false
unfolding is_act_on
not_act t id e h = ground (arith, h)

other_type :
    (t : TargetType) (id : ℕ) (e : ActionEntry)
    → is_same_type t e.target_type ≡ false
    → is_act_on t id e ≡ false
unfolding is_act_on
other_type t id e h = ground (arith, h)

-- One entry more that is no act leaves no gap where there was none.
pub IsAudited-grown :
    (e : ActionEntry) (desk : Desk)
    → is_act e.kind ≡ false
    → IsAudited desk
    → IsAudited (record desk { actions = e ∷ desk.actions })
IsAudited-grown e desk h v = record {
  of_stories =
      gaps-owned story e desk.actions desk.stories (λ id. not_act story id e h) v.of_stories;
  of_arcs = gaps-owned arc e desk.actions desk.arcs (λ id. not_act arc id e h) v.of_arcs;
  of_chapters =
      gaps-children chapter e desk.actions desk.chapters (λ id. not_act chapter id e h)
        v.of_chapters;
  of_characters =
      gaps-children character e desk.actions desk.characters (λ id. not_act character id e h)
        v.of_characters;
}

other_id :
    (t : TargetType) (e : ActionEntry) (id n : ℕ)
    → e.target_id ≡ n
    → (id == n) ≡ false
    → is_act_on t id e ≡ false
unfolding is_act_on
other_id t e id n i h = ground (arith, i, h)

written_owned :
    (t : TargetType) (e : ActionEntry) (es : List ActionEntry) (c : Content) (xs : List Owned)
    → e.target_id ≡ c.id
    → is_gap t (e ∷ es) c ≡ false
    → any (λ o. is_gap t es o.content) xs ≡ false
    → any (λ o. is_gap t (e ∷ es) o.content) (write_owned c xs) ≡ false
unfolding any write_owned
written_owned t e es c [] i g h = refl
written_owned t e es c (x ∷ xs) i g h =
    let rest = written_owned t e es c xs i g in
    elim (Bool-cases (x.content.id == c.id)) [
      | inl same ↦ ground (arith, same, g, h, rest)
      | inr other ↦
          let kept = gap-other t e es x.content (other_id t e x.content.id c.id i other) in
          ground (arith, other, kept, h, rest)
    ]

written_child :
    (t : TargetType) (e : ActionEntry) (es : List ActionEntry) (c : Content) (xs : List Child)
    → e.target_id ≡ c.id
    → is_gap t (e ∷ es) c ≡ false
    → any (λ o. is_gap t es o.content) xs ≡ false
    → any (λ o. is_gap t (e ∷ es) o.content) (write_child c xs) ≡ false
unfolding any write_child
written_child t e es c [] i g h = refl
written_child t e es c (x ∷ xs) i g h =
    let rest = written_child t e es c xs i g in
    elim (Bool-cases (x.content.id == c.id)) [
      | inl same ↦ ground (arith, same, g, h, rest)
      | inr other ↦
          let kept = gap-other t e es x.content (other_id t e x.content.id c.id i other) in
          ground (arith, other, kept, h, rest)
    ]

module _ (e : ActionEntry) (c : Content) (desk : Desk) (of_content : e.target_id ≡ c.id)
    (closed : is_gap e.target_type (e ∷ desk.actions) c ≡ false) (v : IsAudited desk) where
  abbrev es : List ActionEntry
  es = desk.actions

  kept_owned :
      (t : TargetType) (xs : List Owned)
      → is_same_type t e.target_type ≡ false
      → any (λ o. is_gap t es o.content) xs ≡ false
      → any (λ o. is_gap t (e ∷ es) o.content) xs ≡ false
  kept_owned t xs h = gaps-owned t e es xs (λ id. other_type t id e h)

  kept_children :
      (t : TargetType) (xs : List Child)
      → is_same_type t e.target_type ≡ false
      → any (λ o. is_gap t es o.content) xs ≡ false
      → any (λ o. is_gap t (e ∷ es) o.content) xs ≡ false
  kept_children t xs h = gaps-children t e es xs (λ id. other_type t id e h)

  -- An act on content, with its entry.
  pub IsAudited-acted :
      (t : TargetType)
      → e.target_type ≡ t
      → is_moderatable t ≡ true
      → IsAudited (record (save_content t c desk) { actions = e ∷ desk.actions })
  unfolding save_content is_moderatable is_same_type type_rank
  IsAudited-acted story s m = record {
    of_stories =
        written_owned story e es c desk.stories of_content
          (subst (λ t. is_gap t (e ∷ es) c ≡ false) s closed) v.of_stories;
    of_arcs = kept_owned arc desk.arcs (rw s refl) v.of_arcs;
    of_chapters = kept_children chapter desk.chapters (rw s refl) v.of_chapters;
    of_characters = kept_children character desk.characters (rw s refl) v.of_characters;
  }
  IsAudited-acted arc s m = record {
    of_stories = kept_owned story desk.stories (rw s refl) v.of_stories;
    of_arcs =
        written_owned arc e es c desk.arcs of_content
          (subst (λ t. is_gap t (e ∷ es) c ≡ false) s closed) v.of_arcs;
    of_chapters = kept_children chapter desk.chapters (rw s refl) v.of_chapters;
    of_characters = kept_children character desk.characters (rw s refl) v.of_characters;
  }
  IsAudited-acted chapter s m = record {
    of_stories = kept_owned story desk.stories (rw s refl) v.of_stories;
    of_arcs = kept_owned arc desk.arcs (rw s refl) v.of_arcs;
    of_chapters =
        written_child chapter e es c desk.chapters of_content
          (subst (λ t. is_gap t (e ∷ es) c ≡ false) s closed) v.of_chapters;
    of_characters = kept_children character desk.characters (rw s refl) v.of_characters;
  }
  IsAudited-acted character s m = record {
    of_stories = kept_owned story desk.stories (rw s refl) v.of_stories;
    of_arcs = kept_owned arc desk.arcs (rw s refl) v.of_arcs;
    of_chapters = kept_children chapter desk.chapters (rw s refl) v.of_chapters;
    of_characters =
        written_child character e es c desk.characters of_content
          (subst (λ t. is_gap t (e ∷ es) c ≡ false) s closed) v.of_characters;
  }
  IsAudited-acted media s m = cc
  IsAudited-acted crew_credit s m = cc
  IsAudited-acted comment s m = cc
  IsAudited-acted spotlight s m = cc

same_type : (t : TargetType) → is_same_type t t ≡ true
unfolding is_same_type
same_type t = ground arith

own_act :
    (e : ActionEntry) (id : ℕ)
    → e.target_id ≡ id
    → is_act e.kind ≡ true
    → is_act_on e.target_type id e ≡ true
unfolding is_act_on
own_act e id i a = ground (arith, same_type e.target_type, i, a)

-- Content as the latest entry on it says.
pub is_gap-entered :
    (e : ActionEntry) (es : List ActionEntry) (c : Content)
    → e.target_id ≡ c.id
    → is_act e.kind ≡ true
    → agrees c (some e) ≡ true
    → is_gap e.target_type (e ∷ es) c ≡ false
unfolding is_gap find?
is_gap-entered e es c i a h = rw (own_act e c.id i a, h) refl
