-- ===== src/Storytime/Review/Targets.antt =====
-- storytime/moderation/storytime-moderation-target.service.ts: content of any kind that can be removed.
use sto_info_backend.Base.{
  ℕ, String, Bool, true, false, ◌&&◌, Option, none, some, List, ◌==◌, is_none, Action, gets, raise,
  modify, bad_request,
}
use sto_info_backend.Store.{find?, update_where}
use sto_info_backend.Storytime.Review.Data.{
  TargetType, story, chapter, character, arc, media, crew_credit, comment, spotlight, Content,
  Owned, Child, Desk,
}

-- `ModeratedTarget`
pub record Target : Type 0 where
  pub content : Content
  pub owner_user_id : ℕ
  pub label : String

unfoldable pub is_moderatable : TargetType → Bool
is_moderatable story = true
is_moderatable chapter = true
is_moderatable character = true
is_moderatable arc = true
is_moderatable media = false
is_moderatable crew_credit = false
is_moderatable comment = false
is_moderatable spotlight = false

-- `describe(targetType).toLowerCase()`
unfoldable pub describe : TargetType → String
describe story = "story"
describe chapter = "chapter"
describe character = "character"
describe arc = "arc"
describe media = "media"
describe crew_credit = "crew credit"
describe comment = "comment"
describe spotlight = "spotlight entry"

unfoldable pub is_owned : ℕ → Owned → Bool
is_owned id o = o.content.id == id && is_none o.deleted_at

unfoldable pub is_child : ℕ → Child → Bool
is_child id c = c.content.id == id && is_none c.deleted_at

unfoldable pub from_owned : Option Owned → Option Target
from_owned none = none
from_owned (some o) =
    some (record { content = o.content; owner_user_id = o.owner_user_id; label = o.title })

unfoldable pub child_of : Child → Option Owned → Option Target
child_of c none = none
child_of c (some s) =
    some (record { content = c.content; owner_user_id = s.owner_user_id; label = c.title })

unfoldable pub from_story_child : List Owned → Option Child → Option Target
unfolding find? is_owned child_of
from_story_child stories none = none
from_story_child stories (some c) = child_of c (find? (is_owned c.story_id) stories)

-- None where nothing matches.
unfoldable pub lookup_target : TargetType → ℕ → Desk → Option Target
unfolding find? is_owned is_child from_owned from_story_child
lookup_target story id desk = from_owned (find? (is_owned id) desk.stories)
lookup_target arc id desk = from_owned (find? (is_owned id) desk.arcs)
lookup_target chapter id desk = from_story_child desk.stories (find? (is_child id) desk.chapters)
lookup_target character id desk =
    from_story_child desk.stories (find? (is_child id) desk.characters)
lookup_target t id desk = none

unfoldable pub cannot_be_removed : TargetType → String
cannot_be_removed media = "A media cannot be removed on its own."
cannot_be_removed crew_credit = "A crew credit cannot be removed on its own."
cannot_be_removed comment = "A comment cannot be removed on its own."
cannot_be_removed spotlight = "A spotlight entry cannot be removed on its own."
cannot_be_removed t = ""

unfoldable pub find_moderatable : Bool → TargetType → ℕ → Action Desk (Option Target)
unfolding cannot_be_removed
find_moderatable true t id = gets (lookup_target t id)
find_moderatable false t id = raise (bad_request (cannot_be_removed t))

unfoldable pub find : TargetType → ℕ → Action Desk (Option Target)
unfolding find_moderatable is_moderatable
find t id = find_moderatable (is_moderatable t) t id

unfoldable pub write_owned : Content → List Owned → List Owned
unfolding update_where
write_owned c = update_where (λ o. o.content.id == c.id) (λ o. record o { content = c })

unfoldable pub write_child : Content → List Child → List Child
unfolding update_where
write_child c = update_where (λ o. o.content.id == c.id) (λ o. record o { content = c })

-- The table of a kind of content; the default of the switch is the table of Arcs.
pub data Table : Type 0 where
  stories_table chapters_table characters_table arcs_table : Table

abbrev pub table_of : TargetType → Table
table_of story = stories_table
table_of chapter = chapters_table
table_of character = characters_table
table_of arc = arcs_table
table_of media = arcs_table
table_of crew_credit = arcs_table
table_of comment = arcs_table
table_of spotlight = arcs_table

abbrev pub only_stories : {A : Type 0} → Table → (A → A) → A → A
only_stories t f x = elim t [ stories_table ↦ f x | _ ↦ x ]

abbrev pub only_chapters : {A : Type 0} → Table → (A → A) → A → A
only_chapters t f x = elim t [ chapters_table ↦ f x | _ ↦ x ]

abbrev pub only_characters : {A : Type 0} → Table → (A → A) → A → A
only_characters t f x = elim t [ characters_table ↦ f x | _ ↦ x ]

abbrev pub only_arcs : {A : Type 0} → Table → (A → A) → A → A
only_arcs t f x = elim t [ arcs_table ↦ f x | _ ↦ x ]

unfoldable pub save_content : TargetType → Content → Desk → Desk
unfolding write_owned write_child
save_content t c desk = record desk {
  stories = only_stories (table_of t) (write_owned c) desk.stories;
  chapters = only_chapters (table_of t) (write_child c) desk.chapters;
  characters = only_characters (table_of t) (write_child c) desk.characters;
  arcs = only_arcs (table_of t) (write_owned c) desk.arcs;
}

unfoldable pub save : TargetType → Content → Action Desk (Unit {0})
unfolding save_content
save t c = modify (save_content t c)
