-- ===== src/Community/Blocks.antt =====
-- community/block.service.ts: blocking between members.
use sto_info_backend.Base.{
  ℕ, String, Bool, ◌&&◌, ◌||◌, Option, none, some, List, [], ◌∷◌, ◌==◌, if◌then◌else◌, is_none,
  or_else, map, Action, pure, raise_if, ◌>>=◌, ◌>>◌, gets, or_raise, modify, bad_request, not_found,
}
use sto_info_backend.Store.{keep, find?, any, count_where, update_where, contains}
use sto_info_backend.Store.Order.{sort_by, is_newer_first}
use sto_info_backend.Store.Dict.{Dict, lookup}
use sto_info_backend.Store.Sets.{set_add}
use sto_info_backend.Community.Data.{
  Friendship, UserBlock, Profile, Db, Env, is_between, is_block_between, save_block, insert_block,
}
use sto_info_backend.Community.Members.{
  CommunityMember, require_active_member, find_members_by_user_ids,
}

-- `CreateBlockDto`, `BlockedMemberDto`
pub record CreateBlockDto : Type 0 where
  pub username : String
  pub reason : Option String

pub record BlockedMember : Type 0 where
  pub id : ℕ
  pub member : CommunityMember
  pub blocked_at : ℕ
  pub reason : Option String

-- The rows of one ordered pair, lifted ones included.
unfoldable pub is_pair : ℕ → ℕ → UserBlock → Bool
is_pair blocker_id blocked_id b = b.blocker_id == blocker_id && b.blocked_id == blocked_id

unfoldable pub new_block : Env → ℕ → ℕ → Option String → UserBlock
new_block env blocker_id blocked_id reason = record {
  id = env.new_id;
  blocker_id = blocker_id;
  blocked_id = blocked_id;
  reason = reason;
  created_at = env.now;
  deleted_at = none;
}

-- A lifted block is revived in place.
unfoldable pub revive_block : Option String → UserBlock → UserBlock
revive_block reason b = record b { reason = or_else reason b.reason; deleted_at = none }

unfoldable pub write_block : Env → ℕ → ℕ → Option String → Option UserBlock → Action Db UserBlock
write_block env blocker_id blocked_id reason (some b) = save_block (revive_block reason b)
write_block env blocker_id blocked_id reason none =
    insert_block (new_block env blocker_id blocked_id reason)

unfoldable pub upsert_block : Env → ℕ → ℕ → Option String → Action Db UserBlock
upsert_block env blocker_id blocked_id reason = do
  existing ← gets (λ db. find? (is_pair blocker_id blocked_id) db.blocks)
  write_block env blocker_id blocked_id reason existing

-- `softRemove`: the time of the removal is written to the rows with the ids of these.
unfoldable pub soft_remove_friendships : ℕ → List Friendship → List Friendship → List Friendship
unfolding contains update_where
soft_remove_friendships now removed =
    update_where (λ f. contains f.id (map (λ g. g.id) removed))
      (λ f. record f { deleted_at = some now })

unfoldable pub remove_friendship_between : Env → ℕ → ℕ → Action Db (Unit {0})
remove_friendship_between env user_id other_user_id = do
  friendships ← gets (λ db. keep (is_between user_id other_user_id) db.friendships)
  modify
      (λ db. record db { friendships = soft_remove_friendships env.now friendships db.friendships })

unfoldable pub to_blocked_member : UserBlock → ℕ → Action Db BlockedMember
to_blocked_member b blocked_user_id = do
  members ← gets (find_members_by_user_ids (blocked_user_id ∷ []))
  member ← or_raise (lookup blocked_user_id members) (not_found "Member not found")
  pure (record { id = b.id; member = member; blocked_at = b.created_at; reason = b.reason })

-- `blockMember`, once the target is found.
unfoldable pub block_target : Env → ℕ → Option String → Profile → Action Db BlockedMember
block_target env user_id reason target = do
  raise_if (target.user_id == user_id) (bad_request "You cannot block yourself")
  b ← upsert_block env user_id target.user_id reason
  remove_friendship_between env user_id target.user_id
  to_blocked_member b target.user_id

unfoldable pub block_member : Env → ℕ → CreateBlockDto → Action Db BlockedMember
block_member env user_id dto = do
  target ← require_active_member env dto.username
  block_target env user_id dto.reason target

-- A live block of the caller.
unfoldable pub is_own_block : ℕ → ℕ → UserBlock → Bool
is_own_block block_id user_id b =
    b.id == block_id && b.blocker_id == user_id && is_none b.deleted_at

unfoldable pub soft_remove_block : ℕ → UserBlock → List UserBlock → List UserBlock
unfolding update_where
soft_remove_block now removed =
    update_where (λ b. b.id == removed.id) (λ b. record b { deleted_at = some now })

unfoldable pub unblock_member : Env → ℕ → ℕ → Action Db (Unit {0})
unblock_member env user_id block_id = do
  found ← gets (λ db. find? (is_own_block block_id user_id) db.blocks)
  b ← or_raise found (not_found "Block not found")
  modify (λ db. record db { blocks = soft_remove_block env.now b db.blocks })

unfoldable pub is_held_by : ℕ → UserBlock → Bool
is_held_by user_id b = b.blocker_id == user_id && is_none b.deleted_at

-- The rows whose other member is still one, mapped onto their DTOs.
unfoldable pub to_blocked_members : Dict CommunityMember → List UserBlock → List BlockedMember
unfolding lookup
to_blocked_members members [] = []
to_blocked_members members (b ∷ blocks) = elim (lookup b.blocked_id members) [
  | none ↦ to_blocked_members members blocks
  | some m ↦
      record { id = b.id; member = m; blocked_at = b.created_at; reason = b.reason }
      ∷ to_blocked_members members blocks
]

unfoldable pub find_blocked_members : ℕ → Db → List BlockedMember
unfolding keep sort_by is_held_by to_blocked_members find_members_by_user_ids
find_blocked_members user_id db =
    let blocks =
      sort_by (is_newer_first (λ b. b.created_at)) (keep (is_held_by user_id) db.blocks) in
    to_blocked_members (find_members_by_user_ids (map (λ b. b.blocked_id) blocks) db) blocks

unfoldable pub touches : ℕ → UserBlock → Bool
touches user_id b = (b.blocker_id == user_id || b.blocked_id == user_id) && is_none b.deleted_at

unfoldable pub collect_others : ℕ → List UserBlock → List ℕ → List ℕ
unfolding set_add
collect_others user_id [] seen = seen
collect_others user_id (b ∷ blocks) seen =
    collect_others user_id blocks
      (set_add (if b.blocker_id == user_id then b.blocked_id else b.blocker_id) seen)

unfoldable pub get_blocked_user_ids : Option ℕ → Db → List ℕ
unfolding keep touches collect_others
get_blocked_user_ids none db = []
get_blocked_user_ids (some user_id) db =
    collect_others user_id (keep (touches user_id) db.blocks) []

unfoldable pub is_blocked_between : ℕ → ℕ → Db → Bool
unfolding any is_block_between
is_blocked_between user_id other_user_id db = any (is_block_between user_id other_user_id) db.blocks

unfoldable pub is_own_block_of : ℕ → ℕ → UserBlock → Bool
is_own_block_of user_id other_user_id b =
    b.blocker_id == user_id && b.blocked_id == other_user_id && is_none b.deleted_at

unfoldable pub find_own_block : ℕ → ℕ → Db → Option UserBlock
unfolding find? is_own_block_of
find_own_block user_id other_user_id db = find? (is_own_block_of user_id other_user_id) db.blocks

unfoldable pub count_blocked : ℕ → Db → ℕ
unfolding count_where is_held_by
count_blocked user_id db = count_where (is_held_by user_id) db.blocks
