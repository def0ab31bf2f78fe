-- ===== src/Community/Separation.antt =====
-- What `blockMember` leaves between the two members.
use sto_info_backend.Base.{
  ℕ, ◌≡◌, ◌≢◌, ap, ◌∙◌, true, false, Option, none, some, List, arith, ◌==◌, String, ok, ◌>>◌,
  or_else, bind-ok,
}
use sto_info_backend.Store.Laws.{count_where-eq_zero-find?}
use sto_info_backend.Community.Data.{Env, Db, has_user, Profile, UserBlock, is_between}
use sto_info_backend.Community.Members.{require_active_member, find_active}
use sto_info_backend.Community.Blocks.{
  CreateBlockDto, upsert_block, remove_friendship_between, to_blocked_member, block_member,
  block_target, find_own_block,
}
use sto_info_backend.Community.Friends.{find_friendship_between}
use sto_info_backend.Community.Removals.{soft_remove_friendships-clears}
use sto_info_backend.Community.Invariant.{IsFresh, IsValid}
use sto_info_backend.Community.Upserts.{Upserted, upsert_block_lem}

removed_state :
    (env : Env) (u w : ℕ) (b : UserBlock) (db : Db)
    → ((remove_friendship_between env u w >> to_blocked_member b w) db).1
      ≡ (remove_friendship_between env u w db).1
unfolding remove_friendship_between to_blocked_member
removed_state env u w b db = ground arith

pub require_active_member-ok :
    (env : Env) (username : String) (db : Db) (target : Profile)
    → find_active env username db ≡ some target
    → require_active_member env username db ≡ (ok target, db)
unfolding require_active_member
require_active_member-ok env username db target e = rw e

block_target-state :
    (env : Env) (db : Db) (u : ℕ) (reason : Option String) (target : Profile) (b : UserBlock)
    (bs : List UserBlock)
    → u ≢ target.user_id
    → upsert_block env u target.user_id reason db ≡ (ok b, record db { blocks = bs })
    → (block_target env u reason target db).1
      ≡ (remove_friendship_between env u target.user_id (record db { blocks = bs })).1
unfolding block_target
block_target-state env db u reason target b bs apart e =
    let w = target.user_id in
    let chain =
      bind-ok (upsert_block env u w reason)
        (λ b'. remove_friendship_between env u w >> to_blocked_member b' w) db e in
    let after = removed_state env u w b (record db { blocks = bs }) in
    let other : (w == u) ≡ false = ground (arith, apart) in rw other (ap (λ r. r.1) chain ∙ after)

separated :
    (env : Env) (db : Db) (u w : ℕ) (reason : Option String) (b : UserBlock) (bs : List UserBlock)
    → Upserted u w reason db b bs
    → let db' = (remove_friendship_between env u w (record db { blocks = bs })).1 in
      (find_own_block u w db' ≡ some b) × (find_friendship_between u w db' ≡ none)
unfolding find_own_block find_friendship_between remove_friendship_between
separated env db u w reason b bs up = (
  up.own,
  count_where-eq_zero-find? (is_between u w) _
      (soft_remove_friendships-clears env.now u w db.friendships),
)

-- From a valid state, `blockMember` of another member who can be found, where both have a row in the table
-- of users, leaves a live block of theirs that the caller holds, with the reason that was given if one was, and no live friendship or request
-- between the two.
pub block_member-separates :
    (env : Env) (db : Db) (u : ℕ) (dto : CreateBlockDto) (target : Profile)
    → IsValid db
    → IsFresh env db
    → find_active env dto.username db ≡ some target
    → u ≢ target.user_id
    → has_user u db ≡ true
    → has_user target.user_id db ≡ true
    → let db' = (block_member env u dto db).1 in
      ((b : UserBlock) × (find_own_block u target.user_id db' ≡ some b)
        × (or_else dto.reason b.reason ≡ b.reason))
      × (find_friendship_between u target.user_id db' ≡ none)
unfolding block_member
block_member-separates env db u dto target v fresh found apart caller other =
    let w = target.user_id in
    let (b, bs, e, up) = upsert_block_lem env db v u w dto.reason fresh apart caller other in
    let start =
      bind-ok (require_active_member env dto.username) (block_target env u dto.reason) db
        (require_active_member-ok env dto.username db target found) in
    let (own, gone) = separated env db u w dto.reason b bs up in
    rw (start, block_target-state env db u dto.reason target b bs apart e) ((b, own, up.kept), gone)
