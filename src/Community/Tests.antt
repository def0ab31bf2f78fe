-- ===== src/Community/Tests.antt =====
-- Runs of the community services, and the theorems about them at concrete inputs.
use sto_info_backend.Base.{
  ℕ, ◌≡◌, refl, true, false, none, some, [], ◌∷◌, arith, String, err, conflict, forbidden, or_else,
}
use sto_info_backend.Store.{contains, has_id, save_row}
use sto_info_backend.Store.Dict.{lookup, insert}
use sto_info_backend.Community.Data.{
  Env, Db, Profile, Friendship, pending, UserBlock, save_friendship, insert_friendship, save_block,
  insert_block, other_user_id, refuses_friendship, refuses_block, has_user,
}
use sto_info_backend.Community.Members.{
  require_active_member, find_active, find_members_by_user_ids,
}
use sto_info_backend.Community.Blocks.{
  block_member, block_target, upsert_block, write_block, new_block, revive_block,
  remove_friendship_between, to_blocked_member, unblock_member, is_blocked_between, find_own_block,
  get_blocked_user_ids, soft_remove_block, soft_remove_friendships,
}
use sto_info_backend.Community.Friends.{
  assert_not_blocked, notify, notify_request_accepted, notify_request_received, username_of,
  friends_page_url, to_friend, to_friends, to_outgoing_request, find_friendship_between,
}
use sto_info_backend.Community.Friendships.{
  send_request, send_request_to, request_or_resolve, resolve_existing_on_request, resolve_by_status,
  create_request, new_friendship, revive_declined, revived_row, accept_crossing,
  accept_and_announce, accept, accepted_row, announce_accepted, announce_received, accept_request,
  require_incoming_request, is_incoming_request, decline_request, cancel_request, remove_friend,
  soft_remove_friendship,
}
use sto_info_backend.Community.Relationships.{
  get_relationship, no_relationship, friends, request_sent, request_received, blocked,
}
use sto_info_backend.Community.Invariant.{IsValid, IsFresh, IsAnswer}
use sto_info_backend.Community.Requests.{IsIncoming}
use sto_info_backend.Community.Outcomes.{BothSee, accept_request-BothSee}
use sto_info_backend.Community.Asking.{send_request-BothSee}
use sto_info_backend.Community.Separation.{block_member-separates}
use sto_info_backend.Community.Views.{
  IsMirrored, get_relationship-mirror, blocked_view, get_blocked_user_ids-is_blocked_between,
}
use sto_info_backend.Community.Safety.{
  Reach-IsValid, Command, perform, Reach, here, next, call, blocked_apart, perform-IsAnswer,
}

-- Everything that a run computes with.
handlers : Unit {0}
unfolding block_member block_target upsert_block write_block new_block revive_block
    remove_friendship_between to_blocked_member unblock_member send_request send_request_to
    assert_not_blocked request_or_resolve resolve_existing_on_request resolve_by_status
    create_request new_friendship revive_declined revived_row accept_crossing accept_and_announce
    accept accepted_row announce_accepted announce_received notify notify_request_accepted
    notify_request_received username_of friends_page_url to_friend to_friends to_outgoing_request
    accept_request require_incoming_request decline_request cancel_request remove_friend
    soft_remove_friendship find_friendship_between is_blocked_between find_own_block
    get_relationship require_active_member find_active find_members_by_user_ids save_friendship
    insert_friendship save_block insert_block perform soft_remove_block soft_remove_friendships
    save_row other_user_id lookup insert get_blocked_user_ids contains refuses_friendship
    refuses_block has_user
handlers = tt

abbrev member : ℕ → String → Profile
member n name = record {
  user_id = n;
  username = name;
  profile_picture_100 = none;
  profile_picture_300 = none;
  publicly_visible = true;
  created_at = 0;
  deleted_at = none;
  user_deleted_at = none;
  user_is_account_disabled = false;
  user_last_login_at = none;
}

abbrev env_at : ℕ → Env
env_at n = record {
  now = n;
  new_id = n;
  frontend_url = some "https://example.org";
  lower = λ s. s;
  create_notification = λ m ms. some (m ∷ ms);
}

abbrev start : Db
start = record {
  users = 1 ∷ 2 ∷ [];
  profiles = member 1 "kirk" ∷ member 2 "spock" ∷ [];
  accounts = [];
  friendships = [];
  blocks = [];
  notifications = [];
}

abbrev db_asked : Db
db_asked = (send_request (env_at 10) 1 "spock" start).1

abbrev db_blocked : Db
db_blocked =
    (perform (env_at 11) (Command.block 2 (record { username = "kirk"; reason = none })) start).1

-- A request, its mirror, and the acceptance by a crossing request.
asked_views :
    ((get_relationship 1 2 db_asked).status ≡ request_sent)
    × ((get_relationship 2 1 db_asked).status ≡ request_received)
    × ((get_relationship 1 2 (send_request (env_at 11) 2 "kirk" db_asked).1).status ≡ friends)
unfolding handlers
asked_views = (refl, refl, refl)

-- A second request, and one across a block.
refused_requests :
    ((send_request (env_at 11) 1 "spock" db_asked).0
      ≡ err (conflict "A request is already pending"))
    × ((send_request (env_at 12) 1 "spock" db_blocked).0
        ≡ err (forbidden "You cannot send a friend request to this member"))
unfolding handlers
refused_requests = (refl, refl)

Reach-blocked : Reach start db_blocked
unfolding has_id
Reach-blocked = next here (
    call (env_at 11) (Command.block 2 (record { username = "kirk"; reason = none }))
      (record { friendship = refl; block = refl }))

blocked_apart_example : find_friendship_between 1 2 db_blocked ≡ none
unfolding handlers
blocked_apart_example = blocked_apart start db_blocked (refl, refl) Reach-blocked 1 2 refl

perform-IsAnswer_example :
    IsAnswer
      (perform (env_at 12) (Command.send 1 "spock") db_blocked).1
      (perform (env_at 12) (Command.send 1 "spock") db_blocked).0
unfolding handlers has_id
perform-IsAnswer_example =
    perform-IsAnswer start db_blocked (refl, refl) Reach-blocked (env_at 12)
      (Command.send 1 "spock") (record { friendship = refl; block = refl })

start-IsValid : IsValid start
start-IsValid = Reach-IsValid here (refl, refl)

IsFresh-at_start : IsFresh (env_at 10) start
unfolding has_id
IsFresh-at_start = record { friendship = refl; block = refl }

send_request-BothSee_example : BothSee 1 2 db_asked request_sent
unfolding handlers
send_request-BothSee_example =
    send_request-BothSee (env_at 10) start 1 "spock" (member 2 "spock") start-IsValid
      IsFresh-at_start refl (omega arith) refl refl refl refl

-- The state after the request, and its row.
abbrev asked_row : Friendship
asked_row = record {
  id = 10;
  requester_id = 1;
  addressee_id = 2;
  status = pending;
  responded_at = none;
  created_at = 10;
  deleted_at = none;
}

Reach-asked : Reach start (perform (env_at 10) (Command.send 1 "spock") start).1
Reach-asked = next here (call (env_at 10) (Command.send 1 "spock") IsFresh-at_start)

asked-IsIncoming : IsIncoming 2 10 (perform (env_at 10) (Command.send 1 "spock") start).1 asked_row
unfolding handlers is_incoming_request
asked-IsIncoming = record { found = refl; unblocked = refl }

accept_request-BothSee_example :
    BothSee 2 1
      (accept_request (env_at 11) 2 10 (perform (env_at 10) (Command.send 1 "spock") start).1).1
      friends
accept_request-BothSee_example =
    accept_request-BothSee (env_at 11) (perform (env_at 10) (Command.send 1 "spock") start).1
      (Reach-IsValid Reach-asked (refl, refl)) 2 10 asked_row asked-IsIncoming

block_member-separates_example :
    ((b : UserBlock) × (find_own_block 2 1
          (block_member (env_at 10) 2 (record { username = "kirk"; reason = some "loud" }) start).1
        ≡ some b)
      × (or_else (some "loud") b.reason ≡ b.reason))
    × (find_friendship_between 2 1
          (block_member (env_at 10) 2 (record { username = "kirk"; reason = some "loud" }) start).1
        ≡ none)
unfolding handlers
block_member-separates_example =
    block_member-separates (env_at 10) start 2 (record { username = "kirk"; reason = some "loud" })
      (member 1 "kirk") start-IsValid IsFresh-at_start refl (omega arith) refl refl

-- The block that the second member holds.
abbrev spocks_block : UserBlock
spocks_block = record {
  id = 11;
  blocker_id = 2;
  blocked_id = 1;
  reason = none;
  created_at = 11;
  deleted_at = none;
}

blocked_view_example :
    (get_relationship 1 2 db_blocked ≡ no_relationship)
    × (get_relationship 2 1 db_blocked
        ≡ record { status = blocked; friendship_id = none; block_id = some 11 })
unfolding handlers
blocked_view_example =
    blocked_view start db_blocked (refl, refl) Reach-blocked 2 1 spocks_block (omega arith) refl
      refl

get_relationship-mirror_example :
    IsMirrored (get_relationship 1 2 db_asked) (get_relationship 2 1 db_asked)
unfolding handlers
get_relationship-mirror_example = get_relationship-mirror 1 2 db_asked (omega arith) refl refl

get_blocked_user_ids_example :
    (contains 2 (get_blocked_user_ids (some 1) db_blocked) ≡ is_blocked_between 1 2 db_blocked)
    × (get_blocked_user_ids none db_blocked ≡ [])
get_blocked_user_ids_example = get_blocked_user_ids-is_blocked_between 1 2 db_blocked (omega arith)
