-- ===== src/Community/Friendships.antt =====
-- community/friendship.service.ts: the operations that change a friendship.
use sto_info_backend.Base.{
  ℕ, String, Bool, not, ◌&&◌, ◌||◌, Option, none, some, [], ◌∷◌, ◌==◌, if◌then◌else◌, is_none,
  Action, pure, raise, raise_if, ◌>>=◌, ◌>>◌, gets, or_raise, modify, bad_request, not_found,
  conflict,
}
use sto_info_backend.Store.{find?}
use sto_info_backend.Community.Data.{
  FriendshipStatus, pending, accepted, declined, is_pending, is_accepted, Friendship, Profile, Db,
  Env, save_friendship, insert_friendship,
}
use sto_info_backend.Community.Members.{require_active_member}
use sto_info_backend.Community.Blocks.{is_blocked_between, soft_remove_friendships}
use sto_info_backend.Community.Friends.{
  FriendRequest, Friend, RequestOutcome, notify_request_received, notify_request_accepted,
  assert_not_blocked, find_friendship_between, to_friend, to_outgoing_request, requested,
  befriended,
}

unfoldable pub accepted_row : Env → Friendship → Friendship
accepted_row env f = record f { status = accepted; responded_at = some env.now }

unfoldable pub accept : Env → Friendship → Action Db Friendship
accept env friendship = save_friendship (accepted_row env friendship)

-- A declined row becomes a request in the caller's direction.
unfoldable pub revived_row : ℕ → ℕ → Friendship → Friendship
revived_row user_id target_user_id f = record f {
  requester_id = user_id;
  addressee_id = target_user_id;
  status = pending;
  responded_at = none;
}

-- What follows the acceptance of a request, and the save of one.
unfoldable pub announce_accepted : Env → ℕ → ℕ → Friendship → Action Db Friend
announce_accepted env user_id requester_id row = do
  notify_request_accepted env user_id requester_id
  to_friend row user_id

unfoldable pub announce_received : Env → ℕ → ℕ → Friendship → Action Db FriendRequest
announce_received env user_id target_user_id row = do
  notify_request_received env user_id target_user_id
  to_outgoing_request row user_id

-- Both a crossing request and `acceptRequest` accept a row, tell its requester and return the friend.
unfoldable pub accept_and_announce : Env → ℕ → Friendship → Action Db Friend
accept_and_announce env user_id f = do
  row ← accept env f
  announce_accepted env user_id f.requester_id row

-- The three states that a row of the pair can be in when one of them asks again.
unfoldable pub accept_crossing : Env → ℕ → Friendship → Action Db RequestOutcome
accept_crossing env user_id existing = do
  friend ← accept_and_announce env user_id existing
  pure (befriended friend)

unfoldable pub revive_declined : Env → ℕ → ℕ → Friendship → Action Db RequestOutcome
revive_declined env user_id target_user_id existing = do
  revived ← save_friendship (revived_row user_id target_user_id existing)
  request ← announce_received env user_id target_user_id revived
  pure (requested request)

unfoldable pub resolve_by_status :
    Env → ℕ → Profile → Friendship → FriendshipStatus → Action Db RequestOutcome
resolve_by_status env user_id target existing accepted =
    raise (conflict "You are already friends with this member")
resolve_by_status env user_id target existing pending =
    if existing.requester_id == user_id
    then raise (conflict "A request is already pending")
    else accept_crossing env user_id existing
resolve_by_status env user_id target existing declined =
    revive_declined env user_id target.user_id existing

unfoldable pub resolve_existing_on_request :
    Env → ℕ → Profile → Friendship → Action Db RequestOutcome
resolve_existing_on_request env user_id target existing =
    resolve_by_status env user_id target existing existing.status

unfoldable pub new_friendship : Env → ℕ → ℕ → Friendship
new_friendship env user_id target_user_id = record {
  id = env.new_id;
  requester_id = user_id;
  addressee_id = target_user_id;
  status = pending;
  responded_at = none;
  created_at = env.now;
  deleted_at = none;
}

unfoldable pub create_request : Env → ℕ → ℕ → Action Db RequestOutcome
create_request env user_id target_user_id = do
  friendship ← insert_friendship (new_friendship env user_id target_user_id)
  request ← announce_received env user_id target_user_id friendship
  pure (requested request)

-- `sendRequest`, once the target is known to be open to requests, by the row that the pair has.
unfoldable pub request_or_resolve : Env → ℕ → Profile → Option Friendship → Action Db RequestOutcome
request_or_resolve env user_id target (some f) = resolve_existing_on_request env user_id target f
request_or_resolve env user_id target none = create_request env user_id target.user_id

unfoldable pub send_request_to : Env → ℕ → Profile → Action Db RequestOutcome
send_request_to env user_id target = do
  raise_if (target.user_id == user_id) (bad_request "You cannot add yourself as a friend")
  raise_if (not target.publicly_visible) (not_found "Member not found")
  assert_not_blocked user_id target.user_id
  existing ← gets (find_friendship_between user_id target.user_id)
  request_or_resolve env user_id target existing

unfoldable pub send_request : Env → ℕ → String → Action Db RequestOutcome
send_request env user_id username = do
  target ← require_active_member env username
  send_request_to env user_id target

unfoldable pub is_incoming_request : ℕ → ℕ → Friendship → Bool
is_incoming_request user_id friendship_id f =
    f.id == friendship_id
    && f.addressee_id == user_id
    && is_pending f.status
    && is_none f.deleted_at

unfoldable pub require_incoming_request : ℕ → ℕ → Action Db Friendship
require_incoming_request user_id friendship_id = do
  found ← gets (λ db. find? (is_incoming_request user_id friendship_id) db.friendships)
  f ← or_raise found (not_found "Friend request not found")
  blocked ← gets (is_blocked_between user_id f.requester_id)
  raise_if blocked (not_found "Friend request not found")
  pure f

unfoldable pub accept_request : Env → ℕ → ℕ → Action Db Friend
accept_request env user_id friendship_id = do
  f ← require_incoming_request user_id friendship_id
  accept_and_announce env user_id f

unfoldable pub declined_row : Env → Friendship → Friendship
declined_row env f = record f { status = declined; responded_at = some env.now }

unfoldable pub decline_request : Env → ℕ → ℕ → Action Db (Unit {0})
decline_request env user_id friendship_id = do
  f ← require_incoming_request user_id friendship_id
  save_friendship (declined_row env f)
  pure tt

unfoldable pub is_own_request : ℕ → ℕ → Friendship → Bool
is_own_request user_id friendship_id f =
    f.id == friendship_id
    && f.requester_id == user_id
    && is_pending f.status
    && is_none f.deleted_at

unfoldable pub soft_remove_friendship : Env → Friendship → Action Db (Unit {0})
soft_remove_friendship env f =
    modify
      (λ db. record db { friendships = soft_remove_friendships env.now (f ∷ []) db.friendships })

unfoldable pub cancel_request : Env → ℕ → ℕ → Action Db (Unit {0})
cancel_request env user_id friendship_id = do
  found ← gets (λ db. find? (is_own_request user_id friendship_id) db.friendships)
  f ← or_raise found (not_found "Friend request not found")
  soft_remove_friendship env f

unfoldable pub is_own_friendship : ℕ → ℕ → Friendship → Bool
is_own_friendship user_id friendship_id f =
    f.id == friendship_id
    && is_accepted f.status
    && (f.requester_id == user_id || f.addressee_id == user_id)
    && is_none f.deleted_at

unfoldable pub remove_friend : Env → ℕ → ℕ → Action Db (Unit {0})
remove_friend env user_id friendship_id = do
  found ← gets (λ db. find? (is_own_friendship user_id friendship_id) db.friendships)
  f ← or_raise found (not_found "Friendship not found")
  soft_remove_friendship env f
