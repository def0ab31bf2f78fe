-- ===== src/Community/Friends.antt =====
-- community/friendship.service.ts: what members are told, as DTOs and as notifications, and the lookups
-- that the operations share.
use Prim.Native.String
use sto_info_backend.Base.{
  ℕ, String, Option, none, some, List, [], ◌∷◌, get_or, map, Action, pure, raise_if, ◌>>=◌, gets,
  or_raise, modify, not_found, forbidden,
}
use sto_info_backend.Store.{find?}
use sto_info_backend.Store.Dict.{Dict, lookup}
use sto_info_backend.Community.Data.{Friendship, other_user_id, Db, Env, is_between}
use sto_info_backend.Community.Members.{CommunityMember, find_members_by_user_ids}
use sto_info_backend.Community.Blocks.{is_blocked_between}

pub data FriendRequestDirection : Type 0 where
  incoming outgoing : FriendRequestDirection

-- `FriendRequestDto`, `FriendDto`
pub record FriendRequest : Type 0 where
  pub id : ℕ
  pub direction : FriendRequestDirection
  pub member : CommunityMember
  pub requested_at : ℕ

pub record Friend : Type 0 where
  pub id : ℕ
  pub member : CommunityMember
  pub friends_since : Option ℕ

pub data RequestOutcome : Type 0 where
  requested : FriendRequest → RequestOutcome
  befriended : Friend → RequestOutcome

unfoldable pub friends_page_url : Env → Option String
friends_page_url env = elim env.frontend_url [
  | none ↦ none
  | some url ↦ some (String.◌++◌ url "/community/friends")
]

unfoldable pub username_of : ℕ → Db → String
unfolding lookup find_members_by_user_ids
username_of user_id db = elim (lookup user_id (find_members_by_user_ids (user_id ∷ []) db)) [
  | none ↦ "A member"
  | some m ↦ m.username
]

-- A failure to deliver is swallowed.
unfoldable pub notify : Env → ℕ → String → String → Action Db (Unit {0})
notify env user_id title body = modify (λ db. record db {
  notifications =
      get_or
        (env.create_notification
          (record {
            user_id = user_id;
            title = title;
            body = body;
            link_url = friends_page_url env;
          })
          db.notifications)
        db.notifications;
})

unfoldable pub notify_request_received : Env → ℕ → ℕ → Action Db (Unit {0})
notify_request_received env requester_id addressee_id = do
  username ← gets (username_of requester_id)
  notify env addressee_id "New friend request"
      (String.◌++◌ username " would like to add you as a friend.")

unfoldable pub notify_request_accepted : Env → ℕ → ℕ → Action Db (Unit {0})
notify_request_accepted env accepter_id requester_id = do
  username ← gets (username_of accepter_id)
  notify env requester_id "Friend request accepted"
      (String.◌++◌ username " accepted your friend request.")

unfoldable pub assert_not_blocked : ℕ → ℕ → Action Db (Unit {0})
assert_not_blocked user_id other_user_id = do
  blocked ← gets (is_blocked_between user_id other_user_id)
  raise_if blocked (forbidden "You cannot send a friend request to this member")

unfoldable pub find_friendship_between : ℕ → ℕ → Db → Option Friendship
unfolding find? is_between
find_friendship_between user_id other_user_id db =
    find? (is_between user_id other_user_id) db.friendships

-- A friendship as its DTO, where the other member is still one.
unfoldable pub to_friend_dto : Dict CommunityMember → ℕ → Friendship → Option Friend
unfolding lookup other_user_id
to_friend_dto members user_id f = elim (lookup (other_user_id f user_id) members) [
  | none ↦ none
  | some m ↦ some (record { id = f.id; member = m; friends_since = f.responded_at })
]

unfoldable pub filter_friends : Dict CommunityMember → ℕ → List Friendship → List Friend
unfolding to_friend_dto
filter_friends members user_id [] = []
filter_friends members user_id (f ∷ fs) = elim (to_friend_dto members user_id f) [
  | none ↦ filter_friends members user_id fs
  | some d ↦ d ∷ filter_friends members user_id fs
]

unfoldable pub to_friends : List Friendship → ℕ → Db → List Friend
unfolding filter_friends find_members_by_user_ids other_user_id
to_friends friendships user_id db =
    filter_friends (find_members_by_user_ids (map (λ f. other_user_id f user_id) friendships) db)
      user_id friendships

abbrev pub first {ℓ} : {A : Type ℓ} → List A → Option A
first [] = none
first (x ∷ xs) = some x

unfoldable pub to_friend : Friendship → ℕ → Action Db Friend
to_friend friendship user_id = do
  friends ← gets (to_friends (friendship ∷ []) user_id)
  or_raise (first friends) (not_found "Member not found")

unfoldable pub to_outgoing_request : Friendship → ℕ → Action Db FriendRequest
to_outgoing_request friendship user_id = do
  let other = other_user_id friendship user_id
  members ← gets (find_members_by_user_ids (other ∷ []))
  member ← or_raise (lookup other members) (not_found "Member not found")
  pure (record {
    id = friendship.id;
    direction = outgoing;
    member = member;
    requested_at = friendship.created_at;
  })
