-- ===== src/Community/Relationships.antt =====
-- community/friendship.service.ts: what a member is told of requests, counts and relationships.
use sto_info_backend.Base.{
  ℕ, Bool, ◌&&◌, ◌||◌, Option, none, some, List, [], ◌∷◌, ◌==◌, if◌then◌else◌, is_none, map,
}
use sto_info_backend.Store.{keep, count_where, contains}
use sto_info_backend.Store.Dict.{Dict, lookup, insert, has}
use sto_info_backend.Store.Order.{sort_by, is_newer_first}
use sto_info_backend.Community.Data.{
  FriendshipStatus, declined, is_pending, is_accepted, Friendship, other_user_id, UserBlock,
  Profile, Db,
}
use sto_info_backend.Community.Members.{CommunityMember, find_members_by_user_ids}
use sto_info_backend.Community.Blocks.{find_own_block, count_blocked}
use sto_info_backend.Community.Friends.{
  FriendRequestDirection, incoming, outgoing, FriendRequest, find_friendship_between,
}

pub data RelationshipStatus : Type 0 where
  self none_yet request_sent request_received friends blocked : RelationshipStatus

-- `RelationshipDto`
pub record Relationship : Type 0 where
  pub status : RelationshipStatus
  pub friendship_id : Option ℕ
  pub block_id : Option ℕ

abbrev pub no_relationship : Relationship
no_relationship = record { status = none_yet; friendship_id = none; block_id = none }

abbrev pub self_relationship : Relationship
self_relationship = record { status = self; friendship_id = none; block_id = none }

unfoldable pub to_relationship_status : Friendship → ℕ → RelationshipStatus
to_relationship_status f user_id =
    if is_accepted f.status
    then friends
    else if f.requester_id == user_id
    then request_sent
    else request_received

abbrev pub is_declined : FriendshipStatus → Bool
is_declined s = elim s [ declined ↦ Bool.true | _ ↦ Bool.false ]

unfoldable pub to_relationship : Friendship → ℕ → Relationship
unfolding to_relationship_status
to_relationship f user_id = if is_declined f.status then no_relationship else record {
  status = to_relationship_status f user_id;
  friendship_id = some f.id;
  block_id = none;
}

unfoldable pub of_friendship : Option Friendship → ℕ → Relationship
unfolding to_relationship
of_friendship none user_id = no_relationship
of_friendship (some f) user_id = to_relationship f user_id

-- The caller's own block comes first.
unfoldable pub of_block : Option UserBlock → Relationship → Relationship
of_block none otherwise = otherwise
of_block (some b) otherwise = record {
  status = blocked;
  friendship_id = none;
  block_id = some b.id;
}

unfoldable pub get_relationship : ℕ → ℕ → Db → Relationship
unfolding of_friendship of_block
get_relationship user_id other_user_id db =
    if user_id == other_user_id
    then self_relationship
    else of_block (find_own_block user_id other_user_id db)
        (of_friendship (find_friendship_between user_id other_user_id db) user_id)

-- The rows of the caller with one of these members.
unfoldable pub is_with_any : ℕ → List ℕ → Friendship → Bool
unfolding contains
is_with_any user_id others f =
    ((f.requester_id == user_id && contains f.addressee_id others)
      || (f.addressee_id == user_id && contains f.requester_id others))
    && is_none f.deleted_at

unfoldable pub set_relationships : ℕ → List Friendship → Dict Relationship → Dict Relationship
unfolding other_user_id insert to_relationship
set_relationships user_id [] d = d
set_relationships user_id (f ∷ fs) d =
    set_relationships user_id fs (insert (other_user_id f user_id) (to_relationship f user_id) d)

-- Every member asked about gets an entry.
unfoldable pub fill_entry : ℕ → ℕ → Dict Relationship → Dict Relationship
unfolding insert has
fill_entry user_id other d =
    if other == user_id
    then insert user_id self_relationship d
    else if has other d
    then d
    else insert other no_relationship d

unfoldable pub fill_relationships : ℕ → List ℕ → Dict Relationship → Dict Relationship
unfolding fill_entry
fill_relationships user_id [] d = d
fill_relationships user_id (other ∷ others) d =
    fill_relationships user_id others (fill_entry user_id other d)

unfoldable pub get_relationships : ℕ → List ℕ → Db → Dict Relationship
unfolding keep is_with_any set_relationships fill_relationships
get_relationships user_id [] db = []
get_relationships user_id (i ∷ others) db =
    fill_relationships user_id (i ∷ others)
      (set_relationships user_id (keep (is_with_any user_id (i ∷ others)) db.friendships) [])

-- `findRequests`: the pending rows of one direction, newest first.
unfoldable pub is_request_of : ℕ → FriendRequestDirection → Friendship → Bool
is_request_of user_id incoming f =
    f.addressee_id == user_id && is_pending f.status && is_none f.deleted_at
is_request_of user_id outgoing f =
    f.requester_id == user_id && is_pending f.status && is_none f.deleted_at

unfoldable pub to_requests :
    Dict CommunityMember → FriendRequestDirection → ℕ → List Friendship → List FriendRequest
unfolding lookup other_user_id
to_requests members direction user_id [] = []
to_requests members direction user_id (f ∷ fs) = elim (lookup (other_user_id f user_id) members) [
  | none ↦ to_requests members direction user_id fs
  | some m ↦
      record { id = f.id; direction = direction; member = m; requested_at = f.created_at }
      ∷ to_requests members direction user_id fs
]

unfoldable pub find_requests : ℕ → FriendRequestDirection → Db → List FriendRequest
unfolding keep sort_by is_request_of to_requests find_members_by_user_ids other_user_id
find_requests user_id direction db =
    let fs =
      sort_by (is_newer_first (λ f. f.created_at))
        (keep (is_request_of user_id direction) db.friendships) in
    to_requests (find_members_by_user_ids (map (λ f. other_user_id f user_id) fs) db) direction
      user_id fs

-- The inner joins of `friendsQuery`: both members have a profile row.
-- TypeORM leaves out the rows of a join that are removed softly.
unfoldable pub has_profile : ℕ → List Profile → Bool
has_profile user_id [] = Bool.false
has_profile user_id (p ∷ ps) =
    p.user_id == user_id && is_none p.deleted_at || has_profile user_id ps

unfoldable pub is_friend_row : ℕ → Db → Friendship → Bool
unfolding has_profile
is_friend_row user_id db f =
    has_profile f.requester_id db.profiles
    && has_profile f.addressee_id db.profiles
    && (f.requester_id == user_id || f.addressee_id == user_id)
    && is_accepted f.status
    && is_none f.deleted_at

-- `CommunitySummaryDto`
pub record CommunitySummary : Type 0 where
  pub friend_count : ℕ
  pub incoming_request_count : ℕ
  pub outgoing_request_count : ℕ
  pub blocked_count : ℕ

unfoldable pub get_summary : ℕ → Db → CommunitySummary
unfolding count_where is_friend_row is_request_of count_blocked
get_summary user_id db = record {
  friend_count = count_where (is_friend_row user_id db) db.friendships;
  incoming_request_count = count_where (is_request_of user_id incoming) db.friendships;
  outgoing_request_count = count_where (is_request_of user_id outgoing) db.friendships;
  blocked_count = count_blocked user_id db;
}
