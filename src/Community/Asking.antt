-- ===== src/Community/Asking.antt =====
-- `sendRequest`: every state that a pair can be in, and the one that it is in afterwards.
use sto_info_backend.Base.{
  ℕ, ◌≡◌, ◌≢◌, refl, true, false, Option, none, some, ◌∷◌, arith, ◌==◌, inl, inr, Bool-cases,
  String, ok, bind-ok, map-state,
}
use sto_info_backend.Store.{save_row}
use sto_info_backend.Store.Laws.{find?-holds, find?-eq_none-count_where}
use sto_info_backend.Community.Data.{
  Env, Db, has_user, Friendship, friendship_id, Profile, FriendshipStatus, pending, accepted,
  declined, is_between, save_friendship, insert_friendship,
}
use sto_info_backend.Community.Members.{find_active, require_active_member}
use sto_info_backend.Community.Blocks.{is_blocked_between}
use sto_info_backend.Community.Friends.{
  find_friendship_between, befriended, requested, assert_not_blocked,
}
use sto_info_backend.Community.Friendships.{
  announce_received, accepted_row, accept_and_announce, accept_crossing, revived_row,
  revive_declined, new_friendship, create_request, resolve_by_status, resolve_existing_on_request,
  request_or_resolve, send_request_to, send_request,
}
use sto_info_backend.Community.Invariant.{
  IsValid, IsFresh, save_friendship-ok, insert_friendship-ok,
}
use sto_info_backend.Community.Requests.{SamePair-revived, live_of_between, finish_request}
use sto_info_backend.Community.Effects.{
  Leaves, Leaves-SameTables, announce_received-SameTables, save_friendship-Leaves,
  insert_friendship-Leaves, accept_and_announce-Leaves,
}
use sto_info_backend.Community.Relationships.{
  RelationshipStatus, none_yet, request_sent, request_received, friends, of_friendship,
  get_relationship,
}
use sto_info_backend.Community.Outcomes.{
  BothSee, Leaves-BothSee, accepted-status, get_relationship-of_row, own_blocks_none,
}

-- What a request makes of a relationship.
abbrev pub after_request : RelationshipStatus → RelationshipStatus
after_request none_yet = request_sent
after_request request_received = friends
after_request s = s

finish_request-Leaves :
    (env : Env) (u w : ℕ) (row : Friendship) (db db' : Db)
    → Leaves u w db (some row) db'
    → Leaves u w db (some row) (finish_request env u w row db').1
finish_request-Leaves env u w row db db' l =
    rw (map-state (announce_received env u w row) requested db')
      (Leaves-SameTables u w db (some row) db' _ l (announce_received-SameTables env u w row db'))

new_friendship_pair : (env : Env) (u w : ℕ) → is_between u w (new_friendship env u w) ≡ true
unfolding is_between new_friendship
new_friendship_pair env u w = ground arith

revived_pair :
    (u w : ℕ) (f : Friendship) → is_between u w f ≡ true → is_between u w (revived_row u w f) ≡ true
unfolding is_between revived_row
revived_pair u w f e = ground arith

module _ (env : Env) (db : Db) (v : IsValid db) (u w : ℕ) where
  create_request-Leaves :
      IsFresh env db
      → u ≢ w
      → find_friendship_between u w db ≡ none
      → has_user u db ≡ true
      → has_user w db ≡ true
      → Leaves u w db (some (new_friendship env u w)) (create_request env u w db).1
  unfolding create_request find_friendship_between
  create_request-Leaves fresh apart e caller other =
      let f = new_friendship env u w in
      let free = find?-eq_none-count_where (is_between u w) db.friendships e in
      let inserted : insert_friendship f db
          ≡ (ok f, record db { friendships = f ∷ db.friendships }) =
        unfold new_friendship in
        insert_friendship-ok db v f refl fresh.friendship apart free caller other in
      rw (bind-ok (insert_friendship f) (finish_request env u w) db inserted) (
        finish_request-Leaves env u w f db _
          (insert_friendship-Leaves env db v u w f (new_friendship_pair env u w)))

  revive_declined-Leaves :
      (f : Friendship)
      → u ≢ w
      → find_friendship_between u w db ≡ some f
      → Leaves u w db (some (revived_row u w f)) (revive_declined env u w f db).1
  unfolding revive_declined find_friendship_between
  revive_declined-Leaves f apart found =
      let q = is_between u w in
      let f' = revived_row u w f in
      let m = find?-holds q db.friendships f found in
      let saved : save_friendship f' db
          ≡ (ok f', record db { friendships = save_row friendship_id f' db.friendships }) =
        unfold revived_row in
        save_friendship-ok db v q f f' found refl (SamePair-revived u w f m) apart
          (live_of_between u w f m) in
      rw (bind-ok (save_friendship f') (finish_request env u w) db saved) (
        finish_request-Leaves env u w f' db _ (
          save_friendship-Leaves env db v u w q f f' found (unfold revived_row in refl) m
            (revived_pair u w f m)))

  accept_crossing-Leaves :
      (f : Friendship)
      → find_friendship_between u w db ≡ some f
      → Leaves u w db (some (accepted_row env f)) (accept_crossing env u f db).1
  unfolding accept_crossing find_friendship_between
  accept_crossing-Leaves f found =
      let q = is_between u w in
      rw (map-state (accept_and_announce env u f) befriended db)
        (accept_and_announce-Leaves env db v u w q f found (find?-holds q db.friendships f found))

require_active_member-ok :
    (env : Env) (username : String) (db : Db) (target : Profile)
    → find_active env username db ≡ some target
    → require_active_member env username db ≡ (ok target, db)
unfolding require_active_member
require_active_member-ok env username db target e = rw e

no_row_reads : (u : ℕ) → (of_friendship none u).status ≡ none_yet
unfolding of_friendship
no_row_reads u = refl

-- How a row of each status reads.
accepted_reads :
    (f : Friendship) (u : ℕ) → f.status ≡ accepted → (of_friendship (some f) u).status ≡ friends
unfolding of_friendship
accepted_reads f u e = ground (arith, e)

declined_reads :
    (f : Friendship) (u : ℕ) → f.status ≡ declined → (of_friendship (some f) u).status ≡ none_yet
unfolding of_friendship
declined_reads f u e = ground (arith, e)

sent_reads :
    (f : Friendship) (u : ℕ)
    → f.status ≡ pending
    → (f.requester_id == u) ≡ true
    → (of_friendship (some f) u).status ≡ request_sent
unfolding of_friendship
sent_reads f u e asked = ground (arith, e, asked)

received_reads :
    (f : Friendship) (u : ℕ)
    → f.status ≡ pending
    → (f.requester_id == u) ≡ false
    → (of_friendship (some f) u).status ≡ request_received
unfolding of_friendship
received_reads f u e asked = ground (arith, e, asked)

revived_reads :
    (u w : ℕ) (f : Friendship) → (of_friendship (some (revived_row u w f)) u).status ≡ request_sent
unfolding of_friendship revived_row
revived_reads u w f = ground arith

new_reads :
    (env : Env) (u w : ℕ) → (of_friendship (some (new_friendship env u w)) u).status ≡ request_sent
unfolding of_friendship new_friendship
new_reads env u w = ground arith

module _ (env : Env) (db : Db) (v : IsValid db) (u : ℕ) (target : Profile)
    (apart : u ≢ target.user_id) (unblocked : is_blocked_between u target.user_id db ≡ false) where
  unchanged :
      (o : Option Friendship)
      → find_friendship_between u target.user_id db ≡ o
      → Leaves u target.user_id db o db
  unchanged o e = record { row = e; blocks = refl }

  sees :
      (o o' : Option Friendship) (db' : Db) (s s' : RelationshipStatus)
      → Leaves u target.user_id db o' db'
      → (of_friendship o u).status ≡ s
      → (of_friendship o' u).status ≡ s'
      → s' ≡ after_request s
      → BothSee u target.user_id db' (after_request (of_friendship o u).status)
  sees o o' db' s s' l before later e =
      rw (before, ← e) (Leaves-BothSee u target.user_id db db' o' s' apart unblocked l later)

  -- By the status of the row that the pair has.
  resolve_by_status-BothSee :
      (f : Friendship) (s : FriendshipStatus)
      → find_friendship_between u target.user_id db ≡ some f
      → f.status ≡ s
      → BothSee u target.user_id
          (resolve_by_status env u target f s db).1
          (after_request (of_friendship (some f) u).status)
  unfolding resolve_by_status
  resolve_by_status-BothSee f accepted found e =
      let reads = accepted_reads f u e in
      sees (some f) (some f) db friends friends (unchanged (some f) found) reads reads refl
  resolve_by_status-BothSee f pending found e = elim (Bool-cases (f.requester_id == u)) [
    | inl asked ↦
        let reads = sent_reads f u e asked in
        rw asked (
          sees (some f) (some f) db request_sent request_sent (unchanged (some f) found) reads reads
            refl)
    | inr asked ↦ rw asked (
        sees (some f) (some (accepted_row env f)) _ request_received friends
          (accept_crossing-Leaves env db v u target.user_id f found) (received_reads f u e asked)
          (accepted-status env f u) refl)
  ]
  resolve_by_status-BothSee f declined found e =
      sees (some f) (some (revived_row u target.user_id f)) _ none_yet request_sent
        (revive_declined-Leaves env db v u target.user_id f apart found) (declined_reads f u e)
        (revived_reads u target.user_id f) refl

  request_or_resolve-BothSee :
      (o : Option Friendship)
      → IsFresh env db
      → find_friendship_between u target.user_id db ≡ o
      → has_user u db ≡ true
      → has_user target.user_id db ≡ true
      → BothSee u target.user_id
          (request_or_resolve env u target o db).1
          (after_request (of_friendship o u).status)
  unfolding request_or_resolve resolve_existing_on_request
  request_or_resolve-BothSee none fresh e caller other =
      sees none (some (new_friendship env u target.user_id)) _ none_yet request_sent
        (create_request-Leaves env db v u target.user_id fresh apart e caller other)
        (no_row_reads u) (new_reads env u target.user_id) refl
  request_or_resolve-BothSee (some f) fresh e caller other =
      resolve_by_status-BothSee f f.status e refl

  send_request_to-request :
      target.publicly_visible ≡ true
      → send_request_to env u target db
        ≡ request_or_resolve env u target (find_friendship_between u target.user_id db) db
  unfolding send_request_to assert_not_blocked
  send_request_to-request visible = ground (arith, visible, unblocked, apart)

-- In a valid state, `sendRequest` to another member who can be found, whose record is public, where both
-- have a row in the table of users and no block stands between the two, moves the relationship on in the eyes of both: from none, or from
-- a declined request, to a request; from a request of the other to a friendship; and a standing
-- request or friendship stays as it was.
pub send_request-BothSee :
    (env : Env) (db : Db) (u : ℕ) (username : String) (target : Profile)
    → IsValid db
    → IsFresh env db
    → find_active env username db ≡ some target
    → u ≢ target.user_id
    → target.publicly_visible ≡ true
    → is_blocked_between u target.user_id db ≡ false
    → has_user u db ≡ true
    → has_user target.user_id db ≡ true
    → BothSee u target.user_id
        (send_request env u username db).1
        (after_request (get_relationship u target.user_id db).status)
unfolding send_request
send_request-BothSee env db u username target v fresh found apart visible unblocked caller other =
    let e =
      bind-ok (require_active_member env username) (send_request_to env u) db
        (require_active_member-ok env username db target found) in
    let o = find_friendship_between u target.user_id db in
    let own = (own_blocks_none u target.user_id db unblocked).0 in
    rw
      (
        e,
        send_request_to-request env db v u target apart unblocked visible,
        get_relationship-of_row u target.user_id db o apart own refl,
      )
      (request_or_resolve-BothSee env db v u target apart unblocked o fresh refl caller other)
