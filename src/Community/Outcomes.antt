-- ===== src/Community/Outcomes.antt =====
-- The outcome of requests and answers, as the relationship that the two members see afterwards.
use sto_info_backend.Base.{
  ℕ, ◌≡◌, ◌≢◌, refl, ap, ◌∙◌, true, false, Option, none, some, List, [], ◌∷◌, arith, ok, bind-ok,
}
use sto_info_backend.Store.{find?, any}
use sto_info_backend.Store.Laws.{find?-holds}
use sto_info_backend.Community.Data.{Env, Db, Friendship, UserBlock, is_between, is_block_between}
use sto_info_backend.Community.Blocks.{is_own_block_of, find_own_block, is_blocked_between}
use sto_info_backend.Community.Friends.{find_friendship_between}
use sto_info_backend.Community.Friendships.{
  accepted_row, accept_and_announce, is_incoming_request, require_incoming_request, accept_request,
}
use sto_info_backend.Community.Invariant.{IsValid}
use sto_info_backend.Community.Requests.{IsIncoming, not_self, live_of_incoming}
use sto_info_backend.Community.Effects.{Leaves, accept_and_announce-Leaves}
use sto_info_backend.Community.Views.{mirror, get_relationship-mirror}
use sto_info_backend.Community.Relationships.{
  RelationshipStatus, friends, of_friendship, of_block, get_relationship,
}

none_of_unblocked :
    (u v : ℕ) (bs : List UserBlock)
    → any (is_block_between u v) bs ≡ false
    → (find? (is_own_block_of u v) bs ≡ none) × (find? (is_own_block_of v u) bs ≡ none)
unfolding find? any is_own_block_of is_block_between
none_of_unblocked u v [] h = (refl, refl)
none_of_unblocked u v (b ∷ bs) h = ground (arith, none_of_unblocked u v bs)

pub own_blocks_none :
    (u v : ℕ) (db : Db)
    → is_blocked_between u v db ≡ false
    → (find_own_block u v db ≡ none) × (find_own_block v u db ≡ none)
unfolding is_blocked_between find_own_block
own_blocks_none u v db h = none_of_unblocked u v db.blocks h

find_own_block-same :
    (u v : ℕ) (db db' : Db)
    → db'.blocks ≡ db.blocks
    → find_own_block u v db' ≡ find_own_block u v db
unfolding find_own_block
find_own_block-same u v db db' e = ap (find? (is_own_block_of u v)) e

-- A pair that no block keeps apart is seen by its row.
pub get_relationship-of_row :
    (u v : ℕ) (db : Db) (o : Option Friendship)
    → u ≢ v
    → find_own_block u v db ≡ none
    → find_friendship_between u v db ≡ o
    → get_relationship u v db ≡ of_friendship o u
unfolding get_relationship of_block
get_relationship-of_row u v db o apart own e = rw (own, e) (ground arith)

get_relationship-Leaves :
    (u v : ℕ) (db db' : Db) (o : Option Friendship)
    → u ≢ v
    → is_blocked_between u v db ≡ false
    → Leaves u v db o db'
    → get_relationship u v db' ≡ of_friendship o u
get_relationship-Leaves u v db db' o apart unblocked l =
    get_relationship-of_row u v db' o apart
      (find_own_block-same u v db db' l.blocks ∙ (own_blocks_none u v db unblocked).0) l.row

incoming_pair :
    (u id : ℕ) (fs : List Friendship) (f : Friendship)
    → find? (is_incoming_request u id) fs ≡ some f
    → is_between u f.requester_id f ≡ true
unfolding is_incoming_request is_between
incoming_pair u id fs f e =
    let h = find?-holds (is_incoming_request u id) fs f e in ground (arith, h)

-- What each of two members sees of the other.
pub record BothSee (u v : ℕ) (db : Db) (s : RelationshipStatus) : Type 0 where
  pub first_sees : (get_relationship u v db).status ≡ s
  pub other_sees : (get_relationship v u db).status ≡ mirror s

pub Leaves-BothSee :
    (u v : ℕ) (db db' : Db) (o : Option Friendship) (s : RelationshipStatus)
    → u ≢ v
    → is_blocked_between u v db ≡ false
    → Leaves u v db o db'
    → (of_friendship o u).status ≡ s
    → BothSee u v db' s
Leaves-BothSee u v db db' o s apart unblocked l e =
    let (mine, theirs) = own_blocks_none u v db unblocked in
    let m =
      get_relationship-mirror u v db' apart (find_own_block-same u v db db' l.blocks ∙ mine)
        (find_own_block-same v u db db' l.blocks ∙ theirs) in
    let sees = ap (λ r. r.status) (get_relationship-Leaves u v db db' o apart unblocked l) ∙ e in
    record { first_sees = sees; other_sees = m.0 ∙ ap mirror sees }

require_incoming_request-ok :
    (u id : ℕ) (db : Db) (f : Friendship)
    → IsIncoming u id db f
    → require_incoming_request u id db ≡ (ok f, db)
unfolding require_incoming_request
require_incoming_request-ok u id db f incoming = ground (arith, incoming.found, incoming.unblocked)

pub accepted-status :
    (env : Env) (f : Friendship) (u : ℕ)
    → (of_friendship (some (accepted_row env f)) u).status ≡ friends
unfolding of_friendship accepted_row
accepted-status env f u = refl

requester_ne :
    (u : ℕ) (f : Friendship)
    → is_between u f.requester_id f ≡ true
    → f.requester_id ≢ f.addressee_id
    → u ≢ f.requester_id
unfolding is_between
requester_ne u f pair ne = ground (arith, ne)

module _ (env : Env) (db : Db) (v : IsValid db) (u : ℕ) where
  -- In a valid state, `acceptRequest` of a pending request to the caller, with no block between the
  -- two, leaves them friends in the eyes of both, whatever it answers.
  pub accept_request-BothSee :
      (id : ℕ) (f : Friendship)
      → IsIncoming u id db f
      → BothSee u f.requester_id (accept_request env u id db).1 friends
  unfolding accept_request
  accept_request-BothSee id f incoming =
      let q = is_incoming_request u id in
      let pair = incoming_pair u id db.friendships f incoming.found in
      let live = live_of_incoming u id db.friendships f incoming.found in
      let apart = requester_ne u f pair (not_self env db v q f incoming.found live) in
      let e =
        bind-ok (require_incoming_request u id) (accept_and_announce env u) db
          (require_incoming_request-ok u id db f incoming) in
      rw e (
        Leaves-BothSee u f.requester_id db _ (some (accepted_row env f)) friends apart
          incoming.unblocked
          (accept_and_announce-Leaves env db v u f.requester_id q f incoming.found pair)
          (accepted-status env f u))
