-- ===== src/Community/Requests.antt =====
-- The handlers of friend requests, one after the other: each keeps the tables valid.
use sto_info_backend.Base.{
  ◌⊎◌, ℕ, ◌≡◌, ◌≢◌, refl, sym, ap, ◌∙◌, Bool, true, false, Option, none, some, List, arith, ◌==◌,
  inl, inr, Bool-cases, ==_iff, Option-cases, String, ok, err, Error, Action, ◌>>=◌, pure,
  not_found,
}
use mathlib.Core.Path.{subst₂}
use sto_info_backend.Store.{find?}
use sto_info_backend.Store.Laws.{
  find?-holds, find?-count_where, find?-eq_none-count_where, any-eq_false-count_where,
}
use sto_info_backend.Community.Data.{
  FriendshipStatus, pending, accepted, declined, Profile, Env, Db, Friendship, is_between,
  is_block_between, save_friendship, insert_friendship,
}
use sto_info_backend.Community.Blocks.{is_blocked_between}
use sto_info_backend.Community.Members.{find_active, require_active_member}
use sto_info_backend.Community.Friends.{
  RequestOutcome, befriended, requested, assert_not_blocked, find_friendship_between,
}
use sto_info_backend.Community.Friendships.{
  accepted_row, accept, accept_and_announce, accept_crossing, announce_accepted, announce_received,
  revived_row, revive_declined, new_friendship, create_request, resolve_by_status,
  resolve_existing_on_request, request_or_resolve, send_request_to, send_request,
  is_incoming_request, require_incoming_request, accept_request, declined_row, decline_request,
  is_own_request, cancel_request, is_own_friendship, remove_friend, soft_remove_friendship,
}
use sto_info_backend.Community.Rows.{SamePair, is_self}
use sto_info_backend.Community.Invariant.{
  IsFresh, IsValid, Keeps, or_raise-Keeps, Keeps-bind, save_friendship-Keeps,
  insert_friendship-Keeps, soft_remove_friendship-Keeps, Keeps-map, announce_accepted-Keeps,
  announce_received-Keeps,
}

-- A live row keeps its pair under any new status.
pub SamePair-status :
    (f : Friendship) (s : FriendshipStatus) (at : Option ℕ)
    → SamePair f (record f { status = s; responded_at = at })
unfolding is_between
SamePair-status f s at u v = refl

-- A row of two members is of the same pair when it is turned round.
pub SamePair-revived :
    (u w : ℕ) (f : Friendship) → is_between u w f ≡ true → SamePair f (revived_row u w f)
unfolding is_between revived_row
SamePair-revived u w f e a b = ground arith

pub live_of_between : (u w : ℕ) (f : Friendship) → is_between u w f ≡ true → f.deleted_at ≡ none
unfolding is_between
live_of_between u w f e = ground arith

abbrev pub finish_request : Env → ℕ → ℕ → Friendship → Action Db RequestOutcome
finish_request env u w row = announce_received env u w row >>= λ r. pure (requested r)

finish_request-Keeps :
    (env : Env) (u w : ℕ) (row : Friendship) (db : Db)
    → IsValid db
    → Keeps (finish_request env u w row db)
finish_request-Keeps env u w row db v =
    Keeps-map (announce_received env u w row) requested db
      (announce_received-Keeps db v env u w row)

-- What `requireIncomingRequest` answers: a pending row addressed to the caller that no block
-- stands against, or an exception; it writes nothing.
pub record IsIncoming (u id : ℕ) (db : Db) (f : Friendship) : Type 0 where
  pub found : find? (is_incoming_request u id) db.friendships ≡ some f
  pub unblocked : is_blocked_between u f.requester_id db ≡ false

pub require_incoming_request-cases :
    (u id : ℕ) (db : Db)
    → ((f : Friendship) × (require_incoming_request u id db ≡ (ok f, db)) × IsIncoming u id db f)
      ⊎ (require_incoming_request u id db ≡ (err (not_found "Friend request not found"), db))
unfolding require_incoming_request
require_incoming_request-cases u id db =
    elim (Option-cases (find? (is_incoming_request u id) db.friendships)) [
      | inl e ↦ inr (ground (arith, e))
      | inr (f, e) ↦ elim (Bool-cases (is_blocked_between u f.requester_id db)) [
        | inl b ↦ inr (ground (arith, e, b))
        | inr b ↦ inl (f, ground (arith, e, b), record { found = e; unblocked = b })
      ]
    ]

ok≢err : {A : Type 0} {a : A} {e : Error} → ok a ≢ err e
ok≢err h = cc

pub require_incoming_request-IsIncoming :
    (u id : ℕ) (db db' : Db) (f : Friendship)
    → require_incoming_request u id db ≡ (ok f, db')
    → IsIncoming u id db' f
require_incoming_request-IsIncoming u id db db' f h =
    elim (require_incoming_request-cases u id db) [
      | inl (g, e, incoming) ↦
          let same : (ok g, db) ≡ (ok f, db') = sym e ∙ h in
          let same_db : db ≡ db' = ap (λ r. r.1) same in
          let same_row : g ≡ f = cc same in
          subst₂ (λ x y. IsIncoming u id x y) same_db same_row incoming
      | inr e ↦ absurd (ok≢err (ap (λ r. r.0) (sym h ∙ e)))
    ]

pub live_of_incoming :
    (u id : ℕ) (fs : List Friendship) (f : Friendship)
    → find? (is_incoming_request u id) fs ≡ some f
    → f.deleted_at ≡ none
unfolding is_incoming_request
live_of_incoming u id fs f e =
    let h = find?-holds (is_incoming_request u id) fs f e in ground (arith, h)

module _ (env : Env) (db : Db) (v : IsValid db) where
  module _ (q : Friendship → Bool) (f : Friendship) (found : find? q db.friendships ≡ some f)
      (live : f.deleted_at ≡ none) where
    pub not_self : f.requester_id ≢ f.addressee_id
    unfolding is_self
    not_self e =
        let self : is_self f ≡ true = (==_iff f.requester_id f.addressee_id).1 e in
        absurd (
          omega (arith, find?-count_where is_self q db.friendships f found self, v.friends.no_self))

    accept-Keeps : Keeps (accept env f db)
    unfolding accept accepted_row
    accept-Keeps =
        save_friendship-Keeps db v q f (accepted_row env f) found refl
          (SamePair-status f accepted _) not_self live

  accept_and_announce-Keeps :
      (q : Friendship → Bool) (f : Friendship) (u : ℕ)
      → find? q db.friendships ≡ some f
      → f.deleted_at ≡ none
      → Keeps (accept_and_announce env u f db)
  unfolding accept_and_announce
  accept_and_announce-Keeps q f u found live =
      Keeps-bind (accept env f) (announce_accepted env u f.requester_id) db
        (accept-Keeps q f found live)
        (λ row db' _ v'. announce_accepted-Keeps db' v' env u f.requester_id row)

  accept_crossing-Keeps :
      (q : Friendship → Bool) (f : Friendship) (u : ℕ)
      → find? q db.friendships ≡ some f
      → f.deleted_at ≡ none
      → Keeps (accept_crossing env u f db)
  unfolding accept_crossing
  accept_crossing-Keeps q f u found live =
      Keeps-map (accept_and_announce env u f) befriended db
        (accept_and_announce-Keeps q f u found live)

  revive_declined-Keeps :
      (q : Friendship → Bool) (f : Friendship) (u w : ℕ)
      → find? q db.friendships ≡ some f
      → is_between u w f ≡ true
      → u ≢ w
      → Keeps (revive_declined env u w f db)
  unfolding revive_declined
  revive_declined-Keeps q f u w found pair apart =
      let live = live_of_between u w f pair in
      Keeps-bind (save_friendship (revived_row u w f)) (finish_request env u w) db
        (unfold revived_row in
          save_friendship-Keeps db v q f (revived_row u w f) found refl
            (SamePair-revived u w f pair) apart live)
        (λ row db' _ v'. finish_request-Keeps env u w row db' v')

  resolve_by_status-Keeps :
      (u : ℕ) (target : Profile) (f : Friendship) (s : FriendshipStatus)
      → find_friendship_between u target.user_id db ≡ some f
      → u ≢ target.user_id
      → Keeps (resolve_by_status env u target f s db)
  unfolding resolve_by_status find_friendship_between
  resolve_by_status-Keeps u target f accepted found apart = (v, tt)
  resolve_by_status-Keeps u target f pending found apart = elim (Bool-cases (f.requester_id == u)) [
    | inl e ↦ rw e (v, tt)
    | inr e ↦
        let q = is_between u target.user_id in
        let live = live_of_between u target.user_id f (find?-holds q db.friendships f found) in
        rw e (accept_crossing-Keeps q f u found live)
  ]
  resolve_by_status-Keeps u target f declined found apart =
      let q = is_between u target.user_id in
      revive_declined-Keeps q f u target.user_id found (find?-holds q db.friendships f found) apart

  create_request-Keeps :
      (u w : ℕ)
      → IsFresh env db
      → u ≢ w
      → find_friendship_between u w db ≡ none
      → is_blocked_between u w db ≡ false
      → Keeps (create_request env u w db)
  unfolding create_request find_friendship_between is_blocked_between
  create_request-Keeps u w fresh apart none_yet unblocked =
      Keeps-bind (insert_friendship (new_friendship env u w)) (finish_request env u w) db
        (unfold new_friendship in
          insert_friendship-Keeps db v (new_friendship env u w) refl fresh.friendship apart
            (find?-eq_none-count_where (is_between u w) db.friendships none_yet)
            (any-eq_false-count_where (is_block_between u w) db.blocks unblocked))
        (λ row db' _ v'. finish_request-Keeps env u w row db' v')

  request_or_resolve-Keeps :
      (u : ℕ) (target : Profile) (o : Option Friendship)
      → IsFresh env db
      → u ≢ target.user_id
      → is_blocked_between u target.user_id db ≡ false
      → find_friendship_between u target.user_id db ≡ o
      → Keeps (request_or_resolve env u target o db)
  unfolding request_or_resolve resolve_existing_on_request
  request_or_resolve-Keeps u target none fresh apart unblocked e =
      create_request-Keeps u target.user_id fresh apart e unblocked
  request_or_resolve-Keeps u target (some f) fresh apart unblocked e =
      resolve_by_status-Keeps u target f f.status e apart

  send_request_to-Keeps :
      (u : ℕ) (target : Profile) → IsFresh env db → Keeps (send_request_to env u target db)
  unfolding send_request_to assert_not_blocked
  send_request_to-Keeps u target fresh =
      let next =
        request_or_resolve-Keeps u target (find_friendship_between u target.user_id db) fresh in
      ground (arith, next)

  -- Whatever state the pair is in, a request ends in a valid state.
  pub send_request-Keeps :
      (u : ℕ) (username : String) → IsFresh env db → Keeps (send_request env u username db)
  unfolding send_request require_active_member
  send_request-Keeps u username fresh =
      or_raise-Keeps (find_active env username db) (not_found "Member not found")
        (send_request_to env u) db tt v (λ target _. send_request_to-Keeps u target fresh)

  decline-Keeps :
      (u id : ℕ) (f : Friendship)
      → IsIncoming u id db f
      → Keeps ((save_friendship (declined_row env f) >>= λ _. pure tt) db)
  unfolding declined_row
  decline-Keeps u id f incoming =
      let q = is_incoming_request u id in
      let live = live_of_incoming u id db.friendships f incoming.found in
      Keeps-map (save_friendship (declined_row env f)) (λ _. tt) db
        (save_friendship-Keeps db v q f (declined_row env f) incoming.found refl
          (SamePair-status f declined _) (not_self q f incoming.found live) live)

module _ (env : Env) (db : Db) (v : IsValid db) where
  require_incoming_request-Keeps : (u id : ℕ) → Keeps (require_incoming_request u id db)
  require_incoming_request-Keeps u id = elim (require_incoming_request-cases u id db) [
    | inl (f, e, _) ↦ rw e (v, tt)
    | inr e ↦ rw e (v, tt)
  ]

  pub accept_request-Keeps : (u id : ℕ) → Keeps (accept_request env u id db)
  unfolding accept_request
  accept_request-Keeps u id =
      Keeps-bind (require_incoming_request u id) (accept_and_announce env u) db
        (require_incoming_request-Keeps u id)
        (λ f db' e v'.
          let incoming = require_incoming_request-IsIncoming u id db db' f e in
          accept_and_announce-Keeps env db' v' (is_incoming_request u id) f u incoming.found
            (live_of_incoming u id db'.friendships f incoming.found))

  pub decline_request-Keeps : (u id : ℕ) → Keeps (decline_request env u id db)
  unfolding decline_request
  decline_request-Keeps u id =
      Keeps-bind (require_incoming_request u id)
        (λ f. save_friendship (declined_row env f) >>= λ _. pure tt) db
        (require_incoming_request-Keeps u id)
        (λ f db' e v'.
          decline-Keeps env db' v' u id f (require_incoming_request-IsIncoming u id db db' f e))

  -- A cancellation and the end of a friendship soft-remove the row that was found.
  pub cancel_request-Keeps : (u id : ℕ) → Keeps (cancel_request env u id db)
  unfolding cancel_request
  cancel_request-Keeps u id =
      or_raise-Keeps (find? (is_own_request u id) db.friendships)
        (not_found "Friend request not found") (soft_remove_friendship env) db tt v
        (λ f _. soft_remove_friendship-Keeps db v env f)

  pub remove_friend-Keeps : (u id : ℕ) → Keeps (remove_friend env u id db)
  unfolding remove_friend
  remove_friend-Keeps u id =
      or_raise-Keeps (find? (is_own_friendship u id) db.friendships)
        (not_found "Friendship not found") (soft_remove_friendship env) db tt v
        (λ f _. soft_remove_friendship-Keeps db v env f)
