-- ===== src/Community/Invariant.antt =====
-- The steps of the handlers on the tables, and how a call may end.
use sto_info_backend.Base.{
  ℕ, ◌≡◌, ◌≢◌, refl, sym, Bool, true, false, Bool-cases, Option, none, some, [], ◌∷◌, inl, inr,
  Option-cases, String, Result, ok, err, Error, query_failed, reference_failed, internal,
  bad_request, unauthorized, forbidden, not_found, conflict, Action, ◌>>=◌, pure, or_raise,
}
use mathlib.Core.Path.{subst}
use sto_info_backend.Store.{find?, count_where, has_id, save_row}
use sto_info_backend.Community.Data.{
  Env, Db, has_user, Friendship, friendship_id, block_row_id, is_between, save_friendship,
  insert_friendship, is_block_between, other_user_id,
}
use sto_info_backend.Store.Dict.{lookup}
use sto_info_backend.Community.Members.{
  find_active, require_active_member, find_members_by_user_ids,
}
use sto_info_backend.Community.Friends.{
  notify, notify_request_received, notify_request_accepted, first, to_friends, to_friend,
  to_outgoing_request,
}
use sto_info_backend.Community.Friendships.{
  announce_accepted, announce_received, soft_remove_friendship,
}
use sto_info_backend.Community.Removals.{
  soft_remove_friendships-FriendshipsValid, soft_remove_friendships-IsApart,
}
use sto_info_backend.Community.Rows.{
  FriendshipsValid, BlocksValid, IsApart, SamePair, save_row-FriendshipsValid, save_row-IsApart,
  save_row-refuses, cons-FriendshipsValid, cons-IsApart, cons-refuses,
}

-- The uuid that the database draws is new.
pub record IsFresh (env : Env) (db : Db) : Type 0 where
  pub friendship : has_id friendship_id env.new_id db.friendships ≡ false
  pub block : has_id block_row_id env.new_id db.blocks ≡ false

pub record IsValid (db : Db) : Type 0 where
  pub friends : FriendshipsValid db.friendships
  pub blocks : BlocksValid db.blocks
  pub apart : IsApart db.friendships db.blocks

-- How a call may end: in a valid state, and not by a unique index or a check of the database; nor by a
-- foreign key, but for an id that the table of users lacks.
abbrev pub IsHttp : Db → Error → Type 0
IsHttp db query_failed = ⊥
IsHttp db (reference_failed n) = has_user n db ≡ false
IsHttp db (internal m) = ⊥
IsHttp db (bad_request m) = Unit
IsHttp db (unauthorized m) = Unit
IsHttp db (forbidden m) = Unit
IsHttp db (not_found m) = Unit
IsHttp db (conflict m) = Unit

abbrev pub IsAnswer : {A : Type 0} → Db → Result A → Type 0
IsAnswer db (ok a) = Unit
IsAnswer db (err e) = IsHttp db e

abbrev pub Keeps : {A : Type 0} → Result A × Db → Type 0
Keeps (r, db) = IsValid db × IsAnswer db r

pub Keeps-bind :
    {A B : Type 0} (m : Action Db A) (f : A → Action Db B) (db : Db)
    → Keeps (m db)
    → ((a : A) (db' : Db) → m db ≡ (ok a, db') → IsValid db' → Keeps (f a db'))
    → Keeps ((m >>= f) db)
Keeps-bind {A} {B} m f db k h = go (m db) refl k
  where
    go :
        (r : Result A × Db)
        → m db ≡ r
        → Keeps {A = A} r
        → Keeps {A = B} (let (x, s) = r in elim x [ ok a ↦ f a s | err e ↦ (err e, s) ])
    go (ok a, db') e k = h a db' e k.0
    go (err x, db') e k = k

-- The first part of a chain is known.
pub Keeps-bind_eq :
    {A B : Type 0} (m : Action Db A) (f : A → Action Db B) (db : Db) {a : A} {db' : Db}
    → m db ≡ (ok a, db')
    → Keeps (f a db')
    → Keeps ((m >>= f) db)
Keeps-bind_eq {A} {B} m f db e k =
    subst
      (λ (r : Result A × Db).
        Keeps {A = B} (let (x, s) = r in elim x [ ok a ↦ f a s | err x ↦ (err x, s) ]))
      (sym e) k

pub Keeps-map :
    {A B : Type 0} (m : Action Db A) (g : A → B) (db : Db)
    → Keeps (m db)
    → Keeps ((m >>= λ a. pure (g a)) db)
Keeps-map m g db k = Keeps-bind m (λ a. pure (g a)) db k (λ a db' _ v. (v, tt))

-- A lookup that raises an HTTP exception where nothing is found.
pub or_raise-Keeps :
    {A B : Type 0} (o : Option A) (e : Error) (f : A → Action Db B) (db : Db)
    → IsHttp db e
    → IsValid db
    → ((a : A) → o ≡ some a → Keeps (f a db))
    → Keeps ((or_raise o e >>= f) db)
or_raise-Keeps none e f db http v k = (v, http)
or_raise-Keeps (some a) e f db http v k = k a refl

module _ (db : Db) (v : IsValid db) where
  pub save_friendship-ok :
      (q : Friendship → Bool) (f f' : Friendship)
      → find? q db.friendships ≡ some f
      → f'.id ≡ f.id
      → SamePair f f'
      → f'.requester_id ≢ f'.addressee_id
      → f'.deleted_at ≡ none
      → save_friendship f' db
        ≡ (ok f', record db { friendships = save_row friendship_id f' db.friendships })
  unfolding save_friendship
  save_friendship-ok q f f' found same_id same apart live =
      rw (save_row-refuses db.friendships v.friends q f f' found same_id same apart live)

  pub insert_friendship-ok :
      (f : Friendship)
      → f.deleted_at ≡ none
      → has_id friendship_id f.id db.friendships ≡ false
      → f.requester_id ≢ f.addressee_id
      → count_where (is_between f.requester_id f.addressee_id) db.friendships ≡ 0
      → has_user f.requester_id db ≡ true
      → has_user f.addressee_id db ≡ true
      → insert_friendship f db ≡ (ok f, record db { friendships = f ∷ db.friendships })
  unfolding insert_friendship
  insert_friendship-ok f live new apart free requester addressee =
      rw (cons-refuses db.friendships v.friends f live new apart free, requester, addressee) refl

  pub save_friendship-Keeps :
      (q : Friendship → Bool) (f f' : Friendship)
      → find? q db.friendships ≡ some f
      → f'.id ≡ f.id
      → SamePair f f'
      → f'.requester_id ≢ f'.addressee_id
      → f'.deleted_at ≡ none
      → Keeps (save_friendship f' db)
  unfolding save_friendship
  save_friendship-Keeps q f f' found same_id same apart live =
      let fs = db.friendships in
      rw (save_row-refuses fs v.friends q f f' found same_id same apart live) (
        record {
          friends = save_row-FriendshipsValid fs v.friends q f f' found same_id same apart;
          blocks = v.blocks;
          apart = save_row-IsApart fs v.friends q f f' found same_id same apart db.blocks v.apart;
        },
        tt,
      )

  pub insert_friendship-Keeps :
      (f : Friendship)
      → f.deleted_at ≡ none
      → has_id friendship_id f.id db.friendships ≡ false
      → f.requester_id ≢ f.addressee_id
      → count_where (is_between f.requester_id f.addressee_id) db.friendships ≡ 0
      → count_where (is_block_between f.requester_id f.addressee_id) db.blocks ≡ 0
      → Keeps (insert_friendship f db)
  unfolding insert_friendship
  insert_friendship-Keeps f live new apart free unblocked =
      let fs = db.friendships in
      let taken = cons-refuses fs v.friends f live new apart free in
      let valid : IsValid (record db { friendships = f ∷ fs }) = record {
        friends = cons-FriendshipsValid fs v.friends f live new apart free;
        blocks = v.blocks;
        apart = cons-IsApart fs v.friends f live new apart free db.blocks v.apart unblocked;
      } in
      elim (Bool-cases (has_user f.requester_id db)) [
        | inl requester ↦ elim (Bool-cases (has_user f.addressee_id db)) [
          | inl addressee ↦ rw (taken, requester, addressee) (valid, tt)
          | inr none_there ↦ rw (taken, requester, none_there) (v, none_there)
        ]
        | inr none_there ↦ rw (taken, none_there) (v, none_there)
      ]

  pub soft_remove_friendship-Keeps :
      (env : Env) (f : Friendship) → Keeps (soft_remove_friendship env f db)
  unfolding soft_remove_friendship
  soft_remove_friendship-Keeps env f = (
    record {
      friends = soft_remove_friendships-FriendshipsValid env.now (f ∷ []) db.friendships v.friends;
      blocks = v.blocks;
      apart = soft_remove_friendships-IsApart env.now (f ∷ []) db.friendships db.blocks v.apart;
    },
    tt,
  )

  -- A notification touches neither table, whether or not it is delivered.
  pub notify-Keeps : (env : Env) (u : ℕ) (title body : String) → Keeps (notify env u title body db)
  unfolding notify
  notify-Keeps env u title body =
      (record { friends = v.friends; blocks = v.blocks; apart = v.apart }, tt)

  pub notify_request_received-Keeps :
      (env : Env) (u w : ℕ) → Keeps (notify_request_received env u w db)
  unfolding notify_request_received
  notify_request_received-Keeps env u w = notify-Keeps env w _ _

  pub notify_request_accepted-Keeps :
      (env : Env) (u w : ℕ) → Keeps (notify_request_accepted env u w db)
  unfolding notify_request_accepted
  notify_request_accepted-Keeps env u w = notify-Keeps env w _ _

  pub to_friend-Keeps : (f : Friendship) (u : ℕ) → Keeps (to_friend f u db)
  unfolding to_friend
  to_friend-Keeps f u = elim (Option-cases (first (to_friends (f ∷ []) u db))) [
    | inl e ↦ rw e (v, tt)
    | inr (d, e) ↦ rw e (v, tt)
  ]

  pub to_outgoing_request-Keeps : (f : Friendship) (u : ℕ) → Keeps (to_outgoing_request f u db)
  unfolding to_outgoing_request
  to_outgoing_request-Keeps f u =
      let other = other_user_id f u in
      elim (Option-cases (lookup other (find_members_by_user_ids (other ∷ []) db))) [
        | inl e ↦ rw e (v, tt)
        | inr (d, e) ↦ rw e (v, tt)
      ]

  pub require_active_member-Keeps :
      (env : Env) (username : String) → Keeps (require_active_member env username db)
  unfolding require_active_member
  require_active_member-Keeps env username = elim (Option-cases (find_active env username db)) [
    | inl e ↦ rw e (v, tt)
    | inr (d, e) ↦ rw e (v, tt)
  ]

pub announce_accepted-Keeps :
    (db : Db)
    → IsValid db
    → (env : Env) (u w : ℕ) (row : Friendship) → Keeps (announce_accepted env u w row db)
unfolding announce_accepted
announce_accepted-Keeps db v env u w row =
    Keeps-bind (notify_request_accepted env u w) (λ _. to_friend row u) db
      (notify_request_accepted-Keeps db v env u w) (λ _ db' _ v'. to_friend-Keeps db' v' row u)

pub announce_received-Keeps :
    (db : Db)
    → IsValid db
    → (env : Env) (u w : ℕ) (row : Friendship) → Keeps (announce_received env u w row db)
unfolding announce_received
announce_received-Keeps db v env u w row =
    Keeps-bind (notify_request_received env u w) (λ _. to_outgoing_request row u) db
      (notify_request_received-Keeps db v env u w)
      (λ _ db' _ v'. to_outgoing_request-Keeps db' v' row u)
