-- ===== src/Community/Safety.antt =====
-- The community's state as a transition system, and what holds in every state that it reaches.
use sto_info_backend.Base.{ℕ, ◌≡◌, sym, true, none, List, [], arith, String, Result, ok, err}
use mathlib.Core.Path.{subst}
use sto_info_backend.Community.Rows.{FriendshipsValid, BlocksValid, is_self}
use sto_info_backend.Store.Laws.{
  any-eq_true-count_where, count_where-eq_zero-find?, count_where-nil,
}
use sto_info_backend.Community.Data.{Env, Db, Profile, Account, is_between, is_block_between}
use sto_info_backend.Community.Blocks.{
  CreateBlockDto, block_member, unblock_member, is_blocked_between, is_pair,
}
use sto_info_backend.Community.Friends.{find_friendship_between}
use sto_info_backend.Community.Friendships.{
  send_request, accept_request, decline_request, cancel_request, remove_friend,
}
use sto_info_backend.Community.Invariant.{IsFresh, IsValid, Keeps, IsAnswer}
use sto_info_backend.Community.Requests.{
  send_request-Keeps, accept_request-Keeps, decline_request-Keeps, cancel_request-Keeps,
  remove_friend-Keeps,
}
use sto_info_backend.Community.Blocking.{block_member-Keeps, unblock_member-Keeps}

-- The calls of community.controller.ts that write; the first number is the caller.
pub data Command : Type 0 where
  block : ℕ → CreateBlockDto → Command
  unblock : ℕ → ℕ → Command
  send : ℕ → String → Command
  accept decline cancel remove : ℕ → ℕ → Command

-- Whether the call answered, or the error that stopped it, and the new state.
abbrev outcome : {A : Type 0} → Result A × Db → Result (Unit {0}) × Db
outcome (ok a, db) = (ok tt, db)
outcome (err e, db) = (err e, db)

unfoldable pub perform : Env → Command → Db → Result (Unit {0}) × Db
perform env (block u dto) db = outcome (block_member env u dto db)
perform env (unblock u id) db = outcome (unblock_member env u id db)
perform env (send u username) db = outcome (send_request env u username db)
perform env (accept u id) db = outcome (accept_request env u id db)
perform env (decline u id) db = outcome (decline_request env u id db)
perform env (cancel u id) db = outcome (cancel_request env u id db)
perform env (remove u id) db = outcome (remove_friend env u id db)

-- One call that runs to its end, or a change of the members by another part of the program.
pub data Step : Db → Db → Type 0 where
  call : {db : Db} (env : Env) (c : Command) → IsFresh env db → Step db (perform env c db).1
  members :
      {db : Db} (us : List ℕ) (ps : List Profile) (as_ : List Account)
      → Step db (record db { users = us; profiles = ps; accounts = as_ })

pub data Reach (start : Db) : Db → Type 0 where
  here : Reach start start
  next : {db db' : Db} → Reach start db → Step db db' → Reach start db'

-- No friendship and no block yet.
abbrev pub IsEmpty : Db → Type 0
IsEmpty db = (db.friendships ≡ []) × (db.blocks ≡ [])

outcome-Keeps : {A : Type 0} (r : Result A × Db) → Keeps r → Keeps (outcome r)
outcome-Keeps (ok a, db) k = k
outcome-Keeps (err e, db) k = k

pub perform-Keeps :
    (env : Env) (c : Command) (db : Db) → IsValid db → IsFresh env db → Keeps (perform env c db)
unfolding perform
perform-Keeps env (block u dto) db v n = outcome-Keeps _ (block_member-Keeps env db u dto v n)
perform-Keeps env (unblock u id) db v n = outcome-Keeps _ (unblock_member-Keeps env db u id v)
perform-Keeps env (send u s) db v n = outcome-Keeps _ (send_request-Keeps env db v u s n)
perform-Keeps env (accept u id) db v n = outcome-Keeps _ (accept_request-Keeps env db v u id)
perform-Keeps env (decline u id) db v n = outcome-Keeps _ (decline_request-Keeps env db v u id)
perform-Keeps env (cancel u id) db v n = outcome-Keeps _ (cancel_request-Keeps env db v u id)
perform-Keeps env (remove u id) db v n = outcome-Keeps _ (remove_friend-Keeps env db v u id)

FriendshipsValid-nil : FriendshipsValid []
FriendshipsValid-nil = record {
  ids = tt;
  one_row = λ u v. omega (arith, count_where-nil (is_between u v));
  no_self = count_where-nil is_self;
}

BlocksValid-nil : BlocksValid []
BlocksValid-nil = record {
  ids = tt;
  one_pair = λ u v. omega (arith, count_where-nil (is_pair u v));
}

IsEmpty-IsValid : (db : Db) → IsEmpty db → IsValid db
IsEmpty-IsValid db h = record {
  friends = subst FriendshipsValid (sym h.0) FriendshipsValid-nil;
  blocks = subst BlocksValid (sym h.1) BlocksValid-nil;
  apart = λ u v _. rw h.0 (count_where-nil (is_between u v));
}

Step-IsValid : {db db' : Db} → Step db db' → IsValid db → IsValid db'
Step-IsValid {db} (call env c fresh) v = (perform-Keeps env c db v fresh).0
Step-IsValid (members us ps as_) v = record {
  friends = v.friends;
  blocks = v.blocks;
  apart = v.apart;
}

pub Reach-IsValid : {db db' : Db} → Reach db db' → IsEmpty db → IsValid db'
Reach-IsValid {db} here h = IsEmpty-IsValid db h
Reach-IsValid (next r s) h = Step-IsValid s (Reach-IsValid r h)

-- From a state with no friendship and no block, whatever members ask for, one call after the
-- other, as long as the database draws a new id for each: while either of two members blocks the
-- other, the pair has no live friendship or request.
pub blocked_apart :
    (start db : Db)
    → IsEmpty start
    → Reach start db
    → (u v : ℕ) → is_blocked_between u v db ≡ true
    → find_friendship_between u v db ≡ none
unfolding is_blocked_between find_friendship_between
blocked_apart start db empty r u v blocked =
    let valid = Reach-IsValid r empty in
    count_where-eq_zero-find? (is_between u v) db.friendships
      (valid.apart u v (any-eq_true-count_where (is_block_between u v) db.blocks blocked))

-- In every state that calls lead to from one with no friendship and no block, and as long as the
-- database draws a new id, no call fails on a unique index or a check of the database: whatever it answers,
-- the answer is a value or an HTTP exception, or the refusal of a foreign key for an id that the table of
-- users lacks.
pub perform-IsAnswer :
    (start db : Db)
    → IsEmpty start
    → Reach start db
    → (env : Env) (c : Command) → IsFresh env db
    → IsAnswer (perform env c db).1 (perform env c db).0
perform-IsAnswer start db empty r env c fresh =
    (perform-Keeps env c db (Reach-IsValid r empty) fresh).1
