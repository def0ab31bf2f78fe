-- ===== src/Community/Effects.antt =====
-- What a call leaves behind, as the two members then see it.
use sto_info_backend.Base.{
  ℕ, ◌≡◌, refl, ap, ◌∙◌, Bool, true, Option, some, [], ◌∷◌, inl, inr, Option-cases, bind-ok,
}
use sto_info_backend.Store.{find?, save_row}
use sto_info_backend.Store.Laws.{find?-save_row}
use sto_info_backend.Store.Dict.{lookup}
use sto_info_backend.Community.Data.{
  Env, Db, Friendship, friendship_id, accepted, is_between, other_user_id,
}
use sto_info_backend.Community.Members.{find_members_by_user_ids}
use sto_info_backend.Community.Friends.{
  find_friendship_between, first, to_friends, to_friend, to_outgoing_request, notify,
  notify_request_accepted, notify_request_received,
}
use sto_info_backend.Community.Friendships.{
  announce_accepted, announce_received, accept, accepted_row, accept_and_announce,
}
use sto_info_backend.Community.Invariant.{IsValid, save_friendship-ok}
use sto_info_backend.Community.Requests.{SamePair-status, live_of_between, not_self}

-- The tables of two states are the same.
pub record SameTables (db db' : Db) : Type 0 where
  pub friendships : db'.friendships ≡ db.friendships
  pub blocks : db'.blocks ≡ db.blocks

to_friend-state : (f : Friendship) (u : ℕ) (db : Db) → (to_friend f u db).1 ≡ db
unfolding to_friend
to_friend-state f u db = elim (Option-cases (first (to_friends (f ∷ []) u db))) [
  | inl e ↦ rw e
  | inr (d, e) ↦ rw e
]

to_outgoing_request-state : (f : Friendship) (u : ℕ) (db : Db) → (to_outgoing_request f u db).1 ≡ db
unfolding to_outgoing_request
to_outgoing_request-state f u db =
    let other = other_user_id f u in
    elim (Option-cases (lookup other (find_members_by_user_ids (other ∷ []) db))) [
      | inl e ↦ rw e
      | inr (d, e) ↦ rw e
    ]

pub announce_accepted-SameTables :
    (env : Env) (u w : ℕ) (row : Friendship) (db : Db)
    → SameTables db (announce_accepted env u w row db).1
unfolding announce_accepted notify_request_accepted notify
announce_accepted-SameTables env u w row db = record {
  friendships = ap (λ s. s.friendships) (to_friend-state row u _);
  blocks = ap (λ s. s.blocks) (to_friend-state row u _);
}

pub announce_received-SameTables :
    (env : Env) (u w : ℕ) (row : Friendship) (db : Db)
    → SameTables db (announce_received env u w row db).1
unfolding announce_received notify_request_received notify
announce_received-SameTables env u w row db = record {
  friendships = ap (λ s. s.friendships) (to_outgoing_request-state row u _);
  blocks = ap (λ s. s.blocks) (to_outgoing_request-state row u _);
}

-- The row of a pair as a state has it, and the blocks that it shares with another.
pub record Leaves (u w : ℕ) (db : Db) (o : Option Friendship) (db' : Db) : Type 0 where
  pub row : find_friendship_between u w db' ≡ o
  pub blocks : db'.blocks ≡ db.blocks

pub Leaves-SameTables :
    (u w : ℕ) (db : Db) (o : Option Friendship) (db' db'' : Db)
    → Leaves u w db o db'
    → SameTables db' db''
    → Leaves u w db o db''
unfolding find_friendship_between
Leaves-SameTables u w db o db' db'' l t = record {
  row = rw t.friendships l.row;
  blocks = t.blocks ∙ l.blocks;
}

module _ (env : Env) (db : Db) (v : IsValid db) (u w : ℕ) where
  -- A row that is saved under the same pair is the row of that pair.
  pub save_friendship-Leaves :
      (q : Friendship → Bool) (f f' : Friendship)
      → find? q db.friendships ≡ some f
      → f'.id ≡ f.id
      → is_between u w f ≡ true
      → is_between u w f' ≡ true
      → Leaves u w db
          (some f')
          (record db { friendships = save_row friendship_id f' db.friendships })
  unfolding find_friendship_between
  save_friendship-Leaves q f f' found same_id m m' = record {
    row =
        find?-save_row friendship_id (is_between u w) q f f' db.friendships v.friends.ids
          (v.friends.one_row u w) found same_id m m';
    blocks = refl;
  }

  pub insert_friendship-Leaves :
      (f : Friendship)
      → is_between u w f ≡ true
      → Leaves u w db (some f) (record db { friendships = f ∷ db.friendships })
  unfolding find_friendship_between find?
  insert_friendship-Leaves f m = record { row = rw m; blocks = refl }

  pub accept_and_announce-Leaves :
      (q : Friendship → Bool) (f : Friendship)
      → find? q db.friendships ≡ some f
      → is_between u w f ≡ true
      → Leaves u w db (some (accepted_row env f)) (accept_and_announce env u f db).1
  unfolding accept_and_announce accept accepted_row
  accept_and_announce-Leaves q f found m =
      let live = live_of_between u w f m in
      let saved =
        save_friendship-ok db v q f (accepted_row env f) found refl (SamePair-status f accepted _)
          (not_self env db v q f found live) live in
      let e = bind-ok (accept env f) (announce_accepted env u f.requester_id) db saved in
      rw e (
        Leaves-SameTables u w db _ _ _
          (save_friendship-Leaves q f (accepted_row env f) found refl m
            (SamePair-status f accepted _ u w ∙ m))
          (announce_accepted-SameTables env u f.requester_id (accepted_row env f) _))
