-- ===== src/Community/Blocking.antt =====
-- The handlers of blocks keep the tables valid; in particular a block leaves no friendship behind.
-- What `upsertBlock` leaves: a live block of the pair, and every other pair blocked as it was.
use mathlib.Core.Path.{subst}
use sto_info_backend.Base.{
  ℕ, ◌≡◌, ◌≢◌, true, Option, List, [], ◌∷◌, arith, ◌==◌, inl, inr, Bool-cases, String, not_found,
  ◌>>=◌, ◌>>◌, Action, bind-err, sym, pure, modify,
}
use sto_info_backend.Store.{keep, find?}
use sto_info_backend.Store.Dict.{lookup}
use sto_info_backend.Store.Laws.{count_where_mono}
use sto_info_backend.Community.Data.{
  Env, Db, Profile, Friendship, UserBlock, is_between, is_block_between,
}
use sto_info_backend.Community.Members.{
  require_active_member, find_active, find_members_by_user_ids,
}
use sto_info_backend.Community.Blocks.{
  CreateBlockDto, BlockedMember, upsert_block, remove_friendship_between, soft_remove_friendships,
  to_blocked_member, block_member, block_target, is_own_block, soft_remove_block, unblock_member,
}
use sto_info_backend.Community.Rows.{IsApart}
use sto_info_backend.Community.Removals.{
  soft_remove_friendships-FriendshipsValid, soft_remove_friendships-IsApart,
  soft_remove_friendships-clears, soft_remove_block-BlocksValid, soft_remove_block-IsApart,
}
use sto_info_backend.Community.Invariant.{IsFresh, IsValid, Keeps, Keeps-bind_eq, or_raise-Keeps}
use sto_info_backend.Community.Upserts.{Upserted, upsert_block-cases}

is_between_of_block :
    (u w x y : ℕ) (b : UserBlock) (f : Friendship)
    → b.blocker_id ≡ u
    → b.blocked_id ≡ w
    → is_block_between x y b ≡ true
    → is_between x y f ≡ true
    → is_between u w f ≡ true
unfolding is_between is_block_between
is_between_of_block u w x y b f hu hw e h = ground arith

-- The removal of the friendship restores what the block broke.
cleared-IsApart :
    (u w now : ℕ) (reason : Option String) (db : Db) (b : UserBlock) (bs : List UserBlock)
    → IsApart db.friendships db.blocks
    → Upserted u w reason db b bs
    → IsApart (soft_remove_friendships now (keep (is_between u w) db.friendships) db.friendships) bs
cleared-IsApart u w now reason db b bs apart up x y blocked =
    elim (Bool-cases (is_block_between x y b)) [
      | inl e ↦
          let fs =
            soft_remove_friendships now (keep (is_between u w) db.friendships) db.friendships in
          let le =
            count_where_mono (is_between x y) (is_between u w)
              (λ f. is_between_of_block u w x y b f up.blocker up.blocked e) fs in
          omega (arith, le, soft_remove_friendships-clears now u w db.friendships)
      | inr e ↦
          soft_remove_friendships-IsApart now (keep (is_between u w) db.friendships) db.friendships
            db.blocks apart x y (omega (arith, up.others x y e, blocked))
    ]

to_blocked_member-Keeps :
    (db : Db) → IsValid db → (b : UserBlock) (w : ℕ) → Keeps (to_blocked_member b w db)
unfolding to_blocked_member
to_blocked_member-Keeps db v b w =
    or_raise-Keeps (lookup w (find_members_by_user_ids (w ∷ []) db)) (not_found "Member not found")
      (λ member.
        pure (record { id = b.id; member = member; blocked_at = b.created_at; reason = b.reason }))
      db tt v (λ _ _. (v, tt))

module _ (env : Env) where
  remove_friendship_between-IsValid :
      (db : Db) (u w : ℕ) (reason : Option String) (b : UserBlock) (bs : List UserBlock)
      → IsValid db
      → Upserted u w reason db b bs
      → IsValid (remove_friendship_between env u w (record db { blocks = bs })).1
  unfolding remove_friendship_between
  remove_friendship_between-IsValid db u w reason b bs v up = record {
    friends = soft_remove_friendships-FriendshipsValid env.now _ db.friendships v.friends;
    blocks = up.valid;
    apart = cleared-IsApart u w env.now reason db b bs v.apart up;
  }

  removed_then-Keeps :
      (u w : ℕ) (b : UserBlock) (db : Db)
      → IsValid (remove_friendship_between env u w db).1
      → Keeps ((remove_friendship_between env u w >> to_blocked_member b w) db)
  unfolding remove_friendship_between
  removed_then-Keeps u w b db v = to_blocked_member-Keeps _ v b w

  -- Once the two members are known to differ.
  block_apart-Keeps :
      (db : Db) (u w : ℕ) (reason : Option String)
      → IsValid db
      → IsFresh env db
      → u ≢ w
      → Keeps (
          (upsert_block env u w reason >>= λ b.
          remove_friendship_between env u w >> to_blocked_member b w)
            db)
  block_apart-Keeps db u w reason v fresh apart =
      let rest : UserBlock → Action Db BlockedMember =
        λ b'. remove_friendship_between env u w >> to_blocked_member b' w in
      elim (upsert_block-cases env db v u w reason fresh apart) [
        | inl (b, bs, e, up) ↦
            let v' = remove_friendship_between-IsValid db u w reason b bs v up in
            Keeps-bind_eq (upsert_block env u w reason) rest db e
              (removed_then-Keeps u w b (record db { blocks = bs }) v')
        | inr (n, _, gone, e) ↦
            subst Keeps (sym (bind-err (upsert_block env u w reason) rest db e)) (v, gone)
      ]

  block_target-Keeps :
      (db : Db) (u : ℕ) (reason : Option String) (target : Profile)
      → IsValid db
      → IsFresh env db
      → Keeps (block_target env u reason target db)
  unfolding block_target
  block_target-Keeps db u reason target v fresh = elim (Bool-cases (target.user_id == u)) [
    | inl e ↦ rw e (v, tt)
    | inr e ↦ rw e (block_apart-Keeps db u target.user_id reason v fresh (ground (arith, e)))
  ]

  pub block_member-Keeps :
      (db : Db) (u : ℕ) (dto : CreateBlockDto)
      → IsValid db
      → IsFresh env db
      → Keeps (block_member env u dto db)
  unfolding block_member require_active_member
  block_member-Keeps db u dto v fresh =
      or_raise-Keeps (find_active env dto.username db) (not_found "Member not found")
        (block_target env u dto.reason) db tt v
        (λ target _. block_target-Keeps db u dto.reason target v fresh)

  -- A lifted block brings no friendship back.
  pub unblock_member-Keeps : (db : Db) (u id : ℕ) → IsValid db → Keeps (unblock_member env u id db)
  unfolding unblock_member
  unblock_member-Keeps db u id v =
      or_raise-Keeps (find? (is_own_block id u) db.blocks) (not_found "Block not found")
        (λ b. modify (λ s. record s { blocks = soft_remove_block env.now b s.blocks })) db tt v
        (λ b _. (
          record {
            friends = v.friends;
            blocks = soft_remove_block-BlocksValid db.blocks v.blocks env.now b;
            apart = soft_remove_block-IsApart db.friendships db.blocks env.now b v.apart;
          },
          tt,
        ))
