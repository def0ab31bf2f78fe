-- ===== src/Community/Removals.antt =====
-- Soft removals of friendships and blocks, and the writes of a block.
use sto_info_backend.Base.{
  ℕ, ◌≤◌, ◌≡◌, ◌≢◌, refl, Bool, true, false, not, ◌&&◌, some, List, [], ◌∷◌, arith, ◌==◌, inl, inr,
  Bool-cases, is_none, map, ap,
}
use sto_info_backend.Store.{
  keep, find?, count_where, update_where, has_id, save_row, HasDistinctIds, contains,
}
use sto_info_backend.Store.Laws.{
  one_if, count_where-nil, count_where-cons, keep-cons_true, keep-cons_false, any_mono_false,
  count_where_mono, count_where-update_where_le, count_where-update_where_eq,
  HasDistinctIds-save_row, HasDistinctIds-update_where, count_where-save_row,
}
use sto_info_backend.Community.Data.{
  Friendship, friendship_id, UserBlock, block_row_id, is_between, is_block_between, refuses_block,
}
use sto_info_backend.Community.Blocks.{is_pair, soft_remove_friendships, soft_remove_block}
use sto_info_backend.Community.Rows.{
  is_self, FriendshipsValid, BlocksValid, IsApart, any_other-eq_false, any_other-eq_false_of_zero,
}

module _ (now : ℕ) (removed : List Friendship) (fs : List Friendship) where
  soft_remove_friendships-le :
      (u v : ℕ)
      → count_where (is_between u v) (soft_remove_friendships now removed fs)
        ≤ count_where (is_between u v) fs
  unfolding soft_remove_friendships is_between
  soft_remove_friendships-le u v =
      count_where-update_where_le (is_between u v) _ (λ f. record f { deleted_at = some now })
        (λ f _ e. ground arith) fs

  soft_remove_friendships-is_self :
      count_where is_self (soft_remove_friendships now removed fs) ≡ count_where is_self fs
  unfolding soft_remove_friendships is_self
  soft_remove_friendships-is_self =
      count_where-update_where_eq is_self _ (λ f. record f { deleted_at = some now }) (λ f _. refl)
        fs

  soft_remove_friendships-ids :
      HasDistinctIds friendship_id fs
      → HasDistinctIds friendship_id (soft_remove_friendships now removed fs)
  unfolding soft_remove_friendships
  soft_remove_friendships-ids =
      HasDistinctIds-update_where friendship_id _ (λ f. record f { deleted_at = some now })
        (λ f _. refl) fs

  pub soft_remove_friendships-FriendshipsValid :
      FriendshipsValid fs → FriendshipsValid (soft_remove_friendships now removed fs)
  soft_remove_friendships-FriendshipsValid valid = record {
    ids = soft_remove_friendships-ids valid.ids;
    one_row = λ u v. omega (arith, soft_remove_friendships-le u v, valid.one_row u v);
    no_self = omega (arith, soft_remove_friendships-is_self, valid.no_self);
  }

  pub soft_remove_friendships-IsApart :
      (bs : List UserBlock) → IsApart fs bs → IsApart (soft_remove_friendships now removed fs) bs
  soft_remove_friendships-IsApart bs h u v blocked =
      omega (arith, soft_remove_friendships-le u v, h u v blocked)

-- The rows that meet a test and are not among these ids.
abbrev missed : (Friendship → Bool) → List ℕ → Friendship → Bool
missed p ids f = p f && not (contains f.id ids)

missed-keep :
    (p : Friendship → Bool) (fs : List Friendship)
    → count_where (missed p (map (λ g. g.id) (keep p fs))) fs ≡ 0
unfolding contains
missed-keep p [] = count_where-nil _
missed-keep p (f ∷ fs) = elim (Bool-cases (p f)) [
  | inl e ↦
      let ids = map (λ g. g.id) (keep p fs) in
      let le =
        count_where_mono (missed p (f.id ∷ ids)) (missed p ids) (λ g h. ground (arith, h)) fs in
      rw (keep-cons_true p f fs e)
        (ground (arith, le, missed-keep p fs, count_where-cons (missed p (f.id ∷ ids)) f fs))
  | inr e ↦
      let ids = map (λ g. g.id) (keep p fs) in
      rw (keep-cons_false p f fs e)
        (ground (arith, missed-keep p fs, count_where-cons (missed p ids) f fs))
]

module _ (now : ℕ) (u v : ℕ) where
  cleared-by_ids :
      (ids : List ℕ) (fs : List Friendship)
      → count_where (missed (is_between u v) ids) fs ≡ 0
      → count_where
          (is_between u v)
          (update_where (λ f. contains f.id ids) (λ f. record f { deleted_at = some now }) fs)
        ≡ 0
  unfolding count_where update_where is_between
  cleared-by_ids ids [] h = refl
  cleared-by_ids ids (f ∷ fs) h = ground (arith, cleared-by_ids ids fs)

  -- After the live rows of a pair are removed, none is left.
  pub soft_remove_friendships-clears :
      (fs : List Friendship)
      → count_where (is_between u v) (soft_remove_friendships now (keep (is_between u v) fs) fs) ≡ 0
  unfolding soft_remove_friendships
  soft_remove_friendships-clears fs =
      cleared-by_ids (map (λ g. g.id) (keep (is_between u v) fs)) fs
        (missed-keep (is_between u v) fs)

pub is_pair-own :
    (u v : ℕ) (b : UserBlock) → u ≡ b.blocker_id → v ≡ b.blocked_id → is_pair u v b ≡ true
unfolding is_pair
is_pair-own u v b e h = ground arith

pub is_pair-eq :
    (u v : ℕ) (b : UserBlock) → is_pair u v b ≡ true → (b.blocker_id ≡ u) × (b.blocked_id ≡ v)
unfolding is_pair
is_pair-eq u v b e = ground arith

-- A live row of a pair is a row of it.
live_pair :
    (b : UserBlock) (n : ℕ) (c : UserBlock)
    → (not (c.id == n)
        && c.blocker_id == b.blocker_id
        && c.blocked_id == b.blocked_id
        && is_none c.deleted_at)
      ≡ true
    → (not (c.id == n) && is_pair b.blocker_id b.blocked_id c) ≡ true
unfolding is_pair
live_pair b n c e = ground arith

-- A block row that is written with the members that it had.
module _ (bs : List UserBlock) (valid : BlocksValid bs) where
  module _ (b b' : UserBlock) (q : UserBlock → Bool) (found : find? q bs ≡ some b)
      (same_id : b'.id ≡ b.id) (same_blocker : b'.blocker_id ≡ b.blocker_id)
      (same_blocked : b'.blocked_id ≡ b.blocked_id) where
    save_row-pairs :
        (u v : ℕ)
        → count_where (is_pair u v) (save_row block_row_id b' bs) ≡ count_where (is_pair u v) bs
    unfolding is_pair
    save_row-pairs u v =
        let e = count_where-save_row block_row_id (is_pair u v) q b b' bs valid.ids found same_id in
        ground (arith, e, same_blocker, same_blocked)

    pub save_row-BlocksValid : BlocksValid (save_row block_row_id b' bs)
    save_row-BlocksValid = record {
      ids = HasDistinctIds-save_row block_row_id b' bs valid.ids;
      one_pair = λ u v. rw (save_row-pairs u v) (valid.one_pair u v);
    }

    pub save_row-refuses_block : b'.blocker_id ≢ b'.blocked_id → refuses_block b' bs ≡ false
    unfolding refuses_block
    save_row-refuses_block apart =
        let mine : is_pair b'.blocker_id b'.blocked_id b ≡ true =
          is_pair-own b'.blocker_id b'.blocked_id b same_blocker same_blocked in
        let others =
          any_other-eq_false block_row_id (is_pair b'.blocker_id b'.blocked_id) q bs b
            (valid.one_pair _ _) found mine in
        let live = any_mono_false _ _ (live_pair b' b.id) bs others in
        rw (same_id, live) (ground (arith, apart))

    -- Another pair is blocked as it was.
    pub save_row-is_block_between :
        (u v : ℕ)
        → is_block_between u v b' ≡ false
        → count_where (is_block_between u v) (save_row block_row_id b' bs)
          ≤ count_where (is_block_between u v) bs
    save_row-is_block_between u v e =
        let c =
          count_where-save_row block_row_id (is_block_between u v) q b b' bs valid.ids found
            same_id in
        omega (arith, c, ap one_if e)

  module _ (b : UserBlock) (new : has_id block_row_id b.id bs ≡ false)
      (free : count_where (is_pair b.blocker_id b.blocked_id) bs ≡ 0) where
    cons-free : (u v : ℕ) → is_pair u v b ≡ true → count_where (is_pair u v) bs ≡ 0
    cons-free u v e =
        let (same_blocker, same_blocked) = is_pair-eq u v b e in
        rw (← same_blocker, ← same_blocked) free

    pub cons-BlocksValid : BlocksValid (b ∷ bs)
    unfolding count_where
    cons-BlocksValid = record {
      ids = (new, valid.ids);
      one_pair = λ u v. elim (Bool-cases (is_pair u v b)) [
        | inl e ↦ rw e (omega (arith, cons-free u v e))
        | inr e ↦ rw e (valid.one_pair u v)
      ];
    }

    pub cons-refuses_block : b.blocker_id ≢ b.blocked_id → refuses_block b bs ≡ false
    unfolding refuses_block
    cons-refuses_block apart =
        let others =
          any_other-eq_false_of_zero (λ c. not (c.id == b.id)) (is_pair b.blocker_id b.blocked_id)
            bs free in
        rw (any_mono_false _ _ (live_pair b b.id) bs others) (ground (arith, apart))

  pub soft_remove_block-BlocksValid :
      (now : ℕ) (b : UserBlock) → BlocksValid (soft_remove_block now b bs)
  unfolding soft_remove_block is_pair
  soft_remove_block-BlocksValid now b = record {
    ids =
        HasDistinctIds-update_where block_row_id _ (λ c. record c { deleted_at = some now })
          (λ c _. refl) bs valid.ids;
    one_pair = λ u v.
        rw
          (count_where-update_where_eq (is_pair u v) _ (λ c. record c { deleted_at = some now })
            (λ c _. refl) bs)
          (valid.one_pair u v);
  }

pub soft_remove_block-IsApart :
    (fs : List Friendship) (bs : List UserBlock) (now : ℕ) (b : UserBlock)
    → IsApart fs bs
    → IsApart fs (soft_remove_block now b bs)
unfolding soft_remove_block is_block_between
soft_remove_block-IsApart fs bs now b h u v blocked =
    let le =
      count_where-update_where_le (is_block_between u v) (λ c. c.id == b.id)
        (λ c. record c { deleted_at = some now }) (λ c _ e. ground arith) bs in
    h u v (omega (arith, le, blocked))
