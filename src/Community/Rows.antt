-- ===== src/Community/Rows.antt =====
-- What the tables of friendships and blocks keep to, and what each write does to it.
use sto_info_backend.Base.{
  ℕ, ◌≤◌, ◌<◌, ◌≡◌, ◌≢◌, refl, sym, ◌∙◌, Bool, true, false, not, ◌&&◌, none, some, List, [], ◌∷◌,
  arith, ◌==◌, inl, inr, Bool-cases, ap,
}
use sto_info_backend.Store.{find?, any, count_where, has_id, save_row, HasDistinctIds}
use sto_info_backend.Store.Laws.{
  one_if, count_where_mono, find?-count_where, HasDistinctIds-save_row, count_where-save_row,
}
use sto_info_backend.Community.Data.{
  Friendship, friendship_id, UserBlock, block_row_id, is_between, is_block_between,
  refuses_friendship,
}
use sto_info_backend.Community.Blocks.{is_pair}

unfoldable pub is_self : Friendship → Bool
is_self f = f.requester_id == f.addressee_id

-- One live row for a pair, in whichever direction, and none of a member with itself.
pub record FriendshipsValid (fs : List Friendship) : Type 0 where
  pub ids : HasDistinctIds friendship_id fs
  pub one_row : (u v : ℕ) → count_where (is_between u v) fs ≤ 1
  pub no_self : count_where is_self fs ≡ 0

-- One row for an ordered pair, lifted or not.
pub record BlocksValid (bs : List UserBlock) : Type 0 where
  pub ids : HasDistinctIds block_row_id bs
  pub one_pair : (u v : ℕ) → count_where (is_pair u v) bs ≤ 1

-- No live friendship row of a pair that a live block keeps apart.
abbrev pub IsApart : List Friendship → List UserBlock → Type 0
IsApart fs bs =
    (u v : ℕ) → 0 < count_where (is_block_between u v) bs → count_where (is_between u v) fs ≡ 0

pub any_other-eq_false_of_zero {ℓ} :
    {A : Type ℓ} (t p : A → Bool) (xs : List A)
    → count_where p xs ≡ 0
    → any (λ x. t x && p x) xs ≡ false
unfolding any count_where
any_other-eq_false_of_zero t p [] h = refl
any_other-eq_false_of_zero t p (x ∷ xs) h = ground (arith, any_other-eq_false_of_zero t p xs)

-- A row found by one test is the only one that meets another.
pub any_other-eq_false {ℓ} :
    {A : Type ℓ} (id : A → ℕ) (p q : A → Bool) (xs : List A) (r : A)
    → count_where p xs ≤ 1
    → find? q xs ≡ some r
    → p r ≡ true
    → any (λ x. not (id x == id r) && p x) xs ≡ false
unfolding find? any count_where
any_other-eq_false id p q [] r one h e = refl
any_other-eq_false id p q (x ∷ xs) r one h e = elim (Bool-cases (q x)) [
  | inl here ↦
      let same : x ≡ r = ground (arith, here) in
      rw same (
        ground
          (arith, any_other-eq_false_of_zero (λ y. not (id y == id r)) p xs (ground (arith, same))))
  | inr later ↦ ground (arith, later, find?-count_where p q xs r, any_other-eq_false id p q xs r)
]

-- Two rows of the same pair.
is_between-same :
    (u v a b : ℕ) (f g : Friendship)
    → is_between a b f ≡ true
    → is_between u v f ≡ true
    → is_between u v g ≡ true
    → is_between a b g ≡ true
unfolding is_between
is_between-same u v a b f g h k e = ground arith

is_between-own :
    (f : Friendship) → f.deleted_at ≡ none → is_between f.requester_id f.addressee_id f ≡ true
unfolding is_between
is_between-own f live = ground arith

is_block_between-of_is_between :
    (u v : ℕ) (f : Friendship) (b : UserBlock)
    → is_between u v f ≡ true
    → is_block_between u v b ≡ true
    → is_block_between f.requester_id f.addressee_id b ≡ true
unfolding is_between is_block_between
is_block_between-of_is_between u v f b e h = ground arith

-- A row that is saved with the members that it had, whichever way round, stays in its pair.
abbrev pub SamePair : Friendship → Friendship → Type 0
SamePair f g = (u v : ℕ) → is_between u v g ≡ is_between u v f

module _ (fs : List Friendship) (valid : FriendshipsValid fs) where
  module _ (q : Friendship → Bool) (f f' : Friendship) (found : find? q fs ≡ some f)
      (same_id : f'.id ≡ f.id) (same : SamePair f f')
      (apart : f'.requester_id ≢ f'.addressee_id) where
    count_where-save_row_pair :
        (u v : ℕ)
        → count_where (is_between u v) (save_row friendship_id f' fs)
          ≡ count_where (is_between u v) fs
    count_where-save_row_pair u v =
        let e =
          count_where-save_row friendship_id (is_between u v) q f f' fs valid.ids found same_id in
        let p = same u v in omega (arith, e, ap one_if p)

    save_row-no_self : count_where is_self (save_row friendship_id f' fs) ≡ 0
    unfolding is_self
    save_row-no_self =
        let e = count_where-save_row friendship_id is_self q f f' fs valid.ids found same_id in
        ground (arith, e, valid.no_self)

    pub save_row-FriendshipsValid : FriendshipsValid (save_row friendship_id f' fs)
    save_row-FriendshipsValid = record {
      ids = HasDistinctIds-save_row friendship_id f' fs valid.ids;
      one_row = λ u v. rw (count_where-save_row_pair u v) (valid.one_row u v);
      no_self = save_row-no_self;
    }

    pub save_row-IsApart :
        (bs : List UserBlock) → IsApart fs bs → IsApart (save_row friendship_id f' fs) bs
    save_row-IsApart bs h u v blocked = rw (count_where-save_row_pair u v) (h u v blocked)

    -- No constraint refuses it.
    pub save_row-refuses : f'.deleted_at ≡ none → refuses_friendship f' fs ≡ false
    unfolding refuses_friendship
    save_row-refuses live =
        let a = f'.requester_id in
        let b = f'.addressee_id in
        let mine : is_between a b f ≡ true = sym (same a b) ∙ is_between-own f' live in
        let others =
          any_other-eq_false friendship_id (is_between a b) q fs f (valid.one_row a b) found mine in
        rw (same_id, others) (ground (arith, apart))

  -- A new row of a pair that has none.
  module _ (f : Friendship) (live : f.deleted_at ≡ none)
      (new : has_id friendship_id f.id fs ≡ false) (apart : f.requester_id ≢ f.addressee_id)
      (free : count_where (is_between f.requester_id f.addressee_id) fs ≡ 0) where
    count_where-cons_pair :
        (u v : ℕ) → is_between u v f ≡ true → count_where (is_between u v) fs ≡ 0
    count_where-cons_pair u v e =
        let le =
          count_where_mono (is_between u v) (is_between f.requester_id f.addressee_id)
            (λ g h.
              is_between-same u v f.requester_id f.addressee_id f g (is_between-own f live) e h)
            fs in
        omega (arith, le, free)

    cons-one_row : (u v : ℕ) → count_where (is_between u v) (f ∷ fs) ≤ 1
    unfolding count_where
    cons-one_row u v = elim (Bool-cases (is_between u v f)) [
      | inl e ↦ rw (e, count_where-cons_pair u v e) (omega arith)
      | inr e ↦ rw e (valid.one_row u v)
    ]

    pub cons-FriendshipsValid : FriendshipsValid (f ∷ fs)
    unfolding count_where is_self
    cons-FriendshipsValid = record {
      ids = (new, valid.ids);
      one_row = cons-one_row;
      no_self = ground (arith, apart, valid.no_self);
    }

    pub cons-refuses : refuses_friendship f fs ≡ false
    unfolding refuses_friendship
    cons-refuses =
        rw
          (any_other-eq_false_of_zero (λ g. not (g.id == f.id))
            (is_between f.requester_id f.addressee_id) fs free)
          (ground (arith, apart))

    pub cons-IsApart :
        (bs : List UserBlock)
        → IsApart fs bs
        → count_where (is_block_between f.requester_id f.addressee_id) bs ≡ 0
        → IsApart (f ∷ fs) bs
    unfolding count_where
    cons-IsApart bs h unblocked u v blocked = elim (Bool-cases (is_between u v f)) [
      | inl e ↦
          let le =
            count_where_mono (is_block_between u v) (is_block_between f.requester_id f.addressee_id)
              (λ b. is_block_between-of_is_between u v f b e) bs in
          absurd (omega (arith, le, unblocked))
      | inr e ↦ rw e (h u v blocked)
    ]
