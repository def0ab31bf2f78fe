-- ===== src/Community/Upserts.antt =====
-- What `upsertBlock` leaves behind.
use mathlib.Core.Bool.{true≢false}
use sto_info_backend.Base.{
  ℕ, ◌≡◌, ◌≢◌, ◌≤◌, refl, sym, ap, ◌∙◌, true, false, inl, inr, ◌⊎◌, Bool-cases, Result, err,
  reference_failed, Option, none, some, List, ◌∷◌, arith, String, ok, or_else,
}
use sto_info_backend.Store.{find?, count_where, save_row}
use sto_info_backend.Store.Laws.{
  find?-cons_true, find?-save_row_narrow, one_if, find?-holds, find?-eq_none-count_where,
  count_where-cons,
}
use sto_info_backend.Community.Data.{
  Env, Db, has_user, UserBlock, block_row_id, is_block_between, save_block, insert_block,
}
use sto_info_backend.Community.Blocks.{
  is_pair, new_block, revive_block, write_block, upsert_block, is_own_block_of,
}
use sto_info_backend.Community.Rows.{BlocksValid}
use sto_info_backend.Community.Removals.{
  is_pair-eq, save_row-BlocksValid, save_row-refuses_block, save_row-is_block_between,
  cons-BlocksValid, cons-refuses_block,
}
use sto_info_backend.Community.Invariant.{IsFresh, IsValid}

-- What `upsertBlock` leaves: a live block of the pair, and every other pair blocked as it was.
pub record Upserted (u w : ℕ) (reason : Option String) (db : Db) (b : UserBlock)
    (bs : List UserBlock) : Type 0 where
  pub blocker : b.blocker_id ≡ u
  pub blocked : b.blocked_id ≡ w
  pub live : b.deleted_at ≡ none
  pub kept : or_else reason b.reason ≡ b.reason
  pub own : find? (is_own_block_of u w) bs ≡ some b
  pub valid : BlocksValid bs
  pub others :
      (x y : ℕ)
      → is_block_between x y b ≡ false
      → count_where (is_block_between x y) bs ≤ count_where (is_block_between x y) db.blocks

or_else_twice : (o p : Option String) → or_else o (or_else o p) ≡ or_else o p
or_else_twice none p = refl
or_else_twice (some a) p = refl

or_else_self : (o : Option String) → or_else o o ≡ o
or_else_self none = refl
or_else_self (some a) = refl

is_pair_of_own : (u w : ℕ) (b : UserBlock) → is_own_block_of u w b ≡ true → is_pair u w b ≡ true
unfolding is_own_block_of is_pair
is_pair_of_own u w b e = ground arith

is_own_of_pair :
    (u w : ℕ) (b : UserBlock)
    → b.blocker_id ≡ u
    → b.blocked_id ≡ w
    → b.deleted_at ≡ none
    → is_own_block_of u w b ≡ true
unfolding is_own_block_of
is_own_of_pair u w b hu hw live = ground arith

module _ (env : Env) (db : Db) (v : IsValid db) where
  revived-Upserted :
      (u w : ℕ) (reason : Option String) (b : UserBlock)
      → find? (is_pair u w) db.blocks ≡ some b
      → Upserted u w reason db
          (revive_block reason b)
          (save_row block_row_id (revive_block reason b) db.blocks)
  unfolding revive_block
  revived-Upserted u w reason b found =
      let (same_blocker, same_blocked) =
        is_pair-eq u w b (find?-holds (is_pair u w) db.blocks b found) in
      let q = is_pair u w in
      let b' = revive_block reason b in
      record {
        blocker = same_blocker;
        blocked = same_blocked;
        live = refl;
        kept = or_else_twice reason b.reason;
        own =
            find?-save_row_narrow block_row_id (is_own_block_of u w) q b b' db.blocks v.blocks.ids
              found refl (λ c e. is_pair_of_own u w c e)
              (is_own_of_pair u w b' same_blocker same_blocked refl);
        valid = save_row-BlocksValid db.blocks v.blocks b b' q found refl refl refl;
        others = save_row-is_block_between db.blocks v.blocks b b' q found refl refl refl;
      }

  inserted-Upserted :
      (u w : ℕ) (reason : Option String)
      → IsFresh env db
      → find? (is_pair u w) db.blocks ≡ none
      → Upserted u w reason db (new_block env u w reason) (new_block env u w reason ∷ db.blocks)
  unfolding new_block
  inserted-Upserted u w reason fresh none_yet =
      let b = new_block env u w reason in
      record {
        blocker = refl;
        blocked = refl;
        live = refl;
        kept = or_else_self reason;
        own =
            find?-cons_true (is_own_block_of u w) b db.blocks (is_own_of_pair u w b refl refl refl);
        valid =
            cons-BlocksValid db.blocks v.blocks b fresh.block
              (find?-eq_none-count_where (is_pair u w) db.blocks none_yet);
        others = λ x y e.
            omega (arith, count_where-cons (is_block_between x y) b db.blocks, ap one_if e);
      }

  saved_block :
      (u w : ℕ) (reason : Option String) (b : UserBlock)
      → u ≢ w
      → find? (is_pair u w) db.blocks ≡ some b
      → let b' = revive_block reason b in
        save_block b' db ≡ (ok b', record db { blocks = save_row block_row_id b' db.blocks })
  unfolding save_block revive_block
  saved_block u w reason b apart found =
      let (same_blocker, same_blocked) =
        is_pair-eq u w b (find?-holds (is_pair u w) db.blocks b found) in
      let b' = revive_block reason b in
      rw (
        save_row-refuses_block db.blocks v.blocks b b' (is_pair u w) found refl refl refl
          (λ e. apart (sym same_blocker ∙ e ∙ same_blocked)))

  inserted_block :
      (u w : ℕ) (reason : Option String)
      → IsFresh env db
      → u ≢ w
      → find? (is_pair u w) db.blocks ≡ none
      → has_user u db ≡ true
      → has_user w db ≡ true
      → let b = new_block env u w reason in
        insert_block b db ≡ (ok b, record db { blocks = b ∷ db.blocks })
  unfolding insert_block new_block
  inserted_block u w reason fresh apart none_yet blocker blocked =
      rw
        (
          cons-refuses_block db.blocks v.blocks (new_block env u w reason) fresh.block
              (find?-eq_none-count_where (is_pair u w) db.blocks none_yet) apart,
          blocker,
          blocked,
        )
        refl

  -- A member without a row, to whom no foreign key leads.
  refused_block :
      (u w : ℕ) (reason : Option String)
      → IsFresh env db
      → u ≢ w
      → find? (is_pair u w) db.blocks ≡ none
      → (has_user u db ≡ false) ⊎ (has_user w db ≡ false)
      → (n : ℕ) × ((n ≡ u) ⊎ (n ≡ w))
        × (has_user n db ≡ false)
        × (insert_block (new_block env u w reason) db ≡ (err (reference_failed n), db))
  unfolding insert_block new_block
  refused_block u w reason fresh apart none_yet missing =
      let taken =
        cons-refuses_block db.blocks v.blocks (new_block env u w reason) fresh.block
          (find?-eq_none-count_where (is_pair u w) db.blocks none_yet) apart in
      elim (Bool-cases (has_user u db)) [
        | inl there ↦ elim missing [
          | inl gone ↦ absurd (true≢false (sym there ∙ gone))
          | inr gone ↦ (w, inr refl, gone, rw (taken, there, gone) refl)
        ]
        | inr gone ↦ (u, inl refl, gone, rw (taken, gone) refl)
      ]

  -- What the call of a block does: it leaves one, or is refused for a member without a row.
  abbrev Outcome : ℕ → ℕ → Option String → Result UserBlock × Db → Type 0
  Outcome u w reason r =
      ((b : UserBlock) × (bs : List UserBlock) × (r ≡ (ok b, record db { blocks = bs }))
        × Upserted u w reason db b bs)
      ⊎ ((n : ℕ) × ((n ≡ u) ⊎ (n ≡ w))
          × (has_user n db ≡ false)
          × (r ≡ (err (reference_failed n), db)))

  insert_block_lem :
      (u w : ℕ) (reason : Option String)
      → IsFresh env db
      → u ≢ w
      → find? (is_pair u w) db.blocks ≡ none
      → Outcome u w reason (insert_block (new_block env u w reason) db)
  insert_block_lem u w reason fresh apart e =
      let b = new_block env u w reason in
      elim (Bool-cases (has_user u db)) [
        | inr gone ↦ inr (refused_block u w reason fresh apart e (inl gone))
        | inl blocker ↦ elim (Bool-cases (has_user w db)) [
          | inr gone ↦ inr (refused_block u w reason fresh apart e (inr gone))
          | inl blocked ↦ inl (
            b,
            b ∷ db.blocks,
            inserted_block u w reason fresh apart e blocker blocked,
            inserted-Upserted u w reason fresh e,
          )
        ]
      ]

  write_block_lem :
      (u w : ℕ) (reason : Option String) (o : Option UserBlock)
      → IsFresh env db
      → u ≢ w
      → find? (is_pair u w) db.blocks ≡ o
      → Outcome u w reason (write_block env u w reason o db)
  unfolding write_block
  write_block_lem u w reason none fresh apart e = insert_block_lem u w reason fresh apart e
  write_block_lem u w reason (some b) fresh apart e = inl (
    revive_block reason b,
    save_row block_row_id (revive_block reason b) db.blocks,
    saved_block u w reason b apart e,
    revived-Upserted u w reason b e,
  )

  pub upsert_block-cases :
      (u w : ℕ) (reason : Option String)
      → IsFresh env db
      → u ≢ w
      → Outcome u w reason (upsert_block env u w reason db)
  unfolding upsert_block
  upsert_block-cases u w reason fresh apart =
      write_block_lem u w reason (find? (is_pair u w) db.blocks) fresh apart refl

  pub upsert_block_lem :
      (u w : ℕ) (reason : Option String)
      → IsFresh env db
      → u ≢ w
      → has_user u db ≡ true
      → has_user w db ≡ true
      → (b : UserBlock) × (bs : List UserBlock) × (upsert_block env u w reason db
          ≡ (ok b, record db { blocks = bs }))
        × Upserted u w reason db b bs
  upsert_block_lem u w reason fresh apart blocker blocked =
      elim (upsert_block-cases u w reason fresh apart) [
        | inl upserted ↦ upserted
        | inr (n, inl same, gone, e) ↦
            absurd (true≢false (sym blocker ∙ ap (λ m. has_user m db) (sym same) ∙ gone))
        | inr (n, inr same, gone, e) ↦
            absurd (true≢false (sym blocked ∙ ap (λ m. has_user m db) (sym same) ∙ gone))
      ]
