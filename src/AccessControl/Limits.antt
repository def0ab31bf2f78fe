-- ===== src/AccessControl/Limits.antt =====
-- The limits of users: what an exemption does, and when one more item is refused.
use mathlib.Core.Path.{subst}
use sto_info_backend.Base.{
  ℕ, ◌≡◌, refl, ap, ◌∙◌, ◌≤◌, ◌<◌, true, false, Bool, List, [], ◌++◌, ◌≢◌, if◌then◌else◌, ltb,
  Option, none, some, ◌∷◌, arith, Bool-cases, inl, inr, ok, err,
}
use sto_info_backend.Store.{find?, any, count_where, HasDistinctIds}
use sto_info_backend.Store.Laws.{
  count_where-cons, find?-holds, find?-cons_true, any-false_of_find?, find?-save_row_narrow,
}
use sto_info_backend.Store.Keys.{update_where-save_row}
use sto_info_backend.Users.{User, is_user}
use sto_info_backend.AccessControl.Data.{
  LimitOverride, Db, Env, limit_id_of, is_limit_of, is_unexpired, insert_limit, has_user, grant_row,
  Setting, Figure, not_a_number, infinite, fractional, below_zero, whole,
}
use sto_info_backend.AccessControl.Resolve.{
  is_limit_in_force, number_of, parsed_or, read_configured_value, limit_value_or, resolve_limit,
  limit_reached, assert_within_limit,
}
use sto_info_backend.AccessControl.Exemptions.{
  SetLimitOverride, new_limit, rewrite_limit, update_limit, write_limit, set_limit_override,
}
use sto_info_backend.AccessControl.Grants.{assert_user_exists-ok, found-has_user}

in_force-limit :
    (now u k : ℕ) (l : LimitOverride)
    → is_limit_in_force now u k l ≡ true
    → is_limit_of u k l ≡ true
unfolding is_limit_in_force
in_force-limit now u k l h = ground (arith, h)

-- The row that is in force after a write, by the live row before.
write_limit-in_force :
    (env : Env) (u : ℕ) (dto : SetLimitOverride) (acting now : ℕ) (db : Db)
    (o : Option LimitOverride)
    → HasDistinctIds limit_id_of db.limits
    → find? (is_limit_of u dto.limit_key) db.limits ≡ o
    → has_user u db ≡ true
    → has_user acting db ≡ true
    → is_unexpired now dto.expires_at ≡ true
    → (db' : Db) × (l : LimitOverride) × (write_limit env u dto acting o db ≡ (ok tt, db'))
      × (find? (is_limit_in_force now u dto.limit_key) db'.limits ≡ some l)
      × (l.limit_value ≡ dto.limit_value)
unfolding write_limit insert_limit grant_row new_limit rewrite_limit is_limit_in_force is_limit_of
    update_limit limit_id_of
write_limit-in_force env u dto acting now db none d free user granter live =
    let l = new_limit env u dto acting in
    (
      record db { limits = l ∷ db.limits },
      l,
      rw (any-false_of_find? (is_limit_of u dto.limit_key) db.limits free, user, granter) refl,
      find?-cons_true (is_limit_in_force now u dto.limit_key) l db.limits (ground (arith, live)),
      refl,
    )
write_limit-in_force env u dto acting now db (some o) d found user granter live =
    let f = rewrite_limit dto acting in
    let holds = find?-holds (is_limit_of u dto.limit_key) db.limits o found in
    let saved =
      update_where-save_row limit_id_of (is_limit_of u dto.limit_key) f o db.limits d found refl in
    (
      record db { limits = update_limit o.id f db.limits },
      f o,
      rw granter refl,
      rw saved (
          find?-save_row_narrow limit_id_of (is_limit_in_force now u dto.limit_key)
            (is_limit_of u dto.limit_key) o (f o) db.limits d found refl
            (in_force-limit now u dto.limit_key) (ground (arith, holds, live))),
      refl,
    )

-- Where no two exemptions have one id, `setLimitOverride` for a user who exists, by a user who has a row,
-- succeeds, and from then on, until it expires, the limit of that user under that key is the value that was set,
-- whatever is configured.
pub set_limit_override-resolve_limit :
    (env later : Env) (u : ℕ) (dto : SetLimitOverride) (acting : ℕ) (db : Db) (usr : User)
    → HasDistinctIds limit_id_of db.limits
    → find? (is_user u) db.users ≡ some usr
    → has_user acting db ≡ true
    → is_unexpired later.now dto.expires_at ≡ true
    → (db' : Db) × (set_limit_override env u dto acting db ≡ (ok tt, db'))
      × ((configured : Option Setting) (default_value : ℕ)
          → resolve_limit later u dto.limit_key configured default_value db' ≡ dto.limit_value)
unfolding set_limit_override resolve_limit limit_value_or
set_limit_override-resolve_limit env later u dto acting db usr d found granter live =
    let (db', l, run, force, value) =
      write_limit-in_force env u dto acting later.now db
        (find? (is_limit_of u dto.limit_key) db.limits) d refl (found-has_user u db usr found)
        granter live in
    (
      db',
      ground (arith, assert_user_exists-ok u db usr found, run),
      λ configured default_value.
          ap (λ o. limit_value_or o (read_configured_value later configured default_value)) force
          ∙ value,
    )

-- The limit that is to apply to a user: that of the exemption in force, or else a whole number of at least
-- 0 that is configured, or else the default.
pub data Applies (env : Env) (u key : ℕ) (configured : Option Setting) (default_value : ℕ) (db : Db)
    : ℕ → Type 0 where
  exempt :
      (newer older : List LimitOverride) (l : LimitOverride)
      → db.limits ≡ newer ++ l ∷ older
      → is_limit_in_force env.now u key l ≡ true
      → Applies env u key configured default_value db l.limit_value
  set :
      (c : Setting) (n : ℕ)
      → any (is_limit_in_force env.now u key) db.limits ≡ false
      → configured ≡ some c
      → number_of env c ≡ whole n
      → Applies env u key configured default_value db n
  invalid :
      (c : Setting)
      → any (is_limit_in_force env.now u key) db.limits ≡ false
      → configured ≡ some c
      → ((n : ℕ) → number_of env c ≢ whole n)
      → Applies env u key configured default_value db default_value
  unset :
      any (is_limit_in_force env.now u key) db.limits ≡ false
      → configured ≡ none
      → Applies env u key configured default_value db default_value

none_in_force :
    (q : LimitOverride → Bool) (ls : List LimitOverride) → any q ls ≡ false → find? q ls ≡ none
unfolding any find?
none_in_force q [] h = refl
none_in_force q (l ∷ ls) h = ground (arith, h, none_in_force q ls)

counted_in :
    (p : LimitOverride → Bool) (newer older : List LimitOverride) (l : LimitOverride)
    → p l ≡ true
    → 0 < count_where p (newer ++ l ∷ older)
unfolding count_where
counted_in p [] older l h = ground (arith, h)
counted_in p (x ∷ newer) older l h = ground (arith, counted_in p newer older l h)

-- Where the index holds, the exemption in force is the one that is found, wherever it stands.
only_in_force :
    (now u key : ℕ) (newer older : List LimitOverride) (l : LimitOverride)
    → count_where (is_limit_of u key) (newer ++ l ∷ older) ≤ 1
    → is_limit_in_force now u key l ≡ true
    → find? (is_limit_in_force now u key) (newer ++ l ∷ older) ≡ some l
unfolding find? count_where
only_in_force now u key [] older l one force = rw force refl
only_in_force now u key (x ∷ newer) older l one force =
    let p = is_limit_of u key in
    let rest = newer ++ l ∷ older in
    let counted = count_where-cons p x rest in
    let own = counted_in p newer older l (in_force-limit now u key l force) in
    elim (Bool-cases (is_limit_in_force now u key x)) [
      | inl here ↦
          let also = in_force-limit now u key x here in
          absurd (ground (arith, one, counted, own, also))
      | inr elsewhere ↦
          rw elsewhere (only_in_force now u key newer older l (ground (arith, one, counted)) force)
    ]

not_whole :
    (f : Figure) (default_value : ℕ)
    → ((n : ℕ) → f ≢ whole n)
    → parsed_or f default_value ≡ default_value
unfolding parsed_or
not_whole not_a_number d h = refl
not_whole infinite d h = refl
not_whole fractional d h = refl
not_whole (below_zero n) d h = refl
not_whole (whole n) d h = absurd (h n refl)

resolve_limit-Applies :
    (env : Env) (u key : ℕ) (configured : Option Setting) (default_value : ℕ) (db : Db) (limit : ℕ)
    → count_where (is_limit_of u key) db.limits ≤ 1
    → Applies env u key configured default_value db limit
    → resolve_limit env u key configured default_value db ≡ limit
unfolding resolve_limit limit_value_or read_configured_value parsed_or
resolve_limit-Applies env u key configured d db limit one (exempt newer older l stands force) =
    let found =
      only_in_force env.now u key newer older l
        (subst (λ ls. count_where (is_limit_of u key) ls ≤ 1) stands one) force in
    ap (λ o. limit_value_or o (read_configured_value env configured d))
      (ap (find? (is_limit_in_force env.now u key)) stands ∙ found)
resolve_limit-Applies env u key configured d db limit one (set c n free given value) =
    rw (none_in_force _ db.limits free, given, value) refl
resolve_limit-Applies env u key configured d db limit one (invalid c free given bad) =
    rw (none_in_force _ db.limits free, given) (not_whole (number_of env c) d bad)
resolve_limit-Applies env u key configured d db limit one (unset free given) =
    rw (none_in_force _ db.limits free, given) refl

-- Where no two live exemptions are of one user and one key, `assertWithinLimit` passes exactly while the
-- count is below the limit that is to apply to the user, and answers Forbidden with that limit from there on;
-- it writes nothing. What is to apply is the exemption in force, wherever it stands in the table; or else
-- what is configured, if it reads as a whole number of at least 0; or else the default.
pub assert_within_limit-Applies :
    (env : Env) (u key : ℕ) (configured : Option Setting) (default_value current_count : ℕ)
    (db : Db) (limit : ℕ)
    → count_where (is_limit_of u key) db.limits ≤ 1
    → Applies env u key configured default_value db limit
    → assert_within_limit env u key configured default_value current_count db
      ≡ (if ltb current_count limit then ok tt else err (limit_reached env limit), db)
unfolding assert_within_limit
assert_within_limit-Applies env u key configured d current_count db limit one applies =
    let value = resolve_limit-Applies env u key configured d db limit one applies in
    rw value (ground arith)
