-- ===== src/AccessControl/Grants.antt =====
-- What setting and withdrawing an override does to what users may do.
use sto_info_backend.Base.{
  ℕ, ◌≡◌, refl, ap, inl, inr, Bool, true, false, ◌&&◌, Option, none, some, List, [], ◌∷◌, arith,
  ◌==◌, if◌then◌else◌, Bool-cases, ok,
}
use sto_info_backend.Store.{find?, any, has_id}
use sto_info_backend.Store.Laws.{find?-holds, find?-cons_true, any-false_of_find?}
use sto_info_backend.Store.Keys.{find?-by_key}
use sto_info_backend.Users.{user_id_of, User, is_user}
use sto_info_backend.AccessControl.Data.{
  is_grant, Permission, PermissionOverride, Db, Env, override_id_of, permission_code_of,
  permission_id_of, is_override_of, is_unexpired, insert_override, has_user, grant_row,
}
use sto_info_backend.AccessControl.Resolve.{confers}
use sto_info_backend.AccessControl.Lookup.{PermissionsValid, is_in_force, effect_or}
use sto_info_backend.AccessControl.Rights.{may_with, find_permission, may_of, may, RightsValid}
use sto_info_backend.AccessControl.Tables.{
  OverridesValid, Written, update_override-Written, update_override-in_force, cons-Written,
}
use sto_info_backend.AccessControl.Admin.{
  SetPermissionOverride, assert_user_exists, require_permission, new_override, rewrite_override,
  update_override, write_override,
}

-- The indexes of the permissions and of the overrides.
pub record AccessValid (db : Db) : Type 0 where
  pub permissions : PermissionsValid db.permissions
  pub overrides : OverridesValid db.overrides

pub AccessValid-RightsValid : (db : Db) → AccessValid db → RightsValid db
AccessValid-RightsValid db v = record {
  permissions = v.permissions;
  one_override = v.overrides.one;
}

-- The rights of everyone but one user on one code are as they were.
abbrev pub LeavesOthers : ℕ → ℕ → Db → Db → Type 0
LeavesOthers user_id code db db' =
    (now u c : ℕ) → ((u == user_id) && (c == code)) ≡ false → may now u c db' ≡ may now u c db

any_of_found :
    (user_id : ℕ) (us : List User) (usr : User)
    → find? (is_user user_id) us ≡ some usr
    → any (is_user user_id) us ≡ true
unfolding find? any
any_of_found user_id [] usr h = cc
any_of_found user_id (x ∷ xs) usr h = ground (arith, any_of_found user_id xs usr)

pub assert_user_exists-ok :
    (user_id : ℕ) (db : Db) (usr : User)
    → find? (is_user user_id) db.users ≡ some usr
    → assert_user_exists user_id db ≡ (ok tt, db)
unfolding assert_user_exists
assert_user_exists-ok user_id db usr h = rw (any_of_found user_id db.users usr h) refl

found_row :
    (user_id : ℕ) (us : List User) (usr : User)
    → find? (is_user user_id) us ≡ some usr
    → has_id user_id_of user_id us ≡ true
unfolding find? has_id is_user user_id_of
found_row user_id [] usr h = cc
found_row user_id (x ∷ xs) usr h = ground (arith, h, found_row user_id xs usr)

-- The rows that the foreign keys lead to.
pub found-has_user :
    (user_id : ℕ) (db : Db) (usr : User)
    → find? (is_user user_id) db.users ≡ some usr
    → has_user user_id db ≡ true
unfolding has_user
found-has_user user_id db usr h = found_row user_id db.users usr h

permission_row :
    (code : ℕ) (ps : List Permission) (p : Permission)
    → find? (λ q. permission_code_of q == code) ps ≡ some p
    → has_id permission_id_of p.id ps ≡ true
unfolding find? has_id permission_id_of
permission_row code [] p h = cc
permission_row code (x ∷ xs) p h = elim (Bool-cases (permission_code_of x == code)) [
  | inl here ↦ let same : x ≡ p = ground (arith, here, h) in ground (arith, ap (λ q. q.id) same)
  | inr later ↦ ground (arith, permission_row code xs p (ground (arith, later, h)))
]

pub found-has_permission :
    (code : ℕ) (db : Db) (p : Permission)
    → find_permission code db ≡ some p
    → has_id permission_id_of p.id db.permissions ≡ true
unfolding find_permission
found-has_permission code db p h = permission_row code db.permissions p h

pub require_permission-ok :
    (code : ℕ) (db : Db) (p : Permission)
    → find_permission code db ≡ some p
    → require_permission code db ≡ (ok p, db)
unfolding require_permission find_permission
require_permission-ok code db p h = rw h refl

other_permission :
    (db : Db) (c code : ℕ) (p q : Permission)
    → AccessValid db
    → find_permission code db ≡ some p
    → find_permission c db ≡ some q
    → (c == code) ≡ false
    → (q.id == p.id) ≡ false
unfolding find_permission permission_code_of permission_id_of
other_permission db c code p q v h k apart =
    let ps = db.permissions in
    let p_id = find?-by_key permission_id_of (λ r. r.code == code) p ps v.permissions.ids h in
    let q_id = find?-by_key permission_id_of (λ r. r.code == c) q ps v.permissions.ids k in
    let p_code = find?-holds (λ r. r.code == code) ps p h in
    let q_code = find?-holds (λ r. r.code == c) ps q k in
    elim (Bool-cases (q.id == p.id)) [
      | inl same ↦
          let e : q.id ≡ p.id = ground (arith, same) in
          let again : find? (λ r. r.id == p.id) ps ≡ some q = rw (← e) q_id in
          ground (arith, p_id, again, p_code, q_code, apart)
      | inr ne ↦ ne
    ]

may_with-written :
    (now : ℕ) (db : Db) (os : List PermissionOverride) (usr : User) (o : Option Permission)
    → ((p : Permission)
        → o ≡ some p
        → find? (is_in_force now usr.id p.id) os ≡ find? (is_in_force now usr.id p.id) db.overrides)
    → may_with now usr o (record db { overrides = os }) ≡ may_with now usr o db
unfolding may_with confers
may_with-written now db os usr none h = refl
may_with-written now db os usr (some p) h = rw (h p refl) refl

may_of-written :
    (now c : ℕ) (db : Db) (os : List PermissionOverride) (u : ℕ) (o : Option User)
    → find? (is_user u) db.users ≡ o
    → ((p : Permission)
        → find_permission c db ≡ some p
        → find? (is_in_force now u p.id) os ≡ find? (is_in_force now u p.id) db.overrides)
    → may_of now o c (record db { overrides = os }) ≡ may_of now o c db
unfolding may_of find_permission is_user
may_of-written now c db os u none found h = refl
may_of-written now c db os u (some usr) found h =
    let is_u = find?-holds (is_user u) db.users usr found in
    let e : usr.id ≡ u = ground (arith, is_u) in
    ap (λ b. if usr.is_account_disabled then false else b)
      (may_with-written now db os usr (find_permission c db) (λ p known. rw e (h p known)))

-- A table written for one pair, as the rights of the others.
Written-LeavesOthers :
    (db : Db) (user_id code : ℕ) (p : Permission) (os : List PermissionOverride)
    → AccessValid db
    → find_permission code db ≡ some p
    → Written user_id p.id db.overrides os
    → LeavesOthers user_id code db (record db { overrides = os })
unfolding may
Written-LeavesOthers db user_id code p os v known w now u c apart =
    may_of-written now c db os u (find? (is_user u) db.users) refl
      (λ q h. w.others now u q.id (pair_apart q h))
  where
    pair_apart :
        (q : Permission)
        → find_permission c db ≡ some q
        → ((u == user_id) && (q.id == p.id)) ≡ false
    pair_apart q h = elim (Bool-cases (c == code)) [
      | inl same ↦ ground (arith, same, apart)
      | inr ne ↦ ground (arith, other_permission db c code p q v known h ne)
    ]

-- What a write to the override of one user and one permission leaves behind.
pub record Leaves (user_id code : ℕ) (db db' : Db) : Type 0 where
  pub valid : AccessValid db'
  pub others : LeavesOthers user_id code db db'

pub Written-Leaves :
    (db : Db) (user_id code : ℕ) (p : Permission) (os : List PermissionOverride)
    → AccessValid db
    → find_permission code db ≡ some p
    → Written user_id p.id db.overrides os
    → Leaves user_id code db (record db { overrides = os })
Written-Leaves db user_id code p os v known w = record {
  valid = record { permissions = v.permissions; overrides = w.valid };
  others = Written-LeavesOthers db user_id code p os v known w;
}

-- The rights of a user whose override is known.
pub may-of_override :
    (now user_id code : ℕ) (db : Db) (usr : User) (p : Permission) (o : Option PermissionOverride)
    → find? (is_user user_id) db.users ≡ some usr
    → usr.is_account_disabled ≡ false
    → find_permission code db ≡ some p
    → find? (is_in_force now user_id p.id) db.overrides ≡ o
    → may now user_id code db ≡ effect_or o (confers usr.role db p)
unfolding may may_of may_with is_user
may-of_override now user_id code db usr p o found enabled known force =
    let is_u = find?-holds (is_user user_id) db.users usr found in
    let e : usr.id ≡ user_id = ground (arith, is_u) in
    let force' : find? (is_in_force now usr.id p.id) db.overrides ≡ o = rw e force in
    rw (found, known) (ground (arith, enabled, force'))

module _ (env : Env) (user_id : ℕ) (dto : SetPermissionOverride) (acting : ℕ) where
  abbrev pub written :
      (os : List PermissionOverride) → ℕ → Option PermissionOverride → List PermissionOverride
  written os p none = new_override env user_id p dto acting ∷ os
  written os p (some o) = update_override o.id (rewrite_override dto acting) os

  pub write_override-ok :
      (db : Db) (p : ℕ) (o : Option PermissionOverride)
      → find? (is_override_of user_id p) db.overrides ≡ o
      → has_user user_id db ≡ true
      → has_id permission_id_of p db.permissions ≡ true
      → has_user acting db ≡ true
      → write_override env user_id p dto acting o db
        ≡ (ok tt, record db { overrides = written db.overrides p o })
  unfolding write_override insert_override grant_row new_override
  write_override-ok db p none h user permission granter =
      rw (any-false_of_find? (is_override_of user_id p) db.overrides h, user, permission, granter)
        refl
  write_override-ok db p (some o) h user permission granter = rw granter refl

  pub written-Written :
      (os : List PermissionOverride) (p : ℕ) (o : Option PermissionOverride)
      → OverridesValid os
      → has_id override_id_of env.new_id os ≡ false
      → find? (is_override_of user_id p) os ≡ o
      → Written user_id p os (written os p o)
  unfolding new_override rewrite_override is_override_of
  written-Written os p none v new h =
      cons-Written os v (new_override env user_id p dto acting) new h
  written-Written os p (some o) v new h =
      update_override-Written user_id p os v o h (rewrite_override dto acting) refl (λ u' p' m. m)

  pub written-in_force :
      (now : ℕ) (os : List PermissionOverride) (p : ℕ) (o : Option PermissionOverride)
      → OverridesValid os
      → find? (is_override_of user_id p) os ≡ o
      → is_unexpired now dto.expires_at ≡ true
      → (b : Bool)
      → effect_or (find? (is_in_force now user_id p) (written os p o)) b ≡ is_grant dto.effect
  unfolding new_override rewrite_override is_override_of is_in_force
  written-in_force now os p none v h live b =
      rw
        (find?-cons_true (is_in_force now user_id p) (new_override env user_id p dto acting) os
          (ground (arith, live)))
        refl
  written-in_force now os p (some o) v h live b =
      let holds = find?-holds (is_override_of user_id p) os o h in
      rw
        (update_override-in_force user_id p os v o h (rewrite_override dto acting) refl now
          (ground (arith, holds, live)))
        refl
