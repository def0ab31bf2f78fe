-- ===== src/AccessControl/Tests.antt =====
-- Runs of the access control, and the theorems about it at concrete inputs.
use sto_info_backend.Base.{
  ℕ, ◌≡◌, refl, true, false, none, some, [], ◌∷◌, ok, err, forbidden, Option, if◌then◌else◌, leb,
  arith,
}
use sto_info_backend.Store.{contains, find?, has_id, count_where}
use sto_info_backend.Store.Dict.{lookup}
use sto_info_backend.Users.{user_id_of, UserRole, user, admin, storytime_curator, User, is_user}
use sto_info_backend.AccessControl.Data.{
  Setting, text, whole, LimitOverride, has_user, is_limit_of, grant, deny, is_grant,
  PermissionOverride, Db, Env, override_id_of, is_override_of, is_unexpired, permission_id_of,
  permission_code_of,
}
use sto_info_backend.AccessControl.Resolve.{
  is_limit_in_force, resolve_permission_codes, codes_of_user, codes_with_overrides, join_permission,
  read_cache, assert_permission, can_activate, confers, resolve_limit, limit_reached,
  assert_within_limit,
}
use sto_info_backend.AccessControl.Rights.{find_permission, may, resolve_permission_codes-may}
use sto_info_backend.AccessControl.Admin.{
  SetPermissionOverride, UserAccessSummary, set_permission_override, remove_permission_override,
  set_user_role,
}
use sto_info_backend.AccessControl.Exemptions.{SetLimitOverride, set_limit_override}
use sto_info_backend.AccessControl.Grants.{AccessValid, AccessValid-RightsValid, Leaves}
use sto_info_backend.AccessControl.Answers.{
  assert_permission-may, set_permission_override-may, remove_permission_override-may,
}
use sto_info_backend.AccessControl.Roles.{
  admins, set_user_role-admins, is_cleared, can_activate-may_all,
}
use sto_info_backend.AccessControl.Limits.{
  set_limit_override-resolve_limit, assert_within_limit-Applies, Applies, exempt,
}

abbrev env : Env
env = record {
  now = 10;
  new_id = 90;
  show_number = λ n. "5";
  read_number = λ s. whole 9;
  is_before = leb;
}

abbrev someone : ℕ → UserRole → User
someone n role = record {
  id = n;
  email = "someone@example.com";
  password = 0;
  email_verified = true;
  email_verification_token = none;
  email_verification_token_expiry = none;
  password_reset_token = none;
  password_reset_token_expiry = none;
  last_password_reset = none;
  role = role;
  is_account_disabled = false;
  disabled_at = none;
  disabled_reason = none;
  disabled_by_id = none;
  last_login_at = none;
  created_at = 1;
  deleted_at = none;
}

abbrev barred : PermissionOverride
barred = record {
  id = 80;
  user_id = 1;
  permission_id = 20;
  effect = deny;
  reason = "abuse";
  granted_by_user_id = 2;
  expires_at = none;
  created_at = 3;
  deleted_at = none;
}

-- One member, one administrator, and two permissions of which the members' group has one.
abbrev start : Db
start = record {
  users = someone 1 user ∷ someone 2 admin ∷ [];
  permissions = record { id = 20; code = 200 } ∷ record { id = 21; code = 210 } ∷ [];
  groups = record { id = 30; deleted_at = none } ∷ [];
  group_permissions = record { permission_group_id = 30; permission_id = 20 } ∷ [];
  role_groups = record { role = user; permission_group_id = 30 } ∷ [];
  overrides = barred ∷ [];
  limits = [];
  cls = some [];
}

abbrev grant_other : SetPermissionOverride
grant_other = record {
  permission_code = 210;
  effect = grant;
  reason = "trusted";
  expires_at = some 50;
}

abbrev raise_limit : SetLimitOverride
raise_limit = record { limit_key = 7; limit_value = 40; reason = "prolific"; expires_at = none }

codes_at_start : resolve_permission_codes 10 1 start ≡ []
unfolding resolve_permission_codes codes_of_user codes_with_overrides join_permission
codes_at_start = refl

start-AccessValid : AccessValid start
unfolding has_id permission_id_of permission_code_of override_id_of count_where is_override_of
start-AccessValid = record {
  permissions = record { ids = (refl, (refl, tt)); codes = (refl, (refl, tt)) };
  overrides = record { ids = (refl, tt); one = λ u p. ground arith };
}

resolve_permission_codes-may_example :
    contains 200 (resolve_permission_codes 10 1 start) ≡ may 10 1 200 start
resolve_permission_codes-may_example =
    resolve_permission_codes-may 10 1 200 start (AccessValid-RightsValid start start-AccessValid)

nothing_kept : read_cache 1 start ≡ none
unfolding read_cache lookup
nothing_kept = refl

assert_permission-may_example :
    (assert_permission env 1 200 start).0
    ≡ (if may 10 1 200 start then ok tt else err (forbidden "Insufficient permissions"))
assert_permission-may_example = assert_permission-may env 1 200 start start-AccessValid nothing_kept

can_activate-may_all_example : (can_activate env (some 1) (210 ∷ 200 ∷ []) start).0 ≡ (
    if is_cleared 10 (some 1) (210 ∷ 200 ∷ []) start
    then ok true
    else err (forbidden "Insufficient permissions"))
unfolding read_cache lookup
can_activate-may_all_example =
    can_activate-may_all env (some 1) (210 ∷ 200 ∷ []) start start-AccessValid (λ u e. refl)

set_permission_override-may_example :
    (s : UserAccessSummary) × (db' : Db) × (set_permission_override env 1 grant_other 2 start
      ≡ (ok s, db'))
    × Leaves 1 210 start db'
    × ((now : ℕ)
        → is_unexpired now (some 50) ≡ true
        → false ≡ false
        → may now 1 210 db' ≡ is_grant grant)
unfolding has_id override_id_of find? is_user find_permission permission_code_of has_user user_id_of
set_permission_override-may_example =
    set_permission_override-may env start 1 grant_other 2 (someone 1 user)
      (record { id = 21; code = 210 }) start-AccessValid refl refl refl refl

remove_permission_override-may_example :
    (s : UserAccessSummary) × (db' : Db) × (remove_permission_override env 1 200 start
      ≡ (ok s, db'))
    × Leaves 1 200 start db'
    × ((now : ℕ)
        → false ≡ false
        → may now 1 200 db' ≡ confers user start (record { id = 20; code = 200 }))
unfolding find? is_user find_permission permission_code_of is_override_of
remove_permission_override-may_example =
    remove_permission_override-may env start 1 200 (someone 1 user) (record { id = 20; code = 200 })
      barred start-AccessValid refl refl refl

set_user_role-admins_example :
    admins (set_user_role env 1 storytime_curator 2 start).1 ≡ admins start
unfolding has_id user_id_of
set_user_role-admins_example =
    set_user_role-admins env start 1 storytime_curator 2 (refl, (refl, tt))

abbrev soon : Env
soon = record env { now = 20 }

set_limit_override-resolve_limit_example :
    (db' : Db) × (set_limit_override env 1 raise_limit 2 start ≡ (ok tt, db'))
    × ((configured : Option Setting) (default_value : ℕ)
        → resolve_limit soon 1 7 configured default_value db' ≡ 40)
unfolding find? is_user is_unexpired has_user has_id user_id_of
set_limit_override-resolve_limit_example =
    set_limit_override-resolve_limit env soon 1 raise_limit 2 start (someone 1 user) tt refl refl
      refl

-- A limit of two, an exemption of another member beside it.
abbrev exemption : LimitOverride
exemption = record {
  id = 70;
  user_id = 1;
  limit_key = 7;
  limit_value = 2;
  reason = "abuse";
  granted_by_user_id = 2;
  expires_at = none;
  created_at = 3;
  deleted_at = none;
}

abbrev exempted : Db
exempted = record start { limits = record exemption { id = 71; user_id = 2 } ∷ exemption ∷ [] }

in_force : Applies env 1 7 (some (text "9")) 3 exempted 2
unfolding is_limit_in_force is_limit_of is_unexpired
in_force = exempt (record exemption { id = 71; user_id = 2 } ∷ []) [] exemption refl refl

assert_within_limit-Applies_example :
    assert_within_limit env 1 7 (some (text "9")) 3 2 exempted
    ≡ (err (limit_reached env 2), exempted)
unfolding count_where is_limit_of
assert_within_limit-Applies_example =
    assert_within_limit-Applies env 1 7 (some (text "9")) 3 2 exempted 2 (omega arith) in_force
