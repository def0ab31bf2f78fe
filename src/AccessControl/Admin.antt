-- ===== src/AccessControl/Admin.antt =====
-- access-control/access-control-admin.service.ts: roles and overrides as administrators change them.
use sto_info_backend.Base.{
  ℕ, String, Bool, true, false, not, ◌&&◌, Option, none, some, List, ◌==◌, if◌then◌else◌, map,
  is_none, Action, pure, raise_if, ◌>>=◌, ◌>>◌, gets, or_raise, modify, bad_request, forbidden,
  not_found,
}
use sto_info_backend.Store.{keep, find?, any, update_where}
use sto_info_backend.Store.Order.{sort_by, is_newer_first}
use sto_info_backend.Users.{
  UserRole, user, admin, storytime_curator, is_admin, is_same_role, User, is_user,
}
use sto_info_backend.AccessControl.Data.{
  PermissionEffect, Permission, PermissionOverride, Db, Env, permission_id_of, permission_code_of,
  is_override_of, insert_override, grant_row,
}
use sto_info_backend.AccessControl.Resolve.{get_permission_codes}

-- `SetPermissionOverrideDto`
pub record SetPermissionOverride : Type 0 where
  pub permission_code : ℕ
  pub effect : PermissionEffect
  pub reason : String
  pub expires_at : Option ℕ

-- `UserAccessSummaryDto`; a permission whose code is not found is none.
pub record OverrideSummary : Type 0 where
  pub id : ℕ
  pub permission_code : Option ℕ
  pub effect : PermissionEffect
  pub reason : String
  pub granted_by_user_id : ℕ
  pub expires_at : Option ℕ
  pub created_at : ℕ

pub record UserAccessSummary : Type 0 where
  pub user_id : ℕ
  pub role : UserRole
  pub effective_permissions : List ℕ
  pub overrides : List OverrideSummary

unfoldable pub require_user : ℕ → Action Db User
require_user user_id = do
  found ← gets (λ db. find? (is_user user_id) db.users)
  or_raise found (not_found "User not found")

unfoldable pub assert_user_exists : ℕ → Action Db (Unit {0})
assert_user_exists user_id = do
  exists ← gets (λ db. any (is_user user_id) db.users)
  raise_if (not exists) (not_found "User not found")

unfoldable pub code_by_id : List Permission → ℕ → Option ℕ
unfolding find? permission_id_of
code_by_id permissions permission_id =
    elim (find? (λ p. permission_id_of p == permission_id) permissions) [
      | none ↦ none
      | some p ↦ some p.code
    ]

unfoldable pub to_override_summary : List Permission → PermissionOverride → OverrideSummary
unfolding code_by_id
to_override_summary permissions o = record {
  id = o.id;
  permission_code = code_by_id permissions o.permission_id;
  effect = o.effect;
  reason = o.reason;
  granted_by_user_id = o.granted_by_user_id;
  expires_at = o.expires_at;
  created_at = o.created_at;
}

-- `find({ where: { userId }, order: { createdAt: 'DESC' } })`
unfoldable pub is_live_of : ℕ → PermissionOverride → Bool
is_live_of user_id o = o.user_id == user_id && is_none o.deleted_at

unfoldable pub find_live_overrides : ℕ → Db → List OverrideSummary
unfolding keep sort_by is_live_of to_override_summary
find_live_overrides user_id db =
    map (to_override_summary db.permissions)
      (sort_by (is_newer_first (λ o. o.created_at)) (keep (is_live_of user_id) db.overrides))

unfoldable pub to_access_summary : Env → ℕ → User → List ℕ → Db → UserAccessSummary
unfolding sort_by find_live_overrides
to_access_summary env user_id u codes db = record {
  user_id = user_id;
  role = u.role;
  effective_permissions = sort_by env.is_before codes;
  overrides = find_live_overrides user_id db;
}

-- `getUserAccessSummary`, once the user is read.
unfoldable pub describe_access : Env → ℕ → User → Action Db UserAccessSummary
describe_access env user_id u = do
  codes ← get_permission_codes env user_id
  gets (to_access_summary env user_id u codes)

unfoldable pub get_user_access_summary : Env → ℕ → Action Db UserAccessSummary
get_user_access_summary env user_id = do u ← require_user user_id; describe_access env user_id u

unfoldable pub require_permission : ℕ → Action Db Permission
require_permission code = do
  found ← gets (λ db. find? (λ p. permission_code_of p == code) db.permissions)
  or_raise found (not_found "Permission not found")

unfoldable pub new_override : Env → ℕ → ℕ → SetPermissionOverride → ℕ → PermissionOverride
new_override env user_id permission_id dto acting_user_id = record {
  id = env.new_id;
  user_id = user_id;
  permission_id = permission_id;
  effect = dto.effect;
  reason = dto.reason;
  granted_by_user_id = acting_user_id;
  expires_at = dto.expires_at;
  created_at = env.now;
  deleted_at = none;
}

unfoldable pub rewrite_override :
    SetPermissionOverride → ℕ → PermissionOverride → PermissionOverride
rewrite_override dto acting_user_id o = record o {
  effect = dto.effect;
  reason = dto.reason;
  granted_by_user_id = acting_user_id;
  expires_at = dto.expires_at;
}

-- `update(id, { ... })` and `softDelete(id)`
unfoldable pub update_override :
    ℕ
    → (PermissionOverride → PermissionOverride)
    → List PermissionOverride
    → List PermissionOverride
unfolding update_where
update_override id = update_where (λ o. o.id == id)

unfoldable pub write_override :
    Env → ℕ → ℕ → SetPermissionOverride → ℕ → Option PermissionOverride → Action Db (Unit {0})
write_override env user_id permission_id dto acting_user_id none =
    insert_override (new_override env user_id permission_id dto acting_user_id)
write_override env user_id permission_id dto acting_user_id (some o) =
    grant_row acting_user_id (λ db. record db {
      overrides = update_override o.id (rewrite_override dto acting_user_id) db.overrides;
    })

-- `setPermissionOverride` up to the summary that it answers with.
unfoldable pub put_override : Env → ℕ → SetPermissionOverride → ℕ → Action Db (Unit {0})
put_override env user_id dto acting_user_id = do
  assert_user_exists user_id
  permission ← require_permission dto.permission_code
  existing ← gets (λ db. find? (is_override_of user_id permission.id) db.overrides)
  write_override env user_id permission.id dto acting_user_id existing

unfoldable pub set_permission_override :
    Env → ℕ → SetPermissionOverride → ℕ → Action Db UserAccessSummary
set_permission_override env user_id dto acting_user_id = do
  put_override env user_id dto acting_user_id
  get_user_access_summary env user_id

unfoldable pub soft_delete_override : Env → ℕ → Action Db (Unit {0})
soft_delete_override env id = modify (λ db. record db {
  overrides = update_override id (λ o. record o { deleted_at = some env.now }) db.overrides;
})

unfoldable pub withdraw_override : Env → ℕ → ℕ → Action Db (Unit {0})
withdraw_override env user_id permission_code = do
  assert_user_exists user_id
  permission ← require_permission permission_code
  found ← gets (λ db. find? (is_override_of user_id permission.id) db.overrides)
  o ← or_raise found (not_found "Permission override not found")
  soft_delete_override env o.id

unfoldable pub remove_permission_override : Env → ℕ → ℕ → Action Db UserAccessSummary
remove_permission_override env user_id permission_code = do
  withdraw_override env user_id permission_code
  get_user_access_summary env user_id

-- `ASSIGNABLE_USER_ROLES.includes(role)`
unfoldable pub is_assignable : UserRole → Bool
is_assignable user = true
is_assignable storytime_curator = true
is_assignable admin = false

unfoldable pub update_role : ℕ → UserRole → Db → Db
unfolding update_where
update_role user_id role db = record db {
  users = update_where (λ u. u.id == user_id) (λ u. record u { role = role }) db.users;
}

unfoldable pub change_role : ℕ → UserRole → User → Action Db (Unit {0})
unfolding is_same_role
change_role user_id role u =
    if is_same_role u.role role then pure tt else modify (update_role user_id role)

-- `setUserRole` up to the summary that it answers with.
unfoldable pub put_role : ℕ → UserRole → ℕ → Action Db (Unit {0})
put_role user_id role acting_user_id = do
  raise_if (user_id == acting_user_id) (bad_request "You cannot change your own role")
  raise_if (not (is_assignable role))
      (forbidden "The administrator role is granted outside the application")
  u ← require_user user_id
  raise_if (is_admin u.role) (forbidden "Administrator roles are managed outside the application")
  change_role user_id role u

unfoldable pub set_user_role : Env → ℕ → UserRole → ℕ → Action Db UserAccessSummary
set_user_role env user_id role acting_user_id = do
  put_role user_id role acting_user_id
  get_user_access_summary env user_id
