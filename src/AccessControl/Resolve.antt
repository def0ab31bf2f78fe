-- ===== src/AccessControl/Resolve.antt =====
-- access-control/access-control.service.ts, limit.service.ts and permissions.guard.ts: what a user may
-- do. The services only log besides.
use Prim.Native.String
use sto_info_backend.Base.{
  ℕ, Bool, true, not, ◌&&◌, Option, none, some, List, [], ◌∷◌, ◌==◌, if◌then◌else◌, ltb, is_none,
  map, Action, Error, pure, raise, raise_if, ◌>>=◌, ◌>>◌, gets, modify, forbidden,
}
use sto_info_backend.Store.{keep, find?, any, contains}
use sto_info_backend.Store.Dict.{Dict, lookup, insert}
use sto_info_backend.Store.Sets.{set_add, set_delete}
use sto_info_backend.Users.{UserRole, is_same_role, User, is_user}
use sto_info_backend.AccessControl.Data.{
  PermissionEffect, is_grant, Permission, PermissionOverride, LimitOverride, Db, Env, is_unexpired,
  is_limit_of, Setting, figure, text, Figure, not_a_number, infinite, fractional, below_zero, whole,
}

-- `OverrideRow`
pub record OverrideRow : Type 0 where
  pub code : ℕ
  pub effect : PermissionEffect

-- The joins from a permission to a role.
unfoldable pub confers : UserRole → Db → Permission → Bool
unfolding any is_same_role
confers role db p =
    any
      (λ gp.
        gp.permission_id == p.id
        && any
            (λ g.
              g.id == gp.permission_group_id
              && is_none g.deleted_at
              && any (λ rg. rg.permission_group_id == g.id && is_same_role rg.role role)
                  db.role_groups)
            db.groups)
      db.group_permissions

unfoldable pub find_role_permissions : UserRole → Db → List ℕ
unfolding keep confers
find_role_permissions role db = map (λ p. p.code) (keep (confers role db) db.permissions)

unfoldable pub applies_to : ℕ → ℕ → PermissionOverride → Bool
unfolding is_unexpired
applies_to now user_id o =
    o.user_id == user_id && is_none o.deleted_at && is_unexpired now o.expires_at

-- The permission of an override, joined in by its primary key.
unfoldable pub join_permission : List Permission → PermissionOverride → Option OverrideRow
unfolding find?
join_permission permissions o = elim (find? (λ p. p.id == o.permission_id) permissions) [
  | none ↦ none
  | some p ↦ some (record { code = p.code; effect = o.effect })
]

abbrev pub cons_row : Option OverrideRow → List OverrideRow → List OverrideRow
cons_row none rs = rs
cons_row (some r) rs = r ∷ rs

unfoldable pub join_permissions : List Permission → List PermissionOverride → List OverrideRow
join_permissions permissions [] = []
join_permissions permissions (o ∷ os) =
    cons_row (join_permission permissions o) (join_permissions permissions os)

unfoldable pub find_overrides : ℕ → ℕ → Db → List OverrideRow
unfolding keep applies_to join_permissions
find_overrides now user_id db =
    join_permissions db.permissions (keep (applies_to now user_id) db.overrides)

unfoldable pub apply_override : OverrideRow → List ℕ → List ℕ
unfolding set_add set_delete
apply_override r codes = if is_grant r.effect then set_add r.code codes else set_delete r.code codes

unfoldable pub apply_overrides : List OverrideRow → List ℕ → List ℕ
unfolding apply_override
apply_overrides [] codes = codes
apply_overrides (r ∷ rs) codes = apply_overrides rs (apply_override r codes)

-- `resolvePermissionCodes`, once the user is read.
unfoldable pub codes_with_overrides : ℕ → User → Db → List ℕ
unfolding find_role_permissions find_overrides apply_overrides
codes_with_overrides now u db =
    apply_overrides (find_overrides now u.id db) (find_role_permissions u.role db)

unfoldable pub codes_of_user : ℕ → Option User → Db → List ℕ
codes_of_user now none db = []
codes_of_user now (some u) db = if u.is_account_disabled then [] else codes_with_overrides now u db

unfoldable pub resolve_permission_codes : ℕ → ℕ → Db → List ℕ
unfolding find? is_user
resolve_permission_codes now user_id db = codes_of_user now (find? (is_user user_id) db.users) db

unfoldable pub read_cache : ℕ → Db → Option (List ℕ)
unfolding lookup
read_cache user_id db = elim db.cls [ none ↦ none | some d ↦ lookup user_id d ]

unfoldable pub keep_codes : ℕ → List ℕ → Option (Dict (List ℕ)) → Option (Dict (List ℕ))
unfolding insert
keep_codes user_id codes none = none
keep_codes user_id codes (some d) = some (insert user_id codes d)

unfoldable pub write_cache : ℕ → List ℕ → Db → Db
unfolding keep_codes
write_cache user_id codes db = record db { cls = keep_codes user_id codes db.cls }

-- `getPermissionCodes`, by what the request has kept.
unfoldable pub resolve_and_keep : Env → ℕ → Option (List ℕ) → Action Db (List ℕ)
resolve_and_keep env user_id (some codes) = pure codes
resolve_and_keep env user_id none = do
  codes ← gets (resolve_permission_codes env.now user_id)
  modify (write_cache user_id codes)
  pure codes

unfoldable pub get_permission_codes : Env → ℕ → Action Db (List ℕ)
get_permission_codes env user_id = do
  cached ← gets (read_cache user_id)
  resolve_and_keep env user_id cached

unfoldable pub has_permission : Env → ℕ → ℕ → Action Db Bool
has_permission env user_id code = do
  codes ← get_permission_codes env user_id
  pure (contains code codes)

unfoldable pub assert_permission : Env → ℕ → ℕ → Action Db (Unit {0})
assert_permission env user_id code = do
  held ← has_permission env user_id code
  raise_if (not held) (forbidden "Insufficient permissions")

-- `PermissionsGuard.canActivate`: the codes that the handler or its class declares, and the user of
-- the request.
unfoldable pub holds_all : List ℕ → List ℕ → Bool
unfolding contains
holds_all codes [] = true
holds_all codes (c ∷ cs) = contains c codes && holds_all codes cs

unfoldable pub activate_for : Env → Option ℕ → List ℕ → Action Db Bool
activate_for env none required = raise (forbidden "Insufficient permissions")
activate_for env (some user_id) required = do
  codes ← get_permission_codes env user_id
  raise_if (not (holds_all codes required)) (forbidden "Insufficient permissions")
  pure true

unfoldable pub can_activate : Env → Option ℕ → List ℕ → Action Db Bool
can_activate env caller [] = pure true
can_activate env caller (c ∷ required) = activate_for env caller (c ∷ required)

-- `LimitService.resolve`
unfoldable pub is_limit_in_force : ℕ → ℕ → ℕ → LimitOverride → Bool
unfolding is_limit_of is_unexpired
is_limit_in_force now user_id key l = is_limit_of user_id key l && is_unexpired now l.expires_at

-- `Number(configured)`: a number is itself, a text what the runtime reads of it.
unfoldable pub number_of : Env → Setting → Figure
number_of env (figure f) = f
number_of env (text s) = env.read_number s

-- `!Number.isInteger(parsed) || parsed < 0` falls back to the default.
unfoldable pub parsed_or : Figure → ℕ → ℕ
parsed_or not_a_number default_value = default_value
parsed_or infinite default_value = default_value
parsed_or fractional default_value = default_value
parsed_or (below_zero n) default_value = default_value
parsed_or (whole n) default_value = n

unfoldable pub read_configured_value : Env → Option Setting → ℕ → ℕ
unfolding number_of parsed_or
read_configured_value env none default_value = default_value
read_configured_value env (some configured) default_value =
    parsed_or (number_of env configured) default_value

unfoldable pub limit_value_or : Option LimitOverride → ℕ → ℕ
limit_value_or none n = n
limit_value_or (some l) n = l.limit_value

unfoldable pub resolve_limit : Env → ℕ → ℕ → Option Setting → ℕ → Db → ℕ
unfolding find? is_limit_in_force read_configured_value limit_value_or
resolve_limit env user_id key configured default_value db =
    limit_value_or (find? (is_limit_in_force env.now user_id key) db.limits)
      (read_configured_value env configured default_value)

unfoldable pub limit_reached : Env → ℕ → Error
limit_reached env limit = forbidden (
    String.◌++◌ (String.◌++◌ "You have reached the maximum of " (env.show_number limit))
      " allowed. Contact an administrator if you need this raised.")

unfoldable pub assert_within_limit : Env → ℕ → ℕ → Option Setting → ℕ → ℕ → Action Db (Unit {0})
assert_within_limit env user_id key configured default_value current_count = do
  limit ← gets (resolve_limit env user_id key configured default_value)
  raise_if (not (ltb current_count limit)) (limit_reached env limit)
