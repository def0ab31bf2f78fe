-- ===== src/AccessControl/Data.antt =====
-- The rows behind the access control: access-control/entities, with the constraints of the migration
-- database/migrations/1787700000000-CreateAccessControl.ts. Codes and configuration keys are only
-- compared, so they are numbers, as the identifiers are.
use sto_info_backend.Base.{
  ℕ, String, Bool, true, false, not, ◌&&◌, Option, none, some, List, ◌∷◌, ◌==◌, if◌then◌else◌, ltb,
  is_none, Action, ok, err, query_failed, reference_failed,
}
use sto_info_backend.Store.{any, has_id}
use sto_info_backend.Store.Dict.{Dict}
use sto_info_backend.Users.{UserRole, User, user_id_of}

pub data PermissionEffect : Type 0 where
  grant deny : PermissionEffect

abbrev pub is_grant : PermissionEffect → Bool
is_grant e = elim e [ grant ↦ true | deny ↦ false ]

pub record Permission : Type 0 where
  pub id : ℕ
  pub code : ℕ

pub record PermissionGroup : Type 0 where
  pub id : ℕ
  pub deleted_at : Option ℕ

pub record GroupPermission : Type 0 where
  pub permission_group_id : ℕ
  pub permission_id : ℕ

pub record RoleGroup : Type 0 where
  pub role : UserRole
  pub permission_group_id : ℕ

pub record PermissionOverride : Type 0 where
  pub id : ℕ
  pub user_id : ℕ
  pub permission_id : ℕ
  pub effect : PermissionEffect
  pub reason : String
  pub granted_by_user_id : ℕ
  pub expires_at : Option ℕ
  pub created_at : ℕ
  pub deleted_at : Option ℕ

pub record LimitOverride : Type 0 where
  pub id : ℕ
  pub user_id : ℕ
  pub limit_key : ℕ
  pub limit_value : ℕ
  pub reason : String
  pub granted_by_user_id : ℕ
  pub expires_at : Option ℕ
  pub created_at : ℕ
  pub deleted_at : Option ℕ

-- `cls` is the storage of the request under way, none outside of one.
pub record Db : Type 0 where
  pub users : List User
  pub permissions : List Permission
  pub groups : List PermissionGroup
  pub group_permissions : List GroupPermission
  pub role_groups : List RoleGroup
  pub overrides : List PermissionOverride
  pub limits : List LimitOverride
  pub cls : Option (Dict (List ℕ))

-- A number of the runtime, as far as the code tells it apart; `below_zero n` is minus `suc n`.
pub data Figure : Type 0 where
  not_a_number infinite fractional : Figure
  below_zero whole : ℕ → Figure

-- A value of the configuration.
pub data Setting : Type 0 where
  figure : Figure → Setting
  text : String → Setting

-- What a request meets outside this code: the time, the uuid that the database draws, how the runtime
-- writes a number and reads one, and its `localeCompare` on codes.
pub record Env : Type 0 where
  pub now : ℕ
  pub new_id : ℕ
  pub show_number : ℕ → String
  pub read_number : String → Figure
  pub is_before : ℕ → ℕ → Bool

unfoldable pub permission_id_of : Permission → ℕ
permission_id_of p = p.id

unfoldable pub permission_code_of : Permission → ℕ
permission_code_of p = p.code

unfoldable pub override_id_of : PermissionOverride → ℕ
override_id_of o = o.id

unfoldable pub limit_id_of : LimitOverride → ℕ
limit_id_of l = l.id

-- `expiresAt IS NULL OR expiresAt > now()`
unfoldable pub is_unexpired : ℕ → Option ℕ → Bool
is_unexpired now none = true
is_unexpired now (some t) = ltb now t

-- The live override of one user and one permission, expired or not.
unfoldable pub is_override_of : ℕ → ℕ → PermissionOverride → Bool
is_override_of user_id permission_id o =
    o.user_id == user_id && o.permission_id == permission_id && is_none o.deleted_at

unfoldable pub is_limit_of : ℕ → ℕ → LimitOverride → Bool
is_limit_of user_id limit_key l =
    l.user_id == user_id && l.limit_key == limit_key && is_none l.deleted_at

-- What a foreign key to the table of users leads to, removed softly or not.
unfoldable pub has_user : ℕ → Db → Bool
unfolding has_id
has_user user_id db = has_id user_id_of user_id db.users

-- `save` of a new row, which the unique indexes UQ_user_permission_override and UQ_user_limit_override may
-- refuse, and the foreign keys to the user, to the permission and to who granted it.
unfoldable pub insert_override : PermissionOverride → Action Db (Unit {0})
unfolding any is_override_of has_user has_id permission_id_of
insert_override o db =
    if is_none o.deleted_at && any (is_override_of o.user_id o.permission_id) db.overrides
    then (err query_failed, db)
    else if not (has_user o.user_id db)
    then (err (reference_failed o.user_id), db)
    else if not (has_id permission_id_of o.permission_id db.permissions)
    then (err (reference_failed o.permission_id), db)
    else if not (has_user o.granted_by_user_id db)
    then (err (reference_failed o.granted_by_user_id), db)
    else (ok tt, record db { overrides = o ∷ db.overrides })

unfoldable pub insert_limit : LimitOverride → Action Db (Unit {0})
unfolding any is_limit_of has_user
insert_limit l db =
    if is_none l.deleted_at && any (is_limit_of l.user_id l.limit_key) db.limits
    then (err query_failed, db)
    else if not (has_user l.user_id db)
    then (err (reference_failed l.user_id), db)
    else if not (has_user l.granted_by_user_id db)
    then (err (reference_failed l.granted_by_user_id), db)
    else (ok tt, record db { limits = l ∷ db.limits })

-- `update` of who granted it, to whom a foreign key leads.
unfoldable pub grant_row : ℕ → (Db → Db) → Action Db (Unit {0})
unfolding has_user
grant_row granter f db =
    if has_user granter db then (ok tt, f db) else (err (reference_failed granter), db)
