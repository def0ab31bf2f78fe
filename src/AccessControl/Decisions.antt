-- ===== src/AccessControl/Decisions.antt =====
-- The decisions of administrators about one user and one permission, as the rights that they leave.
use sto_info_backend.Base.{ℕ, ◌≡◌, refl, ◌∙◌, true, false, none, some, arith, ok}
use sto_info_backend.Store.{find?, has_id}
use sto_info_backend.Users.{User, is_user}
use sto_info_backend.AccessControl.Data.{
  is_grant, Permission, PermissionOverride, Db, Env, override_id_of, is_override_of, is_unexpired,
  has_user,
}
use sto_info_backend.AccessControl.Resolve.{confers}
use sto_info_backend.AccessControl.Lookup.{is_in_force}
use sto_info_backend.AccessControl.Rights.{find_permission, may}
use sto_info_backend.AccessControl.Tables.{update_override-Written, update_override-gone}
use sto_info_backend.AccessControl.Admin.{
  SetPermissionOverride, write_override, put_override, soft_delete_override, withdraw_override,
}
use sto_info_backend.AccessControl.Grants.{
  AccessValid, Leaves, Written-Leaves, may-of_override, assert_user_exists-ok,
  require_permission-ok, found-has_user, found-has_permission, written, write_override-ok,
  written-Written, written-in_force,
}

put_override-run :
    (env : Env) (db : Db) (user_id : ℕ) (dto : SetPermissionOverride) (acting : ℕ) (usr : User)
    (p : Permission)
    → find? (is_user user_id) db.users ≡ some usr
    → find_permission dto.permission_code db ≡ some p
    → put_override env user_id dto acting db
      ≡ write_override env user_id p.id dto acting
          (find? (is_override_of user_id p.id) db.overrides)
          db
unfolding put_override
put_override-run env db user_id dto acting usr p found known = ground (
  arith,
  assert_user_exists-ok user_id db usr found,
  require_permission-ok dto.permission_code db p known,
)

-- `setPermissionOverride` up to its summary.
pub put_override-may :
    (env : Env) (db : Db) (user_id : ℕ) (dto : SetPermissionOverride) (acting : ℕ) (usr : User)
    (p : Permission)
    → AccessValid db
    → has_id override_id_of env.new_id db.overrides ≡ false
    → find? (is_user user_id) db.users ≡ some usr
    → find_permission dto.permission_code db ≡ some p
    → has_user acting db ≡ true
    → (db' : Db) × (put_override env user_id dto acting db ≡ (ok tt, db'))
      × (db'.users ≡ db.users)
      × Leaves user_id dto.permission_code db db'
      × ((now : ℕ)
          → is_unexpired now dto.expires_at ≡ true
          → usr.is_account_disabled ≡ false
          → may now user_id dto.permission_code db' ≡ is_grant dto.effect)
unfolding find_permission confers
put_override-may env db user_id dto acting usr p v new found known granter =
    let os = db.overrides in
    let o = find? (is_override_of user_id p.id) os in
    let os' = written env user_id dto acting os p.id o in
    let w = written-Written env user_id dto acting os p.id o v.overrides new refl in
    (
      record db { overrides = os' },
      put_override-run env db user_id dto acting usr p found known
          ∙ write_override-ok env user_id dto acting db p.id o refl
              (found-has_user user_id db usr found)
              (found-has_permission dto.permission_code db p known) granter,
      refl,
      Written-Leaves db user_id dto.permission_code p os' v known w,
      λ now live enabled.
          may-of_override now user_id dto.permission_code (record db { overrides = os' }) usr p
            (find? (is_in_force now user_id p.id) os') found enabled known refl
          ∙ written-in_force env user_id dto acting now os p.id o v.overrides refl live
              (confers usr.role db p),
    )

withdraw_override-run :
    (env : Env) (db : Db) (user_id code : ℕ) (usr : User) (p : Permission) (o : PermissionOverride)
    → find? (is_user user_id) db.users ≡ some usr
    → find_permission code db ≡ some p
    → find? (is_override_of user_id p.id) db.overrides ≡ some o
    → withdraw_override env user_id code db ≡ soft_delete_override env o.id db
unfolding withdraw_override
withdraw_override-run env db user_id code usr p o found known live =
    ground (
      arith,
      assert_user_exists-ok user_id db usr found,
      require_permission-ok code db p known,
      live,
    )

-- `removePermissionOverride` up to its summary.
pub withdraw_override-may :
    (env : Env) (db : Db) (user_id code : ℕ) (usr : User) (p : Permission) (o : PermissionOverride)
    → AccessValid db
    → find? (is_user user_id) db.users ≡ some usr
    → find_permission code db ≡ some p
    → find? (is_override_of user_id p.id) db.overrides ≡ some o
    → (db' : Db) × (withdraw_override env user_id code db ≡ (ok tt, db'))
      × (db'.users ≡ db.users)
      × Leaves user_id code db db'
      × ((now : ℕ)
          → usr.is_account_disabled ≡ false
          → may now user_id code db' ≡ confers usr.role db p)
unfolding soft_delete_override find_permission confers is_override_of
withdraw_override-may env db user_id code usr p o v found known live =
    let os = db.overrides in
    let f = λ (x : PermissionOverride). record x { deleted_at = some env.now } in
    let w =
      update_override-Written user_id p.id os v.overrides o live f refl
        (λ u' p' m. ground (arith, m)) in
    (
      _,
      withdraw_override-run env db user_id code usr p o found known live,
      refl,
      Written-Leaves db user_id code p _ v known w,
      λ now enabled.
          may-of_override now user_id code _ usr p none found enabled known
            (update_override-gone user_id p.id os v.overrides o live f refl (ground arith) now),
    )
