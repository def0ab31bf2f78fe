-- ===== src/AccessControl/Exemptions.antt =====
-- access-control/access-control-admin.service.ts: the exemptions from limits.
use sto_info_backend.Base.{
  ℕ, String, Option, none, some, List, ◌==◌, Action, ◌>>=◌, ◌>>◌, gets, or_raise, modify, not_found,
}
use sto_info_backend.Store.{find?, update_where}
use sto_info_backend.AccessControl.Data.{
  LimitOverride, Db, Env, is_limit_of, insert_limit, grant_row,
}
use sto_info_backend.AccessControl.Admin.{assert_user_exists}

-- `SetLimitOverrideDto`
pub record SetLimitOverride : Type 0 where
  pub limit_key : ℕ
  pub limit_value : ℕ
  pub reason : String
  pub expires_at : Option ℕ

unfoldable pub new_limit : Env → ℕ → SetLimitOverride → ℕ → LimitOverride
new_limit env user_id dto acting_user_id = record {
  id = env.new_id;
  user_id = user_id;
  limit_key = dto.limit_key;
  limit_value = dto.limit_value;
  reason = dto.reason;
  granted_by_user_id = acting_user_id;
  expires_at = dto.expires_at;
  created_at = env.now;
  deleted_at = none;
}

unfoldable pub rewrite_limit : SetLimitOverride → ℕ → LimitOverride → LimitOverride
rewrite_limit dto acting_user_id l = record l {
  limit_value = dto.limit_value;
  reason = dto.reason;
  granted_by_user_id = acting_user_id;
  expires_at = dto.expires_at;
}

unfoldable pub update_limit :
    ℕ → (LimitOverride → LimitOverride) → List LimitOverride → List LimitOverride
unfolding update_where
update_limit id = update_where (λ l. l.id == id)

unfoldable pub write_limit :
    Env → ℕ → SetLimitOverride → ℕ → Option LimitOverride → Action Db (Unit {0})
write_limit env user_id dto acting_user_id none =
    insert_limit (new_limit env user_id dto acting_user_id)
write_limit env user_id dto acting_user_id (some l) =
    grant_row acting_user_id
      (λ db. record db { limits = update_limit l.id (rewrite_limit dto acting_user_id) db.limits })

unfoldable pub set_limit_override : Env → ℕ → SetLimitOverride → ℕ → Action Db (Unit {0})
set_limit_override env user_id dto acting_user_id = do
  assert_user_exists user_id
  existing ← gets (λ db. find? (is_limit_of user_id dto.limit_key) db.limits)
  write_limit env user_id dto acting_user_id existing

unfoldable pub remove_limit_override : Env → ℕ → ℕ → Action Db (Unit {0})
remove_limit_override env user_id limit_key = do
  assert_user_exists user_id
  found ← gets (λ db. find? (is_limit_of user_id limit_key) db.limits)
  l ← or_raise found (not_found "Limit override not found")
  modify (λ db. record db {
    limits = update_limit l.id (λ l'. record l' { deleted_at = some env.now }) db.limits;
  })
