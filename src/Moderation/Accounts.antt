-- ===== src/Moderation/Accounts.antt =====
-- moderation/user-moderation.service.ts: disabling and restoring accounts. The paged list of users is
-- left out.
use sto_info_backend.Base.{
  ℕ, String, Bool, true, false, Option, none, some, [], ◌∷◌, ◌==◌, get_or, Action, pure, raise_if,
  ◌>>=◌, ◌>>◌, gets, or_raise, bad_request, not_found, forbidden,
}
use sto_info_backend.Store.{find?}
use sto_info_backend.Store.Dict.{lookup}
use sto_info_backend.Users.{UserRole, is_admin, User, is_user}
use sto_info_backend.Sessions.{revoke_all_tokens_for_user}
use sto_info_backend.Community.Data.{Env as CommunityEnv}
use sto_info_backend.Moderation.Data.{Site, save_user}
use sto_info_backend.Moderation.Reports.{
  profile_of, username_of, count_unresolved_by_reported_user, action_reports_against,
}

-- `ModeratedUserDto`
pub record ModeratedUser : Type 0 where
  pub id : ℕ
  pub email : String
  pub username : Option String
  pub role : UserRole
  pub is_account_disabled : Bool
  pub disabled_at : Option ℕ
  pub disabled_reason : Option String
  pub last_login_at : Option ℕ
  pub created_at : ℕ
  pub open_report_count : ℕ

unfoldable pub to_moderated_user : User → Site → ModeratedUser
unfolding profile_of lookup count_unresolved_by_reported_user
to_moderated_user u site = record {
  id = u.id;
  email = u.email;
  username = username_of (profile_of u.id site);
  role = u.role;
  is_account_disabled = u.is_account_disabled;
  disabled_at = u.disabled_at;
  disabled_reason = u.disabled_reason;
  last_login_at = u.last_login_at;
  created_at = u.created_at;
  open_report_count = get_or (lookup u.id (count_unresolved_by_reported_user (u.id ∷ []) site)) 0;
}

unfoldable pub require_user : ℕ → Action Site User
require_user user_id = do
  found ← gets (λ site. find? (is_user user_id) site.users)
  or_raise found (not_found "User not found")

unfoldable pub find_user : ℕ → Action Site ModeratedUser
find_user user_id = do u ← require_user user_id; gets (to_moderated_user u)

unfoldable pub require_moderatable_user : ℕ → ℕ → Action Site User
require_moderatable_user user_id admin_user_id = do
  raise_if (user_id == admin_user_id) (bad_request "You cannot moderate your own account")
  u ← require_user user_id
  raise_if (is_admin u.role) (forbidden "Administrator accounts cannot be moderated")
  pure u

unfoldable pub disabled_row : CommunityEnv → ℕ → Option String → User → User
disabled_row env admin_user_id reason u = record u {
  is_account_disabled = true;
  disabled_at = some env.now;
  disabled_reason = reason;
  disabled_by_id = some admin_user_id;
}

unfoldable pub enabled_row : User → User
enabled_row u = record u {
  is_account_disabled = false;
  disabled_at = none;
  disabled_reason = none;
  disabled_by_id = none;
}

-- The call of the refresh-token service.
unfoldable pub tear_down_sessions : ℕ → Action Site (Unit {0})
unfolding revoke_all_tokens_for_user
tear_down_sessions user_id site =
    let (r, tokens) = revoke_all_tokens_for_user (some user_id) site.tokens in
    (r, record site { tokens = tokens })

-- `disableUser`, once the user is loaded.
unfoldable pub lock_out : CommunityEnv → ℕ → Option String → User → Action Site ModeratedUser
lock_out env admin_user_id reason u = do
  save_user (disabled_row env admin_user_id reason u)
  tear_down_sessions u.id
  action_reports_against env u.id admin_user_id
  find_user u.id

unfoldable pub disable_user : CommunityEnv → ℕ → ℕ → Option String → Action Site ModeratedUser
disable_user env user_id admin_user_id reason = do
  u ← require_moderatable_user user_id admin_user_id
  lock_out env admin_user_id reason u

unfoldable pub restore : User → Action Site ModeratedUser
restore u = do save_user (enabled_row u); find_user u.id

unfoldable pub enable_user : ℕ → ℕ → Action Site ModeratedUser
enable_user user_id admin_user_id = do u ← require_moderatable_user user_id admin_user_id; restore u
