-- ===== src/Auth/Passwords.antt =====
-- auth/auth.service.ts: the reset of a password.
use sto_info_backend.Base.{
  ℕ, String, Bool, false, not, Option, none, some, ◌∷◌, Action, ok, err, raise, raise_if, ◌>>=◌,
  ◌>>◌, gets, bad_request, not_found, internal, if◌then◌else◌, ltb,
}
use sto_info_backend.Store.{find?}
use sto_info_backend.Users.{User}
use sto_info_backend.Sessions.{revoke_all_tokens_for_user}
use sto_info_backend.Auth.Data.{
  password_reset, password_changed, AuditEntry, password_reset_global_logout, Env, Portal,
  has_reset_token, find_by_email, save_user, send, on_tokens,
}
use sto_info_backend.Auth.Accounts.{generate_token_expiry_date, assert_token_not_expired}

-- A reset was asked for, and its token still holds.
unfoldable pub has_live_reset : Env → Option ℕ → Option ℕ → Bool
has_live_reset env (some token) (some expiry) = ltb env.sessions.now expiry
has_live_reset env token expiry = false

unfoldable pub with_reset_token : Env → User → User
unfolding generate_token_expiry_date
with_reset_token env u = record u {
  password_reset_token = some env.random_token;
  password_reset_token_expiry = some (generate_token_expiry_date env);
}

unfoldable pub request_found : Env → Option User → Action Portal (Unit {0})
unfolding has_live_reset
request_found env none = raise (bad_request "Invalid request")
request_found env (some u) = do
  raise_if (has_live_reset env u.password_reset_token u.password_reset_token_expiry)
      (bad_request "Password reset already requested")
  saved ← save_user (with_reset_token env u)
  send env (password_reset saved.email env.random_token)

unfoldable pub request_password_reset : Env → String → Action Portal (Unit {0})
request_password_reset env email = do
  raise_if (not (env.is_email email)) (bad_request "Invalid request")
  user ← gets (find_by_email email)
  request_found env user

unfoldable pub with_password : Env → String → User → User
with_password env password u = record u {
  password = env.sessions.hash password;
  password_reset_token = none;
  password_reset_token_expiry = none;
  last_password_reset = some env.sessions.now;
}

unfoldable pub global_logout : Env → User → AuditEntry
global_logout env u = record {
  action = password_reset_global_logout;
  entity_id = u.id;
  user_email = u.email;
  ip_address = env.ip;
}

unfoldable pub log_password_reset_session_invalidation : Env → User → Action Portal (Unit {0})
unfolding global_logout
log_password_reset_session_invalidation env u db =
    if env.is_valid_audit (global_logout env u)
    then (ok tt, record db { audits = global_logout env u ∷ db.audits })
    else (err (internal "validation"), db)

unfoldable pub reset_found : Env → String → Option User → Action Portal (Unit {0})
reset_found env password none = raise (not_found "Invalid token")
reset_found env password (some u) = do
  assert_token_not_expired env u.password_reset_token_expiry
  saved ← save_user (with_password env password u)
  on_tokens (revoke_all_tokens_for_user (some saved.id))
  log_password_reset_session_invalidation env saved
  send env (password_changed saved.email)

-- An argument is none where it is missing or empty.
unfoldable pub reset_password : Env → Option ℕ → Option String → Action Portal (Unit {0})
unfolding find? has_reset_token
reset_password env none password = raise (bad_request "Token missing")
reset_password env (some token) none = raise (bad_request "Password missing from request")
reset_password env (some token) (some password) = do
  user ← gets (λ db. find? (has_reset_token token) db.users)
  reset_found env password user
