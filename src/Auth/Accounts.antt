-- ===== src/Auth/Accounts.antt =====
-- auth/auth.service.ts: registration and the verification of the address.
use text.Mathlib.Text.{◌==◌ as str_eq}
use sto_info_backend.Base.{
  ℕ, ◌+◌, String, true, false, Option, none, some, Action, Result, ok, err, Error, pure, raise,
  raise_if, ◌>>=◌, ◌>>◌, gets, bad_request, not_found, conflict, internal, query_failed, ltb, not,
}
use sto_info_backend.Store.{find?}
use sto_info_backend.Users.{UserRole, User}
use sto_info_backend.Auth.Data.{
  AuthProfile, verification, welcome, Env, Portal, has_verification_token, does_email_exist,
  does_username_exist, insert_user, save_user, send,
}

-- `CreateUserDto`; a password is none where it is empty.
pub record CreateUserDto : Type 0 where
  pub first_name : String
  pub last_name : String
  pub username : String
  pub email : String
  pub password : Option String
  pub confirm_password : String

-- An hour from now, in milliseconds.
unfoldable pub generate_token_expiry_date : Env → ℕ
generate_token_expiry_date env = env.sessions.now + 3600000

unfoldable pub assert_token_not_expired : Env → Option ℕ → Action Portal (Unit {0})
assert_token_not_expired env none = raise (bad_request "Token expired")
assert_token_not_expired env (some expiry) =
    raise_if (ltb expiry env.sessions.now) (bad_request "Token expired")

unfoldable pub new_user : Env → CreateUserDto → String → User
unfolding generate_token_expiry_date
new_user env dto password = record {
  id = env.new_user_id;
  email = dto.email;
  password = env.sessions.hash password;
  email_verified = false;
  email_verification_token = some env.random_token;
  email_verification_token_expiry = some (generate_token_expiry_date env);
  password_reset_token = none;
  password_reset_token_expiry = none;
  last_password_reset = none;
  role = UserRole.user;
  is_account_disabled = false;
  disabled_at = none;
  disabled_reason = none;
  disabled_by_id = none;
  last_login_at = none;
  created_at = env.sessions.now;
  deleted_at = none;
}

unfoldable pub new_profile : Env → CreateUserDto → AuthProfile
new_profile env dto = record {
  user_id = env.new_user_id;
  username = dto.username;
  first_name = some dto.first_name;
  last_name = some dto.last_name;
  session_timeout_minutes = none;
  deleted_at = none;
}

-- The `catch` of the registration.
unfoldable pub registration_error : Error → Error
registration_error query_failed = conflict "User is already registered"
registration_error e = internal "An unexpected error occurred"

unfoldable pub rethrown : {S A : Type 0} → (Error → Error) → Result A × S → Result A × S
rethrown f (ok a, s) = (ok a, s)
rethrown f (err e, s) = (err (f e), s)

unfoldable pub rethrow : {S A : Type 0} → (Error → Error) → Action S A → Action S A
unfolding rethrown
rethrow f m s = rethrown f (m s)

unfoldable pub store_user : Env → CreateUserDto → String → Action Portal User
store_user env dto password = do
  saved ← insert_user (new_user env dto password) (new_profile env dto)
  send env (verification saved.email env.random_token)
  pure saved

unfoldable pub register_with : Env → CreateUserDto → Option String → Action Portal User
register_with env dto none = raise (bad_request "Password is required")
register_with env dto (some password) = do
  raise_if (not (str_eq password dto.confirm_password)) (bad_request "Passwords do not match")
  rethrow registration_error (store_user env dto password)

unfoldable pub register : Env → CreateUserDto → Action Portal User
register env dto = do
  email_taken ← gets (does_email_exist env dto.email)
  raise_if email_taken (conflict "Email already in use")
  username_taken ← gets (does_username_exist env dto.username)
  raise_if username_taken (conflict "Username already in use")
  register_with env dto dto.password

unfoldable pub verified : User → User
verified u = record u {
  email_verified = true;
  email_verification_token = none;
  email_verification_token_expiry = none;
}

unfoldable pub verify_found : Env → Option User → Action Portal User
verify_found env none = raise (not_found "Invalid token")
verify_found env (some u) = do
  assert_token_not_expired env u.email_verification_token_expiry
  updated ← save_user (verified u)
  send env (welcome updated.email)
  pure updated

-- The token is none where it is missing or empty.
unfoldable pub verify_email : Env → Option ℕ → Action Portal User
unfolding find? has_verification_token
verify_email env none = raise (bad_request "Token missing")
verify_email env (some token) = do
  user ← gets (λ db. find? (has_verification_token token) db.users)
  verify_found env user

unfoldable pub with_new_verification : Env → User → User
unfolding generate_token_expiry_date
with_new_verification env u = record u {
  email_verification_token = some env.random_token;
  email_verification_token_expiry = some (generate_token_expiry_date env);
}

unfoldable pub resend_found : Env → Option User → Action Portal (Unit {0})
resend_found env none = raise (not_found "User token not found")
resend_found env (some u) = do
  raise_if u.email_verified (bad_request "Email is already verified")
  saved ← save_user (with_new_verification env u)
  send env (verification saved.email env.random_token)

unfoldable pub resend_verification_email : Env → ℕ → Action Portal (Unit {0})
unfolding find? has_verification_token
resend_verification_email env token = do
  user ← gets (λ db. find? (has_verification_token token) db.users)
  resend_found env user
