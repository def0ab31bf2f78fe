-- ===== src/Auth/Logins.antt =====
-- auth/auth.service.ts: the login, and the record that every attempt leaves; auth/jwt.strategy.ts and
-- auth/roles.guard.ts: whom a request with an access token acts for, and what its role admits.
use sto_info_backend.Base.{
  ℕ, String, Bool, true, false, not, Option, none, some, List, [], ◌∷◌, Action, Result, ok, err,
  Error, pure, raise, raise_if, ◌>>=◌, ◌>>◌, gets, modify, unauthorized, forbidden, internal,
  is_none, ◌==◌, ◌&&◌, if◌then◌else◌,
}
use text.Mathlib.Text.{◌==◌ as str_eq}
use sto_info_backend.Store.{any, find?}
use sto_info_backend.Users.{UserRole, User, is_same_role}
use sto_info_backend.Auth.Data.{
  LoginAttempt, logged_in, TokenUse, access, refresh, other, Claims, Env, Portal, find_by_email,
  save_user, send, set_user_uuid,
}
use sto_info_backend.Auth.Issuing.{Session, issue_refresh_token, answer}

unfoldable pub attempt : Env → String → Bool → LoginAttempt
attempt env email success = record { email = email; ip_address = env.ip; success = success }

-- `validateOrReject`, then the insert
unfoldable pub log_login_attempt : Env → String → Bool → Action Portal (Unit {0})
unfolding attempt
log_login_attempt env email success db =
    if env.is_valid_attempt (attempt env email success)
    then (ok tt, record db { attempts = attempt env email success ∷ db.attempts })
    else (err (internal "validation"), db)

unfoldable pub log_and_throw_login_failure : {A : Type 0} → Env → String → Error → Action Portal A
log_and_throw_login_failure env email e = do log_login_attempt env email false; raise e

-- The user that the credentials are those of.
unfoldable pub has_password : Env → String → Option User → Option User
has_password env password none = none
has_password env password (some u) = if env.compare password u.password then some u else none

unfoldable pub note_user : Option User → Action Portal (Unit {0})
note_user none = pure tt
note_user (some u) = modify (set_user_uuid u.id)

unfoldable pub validate_user : Env → String → String → Action Portal (Option User)
unfolding has_password
validate_user env email password = do
  user ← gets (λ db. has_password env password (find_by_email email db))
  note_user user
  pure user

-- What the login holds against a user whose credentials are right.
unfoldable pub objection : User → Option Error
objection u =
    if u.is_account_disabled
    then some (forbidden "Account disabled")
    else if not (is_none u.deleted_at)
    then some (forbidden "Account deleted")
    else if not u.email_verified
    then some (unauthorized "Email not verified")
    else none

unfoldable pub logged_in_at : ℕ → User → User
logged_in_at now u = record u { last_login_at = some now }

unfoldable pub announce : Env → User → String → Action Portal (Session × ℕ)
announce env u token = do
  send env (logged_in u.email)
  session ← answer env u token
  pure (session, u.id)

unfoldable pub record_login : Env → User → String → Action Portal (Session × ℕ)
record_login env u token = do
  saved ← save_user (logged_in_at env.sessions.now u)
  announce env saved token

unfoldable pub start_session : Env → String → User → Action Portal (Session × ℕ)
start_session env email u = do
  log_login_attempt env email true
  token ← issue_refresh_token env u
  record_login env u token

unfoldable pub login_admitted : Env → String → User → Option Error → Action Portal (Session × ℕ)
login_admitted env email u none = start_session env email u
login_admitted env email u (some e) = log_and_throw_login_failure env email e

unfoldable pub login_validated : Env → String → Option User → Action Portal (Session × ℕ)
login_validated env email none =
    log_and_throw_login_failure env email (unauthorized "Invalid login credentials")
login_validated env email (some u) = login_admitted env email u (objection u)

unfoldable pub login_with : Env → String → String → Action Portal (Session × ℕ)
login_with env email password = do
  user ← validate_user env email password
  login_validated env email user

-- An argument is none where it is missing or empty.
unfoldable pub login : Env → Option String → Option String → Action Portal (Session × ℕ)
login env none password = raise (unauthorized "Invalid username and password")
login env (some email) none = raise (unauthorized "Invalid username and password")
login env (some email) (some password) = login_with env email password

-- The user of an access token.
unfoldable pub is_payload_user : Claims → User → Bool
is_payload_user c u = u.id == c.sub && str_eq u.email c.email && is_none u.deleted_at

unfoldable pub enabled_only : Option User → Option User
enabled_only none = none
enabled_only (some u) = if u.is_account_disabled then none else some u

unfoldable pub validate_user_from_payload : Env → Claims → Action Portal (Option User)
unfolding find? is_payload_user enabled_only
validate_user_from_payload env c = do
  user ← gets (λ db. enabled_only (find? (is_payload_user c) db.users))
  note_user user
  pure user

unfoldable pub is_access : Option TokenUse → Bool
is_access none = false
is_access (some access) = true
is_access (some refresh) = false
is_access (some other) = false

unfoldable pub acting_user : Claims → Option User → Action Portal User
acting_user c none = raise (unauthorized "Unauthorized")
acting_user c (some u) = do modify (set_user_uuid c.sub); pure u

-- `JwtStrategy.validate`
unfoldable pub validate : Env → Claims → Action Portal User
validate env c = do
  raise_if (not (is_access c.token_use)) (unauthorized "Invalid access token")
  user ← validate_user_from_payload env c
  acting_user c user

-- `RolesGuard.canActivate`, where the roles are those that the decorators declare, if any.
unfoldable pub includes_role : Option UserRole → List UserRole → Bool
unfolding any is_same_role
includes_role none roles = false
includes_role (some r) roles = any (is_same_role r) roles

unfoldable pub can_activate : List UserRole → Option UserRole → Result Bool
unfolding includes_role
can_activate [] role = ok true
can_activate (r ∷ rs) role =
    if includes_role role (r ∷ rs) then ok true else err (forbidden "Insufficient permissions")
