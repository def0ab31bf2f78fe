-- ===== src/Auth/Tests.antt =====
-- The theorems about the authentication at concrete inputs.
use text.Mathlib.Text.{◌==◌ as str_eq}
use sto_info_backend.Base.{
  ℕ, ◌+◌, ◌*◌, ◌≤◌, ◌<◌, ◌≡◌, ◌≢◌, ◌⊎◌, not, ◌↔◌, refl, sym, String, true, false, none, some, [],
  ◌∷◌, arith, ok, err, ◌==◌, if◌then◌else◌, unauthorized, forbidden, not_found,
}
use sto_info_backend.Store.{find?, any, keep, count_where, has_id}
use sto_info_backend.Users.{UserRole, User, is_user}
use sto_info_backend.Sessions
use sto_info_backend.Sessions.{
  RefreshToken, Payload, claims, refuses_token, has_jwt_id, has_token_id, verify_and_decode,
  insert_token, revoke_token_decoded, revoke_token_jti, revoke_found, is_token_of,
  revoke_all_tokens_for_user,
}
use sto_info_backend.Sessions.Issue.{create, created_token}
use sto_info_backend.Sessions.{Env as SessionEnv}
use sto_info_backend.Moderation.Lockout.{IsLockedOut}
use sto_info_backend.Community.Members.{find_active}
use sto_info_backend.Moderation.Data.{Site}
use sto_info_backend.Auth.Data.{
  access, refresh, Claims, Env, Portal, user_key, has_email, has_reset_token, find_by_email,
  profile_of, on_tokens, save_user, send, insert_user, refuses_user, does_email_exist,
  does_username_exist,
}
use sto_info_backend.Auth.Timeout.{
  is_allowed_session_timeout_minutes, fallback, resolve_session_timeout_minutes,
  get_access_token_expiry_seconds,
}
use sto_info_backend.Auth.Accounts.{
  CreateUserDto, assert_token_not_expired, register, register_with, rethrow, store_user, new_user,
  verify_email, verified,
}
use sto_info_backend.Auth.Issuing.{
  Session, refresh_token, rescue, refresh_verified, refresh_found, refresh_matching, is_foreign_use,
  has_matching_refresh_token, tokens_of, rotate, issue_for, answer, selected_timeout,
  get_session_timeout_minutes, issue_refresh_token,
}
use sto_info_backend.Auth.Logins.{attempt, login, validate}
use sto_info_backend.Auth.Passwords.{
  reset_password, reset_found, log_password_reset_session_invalidation, with_password,
  global_logout,
}
use sto_info_backend.Auth.Issued.{issued_row, issued_raw}
use sto_info_backend.Auth.Admission.{is_ok, IsAdmissible, login_iff, login-attempts}
use sto_info_backend.Auth.Liveness.{is_live}
use sto_info_backend.Auth.Rotation.{refresh_token-once}
use sto_info_backend.Auth.Windows.{issue_refresh_token_bounds}
use sto_info_backend.Auth.Resets.{reset_password-once}
use sto_info_backend.Auth.Lockout.{IsLockedOut-fails}
use sto_info_backend.Auth.Onboarding.{register-verify_email-login}

abbrev sessions : SessionEnv
sessions = record {
  now = 1000;
  new_id = 4;
  secret_name = some "secret";
  has_user = λ n. true;
  jwt_secret = λ name. some "key";
  verify = λ raw secret. claims (record { jti = some 7; exp = some 50 });
  hash = λ raw. if str_eq raw "old" then 11 else 12;
  refresh_token_expires_in = 14400;
}

abbrev old_claims : Claims
old_claims = record {
  token_use = some refresh;
  email = "kirk@example.com";
  sub = 1;
  role = none;
  jti = some 7;
  expires_in = some 18000;
}

abbrev env : Env
env = record {
  sessions = sessions;
  new_user_id = 2;
  random_token = 8;
  ip = none;
  auth_token_expires_in = none;
  auth_refresh_token_expires_in = some 14400;
  compare = λ raw h. (if str_eq raw "old" then 11 else 12) == h;
  sign = λ c. "new";
  verify = λ raw. some old_claims;
  lower = λ s. s;
  is_email = λ s. true;
  is_valid_attempt = λ a. true;
  is_valid_audit = λ a. true;
}

abbrev kirk : User
kirk = record {
  id = 1;
  email = "kirk@example.com";
  password = 12;
  email_verified = true;
  email_verification_token = none;
  email_verification_token_expiry = none;
  password_reset_token = some 5;
  password_reset_token_expiry = some 2000;
  last_password_reset = none;
  role = UserRole.user;
  is_account_disabled = false;
  disabled_at = none;
  disabled_reason = none;
  disabled_by_id = none;
  last_login_at = none;
  created_at = 1;
  deleted_at = none;
}

abbrev old : RefreshToken
old = record {
  id = 3;
  user_id = 1;
  jwt_id = some 7;
  token_id = some 11;
  expires_at = 18000;
  is_revoked = false;
}

abbrev db : Portal
db = record {
  users = kirk ∷ [];
  profiles = [];
  tokens = old ∷ [];
  attempts = [];
  audits = [];
  mails = [];
  user_uuid = none;
}

some-ne-none : {A : Type 0} {a : A} → some a ≢ none
some-ne-none h = cc

free :
    (u : User)
    → find_by_email "kirk@example.com" db ≡ some u
    → (refuses_token (issued_row env u db) db.tokens ≡ false) × (env.is_email u.email ≡ true)
unfolding refuses_token any has_jwt_id has_token_id issued_row issued_raw
free u h = (refl, refl)

login_iff_example :
    (is_ok (login env (some "kirk@example.com") (some "enterprise") db).0 ≡ true)
    ↔ IsAdmissible env "kirk@example.com" "enterprise" db
login_iff_example = login_iff env "kirk@example.com" "enterprise" db (λ b. refl) free

login-attempts_example :
    let r = login env (some "kirk@example.com") (some "old") db in
    (r.1.attempts ≡ attempt env "kirk@example.com" (is_ok r.0) ∷ [])
    × ((is_ok r.0 ≡ true)
        ⊎ ((r.1.tokens ≡ db.tokens) × (r.1.users ≡ db.users) × (r.1.mails ≡ db.mails)))
    × (r.0 ≢ err (forbidden "Account deleted"))
login-attempts_example = login-attempts env "kirk@example.com" "old" db (λ b. refl) free

rotated : Session
rotated = record {
  access_token = "new";
  refresh_token = "new";
  expires_in = 3600;
  session_timeout_minutes = 240;
}

abbrev spock : CreateUserDto
spock = record {
  first_name = "S'chn";
  last_name = "Spock";
  username = "spock";
  email = "spock@example.com";
  password = some "logical";
  confirm_password = "logical";
}

-- Runs of the handlers.
old_decoded : verify_and_decode env.sessions "old" ≡ some (record { jti = some 7; exp = some 50 })
unfolding verify_and_decode
old_decoded = refl

refresh_runs : (refresh_token env "old" db).0 ≡ ok rotated
unfolding rotated refresh_token rescue refresh_verified refresh_found refresh_matching
    is_foreign_use find? is_user has_matching_refresh_token tokens_of keep any rotate
    issue_refresh_token issue_for on_tokens create created_token insert_token refuses_token
    has_jwt_id has_token_id Sessions.revoke_token verify_and_decode revoke_token_decoded
    revoke_token_jti revoke_found is_token_of answer get_session_timeout_minutes profile_of
    selected_timeout resolve_session_timeout_minutes get_access_token_expiry_seconds
refresh_runs = refl

reset_runs : (reset_password env (some 5) (some "tribble") db).0 ≡ ok tt
unfolding reset_password reset_found has_reset_token find? assert_token_not_expired save_user
    on_tokens revoke_all_tokens_for_user log_password_reset_session_invalidation send
reset_runs = refl

register_runs :
    register env spock db ≡ (ok (new_user env spock "logical"), (register env spock db).1)
unfolding register does_email_exist does_username_exist any register_with rethrow store_user
    insert_user refuses_user new_user send
register_runs = refl

spock_free :
    let u = new_user env spock "logical" in
    let db1 = (register env spock db).1 in refuses_token (issued_row env u db1) db1.tokens ≡ false
unfolding register does_email_exist does_username_exist any register_with rethrow store_user
    insert_user refuses_user new_user send refuses_token has_jwt_id has_token_id issued_row
    issued_raw
spock_free = refl

refresh_token-once_example :
    let db' = (refresh_token env "old" db).1 in
    ((j : ℕ) × (some 7 ≡ some j) × (is_live j db'.tokens ≡ false))
    × ((refresh_token env "old" db').0 ≡ err (unauthorized "Invalid refresh token"))
unfolding any has_jwt_id
refresh_token-once_example =
    refresh_token-once env env "old" old_claims (record { jti = some 7; exp = some 50 }) db rotated
      (λ j h. refl, tt) refl refl old_decoded refl refresh_runs

reset_password-once_example :
    let db' = (reset_password env (some 5) (some "tribble") db).1 in
    (find? (λ v. v.id == 1) db'.users ≡ some (with_password env "tribble" kirk))
    × (any (λ t. t.user_id == 1) db'.tokens ≡ false)
    × (keep (λ t. not (t.user_id == 1)) db'.tokens ≡ keep (λ t. not (t.user_id == 1)) db.tokens)
    × (db'.audits ≡ global_logout env (with_password env "tribble" kirk) ∷ [])
    × ((env' : Env) (password' : String)
        → reset_password env' (some 5) (some password') db'
          ≡ (err (not_found "Invalid token"), db'))
unfolding has_id user_key find? has_reset_token count_where
reset_password-once_example =
    reset_password-once env 5 "tribble" kirk db (refl, tt) refl (omega arith) reset_runs

issue_refresh_token_bounds_example :
    let m = get_session_timeout_minutes env kirk db in
    let a = get_access_token_expiry_seconds none in
    let row = issued_row env kirk db in
    ((issue_refresh_token env kirk db).1.tokens ≡ row ∷ old ∷ [])
    × (is_allowed_session_timeout_minutes m ≡ true)
    × ((selected_timeout (profile_of 1 db) ≡ some m) ⊎ (m ≡ fallback (some 14400)))
    × (row.expires_at ≡ 1000 + (m * 60 + a) * 1000)
    × (1000 + 3600000 < row.expires_at)
    × (row.expires_at ≤ 1000 + 28800000 + a * 1000)
unfolding find_by_email find? has_email
issue_refresh_token_bounds_example = issue_refresh_token_bounds env kirk db (free kirk refl).0

-- The account of one who was locked out.
abbrev locked_site : Site
locked_site = record {
  users = record kirk { is_account_disabled = true; disabled_at = some 9 } ∷ [];
  reports = [];
  tokens = [];
  community = record {
    users = 1 ∷ 2 ∷ [];
    profiles = [];
    accounts = [];
    friendships = [];
    blocks = [];
    notifications = [];
  };
}

locked : IsLockedOut 1 locked_site
unfolding find? is_user any count_where find_active
locked = record {
  account = (record kirk { is_account_disabled = true; disabled_at = some 9 }, refl, refl);
  sessions = refl;
  reports = refl;
  hidden = λ e username p h. absurd (some-ne-none (sym h));
}

IsLockedOut-fails_example :
    let db' : Portal = record db { users = locked_site.users } in
    (is_ok (login env (some "kirk@example.com") (some "enterprise") db').0 ≡ false)
    × ((refresh_token env "old" db').0 ≡ err (unauthorized "Invalid refresh token"))
    × (is_ok (validate env (record old_claims { token_use = some access }) db').0 ≡ false)
unfolding has_id user_key find_by_email find? has_email
IsLockedOut-fails_example =
    IsLockedOut-fails env 1 locked_site (record db { users = locked_site.users }) locked (refl, tt)
      refl "kirk@example.com" "enterprise"
      (record kirk { is_account_disabled = true; disabled_at = some 9 }) "old" old_claims
      (record old_claims { token_use = some access }) refl refl refl refl refl

register-verify_email-login_example :
    let u = new_user env spock "logical" in
    let db1 = (register env spock db).1 in
    let confirmation = verify_email env (some 8) db1 in
    (is_ok (login env (some "spock@example.com") (some "logical") db1).0 ≡ false)
    × (confirmation.0 ≡ ok (verified u))
    × (is_ok (login env (some "spock@example.com") (some "logical") confirmation.1).0 ≡ true)
register-verify_email-login_example =
    register-verify_email-login env env env spock "logical" (new_user env spock "logical") db
      (register env spock db).1 refl register_runs refl (λ b. refl) refl spock_free (omega arith)
      refl
