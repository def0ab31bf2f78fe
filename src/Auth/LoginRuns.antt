-- ===== src/Auth/LoginRuns.antt =====
-- The parts of a login run one by one: what each leaves.
use sto_info_backend.Base.{
  ℕ, ◌≡◌, refl, ◌∙◌, String, Bool, true, false, Option, none, some, ◌∷◌, or_else, ok, err, Error,
  unauthorized, bind-ok, raise, pure, ◌>>=◌,
}
use sto_info_backend.Store.{save_row}
use sto_info_backend.Users.{User}
use sto_info_backend.Sessions.{refuses_token}
use sto_info_backend.Auth.Data.{
  Mail, logged_in, user_key, profile_of, Env, Portal, find_by_email, save_user, send, set_user_uuid,
  address,
}
use sto_info_backend.Auth.Issuing.{
  Session, get_session_timeout_minutes, issue_refresh_token, answer, access_claims, refresh_claims,
}
use sto_info_backend.Auth.Logins.{
  attempt, log_login_attempt, log_and_throw_login_failure, has_password, note_user, validate_user,
  announce, record_login, objection, logged_in_at, start_session, login_admitted, login_validated,
  login_with, login,
}
use sto_info_backend.Auth.Issued.{
  lifetime, session_of, issued_raw, issued_row, issue_refresh_token-run,
}

-- Why the login refuses.
unfoldable pub refusal_of : Option User → Option Error
unfolding objection
refusal_of none = some (unauthorized "Invalid login credentials")
refusal_of (some u) = objection u

unfoldable pub noted_uuid : Option User → Option ℕ → Option ℕ
noted_uuid none uuid = uuid
noted_uuid (some u) uuid = or_else uuid (some u.id)

abbrev pub noted : Option User → Portal → Portal
noted o db = record db { user_uuid = noted_uuid o db.user_uuid }

log_login_attempt-run :
    (env : Env) (email : String) (success : Bool) (db : Portal)
    → env.is_valid_attempt (attempt env email success) ≡ true
    → log_login_attempt env email success db
      ≡ (ok tt, record db { attempts = attempt env email success ∷ db.attempts })
unfolding log_login_attempt
log_login_attempt-run env email success db v = rw v refl

pub failure-run :
    (env : Env) (email : String) (e : Error) (db : Portal)
    → env.is_valid_attempt (attempt env email false) ≡ true
    → log_and_throw_login_failure {A = Session × ℕ} env email e db
      ≡ (err e, record db { attempts = attempt env email false ∷ db.attempts })
unfolding log_and_throw_login_failure
failure-run env email e db v =
    bind-ok (log_login_attempt env email false) (λ _. raise e) db
      (log_login_attempt-run env email false db v)

pub login_validated-refused :
    (env : Env) (email : String) (o : Option User) (e : Error) (db : Portal)
    → env.is_valid_attempt (attempt env email false) ≡ true
    → refusal_of o ≡ some e
    → login_validated env email o db
      ≡ (err e, record db { attempts = attempt env email false ∷ db.attempts })
unfolding login_validated refusal_of login_admitted
login_validated-refused env email none e db v h =
    let same : unauthorized "Invalid login credentials" ≡ e = cc in
    rw (← same) (failure-run env email (unauthorized "Invalid login credentials") db v)
login_validated-refused env email (some u) e db v h = rw h (failure-run env email e db v)

note_user-run : (o : Option User) (db : Portal) → note_user o db ≡ (ok tt, noted o db)
unfolding note_user noted_uuid set_user_uuid
note_user-run none db = refl
note_user-run (some u) db = refl

module _ (env : Env) (email password : String) (db : Portal) where
  abbrev pub claimant : Option User
  claimant = has_password env password (find_by_email email db)

  validate_user-run : validate_user env email password db ≡ (ok claimant, noted claimant db)
  unfolding validate_user
  validate_user-run =
      bind-ok (note_user claimant) (λ _. pure claimant) db (note_user-run claimant db)

  pub login-as_validated :
      login env (some email) (some password) db
      ≡ login_validated env email claimant (noted claimant db)
  unfolding login login_with
  login-as_validated =
      bind-ok (validate_user env email password) (login_validated env email) db validate_user-run

send-run :
    (env : Env) (m : Mail) (db : Portal)
    → env.is_email (address m) ≡ true
    → send env m db ≡ (ok tt, record db { mails = m ∷ db.mails })
unfolding send
send-run env m db e = rw e refl

-- The portal after a login.
abbrev pub admitted : Env → String → User → Portal → Portal
admitted env email u db =
    let u' = logged_in_at env.sessions.now u in
    record db {
      users = save_row user_key u' db.users;
      tokens = issued_row env u db ∷ db.tokens;
      attempts = attempt env email true ∷ db.attempts;
      mails = logged_in u.email ∷ db.mails;
    }

announce-run :
    (env : Env) (u : User) (db : Portal)
    → env.is_email u.email ≡ true
    → announce env u (issued_raw env u db) db
      ≡ (ok (session_of env u db, u.id), record db { mails = logged_in u.email ∷ db.mails })
unfolding announce answer session_of get_session_timeout_minutes profile_of address
announce-run env u db e =
    bind-ok (send env (logged_in u.email))
      (λ _. answer env u (issued_raw env u db) >>= λ session. pure (session, u.id)) db
      (send-run env (logged_in u.email) db e)

record_login-run :
    (env : Env) (u : User) (db : Portal)
    → env.is_email u.email ≡ true
    → record_login env u (issued_raw env u db) db ≡ (
      ok (session_of env u db, u.id),
      record db {
        users = save_row user_key (logged_in_at env.sessions.now u) db.users;
        mails = logged_in u.email ∷ db.mails;
      },
    )
unfolding record_login save_user logged_in_at issued_raw lifetime session_of access_claims
    refresh_claims get_session_timeout_minutes profile_of
record_login-run env u db e =
    let u' = logged_in_at env.sessions.now u in
    announce-run env u' (record db { users = save_row user_key u' db.users }) e

pub start_session-run :
    (env : Env) (email : String) (u : User) (db : Portal)
    → env.is_valid_attempt (attempt env email true) ≡ true
    → refuses_token (issued_row env u db) db.tokens ≡ false
    → env.is_email u.email ≡ true
    → start_session env email u db ≡ (ok (session_of env u db, u.id), admitted env email u db)
unfolding start_session issued_row issued_raw lifetime session_of get_session_timeout_minutes
    profile_of
start_session-run env email u db v free e =
    let db1 : Portal = record db { attempts = attempt env email true ∷ db.attempts } in
    let db2 : Portal = record db1 { tokens = issued_row env u db1 ∷ db.tokens } in
    bind-ok (log_login_attempt env email true)
      (λ _. issue_refresh_token env u >>= record_login env u) db
      (log_login_attempt-run env email true db v)
    ∙ bind-ok (issue_refresh_token env u) (record_login env u) db1
        (issue_refresh_token-run env u db1 free)
    ∙ record_login-run env u db2 e
