-- ===== src/Auth/Data.antt =====
-- What the authentication reads and writes: the users and their profiles, the refresh tokens, the
-- tables of the audit, the mails that are sent and the user that the request acts for.
use text.Mathlib.Text.{◌==◌ as str_eq}
use sto_info_backend.Base.{
  ℕ, String, Bool, ◌&&◌, ◌||◌, Option, some, List, ◌∷◌, ◌==◌, if◌then◌else◌, is_none, is_some_of,
  Action, ok, err, query_failed, internal, or_else,
}
use sto_info_backend.Store.{find?, any, save_row}
use sto_info_backend.Users.{UserRole, User}
use sto_info_backend.Sessions.{Tokens}
use sto_info_backend.Sessions.{Env as SessionEnv}

-- `UserProfileEntity`
pub record AuthProfile : Type 0 where
  pub user_id : ℕ
  pub username : String
  pub first_name : Option String
  pub last_name : Option String
  pub session_timeout_minutes : Option ℕ
  pub deleted_at : Option ℕ

-- `AuditLoginAttemptEntity`
pub record LoginAttempt : Type 0 where
  pub email : String
  pub ip_address : Option String
  pub success : Bool

-- The one entry that the service writes to the audit itself.
pub data AuditAction : Type 0 where
  password_reset_global_logout : AuditAction

pub record AuditEntry : Type 0 where
  pub action : AuditAction
  pub entity_id : ℕ
  pub user_email : String
  pub ip_address : Option String

-- A mail of mail/mail.service.ts, without its text.
pub data Mail : Type 0 where
  verification password_reset : String → ℕ → Mail
  welcome password_changed logged_in : String → Mail

pub data TokenUse : Type 0 where
  access refresh other : TokenUse

-- The claims of a JWT.
pub record Claims : Type 0 where
  pub token_use : Option TokenUse
  pub email : String
  pub sub : ℕ
  pub role : Option UserRole
  pub jti : Option ℕ
  pub expires_in : Option ℕ

-- Outside this code: the environment, the random token that a handler draws, the key that a new user
-- draws, bcrypt's comparison, the JwtService of @nestjs/jwt (`verify` throws where it returns none),
-- LOWER of the database, the regular expression of an address, and class-validator's verdict on a
-- login attempt and on an entry of the audit.
pub record Env : Type 0 where
  pub sessions : SessionEnv
  pub new_user_id : ℕ
  pub random_token : ℕ
  pub ip : Option String
  pub auth_token_expires_in : Option ℕ
  pub auth_refresh_token_expires_in : Option ℕ
  pub compare : String → ℕ → Bool
  pub sign : Claims → String
  pub verify : String → Option Claims
  pub lower : String → String
  pub is_email : String → Bool
  pub is_valid_attempt : LoginAttempt → Bool
  pub is_valid_audit : AuditEntry → Bool

pub record Portal : Type 0 where
  pub users : List User
  pub profiles : List AuthProfile
  pub tokens : Tokens
  pub attempts : List LoginAttempt
  pub audits : List AuditEntry
  pub mails : List Mail
  pub user_uuid : Option ℕ

unfoldable pub user_key : User → ℕ
user_key u = u.id

-- TypeORM leaves out the rows that are removed softly.
unfoldable pub has_email : String → User → Bool
has_email email u = str_eq u.email email && is_none u.deleted_at

unfoldable pub has_verification_token : ℕ → User → Bool
has_verification_token token u = is_some_of token u.email_verification_token && is_none u.deleted_at

unfoldable pub has_reset_token : ℕ → User → Bool
has_reset_token token u = is_some_of token u.password_reset_token && is_none u.deleted_at

unfoldable pub find_by_email : String → Portal → Option User
unfolding find? has_email
find_by_email email db = find? (has_email email) db.users

-- `relations: { profile: true }`
unfoldable pub profile_of : ℕ → Portal → Option AuthProfile
unfolding find?
profile_of user_id db = find? (λ p. p.user_id == user_id && is_none p.deleted_at) db.profiles

unfoldable pub does_email_exist : Env → String → Portal → Bool
unfolding any
does_email_exist env email db =
    any (λ u. str_eq (env.lower u.email) (env.lower email) && is_none u.deleted_at) db.users

unfoldable pub does_username_exist : Env → String → Portal → Bool
unfolding any
does_username_exist env username db =
    any (λ p. str_eq (env.lower p.username) (env.lower username) && is_none p.deleted_at)
      db.profiles

-- The unique columns of the two tables, rows that are removed softly included.
unfoldable pub refuses_user : User → AuthProfile → Portal → Bool
unfolding any
refuses_user u p db =
    any (λ v. str_eq v.email u.email) db.users
    || any (λ q. str_eq q.username p.username) db.profiles

unfoldable pub insert_user : User → AuthProfile → Action Portal User
unfolding refuses_user
insert_user u p db =
    if refuses_user u p db
    then (err query_failed, db)
    else (ok u, record db { users = u ∷ db.users; profiles = p ∷ db.profiles })

unfoldable pub save_user : User → Action Portal User
unfolding save_row user_key
save_user u db = (ok u, record db { users = save_row user_key u db.users })

unfoldable pub address : Mail → String
address (verification a t) = a
address (password_reset a t) = a
address (welcome a) = a
address (password_changed a) = a
address (logged_in a) = a

-- A failed send is logged by the service; an address of the wrong form makes it throw.
unfoldable pub send : Env → Mail → Action Portal (Unit {0})
unfolding address
send env m db =
    if env.is_email (address m)
    then (ok tt, record db { mails = m ∷ db.mails })
    else (err (internal "Invalid email format"), db)

-- A step on the tokens as a step on the portal.
unfoldable pub on_tokens : {A : Type 0} → Action Tokens A → Action Portal A
on_tokens m db = let (r, ts) = m db.tokens in (r, record db { tokens = ts })

-- `CurrentContextHelper.userUuid` is written once for a request.
unfoldable pub set_user_uuid : ℕ → Portal → Portal
set_user_uuid user_id db = record db { user_uuid = or_else db.user_uuid (some user_id) }
