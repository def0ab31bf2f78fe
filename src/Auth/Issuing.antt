-- ===== src/Auth/Issuing.antt =====
-- auth/auth.service.ts: the tokens of a session, and the exchange of one for the next.
use sto_info_backend.Base.{
  ℕ, ◌+◌, ◌*◌, String, Bool, true, false, not, ◌&&◌, Option, none, some, ◌==◌, Action, Result, ok,
  err, Error, pure, raise, raise_if, ◌>>=◌, ◌>>◌, gets, unauthorized, not_found,
}
use sto_info_backend.Store.{any, find?, keep}
use sto_info_backend.Users.{User, is_user}
use sto_info_backend.Sessions.{RefreshToken, Tokens}
use sto_info_backend.Sessions
use sto_info_backend.Sessions.Issue.{create}
use sto_info_backend.Auth.Timeout.{
  resolve_session_timeout_minutes, get_access_token_expiry_seconds,
  get_refresh_token_lifetime_seconds,
}
use sto_info_backend.Auth.Data.{
  AuthProfile, TokenUse, access, refresh, other, Claims, Env, Portal, profile_of, on_tokens,
}

unfoldable pub selected_timeout : Option AuthProfile → Option ℕ
selected_timeout none = none
selected_timeout (some p) = p.session_timeout_minutes

unfoldable pub get_session_timeout_minutes : Env → User → Portal → ℕ
unfolding selected_timeout
get_session_timeout_minutes env u db =
    resolve_session_timeout_minutes (selected_timeout (profile_of u.id db))
      env.auth_refresh_token_expires_in

unfoldable pub access_claims : Env → User → Claims
access_claims env u = record {
  token_use = some access;
  email = u.email;
  sub = u.id;
  role = some u.role;
  jti = none;
  expires_in = none;
}

unfoldable pub refresh_claims : Env → User → ℕ → Claims
refresh_claims env u seconds = record {
  token_use = some refresh;
  email = u.email;
  sub = u.id;
  role = none;
  jti = some env.random_token;
  expires_in = some seconds;
}

unfoldable pub issue_for : Env → User → ℕ → Action Portal String
issue_for env u seconds = do
  let token = env.sign (refresh_claims env u seconds)
  on_tokens (
      create env.sessions (record {
        user_id = u.id;
        token_id = some token;
        jwt_id = some env.random_token;
        is_revoked = false;
        expires_at = some (env.sessions.now + seconds * 1000);
      }))
  pure token

unfoldable pub issue_refresh_token : Env → User → Action Portal String
issue_refresh_token env u = do
  minutes ← gets (get_session_timeout_minutes env u)
  issue_for env u (get_refresh_token_lifetime_seconds env.auth_token_expires_in minutes)

-- What a login and a refresh answer; a refresh leaves out the user's id.
pub record Session : Type 0 where
  pub access_token : String
  pub refresh_token : String
  pub expires_in : ℕ
  pub session_timeout_minutes : ℕ

unfoldable pub answer : Env → User → String → Action Portal Session
answer env u token = do
  minutes ← gets (get_session_timeout_minutes env u)
  pure (record {
    access_token = env.sign (access_claims env u);
    refresh_token = token;
    expires_in = get_access_token_expiry_seconds env.auth_token_expires_in;
    session_timeout_minutes = minutes;
  })

-- `token.jwtId !== jwtId`, where the second may be missing
unfoldable pub is_same_jti : Option ℕ → Option ℕ → Bool
is_same_jti (some j) (some k) = j == k
is_same_jti j k = false

unfoldable pub matches_hash : Env → String → Option ℕ → Bool
matches_hash env raw none = false
matches_hash env raw (some h) = env.compare raw h

unfoldable pub is_match : Env → String → Option ℕ → RefreshToken → Bool
unfolding is_same_jti matches_hash
is_match env raw jti t =
    not t.is_revoked && is_same_jti t.jwt_id jti && matches_hash env raw t.token_id

unfoldable pub has_matching_refresh_token : Env → String → Option ℕ → Tokens → Bool
unfolding any is_match
has_matching_refresh_token env raw jti = any (is_match env raw jti)

-- `payload.tokenUse !== undefined && payload.tokenUse !== 'refresh'`
unfoldable pub is_foreign_use : Option TokenUse → Bool
is_foreign_use none = false
is_foreign_use (some access) = true
is_foreign_use (some refresh) = false
is_foreign_use (some other) = true

-- `relations: { refreshTokens: true }`
unfoldable pub tokens_of : ℕ → Portal → Tokens
unfolding keep
tokens_of user_id db = keep (λ t. t.user_id == user_id) db.tokens

unfoldable pub rotate : Env → String → User → Action Portal Session
rotate env raw u = do
  token ← issue_refresh_token env u
  on_tokens (Sessions.revoke_token env.sessions (some u.id) (some raw))
  answer env u token

unfoldable pub refresh_matching : Env → String → Claims → User → Bool → Action Portal Session
refresh_matching env raw c u false = raise (unauthorized "Invalid refresh token")
refresh_matching env raw c u true = rotate env raw u

unfoldable pub refresh_found : Env → String → Claims → Option User → Action Portal Session
refresh_found env raw c none = raise (unauthorized "User not found")
refresh_found env raw c (some u) = do
  raise_if u.is_account_disabled (unauthorized "User not found")
  matching ← gets (λ db. has_matching_refresh_token env raw c.jti (tokens_of u.id db))
  refresh_matching env raw c u matching

unfoldable pub refresh_verified : Env → String → Option Claims → Action Portal Session
unfolding find? is_user
refresh_verified env raw none = raise (unauthorized "jwt malformed")
refresh_verified env raw (some c) = do
  raise_if (is_foreign_use c.token_use) (unauthorized "Invalid refresh token")
  user ← gets (λ db. find? (is_user c.sub) db.users)
  refresh_found env raw c user

-- Whatever is thrown is answered alike; what was written by then stays written.
unfoldable pub rescued : {S A : Type 0} → Error → Result A × S → Result A × S
rescued e (ok a, s) = (ok a, s)
rescued e (err x, s) = (err e, s)

unfoldable pub rescue : {S A : Type 0} → Error → Action S A → Action S A
unfolding rescued
rescue e m s = rescued e (m s)

unfoldable pub refresh_token : Env → String → Action Portal Session
unfolding refresh_verified rescue
refresh_token env raw =
    rescue (unauthorized "Invalid refresh token") (refresh_verified env raw (env.verify raw))

unfoldable pub revoke_token_of : Env → ℕ → Option String → Option User → Action Portal (Unit {0})
revoke_token_of env id raw none = raise (not_found "User not found")
revoke_token_of env id raw (some u) = on_tokens (Sessions.revoke_token env.sessions (some id) raw)

unfoldable pub revoke_token : Env → ℕ → Option String → Action Portal (Unit {0})
unfolding find? is_user
revoke_token env id raw = do
  user ← gets (λ db. find? (is_user id) db.users)
  revoke_token_of env id raw user
