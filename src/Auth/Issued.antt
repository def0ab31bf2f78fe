-- ===== src/Auth/Issued.antt =====
-- What the issue of a refresh token leaves.
use sto_info_backend.Base.{
  ℕ, ◌+◌, ◌*◌, ◌≡◌, refl, ap, ◌∙◌, String, false, true, some, ◌∷◌, ok, err, query_failed, Action,
  Result, pure, ◌>>=◌, bind-ok, bind-err,
}
use sto_info_backend.Users.{User}
use sto_info_backend.Sessions.{RefreshToken, Tokens, refuses_token, insert_token}
use sto_info_backend.Sessions.Issue.{CreateUserRefreshTokenDto, created_token, create}
use sto_info_backend.Auth.Timeout.{
  get_access_token_expiry_seconds, get_refresh_token_lifetime_seconds,
}
use sto_info_backend.Auth.Data.{Env, Portal, on_tokens}
use sto_info_backend.Auth.Issuing.{
  Session, access_claims, get_session_timeout_minutes, refresh_claims, issue_for,
  issue_refresh_token,
}

unfoldable pub lifetime : Env → User → Portal → ℕ
unfolding get_session_timeout_minutes get_refresh_token_lifetime_seconds
lifetime env u db =
    get_refresh_token_lifetime_seconds env.auth_token_expires_in
      (get_session_timeout_minutes env u db)

unfoldable pub issued_raw : Env → User → Portal → String
unfolding lifetime refresh_claims
issued_raw env u db = env.sign (refresh_claims env u (lifetime env u db))

unfoldable pub issued_row : Env → User → Portal → RefreshToken
unfolding issued_raw lifetime
issued_row env u db = record {
  id = env.sessions.new_id;
  user_id = u.id;
  jwt_id = some env.random_token;
  token_id = some (env.sessions.hash (issued_raw env u db));
  expires_at = env.sessions.now + lifetime env u db * 1000;
  is_revoked = false;
}

pub on_tokens-run :
    {A : Type 0} (m : Action Tokens A) (db : Portal) {r : Result A} {ts : Tokens}
    → m db.tokens ≡ (r, ts)
    → on_tokens m db ≡ (r, record db { tokens = ts })
unfolding on_tokens
on_tokens-run m db e = ap (λ x. (x.0, record db { tokens = x.1 })) e

insert_token-free :
    (t : RefreshToken) (ts : Tokens)
    → refuses_token t ts ≡ false
    → insert_token t ts ≡ (ok t, t ∷ ts)
unfolding insert_token
insert_token-free t ts free = rw free refl

insert_token-taken :
    (t : RefreshToken) (ts : Tokens)
    → refuses_token t ts ≡ true
    → insert_token t ts ≡ (err query_failed, ts)
unfolding insert_token
insert_token-taken t ts taken = rw taken refl

module _ (env : Env) (u : User) (db : Portal) where
  dto : CreateUserRefreshTokenDto
  unfolding issued_raw lifetime
  dto = record {
    user_id = u.id;
    token_id = some (issued_raw env u db);
    jwt_id = some env.random_token;
    is_revoked = false;
    expires_at = some (env.sessions.now + lifetime env u db * 1000);
  }

  issue-as_bind :
      issue_refresh_token env u db
      ≡ (on_tokens (create env.sessions dto) >>= λ _. pure (issued_raw env u db)) db
  unfolding issue_refresh_token issue_for issued_raw lifetime dto
  issue-as_bind = refl

  create-as_insert : create env.sessions dto ≡ insert_token (issued_row env u db)
  unfolding create created_token issued_row dto
  create-as_insert = refl

  issue-of_insert :
      {r : Result RefreshToken} {ts : Tokens}
      → insert_token (issued_row env u db) db.tokens ≡ (r, ts)
      → on_tokens (create env.sessions dto) db ≡ (r, record db { tokens = ts })
  issue-of_insert e =
      on_tokens-run (create env.sessions dto) db (ap (λ m. m db.tokens) create-as_insert ∙ e)

  -- Where no row has the new `jti` or the new hash, the token is stored and returned.
  pub issue_refresh_token-run :
      refuses_token (issued_row env u db) db.tokens ≡ false
      → issue_refresh_token env u db
        ≡ (ok (issued_raw env u db), record db { tokens = issued_row env u db ∷ db.tokens })
  issue_refresh_token-run free =
      issue-as_bind
      ∙ bind-ok (on_tokens (create env.sessions dto)) (λ _. pure (issued_raw env u db)) db
          (issue-of_insert (insert_token-free (issued_row env u db) db.tokens free))

  pub issue_refresh_token-taken :
      refuses_token (issued_row env u db) db.tokens ≡ true
      → issue_refresh_token env u db ≡ (err query_failed, db)
  issue_refresh_token-taken taken =
      issue-as_bind
      ∙ bind-err (on_tokens (create env.sessions dto)) (λ _. pure (issued_raw env u db)) db
          (issue-of_insert (insert_token-taken (issued_row env u db) db.tokens taken))

-- What the client is answered.
unfoldable pub session_of : Env → User → Portal → Session
unfolding issued_raw access_claims get_session_timeout_minutes
session_of env u db = record {
  access_token = env.sign (access_claims env u);
  refresh_token = issued_raw env u db;
  expires_in = get_access_token_expiry_seconds env.auth_token_expires_in;
  session_timeout_minutes = get_session_timeout_minutes env u db;
}
