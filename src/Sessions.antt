-- ===== src/Sessions.antt =====
-- user-refresh-token/user-refresh-token.service.ts: the refresh tokens that sessions live by.
pub mod Revocation
pub mod Issue
mod Tests
use sto_info_backend.Base.{
  ℕ, ◌+◌, ◌*◌, String, Bool, true, false, not, ◌&&◌, ◌||◌, Option, none, some, List, [], ◌∷◌, ◌==◌,
  if◌then◌else◌, ltb, is_none, is_some_of, Action, Result, ok, err, Error, pure, raise, raise_if,
  ◌>>=◌, ◌>>◌, gets, or_raise, modify, bad_request, unauthorized, query_failed, reference_failed,
}
use sto_info_backend.Store.{keep, find?, any, update_where, save_row}

-- `UserRefreshTokenEntity`; `jwtId` is a uuid, `tokenId` the hash of the token, compared as numbers. No
-- column is read of a row that is removed softly, and no code removes one so.
pub record RefreshToken : Type 0 where
  pub id : ℕ
  pub user_id : ℕ
  pub jwt_id : Option ℕ
  pub token_id : Option ℕ
  pub expires_at : ℕ
  pub is_revoked : Bool

pub record Payload : Type 0 where
  pub jti : Option ℕ
  pub exp : Option ℕ

-- What `jwt.verify` returns: it throws, or returns a string, or the claims.
pub data Verified : Type 0 where
  thrown text : Verified
  claims : Payload → Verified

-- Outside this code: the time in milliseconds, the key that the database draws, the ids of the table of users, the environment,
-- the secret store of shared/secrets, jsonwebtoken and bcrypt.
pub record Env : Type 0 where
  pub now : ℕ
  pub new_id : ℕ
  pub has_user : ℕ → Bool
  pub secret_name : Option String
  pub jwt_secret : String → Option String
  pub verify : String → String → Verified
  pub hash : String → ℕ
  pub refresh_token_expires_in : ℕ

abbrev pub Tokens : Type 0
Tokens = List RefreshToken

unfoldable pub token_row_id : RefreshToken → ℕ
token_row_id t = t.id

-- None where it throws: every caller catches whatever that is.
unfoldable pub check_verified : Verified → Option Payload
check_verified thrown = none
check_verified text = none
check_verified (claims p) = some p

unfoldable pub verify_with : Env → String → Option String → Option Payload
unfolding check_verified
verify_with env raw none = none
verify_with env raw (some secret) = check_verified (env.verify raw secret)

unfoldable pub verify_and_decode : Env → String → Option Payload
unfolding verify_with
verify_and_decode env raw = elim env.secret_name [
  | none ↦ none
  | some name ↦ verify_with env raw (env.jwt_secret name)
]

-- The unique columns, and the column that is never null.
unfoldable pub has_jwt_id : ℕ → RefreshToken → Bool
has_jwt_id j t = is_some_of j t.jwt_id

unfoldable pub has_token_id : ℕ → RefreshToken → Bool
has_token_id h t = is_some_of h t.token_id

unfoldable pub refuses_token : RefreshToken → Tokens → Bool
unfolding any has_jwt_id has_token_id
refuses_token t rows =
    elim t.jwt_id [ none ↦ true | some j ↦ any (has_jwt_id j) rows ]
    || elim t.token_id [ none ↦ false | some h ↦ any (has_token_id h) rows ]

unfoldable pub insert_token : RefreshToken → Action Tokens RefreshToken
insert_token t rows = if refuses_token t rows then (err query_failed, rows) else (ok t, t ∷ rows)

-- `exp` is in seconds, as is the environment's value.
unfoldable pub expiry : Env → Option ℕ → ℕ
expiry env none = env.now + env.refresh_token_expires_in * 1000
expiry env (some exp) = exp * 1000

unfoldable pub new_token : Env → ℕ → String → Payload → RefreshToken
unfolding expiry
new_token env user_id raw p = record {
  id = env.new_id;
  user_id = user_id;
  jwt_id = p.jti;
  token_id = some (env.hash raw);
  expires_at = expiry env p.exp;
  is_revoked = false;
}

-- The row of a user whom the caller names, to whom the foreign key leads.
unfoldable pub insert_of_user : Env → RefreshToken → Action Tokens RefreshToken
unfolding insert_token
insert_of_user env t rows =
    if env.has_user t.user_id then insert_token t rows else (err (reference_failed t.user_id), rows)

-- An argument of the calls is none where it is missing or empty.
unfoldable pub create_decoded : Env → ℕ → String → Option Payload → Action Tokens RefreshToken
create_decoded env user_id raw none = raise (bad_request "Invalid refresh token")
create_decoded env user_id raw (some p) = insert_of_user env (new_token env user_id raw p)

unfoldable pub create_user_refresh_token :
    Env → Option ℕ → Option String → Action Tokens RefreshToken
create_user_refresh_token env none raw = raise (bad_request "User is required")
create_user_refresh_token env (some u) none = raise (bad_request "Refresh token is required")
create_user_refresh_token env (some u) (some raw) =
    create_decoded env u raw (verify_and_decode env raw)

unfoldable pub revoke : RefreshToken → RefreshToken
revoke t = record t { is_revoked = true }

unfoldable pub revoke_jti : Option ℕ → Action Tokens (Unit {0})
unfolding has_jwt_id revoke
revoke_jti none = pure tt
revoke_jti (some j) = modify (update_where (λ t. has_jwt_id j t && not t.is_revoked) revoke)

-- Best effort: a token that does not verify is left alone.
unfoldable pub revoke_decoded : Option Payload → Action Tokens (Unit {0})
revoke_decoded none = pure tt
revoke_decoded (some p) = revoke_jti p.jti

unfoldable pub revoke_user_refresh_token : Env → Option String → Action Tokens (Unit {0})
revoke_user_refresh_token env none = raise (bad_request "Refresh token is required")
revoke_user_refresh_token env (some raw) = revoke_decoded (verify_and_decode env raw)

unfoldable pub is_token_of : ℕ → ℕ → RefreshToken → Bool
unfolding has_jwt_id
is_token_of user_id j t = has_jwt_id j t && t.user_id == user_id

unfoldable pub revoke_found : Option RefreshToken → Action Tokens (Unit {0})
unfolding save_row token_row_id revoke
revoke_found none = raise (unauthorized "Refresh token does not exist")
revoke_found (some t) = modify (save_row token_row_id (revoke t))

unfoldable pub revoke_token_jti : ℕ → Option ℕ → Action Tokens (Unit {0})
revoke_token_jti user_id none = raise (unauthorized "Invalid refresh token")
revoke_token_jti user_id (some j) = do
  found ← gets (find? (is_token_of user_id j))
  revoke_found found

unfoldable pub revoke_token_decoded : ℕ → Option Payload → Action Tokens (Unit {0})
revoke_token_decoded user_id none = raise (unauthorized "Invalid refresh token")
revoke_token_decoded user_id (some p) = revoke_token_jti user_id p.jti

unfoldable pub revoke_token : Env → Option ℕ → Option String → Action Tokens (Unit {0})
revoke_token env none raw = raise (bad_request "User ID is required")
revoke_token env (some u) none = raise (bad_request "Refresh token is required")
revoke_token env (some u) (some raw) = revoke_token_decoded u (verify_and_decode env raw)

-- UPDATE, then DELETE
unfoldable pub revoke_rows_of : ℕ → Tokens → Tokens
unfolding update_where revoke
revoke_rows_of user_id = update_where (λ t. t.user_id == user_id && not t.is_revoked) revoke

unfoldable pub delete_rows_of : ℕ → Tokens → Tokens
unfolding keep
delete_rows_of user_id = keep (λ t. not (t.user_id == user_id))

unfoldable pub revoke_all_tokens_for_user : Option ℕ → Action Tokens (Unit {0})
revoke_all_tokens_for_user none = raise (bad_request "User ID is required")
revoke_all_tokens_for_user (some u) = do modify (revoke_rows_of u); modify (delete_rows_of u)

unfoldable pub is_swept : ℕ → RefreshToken → Bool
is_swept now t = ltb t.expires_at now || t.is_revoked

unfoldable pub cleanup_expired_and_revoked_tokens : Env → Action Tokens (Unit {0})
unfolding keep is_swept
cleanup_expired_and_revoked_tokens env = modify (keep (λ t. not (is_swept env.now t)))
