-- ===== src/Sessions/Issue.antt =====
-- user-refresh-token/user-refresh-token.service.ts: the row of a token that the caller signed itself.
use sto_info_backend.Base.{ℕ, ◌+◌, ◌*◌, String, Bool, Option, Action, get_or}
use mathlib.Core.Option
use sto_info_backend.Sessions.{RefreshToken, Env, Tokens, insert_token}

-- `CreateUserRefreshTokenDto`, whose `tokenId` is the raw token
pub record CreateUserRefreshTokenDto : Type 0 where
  pub user_id : ℕ
  pub token_id : Option String
  pub jwt_id : Option ℕ
  pub is_revoked : Bool
  pub expires_at : Option ℕ

unfoldable pub created_token : Env → CreateUserRefreshTokenDto → RefreshToken
created_token env dto = record {
  id = env.new_id;
  user_id = dto.user_id;
  jwt_id = dto.jwt_id;
  token_id = Option.map env.hash dto.token_id;
  expires_at = get_or dto.expires_at (env.now + env.refresh_token_expires_in * 1000);
  is_revoked = dto.is_revoked;
}

-- The callers have read the row of the user, to whom the foreign key leads.
unfoldable pub create : Env → CreateUserRefreshTokenDto → Action Tokens RefreshToken
unfolding created_token
create env dto = insert_token (created_token env dto)
