-- ===== src/Sessions/Tests.antt =====
-- The theorems about sessions at concrete inputs.
use sto_info_backend.Base.{◌≡◌, refl, true, false, some, [], ◌∷◌, ok}
use sto_info_backend.Store.{has_id}
use sto_info_backend.Sessions.{
  RefreshToken, Payload, claims, Env, token_row_id, verify_and_decode, refuses_token, new_token,
  create_user_refresh_token, revoke, revoke_token, cleanup_expired_and_revoked_tokens,
}
use sto_info_backend.Sessions.Revocation.{create-revoke_token-cleanup}

abbrev payload : Payload
payload = record { jti = some 7; exp = some 50 }

abbrev env : Env
env = record {
  now = 10;
  new_id = 4;
  has_user = λ n. true;
  secret_name = some "secret";
  jwt_secret = λ name. some "key";
  verify = λ raw secret. claims payload;
  hash = λ raw. 11;
  refresh_token_expires_in = 14400;
}

abbrev old : RefreshToken
old = record {
  id = 1;
  user_id = 2;
  jwt_id = some 5;
  token_id = some 6;
  expires_at = 9;
  is_revoked = false;
}

-- An hour later, and a month.
abbrev later : Env
later = record env { now = 3600010; new_id = 8 }

abbrev much_later : Env
much_later = record env { now = 2600000010; new_id = 9 }

create-revoke_token-cleanup_example :
    let t = new_token env 3 "jwt" payload in
    let start = create_user_refresh_token env (some 3) (some "jwt") (old ∷ []) in
    let end = revoke_token later (some 3) (some "jwt") start.1 in
    (start ≡ (ok t, t ∷ old ∷ []))
    × (end ≡ (ok tt, revoke t ∷ old ∷ []))
    × ((cleanup_expired_and_revoked_tokens much_later end.1).1
        ≡ (cleanup_expired_and_revoked_tokens much_later (old ∷ [])).1)
unfolding verify_and_decode refuses_token new_token has_id token_row_id
create-revoke_token-cleanup_example =
    create-revoke_token-cleanup env later much_later 3 7 "jwt" payload payload (old ∷ []) refl refl
      refl refl refl refl refl
