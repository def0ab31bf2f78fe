-- ===== src/Auth/Liveness.antt =====
-- The rows of one `jti`, and what revoking one leaves of them.
use sto_info_backend.Base.{
  ℕ, ◌≡◌, refl, inl, inr, String, Bool, true, false, not, ◌&&◌, some, [], ◌∷◌, arith, ◌==◌,
  Bool-cases,
}
use sto_info_backend.Store.{find?, any, keep, update_where, save_row}
use sto_info_backend.Sessions.{RefreshToken, Tokens, token_row_id, has_jwt_id, is_token_of, revoke}
use sto_info_backend.Auth.Data.{Env}
use sto_info_backend.Auth.Issuing.{has_matching_refresh_token, is_match, is_same_jti}

-- `jwtId` is a unique column.
abbrev pub HasDistinctJtis : Tokens → Type 0
HasDistinctJtis [] = Unit
HasDistinctJtis (t ∷ ts) =
    ((j : ℕ) → t.jwt_id ≡ some j → any (has_jwt_id j) ts ≡ false) × HasDistinctJtis ts

-- Some row of this `jti` is not revoked.
unfoldable pub is_live : ℕ → Tokens → Bool
unfolding any has_jwt_id
is_live j = any (λ t. has_jwt_id j t && not t.is_revoked)

save-absent :
    (j : ℕ) (t : RefreshToken) (ts : Tokens)
    → any (has_jwt_id j) ts ≡ false
    → is_live j (save_row token_row_id (revoke t) ts) ≡ false
unfolding any has_jwt_id save_row update_where revoke is_live
save-absent j t [] h = refl
save-absent j t (x ∷ xs) h = ground (arith, save-absent j t xs)

found-jti :
    (u j : ℕ) (t : RefreshToken) (ts : Tokens)
    → find? (is_token_of u j) ts ≡ some t
    → any (has_jwt_id j) ts ≡ true
unfolding find? is_token_of any
found-jti u j t [] h = cc
found-jti u j t (x ∷ xs) h = ground (arith, found-jti u j t xs)

has_jwt_id-eq : (j : ℕ) (t : RefreshToken) → has_jwt_id j t ≡ true → t.jwt_id ≡ some j
unfolding has_jwt_id
has_jwt_id-eq j t h = ground (arith, h)

-- The row that is found by its `jti` is the only one of it.
pub revoked-not_live :
    (u j : ℕ) (t : RefreshToken) (ts : Tokens)
    → HasDistinctJtis ts
    → find? (is_token_of u j) ts ≡ some t
    → is_live j (save_row token_row_id (revoke t) ts) ≡ false
unfolding find? is_token_of save_row update_where any is_live revoke token_row_id
revoked-not_live u j t [] d h = cc
revoked-not_live u j t (x ∷ xs) (new, d) h = elim (Bool-cases (has_jwt_id j x)) [
  | inl same ↦
      ground (arith, same, new j (has_jwt_id-eq j x same), save-absent j t xs, found-jti u j t xs)
  | inr other ↦ ground (arith, other, revoked-not_live u j t xs d)
]

pub no_match :
    (env : Env) (raw : String) (j u : ℕ) (ts : Tokens)
    → is_live j ts ≡ false
    → has_matching_refresh_token env raw (some j) (keep (λ t. t.user_id == u) ts) ≡ false
unfolding is_live has_matching_refresh_token any keep is_match is_same_jti has_jwt_id
no_match env raw j u [] h = refl
no_match env raw j u (t ∷ ts) h = ground (arith, no_match env raw j u ts)
