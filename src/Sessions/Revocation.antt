-- ===== src/Sessions/Revocation.antt =====
-- What revoking leaves of the sessions.
use sto_info_backend.Base.{
  ℕ, ◌≡◌, ◌≢◌, refl, true, false, not, some, [], ◌∷◌, arith, ◌==◌, ok, String,
}
use sto_info_backend.Store.{has_id, keep, any}
use sto_info_backend.Store.Laws.{find?-cons_true, save_row-cons_eq}
use sto_info_backend.Sessions.{
  RefreshToken, Payload, Env, Tokens, token_row_id, verify_and_decode, has_jwt_id, refuses_token,
  insert_token, insert_of_user, new_token, create_decoded, create_user_refresh_token, revoke,
  is_token_of, revoke_found, revoke_token_jti, revoke_token_decoded, revoke_token, revoke_rows_of,
  delete_rows_of, revoke_all_tokens_for_user, cleanup_expired_and_revoked_tokens,
}

delete-revoke : (u : ℕ) (ts : Tokens) → delete_rows_of u (revoke_rows_of u ts) ≡ delete_rows_of u ts
unfolding delete_rows_of revoke_rows_of revoke
delete-revoke u [] = refl
delete-revoke u (t ∷ ts) = ground (arith, delete-revoke u ts)

no_rows_of : (u : ℕ) (ts : Tokens) → any (λ t. t.user_id == u) (delete_rows_of u ts) ≡ false
unfolding delete_rows_of any
no_rows_of u [] = refl
no_rows_of u (t ∷ ts) = ground (arith, no_rows_of u ts)

rows_of_other :
    (u v : ℕ) (ts : Tokens)
    → u ≢ v
    → keep (λ t. t.user_id == v) (delete_rows_of u ts) ≡ keep (λ t. t.user_id == v) ts
unfolding delete_rows_of keep
rows_of_other u v [] ne = refl
rows_of_other u v (t ∷ ts) ne = ground (arith, ne, rows_of_other u v ts ne)

-- `revokeAllTokensForUser` of a user succeeds, leaves the user without a row, and the rows of every other
-- user as they were.
pub revoke_all_tokens_for_user-clears :
    (u : ℕ) (ts : Tokens)
    → let r = revoke_all_tokens_for_user (some u) ts in
      (r.0 ≡ ok tt)
      × (any (λ t. t.user_id == u) r.1 ≡ false)
      × ((v : ℕ) → u ≢ v → keep (λ t. t.user_id == v) r.1 ≡ keep (λ t. t.user_id == v) ts)
unfolding revoke_all_tokens_for_user
revoke_all_tokens_for_user-clears u ts = (
  refl,
  rw (delete-revoke u ts) (no_rows_of u ts),
  λ v ne. rw (delete-revoke u ts) (rows_of_other u v ts ne),
)

others_kept :
    (u : ℕ) (ts : Tokens)
    → keep (λ t. not (t.user_id == u)) (delete_rows_of u ts) ≡ keep (λ t. not (t.user_id == u)) ts
unfolding delete_rows_of keep
others_kept u [] = refl
others_kept u (t ∷ ts) = ground (arith, others_kept u ts)

pub revoke_all_tokens_for_user-others :
    (u : ℕ) (ts : Tokens)
    → keep (λ t. not (t.user_id == u)) (revoke_all_tokens_for_user (some u) ts).1
      ≡ keep (λ t. not (t.user_id == u)) ts
unfolding revoke_all_tokens_for_user
revoke_all_tokens_for_user-others u ts = rw (delete-revoke u ts) (others_kept u ts)

create-row :
    (env : Env) (u : ℕ) (raw : String) (p : Payload) (ts : Tokens)
    → verify_and_decode env raw ≡ some p
    → refuses_token (new_token env u raw p) ts ≡ false
    → env.has_user u ≡ true
    → create_user_refresh_token env (some u) (some raw) ts
      ≡ (ok (new_token env u raw p), new_token env u raw p ∷ ts)
unfolding create_user_refresh_token create_decoded insert_of_user insert_token new_token
create-row env u raw p ts verified free known = rw (verified, known, free) refl

revoke_token-row :
    (env : Env) (u : ℕ) (raw : String) (p : Payload) (j : ℕ) (t : RefreshToken) (ts : Tokens)
    → verify_and_decode env raw ≡ some p
    → p.jti ≡ some j
    → is_token_of u j t ≡ true
    → has_id token_row_id t.id ts ≡ false
    → revoke_token env (some u) (some raw) (t ∷ ts) ≡ (ok tt, revoke t ∷ ts)
unfolding revoke_token revoke_token_decoded revoke_token_jti revoke_found revoke token_row_id
revoke_token-row env u raw p j t ts verified jti own new =
    rw
      (
        verified,
        jti,
        find?-cons_true (is_token_of u j) t ts own,
        save_row-cons_eq token_row_id (revoke t) t ts refl new,
      )
      refl

new_token-own :
    (env : Env) (u j : ℕ) (raw : String) (p : Payload)
    → p.jti ≡ some j
    → is_token_of u j (new_token env u raw p) ≡ true
unfolding is_token_of new_token has_jwt_id
new_token-own env u j raw p e = rw e (ground arith)

cleanup-revoked :
    (env : Env) (t : RefreshToken) (ts : Tokens)
    → (cleanup_expired_and_revoked_tokens env (revoke t ∷ ts)).1
      ≡ (cleanup_expired_and_revoked_tokens env ts).1
unfolding cleanup_expired_and_revoked_tokens revoke
cleanup-revoked env t ts = ground arith

new_token-new :
    (env : Env) (u : ℕ) (raw : String) (p : Payload) (ts : Tokens)
    → has_id token_row_id env.new_id ts ≡ false
    → has_id token_row_id (new_token env u raw p).id ts ≡ false
unfolding new_token
new_token-new env u raw p ts h = h

-- A session from its start to its end, each call with its own time and environment. Where the token
-- verifies with the same `jti` when it is stored and when it is revoked, no row has that `jti` or that hash,
-- the key is new and the user has a row, `createUserRefreshToken` stores it; `revokeToken` of the same token by the same user,
-- later, then marks that row alone; and the sweep, at whatever time, expired or not, leaves what it would
-- have left then had the session never been.
pub create-revoke_token-cleanup :
    (created ended swept : Env) (u j : ℕ) (raw : String) (p q : Payload) (ts : Tokens)
    → verify_and_decode created raw ≡ some p
    → p.jti ≡ some j
    → verify_and_decode ended raw ≡ some q
    → q.jti ≡ some j
    → refuses_token (new_token created u raw p) ts ≡ false
    → has_id token_row_id created.new_id ts ≡ false
    → created.has_user u ≡ true
    → let t = new_token created u raw p in
      let start = create_user_refresh_token created (some u) (some raw) ts in
      let end = revoke_token ended (some u) (some raw) start.1 in
      (start ≡ (ok t, t ∷ ts))
      × (end ≡ (ok tt, revoke t ∷ ts))
      × ((cleanup_expired_and_revoked_tokens swept end.1).1
          ≡ (cleanup_expired_and_revoked_tokens swept ts).1)
create-revoke_token-cleanup created ended swept u j raw p q ts verified jti again jti' free new
      known =
    let t = new_token created u raw p in
    let start = create-row created u raw p ts verified free known in
    let end =
      revoke_token-row ended u raw q j t ts again jti' (new_token-own created u j raw p jti)
        (new_token-new created u raw p ts new) in
    (start, rw start end, rw (start, end) (cleanup-revoked swept t ts))
