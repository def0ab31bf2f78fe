-- ===== src/Auth/Rotation.antt =====
-- What the exchange of a refresh token leaves of it.
use sto_info_backend.Base.{
  ℕ, ◌≡◌, ◌≢◌, refl, sym, ap, ◌∙◌, inl, inr, String, Bool, true, false, Option, none, some, ◌∷◌,
  arith, Bool-cases, Action, Result, ok, err, Error, unauthorized, bind-inversion, raise_if, gets,
  ◌>>=◌, raise_if-inversion,
}
use mathlib.Core.Path.{subst}
use sto_info_backend.Store.{find?, save_row}
use sto_info_backend.Users.{User, is_user}
use sto_info_backend.Sessions.{
  RefreshToken, Payload, Tokens, token_row_id, has_jwt_id, has_token_id, is_token_of, revoke,
  refuses_token, verify_and_decode, revoke_found, revoke_token_jti, revoke_token_decoded,
}
use sto_info_backend.Sessions
use sto_info_backend.Auth.Data.{Claims, Env, Portal, on_tokens}
use sto_info_backend.Auth.Issuing.{
  Session, has_matching_refresh_token, is_foreign_use, tokens_of, rotate, refresh_matching,
  refresh_found, refresh_verified, rescued, rescue, refresh_token, issue_refresh_token, answer,
}
use sto_info_backend.Auth.Issued.{issued_row, issue_refresh_token-run, issue_refresh_token-taken}
use sto_info_backend.Auth.Admission.{is_ok}
use sto_info_backend.Auth.Liveness.{HasDistinctJtis, is_live, no_match, revoked-not_live}

-- Whatever goes wrong is answered alike.
pub rescued-err :
    {A : Type 0} (e : Error) (r : Result A × Portal) → is_ok r.0 ≡ false → (rescued e r).0 ≡ err e
unfolding rescued
rescued-err e (ok a, s) h = cc
rescued-err e (err x, s) h = refl

rescued-ok :
    {A : Type 0} (e : Error) (a : A) (r : Result A × Portal)
    → (rescued e r).0 ≡ ok a
    → r ≡ (ok a, (rescued e r).1)
unfolding rescued
rescued-ok e a (ok b, s) h = ap (λ r. (r, s)) h
rescued-ok e a (err x, s) h = cc

refresh_found-fails :
    (env : Env) (raw : String) (c : Claims) (o : Option User) (db : Portal)
    → ((u : ℕ) → has_matching_refresh_token env raw c.jti (tokens_of u db) ≡ false)
    → is_ok (refresh_found env raw c o db).0 ≡ false
unfolding refresh_found refresh_matching
refresh_found-fails env raw c none db h = refl
refresh_found-fails env raw c (some u) db h = elim (Bool-cases u.is_account_disabled) [
  | inl off ↦ rw off refl
  | inr on ↦ rw (on, h u.id) refl
]

refresh_verified-fails :
    (env : Env) (raw : String) (c : Claims) (db : Portal)
    → ((u : ℕ) → has_matching_refresh_token env raw c.jti (tokens_of u db) ≡ false)
    → is_ok (refresh_verified env raw (some c) db).0 ≡ false
unfolding refresh_verified
refresh_verified-fails env raw c db h = elim (Bool-cases (is_foreign_use c.token_use)) [
  | inl foreign ↦ rw foreign refl
  | inr own ↦ rw own (refresh_found-fails env raw c (find? (is_user c.sub) db.users) db h)
]

-- A token without a live row is refused.
refused_without :
    (env : Env) (raw : String) (c : Claims) (j : ℕ) (db : Portal)
    → env.verify raw ≡ some c
    → c.jti ≡ some j
    → is_live j db.tokens ≡ false
    → (refresh_token env raw db).0 ≡ err (unauthorized "Invalid refresh token")
unfolding refresh_token rescue tokens_of
refused_without env raw c j db verified jti dead =
    rescued-err (unauthorized "Invalid refresh token")
      (refresh_verified env raw (env.verify raw) db)
      (rw verified
        (refresh_verified-fails env raw c db (λ u. rw jti (no_match env raw j u db.tokens dead))))

ok-ne-err : {A : Type 0} {a : A} {e : Error} → ok a ≢ err e
ok-ne-err h = cc

issued-distinct :
    (env : Env) (u : User) (db : Portal)
    → HasDistinctJtis db.tokens
    → refuses_token (issued_row env u db) db.tokens ≡ false
    → HasDistinctJtis (issued_row env u db ∷ db.tokens)
unfolding issued_row refuses_token
issued-distinct env u db d free = (λ j same. ground (arith, free, same), d)

issue-keeps_distinct :
    (env : Env) (u : User) (db db' : Portal) (token : String)
    → HasDistinctJtis db.tokens
    → issue_refresh_token env u db ≡ (ok token, db')
    → HasDistinctJtis db'.tokens
issue-keeps_distinct env u db db' token d h =
    elim (Bool-cases (refuses_token (issued_row env u db) db.tokens)) [
      | inl taken ↦ absurd (
          ok-ne-err
            (sym (ap (λ r. r.0) h) ∙ ap (λ r. r.0) (issue_refresh_token-taken env u db taken)))
      | inr free ↦
          let same = ap (λ r. r.1.tokens) (sym (issue_refresh_token-run env u db free) ∙ h) in
          subst HasDistinctJtis same (issued-distinct env u db d free)
    ]

on_tokens-inversion :
    {A : Type 0} (m : Action Tokens A) (db db' : Portal) (a : A)
    → on_tokens m db ≡ (ok a, db')
    → m db.tokens ≡ (ok a, db'.tokens)
unfolding on_tokens
on_tokens-inversion m db db' a h = ap (λ r. (r.0, r.1.tokens)) h

revoke_found-inversion :
    (o : Option RefreshToken) (ts ts' : Tokens)
    → revoke_found o ts ≡ (ok tt, ts')
    → (t : RefreshToken) × (o ≡ some t) × (save_row token_row_id (revoke t) ts ≡ ts')
unfolding revoke_found
revoke_found-inversion none ts ts' h = cc
revoke_found-inversion (some t) ts ts' h = (t, refl, ap (λ r. r.1) h)

-- A token that `revokeToken` takes has no live row after it.
revoke_token_jti-not_live :
    (u : ℕ) (o : Option ℕ) (ts ts' : Tokens)
    → HasDistinctJtis ts
    → revoke_token_jti u o ts ≡ (ok tt, ts')
    → (j : ℕ) × (o ≡ some j) × (is_live j ts' ≡ false)
unfolding revoke_token_jti
revoke_token_jti-not_live u none ts ts' d h = cc
revoke_token_jti-not_live u (some j) ts ts' d h =
    let (t, found, saved) = revoke_found-inversion (find? (is_token_of u j) ts) ts ts' h in
    (j, refl, rw (← saved) (revoked-not_live u j t ts d found))

revoke_verified :
    (env : Env) (raw : String) (p : Payload) (u : ℕ) (ts : Tokens)
    → verify_and_decode env.sessions raw ≡ some p
    → Sessions.revoke_token env.sessions (some u) (some raw) ts ≡ revoke_token_jti u p.jti ts
unfolding Sessions.revoke_token revoke_token_decoded
revoke_verified env raw p u ts verified = rw verified refl

answer-tokens :
    (env : Env) (u : User) (token : String) (db db' : Portal) (s : Session)
    → answer env u token db ≡ (ok s, db')
    → db.tokens ≡ db'.tokens
unfolding answer
answer-tokens env u token db db' s h = ap (λ r. r.1.tokens) h

rotate-not_live :
    (env : Env) (raw : String) (p : Payload) (u : User) (db db' : Portal) (s : Session)
    → HasDistinctJtis db.tokens
    → verify_and_decode env.sessions raw ≡ some p
    → rotate env raw u db ≡ (ok s, db')
    → (j : ℕ) × (p.jti ≡ some j) × (is_live j db'.tokens ≡ false)
unfolding rotate
rotate-not_live env raw p u db db' s d verified h =
    let (token, db1, issued, rest) =
      bind-inversion (issue_refresh_token env u)
        (λ token. on_tokens (Sessions.revoke_token env.sessions (some u.id) (some raw)) >>= λ _.
          answer env u token)
        db h in
    let (done, db2, revoked, answered) =
      bind-inversion (on_tokens (Sessions.revoke_token env.sessions (some u.id) (some raw)))
        (λ _. answer env u token) db1 rest in
    let (j, jti, dead) =
      revoke_token_jti-not_live u.id p.jti db1.tokens db2.tokens
        (issue-keeps_distinct env u db db1 token d issued)
        (sym (revoke_verified env raw p u.id db1.tokens verified)
          ∙ on_tokens-inversion (Sessions.revoke_token env.sessions (some u.id) (some raw)) db1 db2
              done revoked) in
    (j, jti, subst (λ ts. is_live j ts ≡ false) (answer-tokens env u token db2 db' s answered) dead)

refresh_matching-inversion :
    (env : Env) (raw : String) (c : Claims) (u : User) (b : Bool) (db db' : Portal) (s : Session)
    → refresh_matching env raw c u b db ≡ (ok s, db')
    → rotate env raw u db ≡ (ok s, db')
unfolding refresh_matching
refresh_matching-inversion env raw c u false db db' s h = cc
refresh_matching-inversion env raw c u true db db' s h = h

refresh_found-inversion :
    (env : Env) (raw : String) (c : Claims) (o : Option User) (db db' : Portal) (s : Session)
    → refresh_found env raw c o db ≡ (ok s, db')
    → (u : User) × (rotate env raw u db ≡ (ok s, db'))
unfolding refresh_found refresh_matching
refresh_found-inversion env raw c none db db' s h = cc
refresh_found-inversion env raw c (some u) db db' s h =
    let matching = λ (x : Portal). has_matching_refresh_token env raw c.jti (tokens_of u.id x) in
    let (done, db1, enabled, rest) =
      bind-inversion (raise_if u.is_account_disabled (unauthorized "User not found"))
        (λ _. gets matching >>= refresh_matching env raw c u) db h in
    let (on, same) =
      raise_if-inversion u.is_account_disabled (unauthorized "User not found") db enabled in
    (
      u,
      refresh_matching-inversion env raw c u (matching db) db db' s
          (subst (λ x. refresh_matching env raw c u (matching x) x ≡ (ok s, db')) same rest),
    )

refresh_verified-inversion :
    (env : Env) (raw : String) (c : Claims) (db db' : Portal) (s : Session)
    → refresh_verified env raw (some c) db ≡ (ok s, db')
    → (u : User) × (rotate env raw u db ≡ (ok s, db'))
unfolding refresh_verified
refresh_verified-inversion env raw c db db' s h =
    let e = unauthorized "Invalid refresh token" in
    let (done, db1, own, rest) =
      bind-inversion (raise_if (is_foreign_use c.token_use) e)
        (λ _. gets (λ x. find? (is_user c.sub) x.users) >>= refresh_found env raw c) db h in
    let (off, same) = raise_if-inversion (is_foreign_use c.token_use) e db own in
    refresh_found-inversion env raw c (find? (is_user c.sub) db.users) db db' s (
      subst (λ x. refresh_found env raw c (find? (is_user c.sub) x.users) x ≡ (ok s, db')) same
        rest)

refresh_token-inversion :
    (env : Env) (raw : String) (c : Claims) (db : Portal) (s : Session)
    → env.verify raw ≡ some c
    → (refresh_token env raw db).0 ≡ ok s
    → (u : User) × (rotate env raw u db ≡ (ok s, (refresh_token env raw db).1))
unfolding refresh_token rescue
refresh_token-inversion env raw c db s verified h =
    let ended =
      rescued-ok (unauthorized "Invalid refresh token") s
        (refresh_verified env raw (env.verify raw) db) h in
    refresh_verified-inversion env raw c db (refresh_token env raw db).1 s
      (ap (λ o. refresh_verified env raw o db) (sym verified) ∙ ended)

-- Where the two libraries read the same `jti` from a token, no two rows have one `jti`, and the token
-- was exchanged, no live row has its `jti`, and whoever exchanges it again is refused, as long as the
-- token is read as it was.
pub refresh_token-once :
    (env env' : Env) (raw : String) (c : Claims) (p : Payload) (db : Portal) (s : Session)
    → HasDistinctJtis db.tokens
    → env.verify raw ≡ some c
    → env'.verify raw ≡ some c
    → verify_and_decode env.sessions raw ≡ some p
    → p.jti ≡ c.jti
    → (refresh_token env raw db).0 ≡ ok s
    → let db' = (refresh_token env raw db).1 in
      ((j : ℕ) × (c.jti ≡ some j) × (is_live j db'.tokens ≡ false))
      × ((refresh_token env' raw db').0 ≡ err (unauthorized "Invalid refresh token"))
refresh_token-once env env' raw c p db s d verified again decoded same h =
    let db' = (refresh_token env raw db).1 in
    let (u, rotated) = refresh_token-inversion env raw c db s verified h in
    let (j, jti, dead) = rotate-not_live env raw p u db db' s d decoded rotated in
    let own : c.jti ≡ some j = sym same ∙ jti in
    ((j, own, dead), refused_without env' raw c j db' again own dead)
