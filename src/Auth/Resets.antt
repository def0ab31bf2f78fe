-- ===== src/Auth/Resets.antt =====
-- What the reset of a password leaves.
use mathlib.Core.Path.{subst}
use sto_info_backend.Base.{
  ℕ, ◌≤◌, ◌≡◌, refl, sym, ap, ◌∙◌, String, false, Option, none, some, ◌∷◌, arith, ◌==◌, Action, ok,
  err, not_found, bad_request, bind-inversion, not, result-state, raise_if-inversion, ◌>>=◌, ◌>>◌,
}
use sto_info_backend.Store.{find?, any, keep, count_where, save_row, HasDistinctIds}
use sto_info_backend.Store.Laws.{
  find?-holds, count_where-save_row, count_where-eq_zero-find?, find?-save_row_narrow,
}
use sto_info_backend.Store.Keys.{find?-by_key}
use sto_info_backend.Users.{User}
use sto_info_backend.Sessions.{revoke_all_tokens_for_user}
use sto_info_backend.Sessions.Revocation.{
  revoke_all_tokens_for_user-clears, revoke_all_tokens_for_user-others,
}
use sto_info_backend.Auth.Data.{
  password_changed, Env, Portal, user_key, has_reset_token, save_user, send, on_tokens,
}
use sto_info_backend.Auth.Accounts.{assert_token_not_expired}
use sto_info_backend.Auth.Passwords.{
  with_password, global_logout, log_password_reset_session_invalidation, reset_found,
  reset_password,
}

-- The portal after a reset.
abbrev reset_portal : Env → String → User → Portal → Portal
reset_portal env password u db =
    let u' = with_password env password u in
    record db {
      users = save_row user_key u' db.users;
      tokens = (revoke_all_tokens_for_user (some u.id) db.tokens).1;
      audits = global_logout env u' ∷ db.audits;
      mails = password_changed u.email ∷ db.mails;
    }

assert-inversion :
    (env : Env) (o : Option ℕ) (db db' : Portal)
    → assert_token_not_expired env o db ≡ (ok tt, db')
    → db ≡ db'
unfolding assert_token_not_expired
assert-inversion env none db db' h = cc
assert-inversion env (some n) db db' h =
    sym (raise_if-inversion _ (bad_request "Token expired") db h).1

finish-inversion :
    (env : Env) (u : User) (db db' : Portal)
    → (log_password_reset_session_invalidation env u >> send env (password_changed u.email)) db
      ≡ (ok tt, db')
    → record db {
      audits = global_logout env u ∷ db.audits;
      mails = password_changed u.email ∷ db.mails;
    }
      ≡ db'
unfolding log_password_reset_session_invalidation send
finish-inversion env u db db' h = ground (arith, h)

-- The writes after the token was found fresh.
abbrev complete : Env → User → Action Portal (Unit {0})
complete env u =
    on_tokens (revoke_all_tokens_for_user (some u.id))
    >> (log_password_reset_session_invalidation env u >> send env (password_changed u.email))

complete-inversion :
    (env : Env) (u : User) (db db' : Portal)
    → complete env u db ≡ (ok tt, db')
    → record db {
      tokens = (revoke_all_tokens_for_user (some u.id) db.tokens).1;
      audits = global_logout env u ∷ db.audits;
      mails = password_changed u.email ∷ db.mails;
    }
      ≡ db'
unfolding on_tokens revoke_all_tokens_for_user
complete-inversion env u db db' h =
    finish-inversion env u
      (record db { tokens = (revoke_all_tokens_for_user (some u.id) db.tokens).1 }) db' h

reset_found-inversion :
    (env : Env) (password : String) (u : User) (db db' : Portal)
    → reset_found env password (some u) db ≡ (ok tt, db')
    → reset_portal env password u db ≡ db'
unfolding reset_found save_user with_password global_logout
reset_found-inversion env password u db db' h =
    let u' = with_password env password u in
    let (done, db1, fresh, rest) =
      bind-inversion (assert_token_not_expired env u.password_reset_token_expiry)
        (λ _. save_user u' >>= λ saved. complete env saved) db h in
    let e = assert-inversion env u.password_reset_token_expiry db db1 fresh in
    complete-inversion env u' (record db { users = save_row user_key u' db.users }) db'
      (subst
        (λ x. complete env u' (record x { users = save_row user_key u' x.users }) ≡ (ok tt, db'))
        (sym e) rest)

reset_password-inversion :
    (env : Env) (token : ℕ) (password : String) (u : User) (db : Portal)
    → find? (has_reset_token token) db.users ≡ some u
    → (reset_password env (some token) (some password) db).0 ≡ ok tt
    → reset_portal env password u db ≡ (reset_password env (some token) (some password) db).1
unfolding reset_password
reset_password-inversion env token password u db found h =
    let run = ap (λ o. reset_found env password o db) found in
    reset_found-inversion env password u db (reset_password env (some token) (some password) db).1
      (sym run ∙ result-state (reset_password env (some token) (some password) db) h)

refused :
    (env : Env) (token : ℕ) (password : String) (db : Portal)
    → find? (has_reset_token token) db.users ≡ none
    → reset_password env (some token) (some password) db ≡ (err (not_found "Invalid token"), db)
unfolding reset_password reset_found
refused env token password db gone = ap (λ o. reset_found env password o db) gone

module _ (env : Env) (token : ℕ) (password : String) (u : User) (db : Portal)
    (distinct : HasDistinctIds user_key db.users)
    (found : find? (has_reset_token token) db.users ≡ some u) where
  spent :
      count_where (has_reset_token token) db.users ≤ 1
      → find? (has_reset_token token) (reset_portal env password u db).users ≡ none
  unfolding has_reset_token with_password user_key
  spent alone =
      let held = find?-holds (has_reset_token token) db.users u found in
      let counted =
        count_where-save_row user_key (has_reset_token token) (has_reset_token token) u
          (with_password env password u) db.users distinct found refl in
      count_where-eq_zero-find? (has_reset_token token) (reset_portal env password u db).users
        (ground (arith, counted, held, alone))

  rekeyed :
      find? (λ v. v.id == u.id) (reset_portal env password u db).users
      ≡ some (with_password env password u)
  unfolding with_password user_key
  rekeyed =
      find?-save_row_narrow user_key (λ v. v.id == u.id) (λ v. v.id == u.id) u
        (with_password env password u) db.users distinct
        (find?-by_key user_key (has_reset_token token) u db.users distinct found) refl (λ x h. h)
        (ground arith)

  -- The reset of the password of a user whose token no other user holds, once it returns, leaves the
  -- user with the hash of the new password and without a session, the sessions of the other users as they
  -- were, one entry more in the audit, and the token spent: whoever resets by it again is told that it is
  -- invalid.
  pub reset_password-once :
      count_where (has_reset_token token) db.users ≤ 1
      → (reset_password env (some token) (some password) db).0 ≡ ok tt
      → let db' = (reset_password env (some token) (some password) db).1 in
        (find? (λ v. v.id == u.id) db'.users ≡ some (with_password env password u))
        × (any (λ t. t.user_id == u.id) db'.tokens ≡ false)
        × (keep (λ t. not (t.user_id == u.id)) db'.tokens
            ≡ keep (λ t. not (t.user_id == u.id)) db.tokens)
        × (db'.audits ≡ global_logout env (with_password env password u) ∷ db.audits)
        × ((env' : Env) (password' : String)
            → reset_password env' (some token) (some password') db'
              ≡ (err (not_found "Invalid token"), db'))
  reset_password-once alone h =
      let cleared = revoke_all_tokens_for_user-clears u.id db.tokens in
      subst
        (λ x.
          (find? (λ v. v.id == u.id) x.users ≡ some (with_password env password u))
          × (any (λ t. t.user_id == u.id) x.tokens ≡ false)
          × (keep (λ t. not (t.user_id == u.id)) x.tokens
              ≡ keep (λ t. not (t.user_id == u.id)) db.tokens)
          × (x.audits ≡ global_logout env (with_password env password u) ∷ db.audits)
          × ((env' : Env) (password' : String)
              → reset_password env' (some token) (some password') x
                ≡ (err (not_found "Invalid token"), x)))
        (reset_password-inversion env token password u db found h)
        (
          rekeyed,
          cleared.1,
          revoke_all_tokens_for_user-others u.id db.tokens,
          refl,
          λ env' password'.
              refused env' token password' (reset_portal env password u db) (spent alone),
        )
