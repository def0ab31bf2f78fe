-- ===== src/Auth/Registered.antt =====
-- A registration and the verification after it run: what each leaves.
use mathlib.Core.Path.{subst}
use text.Mathlib.Text.{◌==◌ as str_eq}
use text.Mathlib.TextPositions.{eq_refl}
use sto_info_backend.Base.{
  ℕ, ◌+◌, ◌≤◌, ◌≡◌, refl, ap, ◌∙◌, String, true, false, not, some, ◌∷◌, arith, ltb, Result, ok, err,
  Error, conflict, bad_request, raise_if, pure, gets, ◌>>=◌, ◌>>◌, bind-ok, bind-inversion,
  raise_if-inversion,
}
use sto_info_backend.Store.{find?, save_row, update_where}
use sto_info_backend.Users.{User}
use sto_info_backend.Auth.Data.{
  verification, welcome, Env, Portal, user_key, has_email, has_verification_token, find_by_email,
  does_email_exist, does_username_exist, insert_user, save_user, send, address,
}
use sto_info_backend.Auth.Accounts.{
  CreateUserDto, generate_token_expiry_date, assert_token_not_expired, new_user, new_profile,
  registration_error, rethrown, rethrow, store_user, register_with, register, verified,
  verify_found, verify_email,
}

-- The portal after a registration.
abbrev pub registered : Env → CreateUserDto → String → Portal → Portal
registered env dto p db = record db {
  users = new_user env dto p ∷ db.users;
  profiles = new_profile env dto ∷ db.profiles;
  mails = verification dto.email env.random_token ∷ db.mails;
}

store_user-inversion :
    (env : Env) (dto : CreateUserDto) (p : String) (u : User) (db db' : Portal)
    → store_user env dto p db ≡ (ok u, db')
    → (new_user env dto p ≡ u) × (registered env dto p db ≡ db')
unfolding store_user insert_user send new_user address
store_user-inversion env dto p u db db' h = ground (arith, h)

rethrown-ok :
    {A : Type 0} (f : Error → Error) (r : Result A × Portal) {a : A} {db : Portal}
    → rethrown f r ≡ (ok a, db)
    → r ≡ (ok a, db)
unfolding rethrown
rethrown-ok f (ok a, s) h = h
rethrown-ok f (err e, s) h = cc

pub register_with-inversion :
    (env : Env) (dto : CreateUserDto) (p : String) (u : User) (db db' : Portal)
    → register_with env dto (some p) db ≡ (ok u, db')
    → (new_user env dto p ≡ u) × (registered env dto p db ≡ db')
unfolding register_with rethrow
register_with-inversion env dto p u db db' h =
    let differ = not (str_eq p dto.confirm_password) in
    let (done, db1, passed, rest) =
      bind-inversion (raise_if differ (bad_request "Passwords do not match"))
        (λ _. rethrow registration_error (store_user env dto p)) db h in
    let (same, e) = raise_if-inversion differ (bad_request "Passwords do not match") db passed in
    store_user-inversion env dto p u db db' (
      rethrown-ok registration_error (store_user env dto p db)
        (subst (λ x. rethrow registration_error (store_user env dto p) x ≡ (ok u, db')) e rest))

pub register-inversion :
    (env : Env) (dto : CreateUserDto) (u : User) (db db' : Portal)
    → register env dto db ≡ (ok u, db')
    → register_with env dto dto.password db ≡ (ok u, db')
unfolding register
register-inversion env dto u db db' h =
    let taken = conflict "Username already in use" in
    let end = λ (_ : Unit {0}). register_with env dto dto.password in
    let (done, db1, free, rest) =
      bind-inversion
        (raise_if (does_email_exist env dto.email db) (conflict "Email already in use"))
        (λ _. gets (does_username_exist env dto.username) >>= λ b. raise_if b taken >>= end) db h in
    let (no_email, e) =
      raise_if-inversion (does_email_exist env dto.email db) (conflict "Email already in use") db
        free in
    let again =
      subst (λ x. (raise_if (does_username_exist env dto.username x) taken >>= end) x ≡ (ok u, db'))
        e rest in
    let (done', db2, free', rest') =
      bind-inversion (raise_if (does_username_exist env dto.username db) taken) end db again in
    let (no_name, e') =
      raise_if-inversion (does_username_exist env dto.username db) taken db free' in
    subst (λ x. register_with env dto dto.password x ≡ (ok u, db')) e' rest'

-- The portal after the verification that follows.
abbrev pub confirmed : Env → CreateUserDto → String → Portal → Portal
confirmed env dto p db =
    let u = new_user env dto p in
    let db1 = registered env dto p db in
    record db1 {
      users = save_row user_key (verified u) db1.users;
      mails = welcome dto.email ∷ db1.mails;
    }

assert-fresh :
    (env : Env) (n : ℕ) (db : Portal)
    → env.sessions.now ≤ n
    → assert_token_not_expired env (some n) db ≡ (ok tt, db)
unfolding assert_token_not_expired
assert-fresh env n db h =
    let fresh : ltb n env.sessions.now ≡ false = ground (arith, h) in rw fresh refl

send-run :
    (env : Env) (email : String) (db : Portal)
    → env.is_email email ≡ true
    → send env (welcome email) db ≡ (ok tt, record db { mails = welcome email ∷ db.mails })
unfolding send address
send-run env email db h = rw h refl

module _ (env env' : Env) (dto : CreateUserDto) (p : String) (db : Portal) where
  newcomer :
      find? (has_verification_token env.random_token) (registered env dto p db).users
      ≡ some (new_user env dto p)
  unfolding find? has_verification_token new_user
  newcomer = ground arith

  verify_found-run :
      env'.sessions.now ≤ env.sessions.now + 3600000
      → env'.is_email dto.email ≡ true
      → verify_found env' (some (new_user env dto p)) (registered env dto p db)
        ≡ (ok (verified (new_user env dto p)), confirmed env dto p db)
  unfolding verify_found new_user generate_token_expiry_date save_user verified
  verify_found-run soon mail =
      let u = new_user env dto p in
      let db1 = registered env dto p db in
      let db2 : Portal = record db1 { users = save_row user_key (verified u) db1.users } in
      bind-ok (assert_token_not_expired env' u.email_verification_token_expiry)
        (λ _. save_user (verified u) >>= λ w. send env' (welcome w.email) >> pure w) db1
        (assert-fresh env' (env.sessions.now + 3600000) db1 soon)
      ∙ bind-ok (send env' (welcome dto.email)) (λ _. pure (verified u)) db2
          (send-run env' dto.email db2 mail)

  pub verify_email-run :
      env'.sessions.now ≤ env.sessions.now + 3600000
      → env'.is_email dto.email ≡ true
      → verify_email env' (some env.random_token) (registered env dto p db)
        ≡ (ok (verified (new_user env dto p)), confirmed env dto p db)
  unfolding verify_email
  verify_email-run soon mail =
      ap (λ o. verify_found env' o (registered env dto p db)) newcomer ∙ verify_found-run soon mail

  pub found_confirmed :
      find_by_email dto.email (confirmed env dto p db) ≡ some (verified (new_user env dto p))
  unfolding find_by_email find? has_email verified new_user save_row update_where user_key
  found_confirmed = ground (arith, eq_refl dto.email)

  pub found_registered :
      find_by_email dto.email (registered env dto p db) ≡ some (new_user env dto p)
  unfolding find_by_email find? has_email new_user
  found_registered = ground (arith, eq_refl dto.email)
