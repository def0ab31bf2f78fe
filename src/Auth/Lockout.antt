-- ===== src/Auth/Lockout.antt =====
-- A user whom the moderation has locked out, at every entrance.
use sto_info_backend.Base.{
  ℕ, ◌≡◌, refl, sym, ap, ◌∙◌, inl, inr, String, Bool, true, false, Option, none, some, List, arith,
  ◌==◌, Bool-cases, ok, err, Error, unauthorized, ◌>>=◌, bind-ok, bind-err, internal, raise, pure,
}
use sto_info_backend.Store.{find?, HasDistinctIds}
use sto_info_backend.Store.Laws.{find?-holds}
use sto_info_backend.Store.Keys.{find?-by_key}
use sto_info_backend.Users.{User, is_user}
use sto_info_backend.Moderation.Data.{Site}
use sto_info_backend.Moderation.Lockout.{IsLockedOut}
use sto_info_backend.Auth.Data.{Claims, Env, Portal, user_key, has_email, find_by_email}
use sto_info_backend.Auth.Issuing.{
  Session, refresh_found, refresh_verified, rescue, refresh_token, is_foreign_use,
}
use sto_info_backend.Auth.Logins.{
  attempt, log_login_attempt, log_and_throw_login_failure, has_password, objection, login_admitted,
  login_validated, login, is_payload_user, enabled_only, validate_user_from_payload, acting_user,
  validate, note_user, is_access,
}
use sto_info_backend.Auth.LoginRuns.{noted, failure-run, login-as_validated}
use sto_info_backend.Auth.Admission.{is_ok}
use sto_info_backend.Auth.Rotation.{rescued-err}

some-injective : {A : Type 0} {a b : A} → some a ≡ some b → a ≡ b
some-injective h = cc

-- Every row that is found of the user is of a disabled account.
same_row :
    (q : User → Bool) (n : ℕ) (u v : User) (us : List User)
    → HasDistinctIds user_key us
    → find? (is_user n) us ≡ some u
    → find? q us ≡ some v
    → v.id ≡ n
    → v ≡ u
unfolding is_user user_key
same_row q n u v us d hu hv e =
    let held = find?-holds (is_user n) us u hu in
    let by_u = find?-by_key user_key (is_user n) u us d hu in
    let by_v = find?-by_key user_key q v us d hv in
    let same : v.id ≡ u.id = ground (arith, held, e) in
    some-injective (sym by_v ∙ ap (λ k. find? (λ y. y.id == k) us) same ∙ by_u)

log_login_attempt-invalid :
    (env : Env) (email : String) (db : Portal)
    → env.is_valid_attempt (attempt env email false) ≡ false
    → log_login_attempt env email false db ≡ (err (internal "validation"), db)
unfolding log_login_attempt
log_login_attempt-invalid env email db v = rw v refl

failure-fails :
    (env : Env) (email : String) (e : Error) (db : Portal)
    → is_ok (log_and_throw_login_failure {A = Session × ℕ} env email e db).0 ≡ false
unfolding log_and_throw_login_failure
failure-fails env email e db = elim (Bool-cases (env.is_valid_attempt (attempt env email false))) [
  | inl v ↦ ap (λ r. is_ok r.0) (failure-run env email e db v)
  | inr v ↦
      ap (λ r. is_ok r.0)
        (bind-err (log_login_attempt env email false) (λ _. raise {A = Session × ℕ} e) db
          (log_login_attempt-invalid env email db v))
]

login_validated-fails :
    (env : Env) (email password : String) (v : User) (db : Portal)
    → v.is_account_disabled ≡ true
    → is_ok (login_validated env email (has_password env password (some v)) db).0 ≡ false
unfolding login_validated login_admitted has_password objection
login_validated-fails env email password v db off =
    elim (Bool-cases (env.compare password v.password)) [
      | inl right ↦ rw (right, off) (failure-fails env email _ db)
      | inr wrong ↦ rw wrong (failure-fails env email _ db)
    ]

enabled-none :
    (o : Option User)
    → ((v : User) → o ≡ some v → v.is_account_disabled ≡ true)
    → enabled_only o ≡ none
unfolding enabled_only
enabled-none none off = refl
enabled-none (some v) off = rw (off v refl) refl

module _ (env : Env) (n : ℕ) (site : Site) (db : Portal) (locked : IsLockedOut n site)
    (distinct : HasDistinctIds user_key site.users) (same_users : db.users ≡ site.users) where
  found-disabled :
      (q : User → Bool) (v : User)
      → find? q db.users ≡ some v
      → v.id ≡ n
      → v.is_account_disabled ≡ true
  found-disabled q v h e =
      let (u, held, off) = locked.account in
      let same = same_row q n u v site.users distinct held (ap (find? q) (sym same_users) ∙ h) e in
      ap (λ x. x.is_account_disabled) same ∙ off

  login-fails :
      (email : String) (password : String) (v : User)
      → find_by_email email db ≡ some v
      → v.id ≡ n
      → is_ok (login env (some email) (some password) db).0 ≡ false
  unfolding find_by_email
  login-fails email password v h e =
      let off = found-disabled (has_email email) v h e in
      ap (λ r. is_ok r.0) (login-as_validated env email password db)
      ∙ ap
          (λ o.
            is_ok
              (login_validated env email (has_password env password o)
                (noted (has_password env password o) db)).0)
          h
      ∙ login_validated-fails env email password v (noted (has_password env password (some v)) db)
          off

  refresh_found-fails :
      (raw : String) (c : Claims) (o : Option User)
      → ((v : User) → o ≡ some v → v.is_account_disabled ≡ true)
      → is_ok (refresh_found env raw c o db).0 ≡ false
  unfolding refresh_found
  refresh_found-fails raw c none off = refl
  refresh_found-fails raw c (some v) off = rw (off v refl) refl

  refresh-fails :
      (raw : String) (c : Claims)
      → env.verify raw ≡ some c
      → c.sub ≡ n
      → (refresh_token env raw db).0 ≡ err (unauthorized "Invalid refresh token")
  unfolding refresh_token rescue is_user
  refresh-fails raw c verified e =
      rescued-err (unauthorized "Invalid refresh token")
        (refresh_verified env raw (env.verify raw) db)
        (rw verified (elim (Bool-cases (is_foreign_use c.token_use)) [
          | inl foreign ↦ unfold refresh_verified in rw foreign refl
          | inr own ↦
              unfold refresh_verified in
              rw own (
                refresh_found-fails raw c (find? (is_user c.sub) db.users) (λ v h.
                  let held = find?-holds (is_user c.sub) db.users v h in
                  found-disabled (is_user c.sub) v h (ground (arith, held, e))))
        ]))

  payload-disabled :
      (c : Claims) → c.sub ≡ n → enabled_only (find? (is_payload_user c) db.users) ≡ none
  unfolding is_payload_user
  payload-disabled c e = enabled-none (find? (is_payload_user c) db.users) λ v h.
      let held = find?-holds (is_payload_user c) db.users v h in
      found-disabled (is_payload_user c) v h (ground (arith, held, e))

  payload-nobody : (c : Claims) → c.sub ≡ n → validate_user_from_payload env c db ≡ (ok none, db)
  unfolding validate_user_from_payload note_user
  payload-nobody c e =
      ap (λ o. (note_user o >>= λ _. pure {A = Option User} o) db) (payload-disabled c e)

  validate-fails : (c : Claims) → c.sub ≡ n → is_ok (validate env c db).0 ≡ false
  unfolding acting_user
  validate-fails c e = elim (Bool-cases (is_access c.token_use)) [
    | inl own ↦
        unfold validate in
        rw own (
          ap (λ r. is_ok r.0)
            (bind-ok (validate_user_from_payload env c) (acting_user c) db (payload-nobody c e)))
    | inr foreign ↦ unfold validate in rw foreign refl
  ]

  -- A user whom the moderation has locked out, as it leaves its site, gets in nowhere on the same users:
  -- no login with an address under which that user is found returns, whatever the password; no refresh token
  -- that names that user is exchanged; and no access token that names that user is accepted.
  pub IsLockedOut-fails :
      (email password : String) (v : User) (raw : String) (c c' : Claims)
      → find_by_email email db ≡ some v
      → v.id ≡ n
      → env.verify raw ≡ some c
      → c.sub ≡ n
      → c'.sub ≡ n
      → (is_ok (login env (some email) (some password) db).0 ≡ false)
        × ((refresh_token env raw db).0 ≡ err (unauthorized "Invalid refresh token"))
        × (is_ok (validate env c' db).0 ≡ false)
  IsLockedOut-fails email password v raw c c' found own verified sub sub' = (
    login-fails email password v found own,
    refresh-fails raw c verified sub,
    validate-fails c' sub',
  )
