-- ===== src/Auth/Onboarding.antt =====
-- From a registration to the first login.
use mathlib.Core.Path.{subst}
use mathlib.Core.Bool.{false≢true}
use sto_info_backend.Base.{
  ◌+◌, ◌≤◌, ◌≡◌, refl, sym, ap, ◌∙◌, inl, inr, String, Bool, true, false, Option, some, Bool-cases,
  ok,
}
use sto_info_backend.Users.{User}
use sto_info_backend.Sessions.{refuses_token}
use sto_info_backend.Auth.Data.{Env, Portal, profile_of}
use sto_info_backend.Auth.Accounts.{
  CreateUserDto, new_user, register_with, register, verified, verify_email,
}
use sto_info_backend.Auth.Issuing.{get_session_timeout_minutes}
use sto_info_backend.Auth.Logins.{attempt, login}
use sto_info_backend.Auth.Issued.{lifetime, issued_raw, issued_row}
use sto_info_backend.Auth.Admission.{is_ok, login_iff}
use sto_info_backend.Auth.Registered.{
  registered, confirmed, register_with-inversion, register-inversion, verify_email-run,
  found_confirmed, found_registered,
}

found-same : {A : Type 0} {a b : A} {o : Option A} → o ≡ some a → o ≡ some b → a ≡ b
found-same h k = cc

module _ (env env' env'' : Env) (dto : CreateUserDto) (p : String) (u : User) (db db1 : Portal)
    (given : dto.password ≡ some p) (done : register env dto db ≡ (ok u, db1))
    (compared : env''.compare p (env.sessions.hash p) ≡ true)
    (valid : (success : Bool) → env''.is_valid_attempt (attempt env'' dto.email success) ≡ true)
    (reachable : env''.is_email dto.email ≡ true)
    (free : refuses_token (issued_row env'' u db1) db1.tokens ≡ false) where
  made : (new_user env dto p ≡ u) × (registered env dto p db ≡ db1)
  made =
      register_with-inversion env dto p u db db1 (
        ap (λ o. register_with env dto o db) (sym given) ∙ register-inversion env dto u db db1 done)

  free_registered :
      refuses_token (issued_row env'' (new_user env dto p) (registered env dto p db)) db.tokens
      ≡ false
  free_registered =
      ap (λ v. refuses_token (issued_row env'' v (registered env dto p db)) db.tokens) made.0
      ∙ ap (λ x. refuses_token (issued_row env'' u x) x.tokens) made.1
      ∙ free

  not_yet : is_ok (login env'' (some dto.email) (some p) (registered env dto p db)).0 ≡ false
  unfolding new_user
  not_yet =
      let l = login_iff env'' dto.email p (registered env dto p db) valid (λ v h.
        subst
          (λ w.
            (refuses_token (issued_row env'' w (registered env dto p db)) db.tokens ≡ false)
            × (env''.is_email w.email ≡ true))
          (found-same (found_registered env env' dto p db) h) (free_registered, reachable)) in
      elim (Bool-cases
        (is_ok (login env'' (some dto.email) (some p) (registered env dto p db)).0)) [
          | inl entered ↦
              let a = l.0 entered in
              let same =
                ap (λ w. w.email_verified)
                  (found-same (found_registered env env' dto p db) a.found) in
              absurd (false≢true (same ∙ a.verified))
          | inr out ↦ out
        ]

  then_in : is_ok (login env'' (some dto.email) (some p) (confirmed env dto p db)).0 ≡ true
  unfolding new_user verified issued_row issued_raw lifetime get_session_timeout_minutes profile_of
  then_in =
      let l = login_iff env'' dto.email p (confirmed env dto p db) valid (λ v h.
        subst
          (λ w.
            (refuses_token (issued_row env'' w (confirmed env dto p db)) db.tokens ≡ false)
            × (env''.is_email w.email ≡ true))
          (found-same (found_confirmed env env' dto p db) h) (free_registered, reachable)) in
      l.1 (record {
        user = verified (new_user env dto p);
        found = found_confirmed env env' dto p db;
        compared = compared;
        enabled = refl;
        verified = refl;
      })

  -- After a registration that returned, a login with its address and password fails; the verification
  -- by the mailed token, no later than an hour after and where the address takes mail, returns the user as
  -- verified; and from then on the same login succeeds. The provisos are that bcrypt compares a password
  -- with its own hash, and those of `login_iff`.
  pub register-verify_email-login :
      env'.sessions.now ≤ env.sessions.now + 3600000
      → env'.is_email dto.email ≡ true
      → let confirmation = verify_email env' (some env.random_token) db1 in
        (is_ok (login env'' (some dto.email) (some p) db1).0 ≡ false)
        × (confirmation.0 ≡ ok (verified u))
        × (is_ok (login env'' (some dto.email) (some p) confirmation.1).0 ≡ true)
  register-verify_email-login soon mail =
      let run = verify_email-run env env' dto p db soon mail in
      subst
        (λ x.
          (is_ok (login env'' (some dto.email) (some p) x).0 ≡ false)
          × ((verify_email env' (some env.random_token) x).0 ≡ ok (verified u))
          × (is_ok
                (login env'' (some dto.email) (some p)
                  (verify_email env' (some env.random_token) x).1).0
              ≡ true))
        made.1
        (
          not_yet,
          ap (λ r. r.0) run ∙ ap (λ v. ok (verified v)) made.0,
          ap (λ r. is_ok (login env'' (some dto.email) (some p) r.1).0) run ∙ then_in,
        )
