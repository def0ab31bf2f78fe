-- ===== src/Auth/Admission.antt =====
-- Whom the login admits, and what it records.
use sto_info_backend.Base.{
  ◌≡◌, ◌≢◌, ◌↔◌, refl, ap, ◌∙◌, inl, inr, String, Bool, true, false, Option, none, some, ◌∷◌, arith,
  ◌⊎◌, Option-cases, Result, ok, err, Error, forbidden, unauthorized,
}
use sto_info_backend.Store.Laws.{find?-holds}
use sto_info_backend.Users.{User}
use sto_info_backend.Sessions.{refuses_token}
use sto_info_backend.Auth.Data.{Env, Portal, has_email, find_by_email, profile_of}
use sto_info_backend.Auth.Issuing.{get_session_timeout_minutes}
use sto_info_backend.Auth.Logins.{
  attempt, has_password, objection, login_admitted, login_validated, login,
}
use sto_info_backend.Auth.Issued.{lifetime, issued_raw, session_of, issued_row}
use sto_info_backend.Auth.LoginRuns.{
  refusal_of, noted, claimant, admitted, login-as_validated, login_validated-refused,
  start_session-run,
}

abbrev pub is_ok : {A : Type 0} → Result A → Bool
is_ok (ok a) = true
is_ok (err e) = false

-- The user of the credentials, without an objection.
pub record IsAdmissible (env : Env) (email password : String) (db : Portal) : Type 0 where
  pub user : User
  pub found : find_by_email email db ≡ some user
  pub compared : env.compare password user.password ≡ true
  pub enabled : user.is_account_disabled ≡ false
  pub verified : user.email_verified ≡ true

has_password-inversion :
    (env : Env) (password : String) (o : Option User) (u : User)
    → has_password env password o ≡ some u
    → (o ≡ some u) × (env.compare password u.password ≡ true)
unfolding has_password
has_password-inversion env password none u h = cc
has_password-inversion env password (some v) u h = ground arith

undeleted :
    (email : String) (u : User) (db : Portal)
    → find_by_email email db ≡ some u
    → u.deleted_at ≡ none
unfolding find_by_email
undeleted email u db h =
    let held = find?-holds (has_email email) db.users u h in
    unfold has_email in ground (arith, held)

of_err : {A : Type 0} {e f : Error} → ◌≡◌ {A = Result A} (err e) (err f) → e ≡ f
of_err h = cc

texts_differ : ◌≢◌ {A = String} "Account disabled" "Account deleted"
texts_differ h = cc

refusal-ne-deleted :
    (env : Env) (password : String) (o : Option User)
    → ((u : User) → o ≡ some u → u.deleted_at ≡ none)
    → refusal_of (has_password env password o) ≢ some (forbidden "Account deleted")
unfolding has_password refusal_of objection
refusal-ne-deleted env password none live h = cc
refusal-ne-deleted env password (some u) live h =
    let kept = live u refl in ground (arith, kept, h, texts_differ)

-- Whether the login ended in a session or in a refusal, with what it left.
abbrev Outcome : Env → String → String → Portal → Type 0
Outcome env email password db =
    let r = login env (some email) (some password) db in
    ((u : User) × (find_by_email email db ≡ some u)
      × (env.compare password u.password ≡ true)
      × (objection u ≡ none)
      × (r ≡ (
        ok (session_of env u (noted (some u) db), u.id),
        admitted env email u (noted (some u) db),
      )))
    ⊎ ((e : Error) × (refusal_of (claimant env email password db) ≡ some e)
        × (r ≡ (
          err e,
          record (noted (claimant env email password db) db) {
            attempts = attempt env email false ∷ db.attempts;
          },
        )))

module _ (env : Env) (email password : String) (db : Portal)
    (valid : (success : Bool) → env.is_valid_attempt (attempt env email success) ≡ true)
    (free : (u : User)
      → find_by_email email db ≡ some u
      → (refuses_token (issued_row env u db) db.tokens ≡ false)
        × (env.is_email u.email ≡ true)) where
  refused :
      (e : Error)
      → refusal_of (claimant env email password db) ≡ some e
      → Outcome env email password db
  refused e h = inr (
    e,
    h,
    login-as_validated env email password db
        ∙ login_validated-refused env email (claimant env email password db) e
            (noted (claimant env email password db) db) (valid false) h,
  )

  accepted :
      (u : User)
      → claimant env email password db ≡ some u
      → objection u ≡ none
      → Outcome env email password db
  unfolding login_validated login_admitted issued_row issued_raw lifetime
      get_session_timeout_minutes profile_of
  accepted u h clear =
      let (found, compared) = has_password-inversion env password (find_by_email email db) u h in
      inl (
        u,
        found,
        compared,
        clear,
        login-as_validated env email password db
            ∙ ap (λ o. login_validated env email o (noted o db)) h
            ∙ ap (λ o. login_admitted env email u o (noted (some u) db)) clear
            ∙ start_session-run env email u (noted (some u) db) (valid true) (free u found).0
                (free u found).1,
      )

  pub outcome : Outcome env email password db
  unfolding refusal_of
  outcome = elim (Option-cases (claimant env email password db)) [
    | inl nobody ↦ refused (unauthorized "Invalid login credentials") (rw nobody refl)
    | inr (u, somebody) ↦ elim (Option-cases (objection u)) [
      | inl clear ↦ accepted u somebody clear
      | inr (e, barred) ↦ refused e (rw somebody barred)
    ]
  ]

  admissible :
      Outcome env email password db
      → is_ok (login env (some email) (some password) db).0 ≡ true
      → IsAdmissible env email password db
  unfolding objection
  admissible (inl (u, found, compared, clear, run)) h = record {
    user = u;
    found = found;
    compared = compared;
    enabled = ground (arith, clear);
    verified = ground (arith, clear);
  }
  admissible (inr (e, barred, run)) h = ground (arith, run, h)

  admitted-ok :
      Outcome env email password db
      → IsAdmissible env email password db
      → is_ok (login env (some email) (some password) db).0 ≡ true
  unfolding objection has_password refusal_of
  admitted-ok (inl (u, found, compared, clear, run)) a = rw run refl
  admitted-ok (inr (e, barred, run)) a = absurd (
      ground (
        arith,
        barred,
        undeleted email a.user db a.found,
        a.found,
        a.compared,
        a.enabled,
        a.verified,
      ))

  -- A login succeeds exactly for a user whose address is the one given, whose password the one given is,
  -- whose account is not disabled and whose address is verified, provided that the records of the attempt
  -- are valid, that the new token has a `jti` and a hash of its own and that the user's address takes mail.
  pub login_iff :
      (is_ok (login env (some email) (some password) db).0 ≡ true)
      ↔ IsAdmissible env email password db
  login_iff = (admissible outcome, admitted-ok outcome)

  attempted :
      Outcome env email password db
      → let r = login env (some email) (some password) db in
        (r.1.attempts ≡ attempt env email (is_ok r.0) ∷ db.attempts)
        × ((is_ok r.0 ≡ true)
            ⊎ ((r.1.tokens ≡ db.tokens) × (r.1.users ≡ db.users) × (r.1.mails ≡ db.mails)))
        × (r.0 ≢ err (forbidden "Account deleted"))
  attempted (inl (u, found, compared, clear, run)) = rw run (refl, inl refl, λ h. ground (arith, h))
  attempted (inr (e, barred, run)) = rw run (
    refl,
    inr (refl, refl, refl),
    λ h.
        refusal-ne-deleted env password (find_by_email email db) (λ u. undeleted email u db)
          (barred ∙ ap some (of_err h)),
  )

  -- A login with both arguments records one attempt, whose mark is whether the login succeeds. One that
  -- fails leaves the users, the tokens and the mails as they were. None is told that the account is deleted.
  -- All this under the provisos of `login_iff`.
  pub login-attempts :
      let r = login env (some email) (some password) db in
      (r.1.attempts ≡ attempt env email (is_ok r.0) ∷ db.attempts)
      × ((is_ok r.0 ≡ true)
          ⊎ ((r.1.tokens ≡ db.tokens) × (r.1.users ≡ db.users) × (r.1.mails ≡ db.mails)))
      × (r.0 ≢ err (forbidden "Account deleted"))
  login-attempts = attempted outcome
