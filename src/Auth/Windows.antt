-- ===== src/Auth/Windows.antt =====
-- How long a session lasts.
use sto_info_backend.Base.{
  ℕ, ◌+◌, ◌*◌, ◌≤◌, ◌<◌, ◌≡◌, refl, ap, true, false, Option, none, some, ◌∷◌, ◌⊎◌, inl, inr,
  Bool-cases, arith,
}
use sto_info_backend.Users.{User}
use sto_info_backend.Sessions.{refuses_token}
use sto_info_backend.Auth.Timeout.{
  is_allowed_session_timeout_minutes, allowed_or, configured_minutes, fallback,
  resolve_session_timeout_minutes, get_access_token_expiry_seconds,
  get_refresh_token_lifetime_seconds,
}
use sto_info_backend.Auth.Data.{Env, Portal, profile_of}
use sto_info_backend.Auth.Issuing.{
  selected_timeout, issue_refresh_token, get_session_timeout_minutes,
}
use sto_info_backend.Auth.Issued.{lifetime, issued_row, issue_refresh_token-run}

allowed_or-allowed :
    (o : Option ℕ) (d : ℕ)
    → is_allowed_session_timeout_minutes d ≡ true
    → is_allowed_session_timeout_minutes (allowed_or o d) ≡ true
unfolding allowed_or
allowed_or-allowed none d h = h
allowed_or-allowed (some n) d h = ground (arith, h)

fallback-allowed : (c : Option ℕ) → is_allowed_session_timeout_minutes (fallback c) ≡ true
unfolding fallback is_allowed_session_timeout_minutes
fallback-allowed c = allowed_or-allowed (configured_minutes c) 240 refl

resolved-allowed :
    (s c : Option ℕ)
    → is_allowed_session_timeout_minutes (resolve_session_timeout_minutes s c) ≡ true
unfolding resolve_session_timeout_minutes
resolved-allowed s c = allowed_or-allowed s (fallback c) (fallback-allowed c)

resolved-cases :
    (o c : Option ℕ)
    → (o ≡ some (resolve_session_timeout_minutes o c))
      ⊎ (resolve_session_timeout_minutes o c ≡ fallback c)
unfolding resolve_session_timeout_minutes allowed_or
resolved-cases none c = inr refl
resolved-cases (some n) c = elim (Bool-cases (is_allowed_session_timeout_minutes n)) [
  | inl on_offer ↦ inl (rw on_offer refl)
  | inr other ↦ inr (rw other refl)
]

allowed_bounds : (n : ℕ) → is_allowed_session_timeout_minutes n ≡ true → (60 ≤ n) × (n ≤ 480)
unfolding is_allowed_session_timeout_minutes
allowed_bounds n h = ground (arith, h)

access_pos : (o : Option ℕ) → 0 < get_access_token_expiry_seconds o
unfolding get_access_token_expiry_seconds
access_pos none = omega arith
access_pos (some n) = ground arith

-- Where no row has its `jti` or its hash, the refresh token that is issued is stored first. The window of
-- the session is one of the three on offer, and either the one that the profile names or the default of
-- the deployment; the refresh token lives the window and the lifetime of an access token longer, so that it
-- outlives the hour at least and never lasts over eight hours and that lifetime.
pub issue_refresh_token_bounds :
    (env : Env) (u : User) (db : Portal)
    → refuses_token (issued_row env u db) db.tokens ≡ false
    → let m = get_session_timeout_minutes env u db in
      let a = get_access_token_expiry_seconds env.auth_token_expires_in in
      let row = issued_row env u db in
      ((issue_refresh_token env u db).1.tokens ≡ row ∷ db.tokens)
      × (is_allowed_session_timeout_minutes m ≡ true)
      × ((selected_timeout (profile_of u.id db) ≡ some m)
          ⊎ (m ≡ fallback env.auth_refresh_token_expires_in))
      × (row.expires_at ≡ env.sessions.now + (m * 60 + a) * 1000)
      × (env.sessions.now + 3600000 < row.expires_at)
      × (row.expires_at ≤ env.sessions.now + 28800000 + a * 1000)
unfolding get_session_timeout_minutes issued_row lifetime get_refresh_token_lifetime_seconds
issue_refresh_token_bounds env u db free =
    let selected = selected_timeout (profile_of u.id db) in
    let allowed = resolved-allowed selected env.auth_refresh_token_expires_in in
    let (low, high) = allowed_bounds _ allowed in
    let positive = access_pos env.auth_token_expires_in in
    (
      ap (λ r. r.1.tokens) (issue_refresh_token-run env u db free),
      allowed,
      resolved-cases selected env.auth_refresh_token_expires_in,
      refl,
      omega arith,
      omega arith,
    )
