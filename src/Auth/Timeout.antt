-- ===== src/Auth/Timeout.antt =====
-- user/constants/session-timeout.constants.ts and the lifetimes of auth/auth.service.ts.
use sto_info_backend.Base.{
  ℕ, ◌+◌, ◌*◌, ◌/◌, ◌%◌, Bool, ◌||◌, Option, none, some, ◌==◌, if◌then◌else◌,
}

unfoldable pub is_allowed_session_timeout_minutes : ℕ → Bool
is_allowed_session_timeout_minutes n = n == 60 || n == 240 || n == 480

-- A window in seconds as minutes; none is a fraction of a minute, which is no option either.
unfoldable pub whole_minutes : ℕ → Option ℕ
whole_minutes s = if s % 60 == 0 then some (s / 60) else none

unfoldable pub allowed_or : Option ℕ → ℕ → ℕ
unfolding is_allowed_session_timeout_minutes
allowed_or none d = d
allowed_or (some n) d = if is_allowed_session_timeout_minutes n then n else d

-- `AUTH_REFRESH_TOKEN_EXPIRES_IN` as a number of seconds; none where it is none.
unfoldable pub configured_minutes : Option ℕ → Option ℕ
unfolding whole_minutes
configured_minutes none = none
configured_minutes (some s) = whole_minutes s

unfoldable pub fallback : Option ℕ → ℕ
unfolding allowed_or configured_minutes
fallback configured = allowed_or (configured_minutes configured) 240

unfoldable pub resolve_session_timeout_minutes : Option ℕ → Option ℕ → ℕ
unfolding allowed_or fallback
resolve_session_timeout_minutes selected configured = allowed_or selected (fallback configured)

-- `Number(process.env.AUTH_TOKEN_EXPIRES_IN) || 3600`
unfoldable pub get_access_token_expiry_seconds : Option ℕ → ℕ
get_access_token_expiry_seconds none = 3600
get_access_token_expiry_seconds (some s) = if s == 0 then 3600 else s

unfoldable pub get_refresh_token_lifetime_seconds : Option ℕ → ℕ → ℕ
unfolding get_access_token_expiry_seconds
get_refresh_token_lifetime_seconds configured minutes =
    minutes * 60 + get_access_token_expiry_seconds configured
