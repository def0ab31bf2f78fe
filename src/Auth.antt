-- ===== src/Auth.antt =====
-- auth: registration, login, sessions and the reset of a password.
pub mod Data
pub mod Timeout
pub mod Accounts
pub mod Issuing
pub mod Logins
pub mod Passwords
pub mod Issued
pub mod LoginRuns
pub mod Admission
pub mod Liveness
pub mod Rotation
pub mod Registered
mod Tests
pub mod Onboarding
pub mod Lockout
pub mod Windows
pub mod Resets
