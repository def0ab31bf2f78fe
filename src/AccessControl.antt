-- ===== src/AccessControl.antt =====
-- Roles, permissions, overrides and limits: src/access-control.
pub mod Data
pub mod Resolve
pub mod Admin
pub mod Exemptions
pub mod Lookup
pub mod Rights
pub mod Tables
pub mod Grants
pub mod Decisions
pub mod Answers
pub mod Roles
pub mod Limits
mod Tests
