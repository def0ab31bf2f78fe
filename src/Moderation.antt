-- ===== src/Moderation.antt =====
-- Reports and disabled accounts: src/moderation.
pub mod Data
pub mod Reports
pub mod Accounts
pub mod Queue
pub mod Lockout
mod Tests
