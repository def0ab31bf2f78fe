-- ===== src/Storytime/Review.antt =====
-- storytime/moderation: removing content, reports about it and appeals against its removal.
pub mod Data
pub mod Targets
pub mod Acts
pub mod Appeals
pub mod Reports
pub mod Recording
pub mod Contents
pub mod Decisions
pub mod Audit
pub mod Trail
pub mod Calls
pub mod Sequences
pub mod Spent
pub mod Answers
pub mod Appealing
mod Tests
