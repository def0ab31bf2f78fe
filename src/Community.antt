-- ===== src/Community.antt =====
-- Members, friendships and blocks: src/community.
pub mod Data
pub mod Members
pub mod Blocks
pub mod Friends
pub mod Friendships
pub mod Rows
pub mod Removals
pub mod Invariant
pub mod Requests
pub mod Upserts
pub mod Blocking
pub mod Separation
pub mod Relationships
pub mod Safety
pub mod Views
pub mod Effects
pub mod Outcomes
pub mod Asking
mod Tests
