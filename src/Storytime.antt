-- ===== src/Storytime.antt =====
-- The parts that the Storytime features share: src/storytime/shared.
pub mod Ordering
pub mod Review
pub mod Slugs
