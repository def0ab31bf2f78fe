-- ===== src/Tracking.antt =====
-- The figures that users track for themselves: src/custom-tracking.
pub mod Decimals
