-- ===== src/Primitives.antt =====
-- src/primitives: thresholds and lock times.
pub mod Threshold
pub mod Locktime
