-- ===== src/State.antt =====
-- src/state: what is observed of a pool.
pub mod Observations
pub mod Projection
