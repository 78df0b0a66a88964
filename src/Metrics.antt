-- ===== src/Metrics.antt =====
-- src/metrics: the windows of pools and their baselines.
pub mod Types
pub mod Baseline
pub mod Windows
pub mod Rolling
pub mod Price
pub mod Notional
pub mod Ranking
