-- ===== src/Signals.antt =====
-- src/signals: the rules that turn a pool's windows into alerts.
pub mod Baseline
pub mod Config
pub mod Types
pub mod Engine
