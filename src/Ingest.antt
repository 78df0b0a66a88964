-- ===== src/Ingest.antt =====
-- src/ingest: what a recorded range must show before it counts as complete.
pub mod Completeness
pub mod Partitions
pub mod Reorg
pub mod TimeIndex
pub mod LogTime
