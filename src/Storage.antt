-- ===== src/Storage.antt =====
-- src/storage: the boundary that settles the effects of nested transactions.
pub mod CommitBoundary
