-- ===== src/Rpc.antt =====
-- src/rpc: the pacing of calls to one provider, and the search for a block by its time.
pub mod RateLimit
pub mod ResolveTime
