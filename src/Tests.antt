-- ===== src/Tests.antt =====
-- Concrete runs of the modelled code, and each claim applied to one of them.
mod Metrics
mod Signals
mod Notify
mod Ranges
mod Calls
mod Search
mod Times
mod Windows
mod Registry
mod Prices
mod Projections
mod Rankings
