-- ===== src/Sync.antt =====
-- apps/api/src/sync: the circuit breaker, the choice of a provider, the rows of sync runs, and the
-- price sweep over the catalog.
pub mod Breaker
pub mod Runs
pub mod Providers
pub mod Sweep
pub mod Process
