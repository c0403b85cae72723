-- ===== src/Gateway.antt =====
-- The gateway service (apps/gateway/src).
pub mod Json
pub mod Breaker
pub mod Cache
pub mod Fanout
pub mod Registry
pub mod Metrics
pub mod Ingest
pub mod Push
mod Tests
