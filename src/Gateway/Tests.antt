-- ===== src/Gateway/Tests.antt =====
-- Runs of the gateway's models on small inputs.
mod BreakerRuns
mod CacheRuns
mod FanoutRuns
mod RegistryRuns
mod MetricsRuns
mod PushRuns
