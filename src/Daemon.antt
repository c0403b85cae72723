-- ===== src/Daemon.antt =====
-- The daemon (apps/daemon/src).
pub mod Watch
mod Tests
