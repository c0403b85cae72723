-- ===== src/Engine.antt =====
-- The engine (crates/cce-engine/src).
pub mod Context
pub mod Planner
pub mod Diff
pub mod Dense
pub mod SnapshotDiff
mod Tests
