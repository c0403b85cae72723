-- ===== src/Engine/Tests.antt =====
-- Runs of the engine's models on small inputs.
mod ContextRuns
mod PlannerRuns
mod DiffRuns
mod DenseRuns
mod SnapshotDiffRuns
