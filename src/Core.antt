-- ===== src/Core.antt =====
-- The shared types of crates/cce-core/src.
pub mod Address
pub mod Retrieval
pub mod Context
pub mod Filters
pub mod Text
pub mod Entity
pub mod Relation
mod Tests
