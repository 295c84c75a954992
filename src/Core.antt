-- ===== src/Core.antt =====
-- The crate metrune-core (crates/metrune-core/src/lib.rs): the usage data, and its aggregation.
pub mod Tokens
pub mod Types
pub mod Category
pub mod Snapshot
pub mod Identity
pub mod Dominant
pub mod Complete
pub mod Aggregate
