-- ===== src/Adapters.antt =====
-- The adapters that read the sessions of other programs (crates/metrune-core/src/adapters).
pub mod Value
pub mod Signals
pub mod Common
pub mod Claude
