-- ===== src/Release.antt =====
-- The release of the client: its manifest (crates/metrune-core/src/release.rs), and the mirror that
-- a server may be (crates/metrune-api/src/distribution.rs).
pub mod Manifest
pub mod Signing
pub mod Validate
pub mod Mirror
pub mod Download
