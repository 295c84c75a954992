-- ===== src/Client.antt =====
-- The client's side of an upload (crates/metrune-cli/src/app.rs).
pub mod Upload
