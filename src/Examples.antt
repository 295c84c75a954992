-- ===== src/Examples.antt =====
-- Concrete inputs at which the theorems apply; the code is that of the modules they name.
mod Sample
mod Sessions
mod Storage
mod Limiting
mod Enrolment
mod Uploads
mod Completion
mod Deliveries
mod Releases
mod Transcripts
