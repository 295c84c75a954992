-- ===== src/Lib.antt =====
-- Metrune: a client reads the sessions that coding agents leave on a workstation and uploads counted
-- usage; a server checks, prices and stores it. This library models the parts of the program that
-- decide what is counted, what is sent again, what is accepted and who may send.
--
-- The parts and their files:
--   Core        crates/metrune-core/src/lib.rs. Tokens has the counters; Types, Category and Snapshot
--               the data; Identity the canonical model ids and the pseudonymous keys; Aggregate is
--               `aggregate_session`, which adds the messages of a session up per provider and model;
--               Dominant is `dominant_category`, and Complete `aggregate_session_v2`.
--   Turns       crates/metrune-cli/src/app.rs. `turn_from_messages` and `classify_turns`: Intent has
--               the texts, Rules `classify_by_rule`, Triage the pass over the turns, Batches and
--               Classify the calls of the classifier (the trait of
--               crates/metrune-core/src/classifier.rs).
--   Pricing     crates/metrune-core/src/pricing.rs. The entry that is chosen, Estimate is
--               `PriceBook::estimate`, OpenRouter the catalogue that is read from there.
--   Client      crates/metrune-cli/src/app.rs. Upload is `upload`.
--   State       crates/metrune-core/src/state.rs. The SQLite tables of the client as a record of maps:
--               Outbox queues and acknowledges snapshots, Batch is `pending_batch` with the digest
--               that names the batch, Metadata has the revisions, the schema of a session and the
--               update check, Open the pruning and the caches.
--   Ingest      crates/metrune-api/src/app.rs and crates/metrune-core/src/release.rs. Validate and
--               Reconcile are `validate_snapshot`, Prices is `apply_server_prices`, Versions compares
--               versions, Tables has its rows, Sessions is `ingest_sessions`.
--   Limits      crates/metrune-api/src/limits.rs. Rate is `RateLimiter`, Login `LoginAttemptLimiter`
--               with the part of `login` that it guards.
--   Device      crates/metrune-api/src/device_auth.rs. Code is the code that a person types; Authorize,
--               Approve and Exchange are the handlers; Steps is the table of authorizations as a state
--               machine that the handlers are compared with.
--   Release     crates/metrune-core/src/release.rs and crates/metrune-api/src/distribution.rs.
--               Manifest, Signing and Validate are the manifest of a release; Mirror and Download what
--               a server serves of it.
--   Adapters    crates/metrune-core/src/adapters. Value is the JSON of a record, Signals and Common are
--               common.rs, and Claude is the `parse` of claude.rs.
--   Prelude     texts, words, orders, maps and decimals, as the program uses those of Rust.
--   Examples    concrete inputs.
-- Adapters reads the messages that Turns groups and Core counts. Turns classifies the turns that Core
-- puts into a snapshot, with the cache of State. A batch of State is what Client sends and Ingest
-- receives, and the acknowledgement is what State applies; Ingest reconciles the turns with their
-- usage. Limits guards the handlers of Device and Ingest.
--
-- How the code is modelled:
--   A handler is a function from the request and the state to the response and the state, with the
--   guards in the order of the source. A call is one step, also where the source takes a lock twice
--   (`login`), and the clock stands still while a session's file is parsed. What a database refuses on
--   its own is not modelled, but a revision that SQLite cannot hold is an error of `queue_snapshot`
--   and of the acknowledgements, which keep the rows they have set. Tables and hash maps are association lists in the order of
--   their keys. What the clock and the random generator give is an argument; an instant is a number of
--   ticks. Saturating additions have the bounds of their type; `sum::<u64>` wraps at 2^64, as in a
--   release build. Every loop is by recursion on a list or on a number that the source
--   counts, but for two with fuel: the decimal digits of a u64 have 20, as many as the largest one
--   has, and the batches for the classifier as many as turns wait, of which each batch takes one.
--   Floats (f32, f64), SHA-256 and HMAC, the texts of serde_json and chrono, base64, ed25519, and the
--   parsers of semver and of URLs belong to other crates: they are parameters, and a theorem that needs more than their types says
--   so. Which price is current, who a session or an installation token belongs to and whether a
--   password verifies are answers of a database or of another crate, and are arguments.
--
-- Not modelled: the adapters of Codex, Copilot and OpenCode, the search for the agents' files, the
-- requests to a model, the scan and the remaining commands of the client, the text of the installer,
-- single sign-on and mail, the analytics and the administration of the server, and the dashboard: they
-- are I/O, or code that these parts do not depend on.
pub mod Prelude
pub mod Core
pub mod State
pub mod Limits
pub mod Device
pub mod Ingest
pub mod Turns
pub mod Client
pub mod Pricing
pub mod Release
pub mod Adapters
pub mod Examples
