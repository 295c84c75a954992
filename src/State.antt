-- ===== src/State.antt =====
-- The client's local state, an SQLite database (crates/metrune-core/src/state.rs). A table is a map
-- from its primary key to its row, and a method takes the tables and returns them anew. Statements
-- that the database itself refuses (a locked or damaged file) are not modelled.
pub mod Outbox
pub mod Batch
pub mod Metadata
pub mod Open
use metrune.Prelude.{ℕ, Option, ◌^◌, ◌-◌}
use metrune.Prelude.Text.{Text}
use metrune.Prelude.TreeMap.{TreeMap}
use metrune.Core.Types.{DateTime}
use metrune.Core.Category.{CategoryAssignment}
use metrune.Core.Snapshot.{SessionSnapshot}

-- A row of `session_outbox`; its key is `session_key`.
pub record OutboxRow : Type 0 where
  pub revision : ℕ
  pub snapshot_json : Text
  pub acknowledged_at : Option DateTime
  pub updated_at : DateTime

-- A row of `classification_cache`; its key is `cache_key`.
pub record CacheRow : Type 0 where
  pub assignment_json : Text
  pub updated_at : DateTime

pub record LocalState : Type 0 where
  pub source_checkpoints : TreeMap Text Text
  pub session_outbox : TreeMap Text OutboxRow
  pub local_metadata : TreeMap Text Text
  pub session_schema : TreeMap Text Text
  pub classification_cache : TreeMap Text CacheRow

-- `serde_json` on snapshots and assignments, and the RFC 3339 texts of `chrono`.
pub record Codec (F : Type 0) : Type 0 where
  pub encode_snapshot : SessionSnapshot F → Text
  pub decode_snapshot : Text → Option (SessionSnapshot F)
  pub encode_assignment : CategoryAssignment F → Text
  pub decode_assignment : Text → Option (CategoryAssignment F)
  pub to_rfc3339 : DateTime → Text
  pub parse_rfc3339 : Text → Option DateTime

pub data StateError : Type 0 where
  -- a u64 that SQLite's signed integers cannot hold
  integer_out_of_range : StateError
  -- a queued snapshot that no longer decodes
  corrupt_snapshot : Text → StateError
  missing_metadata bad_timestamp : StateError

pub data Result (A : Type 0) : Type 0 where
  ok : A → Result A
  err : StateError → Result A

abbrev pub i64_max : ℕ
i64_max = 2 ^ 63 - 1
