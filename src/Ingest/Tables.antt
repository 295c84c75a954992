-- ===== src/Ingest/Tables.antt =====
-- The tables that `ingest_sessions` reads and writes, and its acknowledgement
-- (crates/metrune-api/src/app.rs).
use metrune.Prelude.{ℕ, ◌+◌, Option, none, some, List, [], ◌∷◌, map, if◌then◌else◌}
use metrune.Prelude.Text.{Text, text_eq}
use metrune.Limits.Rate.{Windows, Verdict}
use metrune.Core.Types.{DateTime}
use metrune.Core.Snapshot.{SessionSnapshot, IngestAck}
use metrune.Device.{Uuid}

pub record InstallationAuth : Type 0 where
  pub organization_id : Uuid
  pub installation_id : Uuid
  pub team_key : Option Text
  pub retention_days : ℕ
  pub owner_user_id : Option Uuid

-- A row of `session_snapshots_dedup`; the snapshot stands for its JSON and for the columns that
-- copy a field of it.
pub record SnapshotRow (F : Type 0) : Type 0 where
  pub organization_id : Uuid
  pub installation_id : Uuid
  pub owner_user_id : Option Uuid
  pub team_key : Option Text
  pub total_tokens : ℕ
  pub total_cost : F
  pub snapshot : SessionSnapshot F
  pub ingested_at : DateTime
  pub retention_days : ℕ

pub record InstallationRow : Type 0 where
  pub id : Uuid
  pub last_client_version : Option Text
  pub last_seen_at : Option DateTime

pub record IngestState (F : Type 0) : Type 0 where
  pub windows : Windows
  pub installations : List InstallationRow
  pub completed : List (Uuid × Text)
  pub stored : List (SnapshotRow F)

pub data ApiError : Type 0 where
  unauthorized payload_too_large client_unsupported : ApiError
  limited : Verdict → ApiError
  bad_request : Text → ApiError

pub data Answer (A : Type 0) : Type 0 where
  answered : A → Answer A
  failed : ApiError → Answer A

abbrev pub team_or : Option Text → Option Text → Option Text
team_or none other = other
team_or (some key) other = some key

abbrev pub empty_ack : Text → ℕ → IngestAck
empty_ack batch_id duplicates = record {
  batch_id = batch_id;
  accepted = 0;
  duplicates = duplicates;
  rejected = 0;
  errors = [];
  accepted_session_keys = [];
  rejected_session_keys = [];
}

abbrev pub accept : Text → IngestAck → IngestAck
accept key ack = record ack {
  accepted = ack.accepted + 1;
  accepted_session_keys = key ∷ ack.accepted_session_keys;
}

abbrev pub reject : Text → Text → IngestAck → IngestAck
reject error key ack = record ack {
  rejected = ack.rejected + 1;
  errors = error ∷ ack.errors;
  rejected_session_keys = key ∷ ack.rejected_session_keys;
}

abbrev pub mark_installation_seen : DateTime → Uuid → List InstallationRow → List InstallationRow
mark_installation_seen now id rows =
    map (λ row. if text_eq row.id id then record row { last_seen_at = some now } else row) rows

abbrev pub record_version : Text → Uuid → List InstallationRow → List InstallationRow
record_version version id rows =
    map
      (λ row. if text_eq row.id id then record row { last_client_version = some version } else row)
      rows
