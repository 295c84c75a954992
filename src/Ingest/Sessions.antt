-- ===== src/Ingest/Sessions.antt =====
-- `ingest_sessions` (crates/metrune-api/src/app.rs). The answer of the price query is a parameter; a
-- failure of a database is not modelled.
pub mod Laws
use metrune.Prelude.{
  ℕ, ◌+◌, Bool, true, false, not, ◌&&◌, ◌||◌, Option, none, some, List, [], ◌∷◌, ◌++◌, map, ltb,
  ◌==◌, if◌then◌else◌, any, length, is_empty,
}
use metrune.Prelude.Float.{Float}
use metrune.Prelude.Text.{Text, codes, text_eq, len, trim}
use metrune.Prelude.Decimal.{to_string}
use metrune.Limits.Rate.{RateLimit, Windows, Verdict, check}
use metrune.Core.Types.{DateTime}
use metrune.Core.Snapshot.{SessionSnapshot, BatchEnvelope, IngestAck, total_tokens, total_cost}
use metrune.Device.{Uuid}
use metrune.Device.Authorize.{is_allowed}
use metrune.Ingest.{Check, max_batch_snapshots}
use metrune.Ingest.Validate.{is_supported_schema, validate_snapshot}
use metrune.Ingest.Versions.{
  Semver, server_version, versions_share_major, version_is_older, reported_client_version,
}
use metrune.Ingest.Tables.{
  InstallationAuth, SnapshotRow, InstallationRow, IngestState, ApiError, unauthorized,
  payload_too_large, client_unsupported, limited, bad_request, Answer, answered, failed, team_or,
  empty_ack, accept, reject, mark_installation_seen, record_version,
}
use metrune.Ingest.Prices.{Price, apply_server_prices}

-- `SELECT EXISTS(…)` on `ingest_batches`.
unfoldable pub is_completed : Uuid → Text → List (Uuid × Text) → Bool
is_completed id batch_id completed = any (λ e. text_eq e.0 id && text_eq e.1 batch_id) completed

-- A batch is completed once no row of it is rejected.
abbrev pub complete : InstallationAuth → Text → IngestAck → List (Uuid × Text) → List (Uuid × Text)
complete auth batch_id ack completed =
    if ack.rejected == 0 then (auth.installation_id, batch_id) ∷ completed else completed

-- `minimum` is the configured floor.
abbrev pub is_too_old : {V : Type 0} → Semver V → Option Text → Option Text → Bool
is_too_old v minimum none = elim minimum [ none ↦ false | some m ↦ true ]
is_too_old v minimum (some current) = elim minimum [
  | none ↦ false
  | some m ↦ version_is_older v current m
]

abbrev pub is_incompatible : {V : Type 0} → Semver V → Option Text → Bool
is_incompatible v none = false
is_incompatible v (some version) = not (versions_share_major v version server_version)

module _ {F : Type 0} ⦃o : Float F⦄ where
  -- `SnapshotRow::new`
  abbrev pub new_row : InstallationAuth → DateTime → SessionSnapshot F → SnapshotRow F
  new_row auth now s = record {
    organization_id = auth.organization_id;
    installation_id = auth.installation_id;
    owner_user_id = auth.owner_user_id;
    team_key = team_or auth.team_key s.team_key;
    total_tokens = total_tokens s;
    total_cost = total_cost s;
    snapshot = s;
    ingested_at = now;
    retention_days = auth.retention_days;
  }

module _ {F : Type 0} where
  abbrev pub add_accepted :
      SnapshotRow F
      → Text
      → Answer (IngestAck × List (SnapshotRow F))
      → Answer (IngestAck × List (SnapshotRow F))
  add_accepted row key (answered (ack, rows)) = answered (accept key ack, row ∷ rows)
  add_accepted row key (failed e) = failed e

  abbrev pub add_rejected :
      Text
      → Text
      → Answer (IngestAck × List (SnapshotRow F))
      → Answer (IngestAck × List (SnapshotRow F))
  add_rejected error key (answered (ack, rows)) = answered (reject error key ack, rows)
  add_rejected error key (failed e) = failed e

  -- The two validations of one snapshot, as it came and with its prices.
  abbrev pub judge :
      Check
      → Check
      → SnapshotRow F
      → Text
      → Answer (IngestAck × List (SnapshotRow F))
      → Answer (IngestAck × List (SnapshotRow F))
  judge (some error) priced row key rest = add_rejected error key rest
  judge none (some error) row key rest = failed (bad_request error)
  judge none none row key rest = add_accepted row key rest

  abbrev pub has_supported_schemas : BatchEnvelope F → Bool
  has_supported_schemas batch =
      is_supported_schema batch.schema_version
      && not (any (λ s. not (is_supported_schema s.schema_version)) batch.snapshots)

  abbrev pub note_version : Option Text → Uuid → IngestState F → IngestState F
  note_version none id db = db
  note_version (some version) id db = record db {
    installations = record_version version id db.installations;
  }

module _ {F : Type 0} ⦃o : Float F⦄ (find_price : Uuid → Text → Text → Option (Price F)) where
  -- The loop over the snapshots: the acknowledgement, and the rows that it inserts.
  unfoldable pub ingest_snapshots :
      InstallationAuth
      → DateTime
      → Text
      → List (SessionSnapshot F)
      → Answer (IngestAck × List (SnapshotRow F))
  ingest_snapshots auth now batch_id [] = answered (empty_ack batch_id 0, [])
  ingest_snapshots auth now batch_id (s ∷ snapshots) =
      let rest = ingest_snapshots auth now batch_id snapshots in
      let priced = apply_server_prices (find_price auth.organization_id) s in
      judge (validate_snapshot s) (validate_snapshot priced) (new_row auth now priced) s.session_key
        rest

  -- From the look-up of the batch on.
  unfoldable pub store_batch :
      InstallationAuth
      → DateTime
      → BatchEnvelope F
      → IngestState F
      → Answer IngestAck × IngestState F
  store_batch auth now batch db =
      let seen = record db {
        installations = mark_installation_seen now auth.installation_id db.installations;
      } in
      if is_completed auth.installation_id batch.batch_id db.completed
      then (answered (empty_ack batch.batch_id (length batch.snapshots)), seen)
      else elim (ingest_snapshots auth now batch.batch_id batch.snapshots) [
        | failed e ↦ (failed e, db)
        | answered (ack, rows) ↦ (
          answered ack,
          record seen {
            stored = db.stored ++ rows;
            completed = complete auth batch.batch_id ack db.completed;
          },
        )
      ]

  -- The checks of the batch's form.
  unfoldable pub accept_batch :
      InstallationAuth
      → DateTime
      → BatchEnvelope F
      → IngestState F
      → Answer IngestAck × IngestState F
  unfolding store_batch
  accept_batch auth now batch db =
      if not (has_supported_schemas batch)
      then (failed client_unsupported, db)
      else if is_empty (trim batch.batch_id) || ltb 128 (len batch.batch_id)
      then (failed (bad_request (codes "batch_id must be between 1 and 128 bytes")), db)
      else if ltb max_batch_snapshots (length batch.snapshots)
      then (failed payload_too_large, db)
      else store_batch auth now batch db

  -- `installation` is what `installation_auth` finds.
  unfoldable pub ingest_sessions :
      {V : Type 0}
      → Semver V
      → RateLimit
      → Option Text
      → DateTime
      → Option InstallationAuth
      → Option Text
      → BatchEnvelope F
      → IngestState F
      → Answer IngestAck × IngestState F
  unfolding accept_batch
  ingest_sessions v limit minimum now none header batch db = (failed unauthorized, db)
  ingest_sessions v limit minimum now (some auth) header batch db =
      let (verdict, windows) = check now (codes "ingest") auth.installation_id limit db.windows in
      let charged = record db { windows = windows } in
      if not (is_allowed verdict)
      then (failed (limited verdict), charged)
      else let version = reported_client_version v header in
        let noted = note_version version auth.installation_id charged in
        if is_incompatible v version || is_too_old v minimum version
        then (failed client_unsupported, noted)
        else accept_batch auth now batch noted
