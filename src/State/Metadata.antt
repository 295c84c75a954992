-- ===== src/State/Metadata.antt =====
-- The values of `local_metadata`: revisions, the activation of the schema, and the update check
-- (crates/metrune-core/src/state.rs).
pub mod Revision
pub mod Schema
pub mod UpdateCheck
use metrune.Prelude.{
  ℕ, ◌-◌, Bool, true, false, ◌||◌, Option, none, some, ltb, leb, if◌then◌else◌, max,
}
use metrune.Prelude.Text.{Text, codes}
use metrune.Prelude.Words.{u64_max, saturating_add}
use metrune.Prelude.Decimal.{to_string, parse_u64}
use metrune.Prelude.Order.{text_ord}
use metrune.Prelude.TreeMap.{get, update}
use metrune.Core.Types.{DateTime, schema_version, legacy_schema_version}
use metrune.State.{LocalState, Codec, Result, ok, err, missing_metadata, bad_timestamp}

abbrev pub revision_key : Text
revision_key = codes "last_session_revision"

abbrev pub activation_key : Text
activation_key = codes "schema_v2_activated_at"

abbrev pub update_check_key : Text
update_check_key = codes "last_update_check_at"

-- `INSERT … ON CONFLICT(key) DO UPDATE SET value = excluded.value`
abbrev pub write_metadata : Text → Text → LocalState → LocalState
write_metadata key value db = record db {
  local_metadata = update key (λ found. value) db.local_metadata;
}

-- `INSERT … ON CONFLICT(…) DO NOTHING`
abbrev pub keep_or : Text → Option Text → Text
keep_or value none = value
keep_or value (some old) = old

-- `.and_then(|value| value.parse::<u64>().ok()).unwrap_or(0)`
abbrev pub revision_or_zero : Option Text → ℕ
revision_or_zero none = 0
revision_or_zero (some value) = elim (parse_u64 value) [ none ↦ 0 | some n ↦ n ]

unfoldable pub next_revision : ℕ → LocalState → ℕ × LocalState
next_revision observed db =
    let current = revision_or_zero (get revision_key db.local_metadata) in
    let revision = max observed (saturating_add u64_max current 1) in
    (revision, write_metadata revision_key (to_string revision) db)

module _ {F : Type 0} (c : Codec F) where
  unfoldable pub ensure_v2_activation_marker : DateTime → LocalState → LocalState
  ensure_v2_activation_marker now db = record db {
    local_metadata = update activation_key (keep_or (c.to_rfc3339 now)) db.local_metadata;
  }

  abbrev pub schema_for : DateTime → DateTime → Text
  schema_for activated_at started_at =
      if leb activated_at started_at then schema_version else legacy_schema_version

  -- `none` stands for an unreadable marker.
  abbrev pub parsed : Option Text → Result DateTime
  parsed none = err missing_metadata
  parsed (some value) = elim (c.parse_rfc3339 value) [ none ↦ err bad_timestamp | some t ↦ ok t ]

  unfoldable pub session_schema_version : Text → DateTime → LocalState → Result (Text × LocalState)
  session_schema_version session_key started_at db = elim (get session_key db.session_schema) [
    | some version ↦ ok (version, db)
    | none ↦ elim (parsed (get activation_key db.local_metadata)) [
      | err x ↦ err x
      | ok activated_at ↦
          let version = schema_for activated_at started_at in
          ok (
            version,
            record db { session_schema = update session_key (keep_or version) db.session_schema },
          )
    ]
  ]

  -- Due, unless a check at a readable time in the last `interval` is on record.
  abbrev pub is_due : DateTime → ℕ → Option Text → Bool
  is_due now interval none = true
  is_due now interval (some value) = elim (c.parse_rfc3339 value) [
    | none ↦ true
    | some last ↦ ltb now last || leb interval (now - last)
  ]

  unfoldable pub update_check_due : DateTime → ℕ → LocalState → Bool
  update_check_due now interval db = is_due now interval (get update_check_key db.local_metadata)

  unfoldable pub record_update_check : DateTime → LocalState → LocalState
  record_update_check checked_at db = write_metadata update_check_key (c.to_rfc3339 checked_at) db

  unfoldable pub claim_update_check : DateTime → ℕ → LocalState → Bool × LocalState
  claim_update_check now interval db =
      if is_due now interval (get update_check_key db.local_metadata)
      then (true, write_metadata update_check_key (c.to_rfc3339 now) db)
      else (false, db)
