-- ===== src/State/Outbox.antt =====
-- The outbox: `queue_snapshot`, `acknowledge` and `acknowledge_session_keys`
-- (crates/metrune-core/src/state.rs).
pub mod Rows
pub mod Laws
use metrune.Prelude.{
  ℕ, Bool, Option, none, some, List, [], ◌∷◌, ◌&&◌, ltb, leb, if◌then◌else◌, any, is_empty,
}
use metrune.Prelude.Text.{Text, text_eq}
use metrune.Prelude.Order.{text_ord}
use metrune.Prelude.TreeMap.{TreeMap, update, modify}
use metrune.Core.Types.{DateTime}
use metrune.Core.Snapshot.{SessionSnapshot}
use metrune.State.{
  OutboxRow, LocalState, Codec, Result, ok, err, StateError, integer_out_of_range, i64_max,
}

-- `INSERT … ON CONFLICT(session_key) DO UPDATE … WHERE excluded.revision >= revision`
unfoldable pub replace_row : OutboxRow → Option OutboxRow → OutboxRow
replace_row excluded none = excluded
replace_row excluded (some row) = if leb row.revision excluded.revision then excluded else row

-- `UPDATE … SET acknowledged_at = now WHERE … revision <= revision`
unfoldable pub acknowledge_row : DateTime → ℕ → OutboxRow → OutboxRow
acknowledge_row now revision row =
    if leb row.revision revision then record row { acknowledged_at = some now } else row

module _ {F : Type 0} where
  unfoldable pub fresh_row : Codec F → DateTime → SessionSnapshot F → OutboxRow
  fresh_row c now s = record {
    revision = s.revision;
    snapshot_json = c.encode_snapshot s;
    acknowledged_at = none;
    updated_at = now;
  }

  unfoldable pub queue_snapshot :
      Codec F → DateTime → SessionSnapshot F → LocalState → Result LocalState
  queue_snapshot c now s db =
      if ltb i64_max s.revision
      then err integer_out_of_range
      else ok (record db {
        session_outbox = update s.session_key (replace_row (fresh_row c now s)) db.session_outbox;
      })

  unfoldable pub acknowledge_one :
      DateTime → SessionSnapshot F → TreeMap Text OutboxRow → TreeMap Text OutboxRow
  acknowledge_one now s rows = modify s.session_key (acknowledge_row now s.revision) rows

  -- `rusqlite` has no integer for the revision.
  abbrev pub is_out_of_range : SessionSnapshot F → Bool
  is_out_of_range s = ltb i64_max s.revision

  -- The loop, which the first revision out of range ends with an error.
  unfoldable pub acknowledge_rows :
      DateTime
      → List (SessionSnapshot F)
      → TreeMap Text OutboxRow
      → Option StateError × TreeMap Text OutboxRow
  unfolding acknowledge_one
  acknowledge_rows now [] rows = (none, rows)
  acknowledge_rows now (s ∷ rest) rows =
      let more = acknowledge_rows now rest (acknowledge_one now s rows) in
      if is_out_of_range s then (some integer_out_of_range, rows) else more

  -- The error, where there is one, and the state: the rows before it stay acknowledged.
  unfoldable pub acknowledge :
      DateTime → List (SessionSnapshot F) → LocalState → Option StateError × LocalState
  acknowledge now snapshots db =
      let settled = acknowledge_rows now snapshots db.session_outbox in
      (settled.0, record db { session_outbox = settled.1 })

  -- The loop over the snapshots whose key the response names.
  unfoldable pub acknowledge_named :
      DateTime
      → List (SessionSnapshot F)
      → List Text
      → TreeMap Text OutboxRow
      → Option StateError × TreeMap Text OutboxRow
  unfolding acknowledge_one
  acknowledge_named now [] keys rows = (none, rows)
  acknowledge_named now (s ∷ rest) keys rows =
      let named = any (text_eq s.session_key) keys in
      let more =
        acknowledge_named now rest keys (if named then acknowledge_one now s rows else rows) in
      if named && is_out_of_range s then (some integer_out_of_range, rows) else more

  unfoldable pub acknowledge_session_keys :
      DateTime → List (SessionSnapshot F) → List Text → LocalState → Option StateError × LocalState
  acknowledge_session_keys now snapshots keys db =
      let settled = acknowledge_named now snapshots keys db.session_outbox in
      if is_empty keys then (none, db) else (settled.0, record db { session_outbox = settled.1 })
