-- ===== src/State/Batch.antt =====
-- `pending_batch`: the queued snapshots in the order of their age, and the digest that names the
-- batch (crates/metrune-core/src/state.rs).
pub mod Framing
pub mod Order
pub mod Reading
use Prim.Native.Nat.Ordering.{lt, eq, gt}
use metrune.Prelude.{
  ℕ, zero, suc, ◌/◌, ◌%◌, Bool, true, false, ◌&&◌, ◌||◌, Option, none, some, List, [], ◌∷◌, ◌++◌,
  ltb, ◌==◌, if◌then◌else◌, length, take, select, map,
}
use metrune.Prelude.Text.{Text, Bytes, utf8, codes}
use metrune.Prelude.Order.{lex_text}
use metrune.Prelude.TreeMap.{TreeMap}
use metrune.Core.Types.{DateTime, schema_version}
use metrune.Core.Snapshot.{SessionSnapshot, BatchEnvelope}
use metrune.Core.Identity.{Digests}
use metrune.State.{OutboxRow, LocalState, Codec, Result, ok, err, corrupt_snapshot}

-- A row with its key.
abbrev pub Entry : Type 0
Entry = Text × OutboxRow

abbrev pub is_pending : Entry → Bool
is_pending e = elim e.1.acknowledged_at [ none ↦ true | some t ↦ false ]

-- `ORDER BY updated_at, session_key`: whether `a` may stand before `b`.
abbrev pub precedes : Entry → Entry → Bool
precedes a b =
    ltb a.1.updated_at b.1.updated_at
    || a.1.updated_at == b.1.updated_at
      && (elim (lex_text a.0 b.0) [ gt ↦ false | lt ↦ true | eq ↦ true ])

insert_entry : Entry → List Entry → List Entry
insert_entry e [] = e ∷ []
insert_entry e (x ∷ xs) =
    let rest = insert_entry e xs in if precedes e x then e ∷ x ∷ xs else x ∷ rest

sort_entries : List Entry → List Entry
unfolding insert_entry
sort_entries [] = []
sort_entries (e ∷ es) = insert_entry e (sort_entries es)

-- The rows of the query, `LIMIT` included.
unfoldable pub pending_rows : ℕ → LocalState → List Entry
unfolding sort_entries
pending_rows limit db = take limit (sort_entries (select is_pending db.session_outbox))

-- `u64::to_le_bytes`, at 8 bytes.
unfoldable pub le_bytes : ℕ → ℕ → Bytes
le_bytes zero n = []
le_bytes (suc k) n = (n % 256) ∷ le_bytes k (n / 256)

-- The bytes of the payloads, each behind their number.
unfoldable pub frames : List Bytes → Bytes
unfolding le_bytes
frames [] = []
frames (encoded ∷ rest) = le_bytes 8 (length encoded) ++ (encoded ++ frames rest)

unfoldable pub digest_input : List Bytes → Bytes
unfolding frames
digest_input payloads = utf8 schema_version ++ frames payloads

module _ {F : Type 0} where
  -- The first row that does not decode ends the loop with an error.
  unfoldable pub decode_rows : Codec F → List Entry → Result (List (SessionSnapshot F))
  decode_rows c [] = ok []
  decode_rows c (e ∷ es) =
      let rest = decode_rows c es in
      elim (c.decode_snapshot e.1.snapshot_json) [
        | none ↦ err (corrupt_snapshot e.0)
        | some s ↦ elim rest [ ok ss ↦ ok (s ∷ ss) | err x ↦ err x ]
      ]

  unfoldable pub batch_id : Digests → Codec F → List (SessionSnapshot F) → Text
  unfolding digest_input
  batch_id d c snapshots =
      codes "mb_" ++ d.sha256_hex (digest_input (map (λ s. utf8 (c.encode_snapshot s)) snapshots))

  abbrev pub envelope : Digests → Codec F → DateTime → List (SessionSnapshot F) → BatchEnvelope F
  envelope d c now snapshots = record {
    schema_version = schema_version;
    batch_id = batch_id d c snapshots;
    sent_at = now;
    snapshots = snapshots;
  }

  unfoldable pub pending_batch :
      Digests → Codec F → DateTime → ℕ → LocalState → Result (BatchEnvelope F)
  pending_batch d c now limit db = elim (decode_rows c (pending_rows limit db)) [
    | ok snapshots ↦ ok (envelope d c now snapshots)
    | err x ↦ err x
  ]
