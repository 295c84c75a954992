-- ===== src/Client/Upload/Rows.antt =====
-- The rows of the outbox that an upload settles (crates/metrune-core/src/state.rs).
use Prim.Native.Nat.Ordering.{lt, eq, gt}
use metrune.Prelude.{
  ℕ, ◌≤◌, ◌<◌, ◌≡◌, true, false, some, List, [], ◌∷◌, arith, length, select, All, leb,
  if◌then◌else◌,
}
use metrune.Prelude.Text.{Text}
use metrune.Prelude.Order.{text_ord}
use metrune.Prelude.TreeMap.{TreeMap, get, modify, IsSorted, IsSorted-modify}
use metrune.Core.Types.{DateTime}
use metrune.Core.Snapshot.{SessionSnapshot}
use metrune.State.{OutboxRow, LocalState, Codec, i64_max}
use metrune.State.Outbox.{acknowledge_row, acknowledge_one}
use metrune.State.Outbox.Rows.{set_rows}
use metrune.State.Batch.{Entry, is_pending}

-- The number of rows that wait.
abbrev pub waiting : TreeMap Text OutboxRow → ℕ
waiting rows = length (select is_pending rows)

module _ (now : DateTime) (r : ℕ) where
  waiting-modify-le :
      (k : Text) (rows : TreeMap Text OutboxRow)
      → waiting (modify k (acknowledge_row now r) rows) ≤ waiting rows
  unfolding acknowledge_row
  waiting-modify-le k [] = omega arith
  waiting-modify-le k ((j, row) ∷ rows) = ground (arith, waiting-modify-le k rows)

  -- A row that waits stops waiting when its revision is acknowledged.
  waiting-modify-lt :
      (k : Text) (row : OutboxRow) (rows : TreeMap Text OutboxRow)
      → get k rows ≡ some row
      → is_pending (k, row) ≡ true
      → row.revision ≤ r
      → waiting (modify k (acknowledge_row now r) rows) < waiting rows
  unfolding acknowledge_row
  waiting-modify-lt k row [] h p le = absurd (ground (arith, h))
  waiting-modify-lt k row ((j, v) ∷ rows) h p le =
      ground (arith, h, p, waiting-modify-lt k row rows)

module _ {F : Type 0} (now : DateTime) where
  waiting-set_rows-le :
      (ss : List (SessionSnapshot F)) (rows : TreeMap Text OutboxRow)
      → waiting (set_rows now ss rows) ≤ waiting rows
  unfolding acknowledge_one
  waiting-set_rows-le [] rows = omega arith
  waiting-set_rows-le (s ∷ ss) rows = omega (
    arith,
    waiting-set_rows-le ss (acknowledge_one now s rows),
    waiting-modify-le now s.revision s.session_key rows,
  )

  -- Acknowledging the snapshot of a row that waits leaves fewer rows that wait.
  pub waiting-set_rows-lt :
      (s : SessionSnapshot F) (ss : List (SessionSnapshot F)) (row : OutboxRow)
      (rows : TreeMap Text OutboxRow)
      → get s.session_key rows ≡ some row
      → is_pending (s.session_key, row) ≡ true
      → row.revision ≤ s.revision
      → waiting (set_rows now (s ∷ ss) rows) < waiting rows
  unfolding acknowledge_one
  waiting-set_rows-lt s ss row rows h p le = omega (
    arith,
    waiting-set_rows-le ss (acknowledge_one now s rows),
    waiting-modify-lt now s.revision s.session_key row rows h p le,
  )

module _ {F : Type 0} where
  -- The row holds a snapshot of its own key and revision that decodes, and the revision is an
  -- integer of SQLite.
  abbrev pub IsReadable : Codec F → Entry → Type 0
  IsReadable c e =
      (s : SessionSnapshot F) × (c.decode_snapshot e.1.snapshot_json ≡ some s)
      × (s.session_key ≡ e.0)
      × (s.revision ≡ e.1.revision)
      × (e.1.revision ≤ i64_max)

  -- The outbox is in the order of its keys, and every row is readable.
  abbrev pub IsSound : Codec F → LocalState → Type 0
  IsSound c db = IsSorted db.session_outbox × All (IsReadable c) db.session_outbox

  All-modify :
      (c : Codec F) (now : DateTime) (r : ℕ) (k : Text) (rows : TreeMap Text OutboxRow)
      → All (IsReadable c) rows
      → All (IsReadable c) (modify k (acknowledge_row now r) rows)
  unfolding acknowledge_row
  All-modify c now r k [] a = tt
  All-modify c now r k ((j, row) ∷ rows) a =
      elim (text_ord.cmp k j)
        as (λ x. All (IsReadable c) (elim x [
          | lt ↦ (j, row) ∷ rows
          | eq ↦ (j, acknowledge_row now r row) ∷ rows
          | gt ↦ (j, row) ∷ modify k (acknowledge_row now r) rows
        ])) [
          | lt ↦ a
          | eq ↦ (
            elim (leb row.revision r)
                as (λ b.
                  IsReadable c (j, if b then record row { acknowledged_at = some now } else row)) [
                    | true ↦ a.0
                    | false ↦ a.0
                  ],
            a.1,
          )
          | gt ↦ (a.0, All-modify c now r k rows a.1)
        ]

  pub All-set_rows :
      (c : Codec F) (now : DateTime) (ss : List (SessionSnapshot F)) (rows : TreeMap Text OutboxRow)
      → All (IsReadable c) rows
      → All (IsReadable c) (set_rows now ss rows)
  unfolding acknowledge_one
  All-set_rows c now [] rows a = a
  All-set_rows c now (s ∷ ss) rows a =
      All-set_rows c now ss (acknowledge_one now s rows)
        (All-modify c now s.revision s.session_key rows a)

  pub IsSorted-set_rows :
      (now : DateTime) (ss : List (SessionSnapshot F)) (rows : TreeMap Text OutboxRow)
      → IsSorted rows
      → IsSorted (set_rows now ss rows)
  unfolding acknowledge_one
  IsSorted-set_rows now [] rows s = s
  IsSorted-set_rows now (s ∷ ss) rows h =
      IsSorted-set_rows now ss (acknowledge_one now s rows)
        (IsSorted-modify s.session_key (acknowledge_row now s.revision) rows h)
