-- ===== src/Ingest/Sessions/Laws.antt =====
-- The loop and the storing of a batch in `ingest_sessions` (crates/metrune-api/src/app.rs).
use mathlib.Core.Path.{subst}
use metrune.Prelude.{
  suc, ℕ, ◌+◌, ◌≡◌, refl, true, Option, none, some, List, [], ◌∷◌, arith, All, length, inl, inr,
  Bool-cases,
}
use metrune.Prelude.Float.{Float}
use metrune.Prelude.Text.{Text, text_eq_refl}
use metrune.Core.Types.{DateTime}
use metrune.Core.Snapshot.{SessionSnapshot, BatchEnvelope, IngestAck}
use metrune.Device.{Uuid}
use metrune.Ingest.{Check}
use metrune.Ingest.Validate.{validate_snapshot}
use metrune.Ingest.Prices.{Price, apply_server_prices}
use metrune.Ingest.Tables.{
  InstallationAuth, SnapshotRow, IngestState, Answer, answered, failed, empty_ack,
}
use metrune.Ingest.Sessions.{
  new_row, add_accepted, add_rejected, judge, ingest_snapshots, store_batch, is_completed,
}

-- The acknowledgement accounts for each of `n` snapshots, and for the rows that were inserted.
abbrev pub Accounts : {F : Type 0} → ℕ → IngestAck × List (SnapshotRow F) → Type 0
Accounts n (ack, rows) =
    (ack.accepted + ack.rejected ≡ n)
    × (length rows ≡ ack.accepted)
    × (length ack.accepted_session_keys ≡ ack.accepted)
    × (length ack.rejected_session_keys ≡ ack.rejected)
    × (length ack.errors ≡ ack.rejected)

module _ {F : Type 0} ⦃o : Float F⦄ where
  abbrev IsValidRow : SnapshotRow F → Type 0
  IsValidRow row = validate_snapshot row.snapshot ≡ none

  abbrev Good : ℕ → Answer (IngestAck × List (SnapshotRow F)) → Type 0
  Good n (answered (ack, rows)) = Accounts n (ack, rows) × All IsValidRow rows
  Good n (failed e) = Unit

  Good-accepted :
      (n : ℕ) (row : SnapshotRow F) (key : Text) (rest : Answer (IngestAck × List (SnapshotRow F)))
      → IsValidRow row
      → Good n rest
      → Good (suc n) (add_accepted row key rest)
  Good-accepted n row key (answered (ack, rows)) valid ((a, b, c, d, e), all) =
      ((omega (arith, a), omega (arith, b), omega (arith, c), d, e), (valid, all))
  Good-accepted n row key (failed e) valid g = tt

  Good-rejected :
      (n : ℕ) (error key : Text) (rest : Answer (IngestAck × List (SnapshotRow F)))
      → Good n rest
      → Good (suc n) (add_rejected error key rest)
  Good-rejected n error key (answered (ack, rows)) ((a, b, c, d, e), all) =
      ((omega (arith, a), b, c, omega (arith, d), omega (arith, e)), all)
  Good-rejected n error key (failed e) g = tt

  Good-judge :
      (n : ℕ) (c c' : Check) (row : SnapshotRow F) (key : Text)
      (rest : Answer (IngestAck × List (SnapshotRow F)))
      → validate_snapshot row.snapshot ≡ c'
      → Good n rest
      → Good (suc n) (judge c c' row key rest)
  Good-judge n (some error) c' row key rest h g = Good-rejected n error key rest g
  Good-judge n none (some error) row key rest h g = tt
  Good-judge n none none row key rest h g = Good-accepted n row key rest h g

module _ {F : Type 0} ⦃o : Float F⦄ (find_price : Uuid → Text → Text → Option (Price F)) where
  Good-ingest_snapshots :
      (auth : InstallationAuth) (now : DateTime) (batch_id : Text)
      (snapshots : List (SessionSnapshot F))
      → Good (length snapshots) (ingest_snapshots find_price auth now batch_id snapshots)
  unfolding ingest_snapshots
  Good-ingest_snapshots auth now batch_id [] = ((refl, refl, refl, refl, refl), tt)
  Good-ingest_snapshots auth now batch_id (s ∷ snapshots) =
      let priced = apply_server_prices (find_price auth.organization_id) s in
      Good-judge (length snapshots) (validate_snapshot s) (validate_snapshot priced)
        (new_row auth now priced) s.session_key
        (ingest_snapshots find_price auth now batch_id snapshots) refl
        (Good-ingest_snapshots auth now batch_id snapshots)

  -- Where the snapshots of a batch are ingested, each of them is counted as accepted or as
  -- rejected, the response names as many keys and errors as it counts, one row is inserted for
  -- each that is accepted, and every row's snapshot passes the validation.
  pub ingest_snapshots-Accounts :
      (auth : InstallationAuth) (now : DateTime) (batch_id : Text)
      (snapshots : List (SessionSnapshot F)) (ack : IngestAck) (rows : List (SnapshotRow F))
      → ingest_snapshots find_price auth now batch_id snapshots ≡ answered (ack, rows)
      → Accounts (length snapshots) (ack, rows)
        × All (λ row. validate_snapshot row.snapshot ≡ none) rows
  ingest_snapshots-Accounts auth now batch_id snapshots ack rows h =
      subst (Good (length snapshots)) h (Good-ingest_snapshots auth now batch_id snapshots)

  completed_of_store :
      (auth : InstallationAuth) (now : DateTime) (batch : BatchEnvelope F) (db : IngestState F)
      (ack : IngestAck)
      → (store_batch find_price auth now batch db).0 ≡ answered ack
      → ack.rejected ≡ 0
      → is_completed auth.installation_id batch.batch_id
          (store_batch find_price auth now batch db).1.completed
        ≡ true
  unfolding store_batch is_completed
  completed_of_store auth now batch db ack h none_rejected =
      elim (Bool-cases (is_completed auth.installation_id batch.batch_id db.completed)) [
        | inl e ↦ rw e e
        | inr e ↦ ground (arith, text_eq_refl auth.installation_id, text_eq_refl batch.batch_id)
      ]

  -- After a batch without rejected snapshots is stored, the same batch of the same installation
  -- is answered with duplicates only, and inserts no row.
  pub store_batch-replay :
      (auth : InstallationAuth) (now now' : DateTime) (batch : BatchEnvelope F) (db : IngestState F)
      (ack : IngestAck)
      → (store_batch find_price auth now batch db).0 ≡ answered ack
      → ack.rejected ≡ 0
      → let db' = (store_batch find_price auth now batch db).1 in
        ((store_batch find_price auth now' batch db').0
          ≡ answered (empty_ack batch.batch_id (length batch.snapshots)))
        × ((store_batch find_price auth now' batch db').1.stored ≡ db'.stored)
  unfolding store_batch is_completed
  store_batch-replay auth now now' batch db ack h none_rejected =
      let found : is_completed auth.installation_id batch.batch_id
            (store_batch find_price auth now batch db).1.completed
          ≡ true =
        completed_of_store auth now batch db ack h none_rejected in
      rw found (refl, refl)
