-- ===== src/State/Outbox/Laws.antt =====
-- `queue_snapshot`, `acknowledge` and `acknowledge_session_keys` on the rows
-- (crates/metrune-core/src/state.rs).
use metrune.Prelude.{
  ℕ, Bool, ◌≤◌, ◌<◌, ◌≡◌, ◌≢◌, refl, ap, ◌∙◌, true, false, Option, none, some, List, [], ◌∷◌, arith,
  leb, any, Bool-cases, inl, inr, if◌then◌else◌, ◌&&◌,
}
use metrune.Prelude.Text.{Text, text_eq, text_eq_refl, eq_of_text_eq}
use metrune.Prelude.Order.{text_ord}
use metrune.Prelude.TreeMap.{
  TreeMap, get, update, map_option, get-update_self, get-update_ne, get-modify_self, get-modify_ne,
}
use metrune.Core.Types.{DateTime}
use metrune.Core.Snapshot.{SessionSnapshot}
use metrune.State.{OutboxRow, LocalState, Codec, ok}
use metrune.State.Outbox.Rows.{
  until, is_refused, refusal, set_rows, set_named, acknowledge_rows-until, acknowledge_named-until,
}
use metrune.State.Outbox.{
  replace_row, acknowledge_row, fresh_row, queue_snapshot, is_out_of_range, acknowledge_one,
  acknowledge, acknowledge_session_keys,
}

module _ {F : Type 0} (c : Codec F) (now : DateTime) (s : SessionSnapshot F) (db : LocalState) where
  -- Queuing sets the session's row to the snapshot unless the row has a greater revision, and
  -- changes no other row.
  queue_snapshot-row :
      {db' : LocalState}
      → queue_snapshot c now s db ≡ ok db'
      → (get s.session_key db'.session_outbox
          ≡ some (replace_row (fresh_row c now s) (get s.session_key db.session_outbox)))
        × ((k : Text) → k ≢ s.session_key → get k db'.session_outbox ≡ get k db.session_outbox)
  unfolding queue_snapshot
  queue_snapshot-row {db'} h =
      let queued = update s.session_key (replace_row (fresh_row c now s)) db.session_outbox in
      let same : db'.session_outbox ≡ queued = ground arith in
      (
        ap (get s.session_key) same
            ∙ get-update_self s.session_key (replace_row (fresh_row c now s)) db.session_outbox,
        λ k other.
            ap (get k) same
            ∙ get-update_ne s.session_key k (replace_row (fresh_row c now s)) db.session_outbox
                other,
      )

-- The row is acknowledged if a snapshot of the list has its key and at least its revision.
abbrev pub settled :
    {F : Type 0} → DateTime → Text → List (SessionSnapshot F) → OutboxRow → OutboxRow
settled now k snapshots row =
    if any (λ s. text_eq s.session_key k && leb row.revision s.revision) snapshots
    then record row { acknowledged_at = some now }
    else row

-- The same, where the response has to name the key as well.
abbrev pub settled_named :
    {F : Type 0} → DateTime → Text → List (SessionSnapshot F) → List Text → OutboxRow → OutboxRow
settled_named now k snapshots keys row =
    if any (text_eq k) keys then settled now k snapshots row else row

module _ {F : Type 0} (now : DateTime) where
  get-acknowledge_one :
      (s : SessionSnapshot F) (k : Text) (rows : TreeMap Text OutboxRow)
      → get k (acknowledge_one now s rows) ≡ (
          if text_eq s.session_key k
          then map_option (acknowledge_row now s.revision) (get k rows)
          else get k rows)
  unfolding acknowledge_one
  get-acknowledge_one s k rows = elim (Bool-cases (text_eq s.session_key k)) [
    | inl e ↦
        let p = eq_of_text_eq s.session_key k e in
        rw (e, ← p) (get-modify_self s.session_key (acknowledge_row now s.revision) rows)
    | inr e ↦ rw e (
        get-modify_ne s.session_key k (acknowledge_row now s.revision) rows
          (λ p. ground (arith, ap (λ j. text_eq s.session_key j) p, text_eq_refl s.session_key)))
  ]

  settled-step :
      (s : SessionSnapshot F) (rest : List (SessionSnapshot F)) (k : Text)
      (found : Option OutboxRow)
      → map_option (settled now k rest) (
          if text_eq s.session_key k
          then map_option (acknowledge_row now s.revision) found
          else found)
        ≡ map_option (settled now k (s ∷ rest)) found
  unfolding acknowledge_row
  settled-step s rest k none = ground arith
  settled-step s rest k (some row) = ground arith

  get-set_rows :
      (snapshots : List (SessionSnapshot F)) (k : Text) (rows : TreeMap Text OutboxRow)
      → get k (set_rows now snapshots rows) ≡ map_option (settled now k snapshots) (get k rows)
  get-set_rows [] k rows = ground arith
  get-set_rows (s ∷ rest) k rows =
      get-set_rows rest k (acknowledge_one now s rows)
      ∙ ap (map_option (settled now k rest)) (get-acknowledge_one s k rows)
      ∙ settled-step s rest k (get k rows)

  -- The guard of the loop at one snapshot, seen from the key `k`.
  get-acknowledge_guarded :
      (s : SessionSnapshot F) (keys : List Text) (k : Text) (rows : TreeMap Text OutboxRow)
      → get k (if any (text_eq s.session_key) keys then acknowledge_one now s rows else rows) ≡ (
          if any (text_eq s.session_key) keys
          then get k (acknowledge_one now s rows)
          else get k rows)
  get-acknowledge_guarded s keys k rows = elim (Bool-cases (any (text_eq s.session_key) keys)) [
    | inl e ↦ rw e
    | inr e ↦ rw e
  ]

  settled_named-step :
      (s : SessionSnapshot F) (rest : List (SessionSnapshot F)) (keys : List Text) (k : Text)
      (found : Option OutboxRow)
      → (text_eq s.session_key k ≡ true → any (text_eq s.session_key) keys ≡ any (text_eq k) keys)
      → map_option (settled_named now k rest keys) (
          if any (text_eq s.session_key) keys
          then (if text_eq s.session_key k
              then map_option (acknowledge_row now s.revision) found
              else found)
          else found)
        ≡ map_option (settled_named now k (s ∷ rest) keys) found
  unfolding acknowledge_row
  settled_named-step s rest keys k none same = ground arith
  settled_named-step s rest keys k (some row) same = ground arith

  get-set_named :
      (snapshots : List (SessionSnapshot F)) (keys : List Text) (k : Text)
      (rows : TreeMap Text OutboxRow)
      → get k (set_named now snapshots keys rows)
        ≡ map_option (settled_named now k snapshots keys) (get k rows)
  get-set_named [] keys k rows = ground arith
  get-set_named (s ∷ rest) keys k rows =
      let named = any (text_eq s.session_key) keys in
      get-set_named rest keys k (if named then acknowledge_one now s rows else rows)
      ∙ ap (map_option (settled_named now k rest keys)) (
          get-acknowledge_guarded s keys k rows
          ∙ ap (λ found. if named then found else get k rows) (get-acknowledge_one s k rows))
      ∙ settled_named-step s rest keys k (get k rows)
          (λ e. ap (λ j. any (text_eq j) keys) (eq_of_text_eq s.session_key k e))

  refusal-none : (snapshots : List (SessionSnapshot F)) → none ≡ refusal (is_refused []) snapshots
  refusal-none [] = refl
  refusal-none (s ∷ ss) = refusal-none ss

  -- Acknowledging a list of snapshots acknowledges exactly the rows for which the list, up to the
  -- first revision that is refused, has a snapshot with the key and at least the revision of the row.
  get-acknowledge :
      (snapshots : List (SessionSnapshot F)) (k : Text) (db : LocalState)
      → get k (acknowledge now snapshots db).1.session_outbox
        ≡ map_option (settled now k (until is_out_of_range snapshots)) (get k db.session_outbox)
  unfolding acknowledge
  get-acknowledge snapshots k db =
      ap (λ r. get k r.1) (acknowledge_rows-until now snapshots db.session_outbox)
      ∙ get-set_rows (until is_out_of_range snapshots) k db.session_outbox

  -- A partial acknowledgement fails exactly if the response names a snapshot whose revision is
  -- greater than the largest i64. It acknowledges exactly the rows whose key the response names and
  -- for which the batch has, before the first such snapshot, one with the key and at least the
  -- revision of the row; every other row stays as it is.
  pub get-acknowledge_session_keys :
      (snapshots : List (SessionSnapshot F)) (keys : List Text) (db : LocalState)
      → ((acknowledge_session_keys now snapshots keys db).0 ≡ refusal (is_refused keys) snapshots)
        × ((k : Text)
            → get k (acknowledge_session_keys now snapshots keys db).1.session_outbox
              ≡ map_option
                  (settled_named now k (until (is_refused keys) snapshots) keys)
                  (get k db.session_outbox))
  unfolding acknowledge_session_keys
  get-acknowledge_session_keys snapshots [] db = (refusal-none snapshots, λ k. ground arith)
  get-acknowledge_session_keys snapshots (j ∷ keys) db =
      let same = acknowledge_named-until now snapshots (j ∷ keys) db.session_outbox in
      (
        ap (λ r. r.0) same,
        λ k.
            ap (λ r. get k r.1) same
            ∙ get-set_named (until (is_refused (j ∷ keys)) snapshots) (j ∷ keys) k
                db.session_outbox,
      )

-- Every snapshot of the list at the key `k` has a revision below `r`.
abbrev pub IsOlder : {F : Type 0} → ℕ → Text → List (SessionSnapshot F) → Type 0
IsOlder r k [] = Unit
IsOlder r k (s ∷ rest) = (s.session_key ≡ k → s.revision < r) × IsOlder r k rest

module _ {F : Type 0} where
  IsOlder-any :
      (row : OutboxRow) (k : Text) (snapshots : List (SessionSnapshot F))
      → IsOlder row.revision k snapshots
      → any (λ s. text_eq s.session_key k && leb row.revision s.revision) snapshots ≡ false
  IsOlder-any row k [] older = refl
  IsOlder-any row k (s ∷ rest) older =
      ground (arith, eq_of_text_eq s.session_key k, older.0, IsOlder-any row k rest older.1)

  IsOlder-until :
      (p : SessionSnapshot F → Bool) (r : ℕ) (k : Text) (ss : List (SessionSnapshot F))
      → IsOlder r k ss
      → IsOlder r k (until p ss)
  IsOlder-until p r k [] older = tt
  IsOlder-until p r k (s ∷ ss) older = elim (Bool-cases (p s)) [
    | inl e ↦ rw e tt
    | inr e ↦ rw e (older.0, IsOlder-until p r k ss older.1)
  ]

  replace_row-fresh :
      (c : Codec F) (t : DateTime) (s : SessionSnapshot F) (found : Option OutboxRow)
      → ((old : OutboxRow) → found ≡ some old → old.revision ≤ s.revision)
      → replace_row (fresh_row c t s) found ≡ fresh_row c t s
  unfolding replace_row fresh_row
  replace_row-fresh c t s none h = refl
  replace_row-fresh c t s (some old) h = ground (arith, h old refl)

  -- A snapshot that is queued, at a revision no lower than that of the row it finds, stays
  -- queued when a batch is acknowledged that holds only older revisions of its session.
  pub acknowledge_keeps_newer :
      (c : Codec F) (queued_at now : DateTime) (s : SessionSnapshot F)
      (batch : List (SessionSnapshot F)) (db : LocalState) {db' : LocalState}
      → queue_snapshot c queued_at s db ≡ ok db'
      → ((old : OutboxRow)
          → get s.session_key db.session_outbox ≡ some old
          → old.revision ≤ s.revision)
      → IsOlder s.revision s.session_key batch
      → get s.session_key (acknowledge now batch db').1.session_outbox
        ≡ some (fresh_row c queued_at s)
  unfolding fresh_row
  acknowledge_keeps_newer c queued_at now s batch db {db'} h not_ahead older =
      let row = fresh_row c queued_at s in
      let none_newer =
        IsOlder-any row s.session_key (until is_out_of_range batch)
          (IsOlder-until is_out_of_range s.revision s.session_key batch older) in
      get-acknowledge now batch s.session_key db'
      ∙ ap (map_option (settled now s.session_key (until is_out_of_range batch))) (
          (queue_snapshot-row c queued_at s db h).0
          ∙ ap some (replace_row-fresh c queued_at s _ not_ahead))
      ∙ ground (arith, none_newer)
