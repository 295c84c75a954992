-- ===== src/State/Batch/Reading.antt =====
-- `pending_batch` on a queue of encoded snapshots (crates/metrune-core/src/state.rs).
use metrune.Prelude.{
  ℕ, zero, suc, ◌≡◌, refl, ap, ◌∙◌, some, Bool, List, [], ◌∷◌, ◌++◌, arith, take, select, map, All,
  true, Bool-cases, inl, inr,
}
use metrune.Prelude.Text.{codes, utf8}
use metrune.Core.Types.{DateTime}
use metrune.Core.Snapshot.{SessionSnapshot}
use metrune.Core.Identity.{Digests}
use metrune.State.{LocalState, Codec, ok}
use metrune.State.Batch.{
  Entry, is_pending, insert_entry, sort_entries, pending_rows, decode_rows, batch_id, digest_input,
  envelope, pending_batch,
}

module _ (P : Entry → Type 0) where
  All-select : (p : Entry → Bool) (es : List Entry) → All P es → All P (select p es)
  All-select p [] h = tt
  All-select p (e ∷ es) h = ground (arith, All-select p es h.1)

  All-insert : (e : Entry) (es : List Entry) → P e → All P es → All P (insert_entry e es)
  unfolding insert_entry
  All-insert e [] h k = (h, tt)
  All-insert e (x ∷ xs) h k = ground (arith, All-insert e xs h k.1)

  All-sort : (es : List Entry) → All P es → All P (sort_entries es)
  unfolding sort_entries
  All-sort [] h = tt
  All-sort (e ∷ es) h = All-insert e (sort_entries es) h.0 (All-sort es h.1)

  All-take : (n : ℕ) (es : List Entry) → All P es → All P (take n es)
  All-take zero es h = tt
  All-take (suc n) [] h = tt
  All-take (suc n) (e ∷ es) h = (h.0, All-take n es h.1)

  pub All-pending_rows :
      (limit : ℕ) (db : LocalState) → All P db.session_outbox → All P (pending_rows limit db)
  unfolding pending_rows
  All-pending_rows limit db h =
      let pending = select is_pending db.session_outbox in
      All-take limit (sort_entries pending)
        (All-sort pending (All-select is_pending db.session_outbox h))

AreWaiting-select : (es : List Entry) → All (λ e. is_pending e ≡ true) (select is_pending es)
AreWaiting-select [] = tt
AreWaiting-select (e ∷ es) = elim (Bool-cases (is_pending e)) [
  | inl h ↦ rw h (h, AreWaiting-select es)
  | inr h ↦ rw h (AreWaiting-select es)
]

pub AreWaiting-pending_rows :
    (limit : ℕ) (db : LocalState) → All (λ e. is_pending e ≡ true) (pending_rows limit db)
unfolding pending_rows
AreWaiting-pending_rows limit db =
    let rows = select is_pending db.session_outbox in
    All-take (λ e. is_pending e ≡ true) limit (sort_entries rows)
      (All-sort (λ e. is_pending e ≡ true) rows (AreWaiting-select db.session_outbox))

module _ {F : Type 0} where
  -- The row holds a snapshot that was encoded, and that decoding gives back.
  abbrev pub IsEncoded : Codec F → Entry → Type 0
  IsEncoded c e =
      (s : SessionSnapshot F) × (e.1.snapshot_json ≡ c.encode_snapshot s)
      × (c.decode_snapshot (c.encode_snapshot s) ≡ some s)

  decode_rows-encoded :
      (c : Codec F) (es : List Entry)
      → All (IsEncoded c) es
      → (ss : List (SessionSnapshot F)) × (decode_rows c es ≡ ok ss)
        × (map (λ s. c.encode_snapshot s) ss ≡ map (λ e. e.1.snapshot_json) es)
        × (map (λ s. utf8 (c.encode_snapshot s)) ss ≡ map (λ e. utf8 e.1.snapshot_json) es)
  unfolding decode_rows
  decode_rows-encoded c [] h = ([], refl, refl, refl)
  decode_rows-encoded c (e ∷ es) h =
      let (s, stored, faithful) = h.0 in
      let (ss, decoded, same, bytes) = decode_rows-encoded c es h.1 in
      let found = ap (λ x. c.decode_snapshot x) stored ∙ faithful in
      (
        s ∷ ss,
        ground (arith, found, decoded),
        ground (arith, stored, same),
        ground (arith, ap utf8 stored, bytes),
      )

  -- Where every stored row was encoded and decodes again, a batch is always read: it holds the snapshots of the rows
  -- that were taken, in their order, and its id is the digest of what those rows store, so it does
  -- not depend on when the batch is read.
  pub pending_batch-reads :
      (d : Digests) (c : Codec F) (now : DateTime) (limit : ℕ) (db : LocalState)
      → All (IsEncoded c) db.session_outbox
      → (ss : List (SessionSnapshot F)) × (pending_batch d c now limit db
          ≡ ok (envelope d c now ss))
        × (map (λ s. c.encode_snapshot s) ss ≡ map (λ e. e.1.snapshot_json) (pending_rows limit db))
        × (batch_id d c ss
            ≡ codes "mb_"
              ++ d.sha256_hex
                  (digest_input (map (λ e. utf8 e.1.snapshot_json) (pending_rows limit db))))
  unfolding pending_batch batch_id
  pending_batch-reads d c now limit db h =
      let rows = pending_rows limit db in
      let (ss, decoded, same, bytes) =
        decode_rows-encoded c rows (All-pending_rows (IsEncoded c) limit db h) in
      (
        ss,
        ground (arith, decoded),
        same,
        ap (λ payloads. codes "mb_" ++ d.sha256_hex (digest_input payloads)) bytes,
      )
