-- ===== src/Client/Upload/Progress.antt =====
-- The rows that wait, over the uploads (crates/metrune-cli/src/app.rs).
use metrune.Prelude.{
  ℕ, zero, suc, ◌-◌, ◌≤◌, ◌<◌, ◌≡◌, refl, sym, ap, ◌∙◌, true, false, some, List, [], ◌∷◌, arith,
  length, All, ◌⊎◌, inl, inr,
}
use metrune.Prelude.Text.{Text}
use mathlib.Core.Path.{subst}
use metrune.Prelude.Order.{text_ord}
use metrune.Prelude.TreeMap.{get, All-found, IsSorted}
use metrune.Core.Types.{DateTime}
use metrune.Core.Snapshot.{SessionSnapshot, BatchEnvelope, IngestAck}
use metrune.Core.Identity.{Digests}
use metrune.State.{LocalState, Codec, ok}
use metrune.State.Outbox.{acknowledge, is_out_of_range}
use metrune.State.Outbox.Rows.{until, set_rows, acknowledge_rows-until}
use metrune.State.Batch.{Entry, is_pending, pending_rows, decode_rows, envelope, pending_batch}
use metrune.State.Batch.Order.{pending_rows-oldest}
use metrune.State.Batch.Reading.{All-pending_rows, AreWaiting-pending_rows}
use metrune.Client.Upload.{Bodies, Reply, response, settle_ack, settle_reply, upload}
use metrune.Client.Upload.Rows.{
  waiting, waiting-set_rows-lt, IsReadable, IsSound, All-set_rows, IsSorted-set_rows,
}

module _ {F : Type 0} where
  -- The server answers every batch with an acknowledgement that rejects nothing.
  abbrev pub Accepts : Bodies → (BatchEnvelope F → Reply) → Type 0
  Accepts b server =
      (batch : BatchEnvelope F)
      → (body : Text) × (ack : IngestAck) × (server batch ≡ response 200 body)
        × (b.decode_ack body ≡ some ack)
        × (ack.rejected ≡ 0)

  decode_rows-total :
      (c : Codec F) (es : List Entry)
      → All (IsReadable c) es
      → (ss : List (SessionSnapshot F)) × (decode_rows c es ≡ ok ss)
  unfolding decode_rows
  decode_rows-total c [] a = ([], refl)
  decode_rows-total c (e ∷ es) a =
      let (s, decoded, key, revision, fits) = a.0 in
      let (ss, rest) = decode_rows-total c es a.1 in (s ∷ ss, ground (arith, decoded, rest))

  decode_rows-head :
      (c : Codec F) (e : Entry) (es : List Entry)
      → All (IsReadable c) (e ∷ es)
      → (s : SessionSnapshot F) × (ss : List (SessionSnapshot F)) × (decode_rows c (e ∷ es)
          ≡ ok (s ∷ ss))
        × (s.session_key ≡ e.0)
        × (s.revision ≡ e.1.revision)
        × (is_out_of_range s ≡ false)
  unfolding decode_rows
  decode_rows-head c e es a =
      let (s, decoded, key, revision, fits) = a.0 in
      let (ss, rest) = decode_rows-total c es a.1 in
      (s, ss, ground (arith, decoded, rest), key, revision, ground (arith, revision, fits))

  settle_reply-accepted :
      (b : Bodies) (now later : DateTime) (ss : List (SessionSnapshot F)) (reply : Reply)
      (db : LocalState)
      → ((body : Text) × (ack : IngestAck) × (reply ≡ response 200 body)
          × (b.decode_ack body ≡ some ack)
          × (ack.rejected ≡ 0))
      → (settle_reply b now later ss reply db).1 ≡ (acknowledge now ss db).1
  unfolding settle_reply settle_ack
  settle_reply-accepted b now later ss reply db h =
      let (body, ack, answered, decoded, clean) = h in rw (answered, decoded, clean) refl

  module _ (d : Digests) (c : Codec F) (b : Bodies) (server : BatchEnvelope F → Reply)
      (sent now later : DateTime) (limit : ℕ) (db : LocalState) where
    upload-empty : pending_rows limit db ≡ [] → (upload d c b server sent now later limit db).1 ≡ db
    unfolding upload pending_batch decode_rows
    upload-empty h = rw (upload, pending_batch, h) refl

    upload-batch :
        (s : SessionSnapshot F) (ss : List (SessionSnapshot F))
        → decode_rows c (pending_rows limit db) ≡ ok (s ∷ ss)
        → Accepts b server
        → (upload d c b server sent now later limit db).1 ≡ (acknowledge now (s ∷ ss) db).1
    unfolding upload pending_batch
    upload-batch s ss h accepts =
        rw (upload, pending_batch, h)
          (settle_reply-accepted b now later (s ∷ ss) (server (envelope d c sent (s ∷ ss))) db
            (accepts (envelope d c sent (s ∷ ss))))

    upload-lt :
        (rows : List Entry)
        → pending_rows limit db ≡ rows
        → All (IsReadable c) rows
        → All (λ e. get e.0 db.session_outbox ≡ some e.1) rows
        → All (λ e. is_pending e ≡ true) rows
        → Accepts b server
        → ((length rows ≡ 0) × ((upload d c b server sent now later limit db).1 ≡ db))
          ⊎ ((ss : List (SessionSnapshot F)) × ((upload d c b server sent now later limit db).1
                ≡ (acknowledge now ss db).1)
              × (waiting (acknowledge now ss db).1.session_outbox < waiting db.session_outbox))
    unfolding acknowledge
    upload-lt [] h readable found waits accepts = inl (refl, upload-empty h)
    upload-lt (e ∷ es) h readable found waits accepts =
        let (s, ss, decoded, key, revision, fits) = decode_rows-head c e es readable in
        let fewer =
          waiting-set_rows-lt now s (until is_out_of_range ss) e.1 db.session_outbox
            (ap (λ k. get k db.session_outbox) key ∙ found.0) waits.0 (omega (arith, revision)) in
        let kept : until is_out_of_range (s ∷ ss) ≡ s ∷ until is_out_of_range ss = rw fits refl in
        inr (
          s ∷ ss,
          upload-batch s ss (ap (decode_rows c) h ∙ decoded) accepts,
          subst (λ r. waiting r.1 < waiting db.session_outbox)
              (sym (acknowledge_rows-until now (s ∷ ss) db.session_outbox))
              (subst (λ l. waiting (set_rows now l db.session_outbox) < waiting db.session_outbox)
                (sym kept) fewer),
        )

    IsSound-acknowledge :
        (ss : List (SessionSnapshot F)) → IsSound c db → IsSound c (acknowledge now ss db).1
    unfolding acknowledge
    IsSound-acknowledge ss sound =
        let kept = until is_out_of_range ss in
        subst (λ r. IsSorted r.1 × All (IsReadable c) r.1)
          (sym (acknowledge_rows-until now ss db.session_outbox))
          (
            IsSorted-set_rows now kept db.session_outbox sound.0,
            All-set_rows c now kept db.session_outbox sound.1,
          )

    -- What an upload leaves.
    abbrev Advances : LocalState → Type 0
    Advances after =
        IsSound c after × (waiting after.session_outbox ≤ waiting db.session_outbox - 1)

    -- With a limit of one or more, an outbox whose rows are readable and a server that rejects
    -- nothing, an upload leaves one waiting row less at least, if there is any, and the rows stay
    -- readable.
    pub upload-Advances :
        0 < limit
        → IsSound c db
        → Accepts b server
        → Advances (upload d c b server sent now later limit db).1
    upload-Advances positive sound accepts =
        let rows = pending_rows limit db in
        let (left, perm, ordered, before, count) = pending_rows-oldest limit db in
        let readable = All-pending_rows (IsReadable c) limit db sound.1 in
        let found =
          All-pending_rows (λ e. get e.0 db.session_outbox ≡ some e.1) limit db
            (All-found db.session_outbox sound.0) in
        elim (upload-lt rows refl readable found (AreWaiting-pending_rows limit db) accepts) [
          | inl (empty, same) ↦
              subst Advances (sym same) (sound, omega (arith, empty, count, positive))
          | inr (ss, same, fewer) ↦
              subst Advances (sym same) (IsSound-acknowledge ss sound, omega (arith, fewer))
        ]

-- The uploads of `rounds` cycles, each at its own time and with its own answers.
abbrev pub uploads :
    {F : Type 0}
    → Digests
    → Codec F
    → Bodies
    → (ℕ → BatchEnvelope F → Reply)
    → (ℕ → DateTime)
    → ℕ
    → ℕ
    → LocalState
    → LocalState
uploads d c b server clock limit zero db = db
uploads d c b server clock limit (suc rounds) db =
    uploads d c b server clock limit rounds
      (upload d c b (server rounds) (clock rounds) (clock rounds) (clock rounds) limit db).1

-- With a limit of one or more and a server that rejects nothing, an outbox in the order of its keys,
-- whose rows are readable and have revisions up to the largest i64, has no row that waits after as
-- many uploads as it has waiting rows.
pub uploads-drain :
    {F : Type 0} (d : Digests) (c : Codec F) (b : Bodies) (server : ℕ → BatchEnvelope F → Reply)
    (clock : ℕ → DateTime) (limit rounds : ℕ) (db : LocalState)
    → 0 < limit
    → IsSound c db
    → ((round : ℕ) → Accepts b (server round))
    → waiting db.session_outbox ≤ rounds
    → waiting (uploads d c b server clock limit rounds db).session_outbox ≡ 0
uploads-drain d c b server clock limit zero db positive sound accepts enough = omega (arith, enough)
uploads-drain d c b server clock limit (suc rounds) db positive sound accepts enough =
    let (sound', fewer) =
      upload-Advances d c b (server rounds) (clock rounds) (clock rounds) (clock rounds) limit db
        positive sound (accepts rounds) in
    uploads-drain d c b server clock limit rounds
      (upload d c b (server rounds) (clock rounds) (clock rounds) (clock rounds) limit db).1
      positive sound' accepts (omega (arith, fewer, enough))
