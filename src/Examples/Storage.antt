-- ===== src/Examples/Storage.antt =====
-- The local state: the outbox, its batches, the metadata and the cache.
use mathlib.Core.List.{Perm}
use metrune.Prelude.{
  ℕ, ◌-◌, ◌^◌, ◌||◌, ◌≡◌, ◌≤◌, refl, true, false, ltb, leb, if◌then◌else◌, none, some, List, [],
  ◌∷◌, ◌++◌, arith, map, length, min,
}
use metrune.Prelude.Text.{Text, codes, utf8}
use metrune.Prelude.Order.{text_ord}
use metrune.Prelude.TreeMap.{get, map_option}
use metrune.Core.Types.{schema_version}
use metrune.Core.Snapshot.{SessionSnapshot}
use metrune.State.{LocalState, OutboxRow, ok}
use metrune.State.Outbox.{
  replace_row, fresh_row, queue_snapshot, acknowledge, acknowledge_session_keys,
}
use metrune.State.Outbox.Rows.{until, is_refused, refusal}
use metrune.State.Outbox.Laws.{get-acknowledge_session_keys, acknowledge_keeps_newer, settled_named}
use metrune.State.Batch.{Entry, pending_rows, digest_input, batch_id, envelope, pending_batch}
use metrune.State.Batch.Framing.{digest_input-injective}
use metrune.State.Batch.Order.{pending, IsOrdered, AllBefore, pending_rows-oldest}
use metrune.State.Batch.Reading.{pending_batch-reads}
use metrune.State.Metadata.{
  activation_key, session_schema_version, claim_update_check, record_update_check,
}
use metrune.State.Metadata.Revision.{last_revision, revisions, Serves, revisions-Serves}
use metrune.State.Metadata.Schema.{later_calls, session_schema_version-sticky}
use metrune.State.Metadata.UpdateCheck.{claim_update_check_exclusive}
use metrune.State.Open.{open_state}
use metrune.State.Open.Laws.{pending_rows-open_state}
use metrune.Examples.Sample.{whole, digests, codec, sample_snapshot, empty_state}

abbrev first : SessionSnapshot ℕ
first = sample_snapshot (codes "a") 1 10

abbrev newer : SessionSnapshot ℕ
newer = sample_snapshot (codes "a") 4 10

abbrev stored_row : OutboxRow
stored_row = record {
  revision = 1;
  snapshot_json = first.session_key;
  acknowledged_at = none;
  updated_at = 2;
}

abbrev stored : LocalState
stored = record empty_state { session_outbox = (first.session_key, stored_row) ∷ [] }

abbrev queued_row : OutboxRow
queued_row = record {
  revision = 4;
  snapshot_json = first.session_key;
  acknowledged_at = none;
  updated_at = 9;
}

abbrev queued : LocalState
queued = record empty_state { session_outbox = (first.session_key, queued_row) ∷ [] }

-- The second snapshot has a revision that SQLite cannot hold.
abbrev sent : List (SessionSnapshot ℕ)
sent = first ∷ sample_snapshot (codes "b") (2 ^ 63) 10 ∷ []

abbrev named : List Text
named = codes "b" ∷ first.session_key ∷ []

get-acknowledge_session_keys_example :
    ((acknowledge_session_keys 20 sent named stored).0 ≡ refusal (is_refused named) sent)
    × ((k : Text)
        → get k (acknowledge_session_keys 20 sent named stored).1.session_outbox
          ≡ map_option
              (settled_named 20 k (until (is_refused named) sent) named)
              (get k stored.session_outbox))
get-acknowledge_session_keys_example = get-acknowledge_session_keys 20 sent named stored

not_ahead :
    (old : OutboxRow) → get first.session_key stored.session_outbox ≡ some old → old.revision ≤ 4
not_ahead old h = ground arith

acknowledge_keeps_newer_example :
    get first.session_key (acknowledge 20 (first ∷ []) queued).1.session_outbox
    ≡ some (fresh_row codec 9 newer)
unfolding queue_snapshot replace_row fresh_row
acknowledge_keeps_newer_example =
    acknowledge_keeps_newer codec 9 20 newer (first ∷ []) stored refl not_ahead
      ((λ same. omega arith), tt)

pending_batch-reads_example :
    (ss : List (SessionSnapshot ℕ)) × (pending_batch digests codec 30 10 stored
      ≡ ok (envelope digests codec 30 ss))
    × (map (λ s. codec.encode_snapshot s) ss
        ≡ map (λ e. e.1.snapshot_json) (pending_rows 10 stored))
    × (batch_id digests codec ss
        ≡ codes "mb_"
          ++ digests.sha256_hex
              (digest_input (map (λ e. utf8 e.1.snapshot_json) (pending_rows 10 stored))))
pending_batch-reads_example =
    pending_batch-reads digests codec 30 10 stored ((first, refl, refl), tt)

pending_rows-oldest_example :
    (left : List Entry) × Perm (pending_rows 1 stored ++ left) (pending stored)
    × IsOrdered (pending_rows 1 stored)
    × AllBefore (pending_rows 1 stored) left
    × (length (pending_rows 1 stored) ≡ min 1 (length (pending stored)))
pending_rows-oldest_example = pending_rows-oldest 1 stored

digest_input-injective_example : codes "ab" ∷ codes "c" ∷ [] ≡ codes "ab" ∷ codes "c" ∷ []
digest_input-injective_example =
    digest_input-injective (codes "ab" ∷ codes "c" ∷ []) (codes "ab" ∷ codes "c" ∷ [])
      (omega arith, (omega arith, tt)) (omega arith, (omega arith, tt)) refl

revisions-Serves_example :
    Serves (last_revision empty_state) (7 ∷ 5 ∷ []) (revisions (7 ∷ 5 ∷ []) empty_state)
revisions-Serves_example =
    revisions-Serves (7 ∷ 5 ∷ []) empty_state (omega arith, (omega arith, tt))

abbrev activated : LocalState
activated = record empty_state { local_metadata = (activation_key, 100 ∷ []) ∷ [] }

abbrev versioned : LocalState
versioned = record activated { session_schema = (codes "k", schema_version) ∷ [] }

-- Calls for another session and for this one.
abbrev calls : List (Text × ℕ)
calls = (codes "j", 10) ∷ (codes "k", 20) ∷ []

session_schema_version-sticky_example :
    session_schema_version codec (codes "k") 50 (later_calls codec calls versioned)
    ≡ ok (schema_version, later_calls codec calls versioned)
unfolding session_schema_version
session_schema_version-sticky_example =
    session_schema_version-sticky codec (codes "k") 120 50 calls activated refl

abbrev claimed : LocalState
claimed = (claim_update_check codec 100 60 empty_state).1

claim_update_check_exclusive_example : claim_update_check codec 130 60 claimed ≡ (
    if ltb 130 100 || leb 60 (130 - 100)
    then (true, record_update_check codec 130 claimed)
    else (false, claimed))
unfolding claim_update_check
claim_update_check_exclusive_example =
    claim_update_check_exclusive codec 100 60 empty_state 130 (λ t. refl) refl

pending_rows-open_state_example :
    pending_rows 10 (open_state codec 50 stored) ≡ pending_rows 10 stored
pending_rows-open_state_example = pending_rows-open_state codec 50 10 stored
