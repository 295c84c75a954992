-- ===== src/State/Open/Laws.antt =====
-- `open`, and the classification cache (crates/metrune-core/src/state.rs).
use metrune.Prelude.{ℕ, ◌-◌, ◌*◌, ◌≡◌, refl, some, [], ◌∷◌, not, select, arith, if◌then◌else◌}
use metrune.Prelude.Text.{Text, text_eq, text_eq_refl, eq_of_text_eq}
use metrune.Prelude.Order.{text_ord}
use metrune.Prelude.TreeMap.{TreeMap, get, get-update_self, get-update_ne}
use metrune.Core.Types.{DateTime}
use metrune.Core.Category.{CategoryAssignment}
use metrune.State.{OutboxRow, CacheRow, LocalState, Codec}
use metrune.State.Batch.{is_pending, pending_rows}
use metrune.State.Metadata.{ensure_v2_activation_marker, keep_or, activation_key}
use metrune.State.Open.{
  is_expired, state_retention_days, day, prune_expired_rows, open_state, cached_classification,
  cache_classification,
}

pending-prune :
    (cutoff : DateTime) (rows : TreeMap Text OutboxRow)
    → select is_pending (select (λ e. not (is_expired cutoff e.1)) rows) ≡ select is_pending rows
pending-prune cutoff [] = refl
pending-prune cutoff ((k, row) ∷ rows) = ground (arith, pending-prune cutoff rows)

-- Opening the state leaves the queue as it was: the rows of the next batch are the same.
pub pending_rows-open_state :
    {F : Type 0} (c : Codec F) (now : DateTime) (limit : ℕ) (db : LocalState)
    → pending_rows limit (open_state c now db) ≡ pending_rows limit db
unfolding pending_rows open_state prune_expired_rows ensure_v2_activation_marker
pending_rows-open_state c now limit db =
    rw (pending-prune (now - state_retention_days * day) db.session_outbox)

-- The activation of the schema is on record after the state is opened, and the first one stays.
activation-open_state :
    {F : Type 0} (c : Codec F) (now : DateTime) (db : LocalState)
    → get activation_key (open_state c now db).local_metadata
      ≡ some (keep_or (c.to_rfc3339 now) (get activation_key db.local_metadata))
unfolding open_state prune_expired_rows ensure_v2_activation_marker
activation-open_state c now db =
    get-update_self activation_key (keep_or (c.to_rfc3339 now)) db.local_metadata

module _ {F : Type 0} (c : Codec F) where
  -- A classification that decodes as it was encoded is found again under the key at which it was
  -- cached, and what is found at other keys does not change.
  cached_classification-cache_classification :
      (now : DateTime) (key other : Text) (a : CategoryAssignment F) (db : LocalState)
      → c.decode_assignment (c.encode_assignment a) ≡ some a
      → cached_classification c other (cache_classification c now key a db)
        ≡ (if text_eq other key then some a else cached_classification c other db)
  unfolding cached_classification cache_classification
  cached_classification-cache_classification now key other a db readable =
      let row : CacheRow = record { assignment_json = c.encode_assignment a; updated_at = now } in
      let self = get-update_self key (λ found. row) db.classification_cache in
      ground (
        arith,
        readable,
        self,
        eq_of_text_eq other key,
        text_eq_refl key,
        get-update_ne key other (λ found. row) db.classification_cache,
      )
