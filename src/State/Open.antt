-- ===== src/State/Open.antt =====
-- Opening the state, with the pruning of old rows, and the two caches: source checkpoints and
-- classifications (crates/metrune-core/src/state.rs).
pub mod Laws
use metrune.Prelude.{
  ℕ, ◌-◌, ◌*◌, Bool, true, false, not, Option, none, some, ltb, select, if◌then◌else◌,
}
use metrune.Prelude.Text.{Text}
use metrune.Prelude.Order.{text_ord}
use metrune.Prelude.TreeMap.{get, update}
use metrune.Core.Types.{DateTime}
use metrune.Core.Category.{CategoryAssignment}
use metrune.State.{OutboxRow, CacheRow, LocalState, Codec}
use metrune.State.Metadata.{ensure_v2_activation_marker}

abbrev pub state_retention_days : ℕ
state_retention_days = 30

-- The ticks of a day, at a tick of a nanosecond.
abbrev pub day : ℕ
day = 24 * 60 * 60 * 1_000_000_000

-- `acknowledged_at IS NOT NULL AND acknowledged_at < cutoff`
abbrev pub is_expired : DateTime → OutboxRow → Bool
is_expired cutoff row = elim row.acknowledged_at [ none ↦ false | some t ↦ ltb t cutoff ]

unfoldable pub prune_expired_rows : DateTime → LocalState → LocalState
prune_expired_rows now db =
    let cutoff = now - state_retention_days * day in
    record db {
      session_outbox = select (λ e. not (is_expired cutoff e.1)) db.session_outbox;
      classification_cache = select (λ e. not (ltb e.1.updated_at cutoff)) db.classification_cache;
    }

-- What `open` does to the rows, once the database is there.
unfoldable pub open_state : {F : Type 0} → Codec F → DateTime → LocalState → LocalState
open_state c now db = ensure_v2_activation_marker c now (prune_expired_rows now db)

unfoldable pub fingerprint : Text → LocalState → Option Text
fingerprint path db = get path db.source_checkpoints

unfoldable pub checkpoint : Text → Text → LocalState → LocalState
checkpoint path mark db = record db {
  source_checkpoints = update path (λ found. mark) db.source_checkpoints;
}

module _ {F : Type 0} (c : Codec F) where
  -- A row that no longer decodes is a miss.
  unfoldable pub cached_classification : Text → LocalState → Option (CategoryAssignment F)
  cached_classification cache_key db = elim (get cache_key db.classification_cache) [
    | none ↦ none
    | some row ↦ c.decode_assignment row.assignment_json
  ]

  unfoldable pub cache_classification :
      DateTime → Text → CategoryAssignment F → LocalState → LocalState
  cache_classification now cache_key assignment db =
      let row : CacheRow = record {
        assignment_json = c.encode_assignment assignment;
        updated_at = now;
      } in
      record db { classification_cache = update cache_key (λ found. row) db.classification_cache }
