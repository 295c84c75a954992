-- ===== src/Examples/Uploads.antt =====
-- An upload of one snapshot, its validation, and its replay.
use metrune.Prelude.{ℕ, ◌≡◌, refl, Option, none, some, List, [], ◌∷◌, arith, All}
use metrune.Prelude.Words.{u64_max}
use metrune.Prelude.Text.{Text, codes}
use metrune.Core.Tokens.{default_tokens, total, add_assign}
use metrune.Core.Types.{UsageSlice, schema_version}
use metrune.Core.Snapshot.{
  SessionSnapshot, BatchEnvelope, IngestAck, total_tokens, turn_total_tokens, total_cost,
  turn_total_cost,
}
use metrune.Core.Identity.{canonical_model_id}
use metrune.Ingest.{validate_snapshot_text}
use metrune.Ingest.Reconcile.{
  all_steps, model_key, check_turns, check_detail, any_out_of_order, add_step, turn_models,
  reconcile,
}
use metrune.Ingest.Reconcile.Totals.{add_up, check_turns-usage}
use metrune.Ingest.Validate.{
  validate_snapshot, is_supported_schema, check_identity, check_bounds, check_parts,
  validate_snapshot_cost, validate_classifier_usage,
}
use metrune.Ingest.Validate.Bounds.{InBounds, validate_snapshot-InBounds, total_tokens-wraps}
use metrune.Ingest.Prices.{
  Price, apply_server_prices, reprice_slice, spread_slices, spread_slice, assign_turns,
  assign_steps, matches_slice, share,
}
use metrune.Ingest.Tables.{InstallationAuth, SnapshotRow, IngestState, answered, empty_ack}
use metrune.Ingest.Sessions.{new_row, ingest_snapshots, store_batch, is_completed}
use metrune.Ingest.Sessions.Laws.{Accounts, ingest_snapshots-Accounts, store_batch-replay}
use metrune.Examples.Sample.{whole, sample_snapshot, usage}

abbrev uploaded : SessionSnapshot ℕ
uploaded = sample_snapshot (codes "a") 1 10

checked : check_turns uploaded ≡ none
unfolding check_turns total_tokens turn_total_tokens total_cost turn_total_cost any_out_of_order
    add_step turn_models reconcile model_key canonical_model_id total add_assign
checked = refl

validated : validate_snapshot uploaded ≡ none
unfolding validate_snapshot check_identity check_bounds check_parts check_detail check_turns
    is_supported_schema validate_snapshot_cost validate_classifier_usage validate_snapshot_text
    total_tokens turn_total_tokens total_cost turn_total_cost any_out_of_order add_step turn_models
    reconcile model_key canonical_model_id total add_assign
validated = refl

check_turns-usage_example :
    All
      (λ slice.
        slice.tokens
        ≡ add_up
            (model_key slice.provider_id slice.model_id)
            default_tokens
            (all_steps uploaded.turns))
      uploaded.usage_by_model
check_turns-usage_example = check_turns-usage uploaded checked

validate_snapshot-InBounds_example : InBounds uploaded
validate_snapshot-InBounds_example = validate_snapshot-InBounds uploaded validated

abbrev input_only : ℕ → UsageSlice ℕ
input_only n = record (usage 0) {
  tokens = record { input = n; output = 0; cache_read = 0; cache_write = 0; reasoning = 0 };
}

abbrev huge : SessionSnapshot ℕ
huge = record uploaded { usage_by_model = input_only u64_max ∷ input_only 2 ∷ [] }

total_tokens-wraps_example : total_tokens huge ≡ 1
unfolding total
total_tokens-wraps_example =
    total_tokens-wraps huge (input_only u64_max) (input_only 2) 1 refl refl refl (omega arith)

abbrev auth : InstallationAuth
auth = record {
  organization_id = codes "7";
  installation_id = codes "1";
  team_key = none;
  retention_days = 90;
  owner_user_id = some (codes "9");
}

abbrev no_price : Text → Text → Text → Option (Price ℕ)
no_price organization provider_id model_id = none

abbrev batch : BatchEnvelope ℕ
batch = record {
  schema_version = schema_version;
  batch_id = codes "mb_1";
  sent_at = 50;
  snapshots = uploaded ∷ [];
}

abbrev ack : IngestAck
ack = record (empty_ack (codes "mb_1") 0) {
  accepted = 1;
  accepted_session_keys = uploaded.session_key ∷ [];
}

abbrev rows : List (SnapshotRow ℕ)
rows = new_row auth 60 uploaded ∷ []

abbrev before : IngestState ℕ
before = record { windows = []; installations = []; completed = []; stored = [] }

unpriced : apply_server_prices (no_price (codes "7")) uploaded ≡ uploaded
unfolding apply_server_prices reprice_slice spread_slices spread_slice matches_slice assign_turns
    assign_steps share canonical_model_id total
unpriced = refl

ingested : ingest_snapshots no_price auth 60 (codes "mb_1") (uploaded ∷ []) ≡ answered (ack, rows)
unfolding ingest_snapshots
ingested = rw (unpriced, validated) refl

ingest_snapshots-Accounts_example :
    Accounts 1 (ack, rows) × All (λ row. validate_snapshot row.snapshot ≡ none) rows
ingest_snapshots-Accounts_example =
    ingest_snapshots-Accounts no_price auth 60 (codes "mb_1") (uploaded ∷ []) ack rows ingested

stored_answer : (store_batch no_price auth 60 batch before).0 ≡ answered ack
unfolding store_batch is_completed
stored_answer = rw ingested refl

store_batch-replay_example :
    let after = (store_batch no_price auth 60 batch before).1 in
    ((store_batch no_price auth 99 batch after).0 ≡ answered (empty_ack (codes "mb_1") 1))
    × ((store_batch no_price auth 99 batch after).1.stored ≡ after.stored)
store_batch-replay_example =
    store_batch-replay no_price auth 60 99 batch before ack stored_answer refl
