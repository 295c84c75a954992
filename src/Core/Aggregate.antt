-- ===== src/Core/Aggregate.antt =====
-- `aggregate_session`: the messages of one session, added up per provider and model
-- (crates/metrune-core/src/lib.rs).
pub mod Conservation
pub mod Span
pub mod Keys
use metrune.Prelude.{
  ℕ, Bool, false, Option, none, some, List, [], ◌∷◌, ltb, leb, if◌then◌else◌, select,
}
use metrune.Prelude.Float.{Float}
use metrune.Prelude.Text.{Text, text_eq}
use metrune.Prelude.Order.{pair_ord}
use metrune.Prelude.TreeMap.{TreeMap, update, values}
use metrune.Core.Tokens.{default_tokens, add_assign}
use metrune.Core.Types.{
  schema_version, Cost, default_cost, UsageMessage, UsageSlice, default_classifier_usage,
}
use metrune.Core.Category.{CategoryAssignment}
use metrune.Core.Snapshot.{SessionSnapshot}
use metrune.Core.Identity.{
  Digests, IdentityContext, canonical_model_id, stable_session_key, user_key, project_identity,
}

module _ {F : Type 0} where
  -- `min_by_key` returns the first of the least.
  unfoldable pub earliest : UsageMessage F → List (UsageMessage F) → UsageMessage F
  earliest best [] = best
  earliest best (m ∷ ms) = earliest (if ltb m.observed_at best.observed_at then m else best) ms

  -- `max_by_key` returns the last of the greatest.
  unfoldable pub latest : UsageMessage F → List (UsageMessage F) → UsageMessage F
  latest best [] = best
  latest best (m ∷ ms) = latest (if leb best.observed_at m.observed_at then m else best) ms

  unfoldable pub message_key : UsageMessage F → Text × Text
  message_key m = (m.provider_id, canonical_model_id m.model_id)

  -- The filter on the session of the first message.
  unfoldable pub session_messages : UsageMessage F → List (UsageMessage F) → List (UsageMessage F)
  session_messages first ms = select (λ m. text_eq m.session_id first.session_id) ms

module _ {F : Type 0} ⦃o : Float F⦄ where
  -- The slice that a message finds at its key.
  abbrev pub slice_or_new : UsageMessage F → Option (UsageSlice F) → UsageSlice F
  slice_or_new m (some slice) = slice
  slice_or_new m none = record {
    provider_id = m.provider_id;
    model_id = canonical_model_id m.model_id;
    tokens = default_tokens;
    cost = record default_cost {
      currency = m.cost.currency;
      kind = m.cost.kind;
      pricebook_version = m.cost.pricebook_version;
      price_source = m.cost.price_source;
    };
  }

  unfoldable pub add_message : UsageMessage F → Option (UsageSlice F) → UsageSlice F
  add_message m found =
      let slice = slice_or_new m found in
      record slice {
        tokens = add_assign slice.tokens m.tokens;
        cost = record slice.cost { amount = o.add_f slice.cost.amount m.cost.amount };
      }

  unfoldable pub group_messages :
      TreeMap (Text × Text) (UsageSlice F)
      → List (UsageMessage F)
      → TreeMap (Text × Text) (UsageSlice F)
  group_messages grouped [] = grouped
  group_messages grouped (m ∷ ms) =
      group_messages (update (message_key m) (add_message m) grouped) ms

  unfoldable pub aggregate_session :
      Digests
      → List (UsageMessage F)
      → IdentityContext
      → ℕ
      → CategoryAssignment F
      → Option (SessionSnapshot F)
  aggregate_session d [] identity revision category = none
  aggregate_session d (m ∷ ms) identity revision category =
      let first = earliest m ms in
      let last = latest m ms in
      let grouped = group_messages [] (session_messages first (m ∷ ms)) in
      let project = project_identity d identity first.project_path in
      some (record {
        schema_version = schema_version;
        session_key = stable_session_key d first.client_id first.session_id;
        revision = revision;
        user_key = user_key d identity;
        project_key = project.0;
        project_alias = project.1;
        team_key = identity.team_key;
        client_id = first.client_id;
        client_version = first.client_version;
        started_at = first.observed_at;
        ended_at = last.observed_at;
        usage_by_model = values grouped;
        category = category;
        turns = [];
        classifier_usage = default_classifier_usage;
        signal_capabilities = [];
        classified_token_coverage = o.zero_f;
        classification_method_counts = [];
        turn_detail_truncated = false;
        source_schema_version = none;
      })
