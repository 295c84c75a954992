-- ===== src/Core/Complete.antt =====
-- `aggregate_session_v2` (crates/metrune-core/src/lib.rs): a session with its turns.
pub mod Counts
pub mod Detail
use metrune.Prelude.{
  ℕ, ◌*◌, Bool, true, false, Option, none, some, List, [], ◌∷◌, ltb, if◌then◌else◌, map, any,
}
use metrune.Prelude.Float.{Float}
use metrune.Prelude.Text.{Text, len}
use metrune.Prelude.Words.{u32_max, saturating_add}
use metrune.Prelude.Order.{text_ord}
use metrune.Prelude.TreeMap.{TreeMap, update, values}
use metrune.Core.Types.{
  schema_version, ClassifierUsage, UsageMessage, WorkflowSignal, all_signals, signal_eq,
  SignalCapability,
}
use metrune.Core.Category.{ClassificationMethod, method_str}
use metrune.Core.Snapshot.{
  TurnSnapshot, SessionSnapshot, ClassificationMethodCount, calculate_classified_token_coverage,
}
use metrune.Core.Identity.{Digests, IdentityContext}
use metrune.Core.Aggregate.{aggregate_session}
use metrune.Core.Dominant.{dominant_category}

-- `methods`, by the name of the method.
abbrev pub MethodCounts : Type 0
MethodCounts = TreeMap Text (ClassificationMethod × ℕ)

-- `entry(…).or_insert((method, 0))`, and one more turn.
abbrev pub count_method :
    ClassificationMethod → Option (ClassificationMethod × ℕ) → ClassificationMethod × ℕ
count_method method none = (method, saturating_add u32_max 0 1)
count_method method (some entry) = (entry.0, saturating_add u32_max entry.1 1)

abbrev pub turn_detail_limit : ℕ
turn_detail_limit = 512 * 1024

-- `is_ok_and(|encoded| encoded.len() > 512 * 1024)`
abbrev pub is_too_long : Option Text → Bool
is_too_long none = false
is_too_long (some encoded) = ltb turn_detail_limit (len encoded)

module _ {F : Type 0} where
  unfoldable pub count_methods : MethodCounts → List (TurnSnapshot F) → MethodCounts
  count_methods methods [] = methods
  count_methods methods (turn ∷ turns) =
      count_methods
        (update (method_str turn.classification_method) (count_method turn.classification_method)
          methods)
        turns

  unfoldable pub method_counts : List (TurnSnapshot F) → List ClassificationMethodCount
  method_counts turns =
      map (λ e. record { method = e.0; count = e.1 }) (values (count_methods [] turns))

  abbrev pub is_supported : List (UsageMessage F) → WorkflowSignal → Bool
  is_supported messages signal = any (λ m. any (signal_eq signal) m.signal_capabilities) messages

  unfoldable pub capabilities : List (UsageMessage F) → List SignalCapability
  capabilities messages =
      map (λ s. record { signal = s; supported = is_supported messages s }) all_signals

  -- `encode_turns` is `serde_json::to_vec`.
  unfoldable pub limit_detail :
      (List (TurnSnapshot F) → Option Text) → SessionSnapshot F → SessionSnapshot F
  limit_detail encode_turns snapshot =
      if is_too_long (encode_turns snapshot.turns)
      then record snapshot { turns = []; turn_detail_truncated = true }
      else snapshot

module _ {F : Type 0} ⦃o : Float F⦄ where
  abbrev pub with_turns :
      List (TurnSnapshot F) → ClassifierUsage F → SessionSnapshot F → SessionSnapshot F
  with_turns turns usage snapshot = record snapshot {
    schema_version = schema_version;
    turns = turns;
    classifier_usage = usage;
  }

  unfoldable pub complete_session :
      (List (TurnSnapshot F) → Option Text)
      → List (UsageMessage F)
      → List (TurnSnapshot F)
      → ClassifierUsage F
      → SessionSnapshot F
      → SessionSnapshot F
  complete_session encode_turns messages turns usage snapshot =
      let detailed = with_turns turns usage snapshot in
      limit_detail encode_turns (record detailed {
        classified_token_coverage = calculate_classified_token_coverage detailed;
        classification_method_counts = method_counts turns;
        signal_capabilities = capabilities messages;
      })

  unfoldable pub aggregate_session_v2 :
      Digests
      → (List (TurnSnapshot F) → Option Text)
      → List (UsageMessage F)
      → IdentityContext
      → ℕ
      → List (TurnSnapshot F)
      → ClassifierUsage F
      → Option (SessionSnapshot F)
  aggregate_session_v2 d encode_turns messages identity revision turns usage =
      elim (aggregate_session d messages identity revision (dominant_category turns)) [
        | none ↦ none
        | some snapshot ↦ some (complete_session encode_turns messages turns usage snapshot)
      ]
