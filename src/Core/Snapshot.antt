-- ===== src/Core/Snapshot.antt =====
-- `SessionSnapshot`, its turns, and the envelope of an upload (crates/metrune-core/src/lib.rs).
use metrune.Prelude.{
  ℕ, ◌+◌, ◌%◌, ◌^◌, Bool, Option, List, [], ◌∷◌, map, ◌==◌, if◌then◌else◌, select,
}
use metrune.Prelude.Float.{Float}
use metrune.Prelude.Text.{Text}
use metrune.Core.Tokens.{total}
use metrune.Core.Types.{
  DateTime, UsageSlice, ModelActivityStep, SignalCount, SignalCapability, ClassifierUsage,
}
use metrune.Core.Category.{CategoryAssignment, ClassificationMethod, is_classified}

pub record TurnSnapshot (F : Type 0) : Type 0 where
  pub sequence : ℕ
  pub category : CategoryAssignment F
  pub classification_method : ClassificationMethod
  pub classification_cached : Bool
  pub model_activity : List (ModelActivityStep F)
  pub workflow_signals : List SignalCount

pub record ClassificationMethodCount : Type 0 where
  pub method : ClassificationMethod
  pub count : ℕ

pub record SessionSnapshot (F : Type 0) : Type 0 where
  pub schema_version : Text
  pub session_key : Text
  pub revision : ℕ
  pub user_key : Text
  pub project_key : Option Text
  pub project_alias : Option Text
  pub team_key : Option Text
  pub client_id : Text
  pub client_version : Option Text
  pub started_at : DateTime
  pub ended_at : DateTime
  pub usage_by_model : List (UsageSlice F)
  pub category : CategoryAssignment F
  pub turns : List (TurnSnapshot F)
  pub classifier_usage : ClassifierUsage F
  pub signal_capabilities : List SignalCapability
  pub classified_token_coverage : F
  pub classification_method_counts : List ClassificationMethodCount
  pub turn_detail_truncated : Bool
  pub source_schema_version : Option Text

pub record BatchEnvelope (F : Type 0) : Type 0 where
  pub schema_version : Text
  pub batch_id : Text
  pub sent_at : DateTime
  pub snapshots : List (SessionSnapshot F)

pub record IngestAck : Type 0 where
  pub batch_id : Text
  pub accepted : ℕ
  pub duplicates : ℕ
  pub rejected : ℕ
  pub errors : List Text
  pub accepted_session_keys : List Text
  pub rejected_session_keys : List Text

abbrev pub u64_mod : ℕ
u64_mod = 2 ^ 64

-- `iter().sum::<u64>()` in a release build, where the addition wraps.
abbrev pub wrapping_sum : List ℕ → ℕ
wrapping_sum [] = 0
wrapping_sum (n ∷ ns) = (n + wrapping_sum ns) % u64_mod

-- `iter().sum::<f64>()`
abbrev pub float_sum : {F : Type 0} ⦃o : Float F⦄ → F → List F → F
float_sum acc [] = acc
float_sum ⦃o⦄ acc (x ∷ xs) = float_sum (o.add_f acc x) xs

module _ {F : Type 0} where
  unfoldable pub turn_total_tokens : TurnSnapshot F → ℕ
  turn_total_tokens turn = wrapping_sum (map (λ step. total step.tokens) turn.model_activity)

  unfoldable pub total_tokens : SessionSnapshot F → ℕ
  total_tokens s = wrapping_sum (map (λ slice. total slice.tokens) s.usage_by_model)

module _ {F : Type 0} ⦃o : Float F⦄ where
  -- A sum of floats starts from the zero of `zero_f`, whatever its sign.
  unfoldable pub turn_total_cost : TurnSnapshot F → F
  turn_total_cost turn = float_sum o.zero_f (map (λ step. step.cost.amount) turn.model_activity)

  unfoldable pub total_cost : SessionSnapshot F → F
  total_cost s = float_sum o.zero_f (map (λ slice. slice.cost.amount) s.usage_by_model)

  unfoldable pub calculate_classified_token_coverage : SessionSnapshot F → F
  calculate_classified_token_coverage s =
      let sum = total_tokens s in
      let done = select (λ turn. is_classified turn.category.classification_status) s.turns in
      if sum == 0
      then o.zero_f
      else o.div_f (o.of_u64 (wrapping_sum (map turn_total_tokens done))) (o.of_u64 sum)
