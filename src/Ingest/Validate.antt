-- ===== src/Ingest/Validate.antt =====
-- `validate_snapshot` (crates/metrune-api/src/app.rs) and the checks of its parts.
pub mod Bounds
use metrune.Prelude.{
  ℕ, Bool, true, false, not, ◌&&◌, ◌||◌, Option, none, some, List, [], ◌∷◌, ltb, ◌==◌,
  if◌then◌else◌, any, length, is_empty,
}
use metrune.Prelude.Float.{Float}
use metrune.Prelude.Text.{Text, codes, text_eq, len}
use metrune.Core.Types.{
  schema_version, legacy_schema_version, Cost, UsageSlice, ModelActivityStep, ClassifierUsage,
}
use metrune.Core.Snapshot.{SessionSnapshot, TurnSnapshot, total_tokens, total_cost}
use metrune.Ingest.{
  Check, reject_if, and_then, first_error, check_each, validate_snapshot_text, max_usage_slices,
  max_turns, max_model_activity_steps, max_workflow_signals, max_classification_methods,
  max_snapshot_tokens, max_snapshot_cost,
}
use metrune.Ingest.Reconcile.{check_detail}

unfoldable pub is_supported_schema : Text → Bool
is_supported_schema version =
    text_eq version schema_version || text_eq version legacy_schema_version

-- `if let Some(value) = value { validate_snapshot_text(field, value)? }`
abbrev pub check_optional_text : Text → Option Text → Check
check_optional_text field none = none
check_optional_text field (some value) = validate_snapshot_text field value

module _ {F : Type 0} ⦃o : Float F⦄ where
  abbrev pub is_bad_amount : F → Bool
  is_bad_amount x =
      not (o.is_finite x) || o.ltb_f x o.zero_f || o.ltb_f (o.of_u64 max_snapshot_cost) x

  -- `!x.is_finite() || !(0.0..=1.0).contains(&x)`
  abbrev pub is_bad_share : F → Bool
  is_bad_share x = not (o.is_finite x) || o.ltb_f x o.zero_f || o.ltb_f o.one_f x

  unfoldable pub validate_snapshot_cost : Cost F → Check
  validate_snapshot_cost cost = first_error (
      reject_if (is_bad_amount cost.amount)
        (codes "cost amount must be finite and within the allowed bound")
      ∷ validate_snapshot_text (codes "cost currency") cost.currency
      ∷ reject_if (not (length cost.currency == 3))
          (codes "cost currency must be a three-letter code")
      ∷ check_optional_text (codes "pricebook_version") cost.pricebook_version
      ∷ check_optional_text (codes "price_source") cost.price_source
      ∷ [])

  unfoldable pub validate_classifier_usage : ClassifierUsage F → Check
  validate_classifier_usage usage = first_error (
      validate_snapshot_text (codes "classifier provider_id") usage.provider_id
      ∷ validate_snapshot_text (codes "classifier model_id") usage.model_id
      ∷ validate_snapshot_cost usage.cost
      ∷ [])

  abbrev pub check_usage_slice : UsageSlice F → Check
  check_usage_slice slice = first_error (
      validate_snapshot_text (codes "provider_id") slice.provider_id
      ∷ validate_snapshot_text (codes "model_id") slice.model_id
      ∷ validate_snapshot_cost slice.cost
      ∷ [])

  abbrev pub check_step : ModelActivityStep F → Check
  check_step step = first_error (
      validate_snapshot_text (codes "activity provider_id") step.provider_id
      ∷ validate_snapshot_text (codes "activity model_id") step.model_id
      ∷ validate_snapshot_cost step.cost
      ∷ [])

  abbrev pub check_turn : TurnSnapshot F → Check
  check_turn turn = first_error (
      validate_snapshot_text (codes "turn classifier_id") turn.category.classifier_id
      ∷ reject_if (is_bad_share turn.category.confidence)
          (codes "turn category confidence must be finite and between 0 and 1")
      ∷ check_each check_step turn.model_activity
      ∷ [])

  -- Up to the bounds on the lengths of the lists.
  abbrev pub identity_checks : SessionSnapshot F → List Check
  identity_checks s =
      (reject_if (not (is_supported_schema s.schema_version)) (codes "unsupported snapshot schema")
        ∷ reject_if (ltb (len s.session_key) 32 || ltb (len s.user_key) 32)
            (codes "identifiers are not pseudonymous")
        ∷ validate_snapshot_text (codes "session_key") s.session_key
        ∷ validate_snapshot_text (codes "user_key") s.user_key
        ∷ validate_snapshot_text (codes "client_id") s.client_id
        ∷ validate_snapshot_text (codes "category classifier_id") s.category.classifier_id
        ∷ check_optional_text (codes "project_key") s.project_key
        ∷ check_optional_text (codes "project_alias") s.project_alias
        ∷ check_optional_text (codes "team_key") s.team_key
        ∷ check_optional_text (codes "client_version") s.client_version
        ∷ check_optional_text (codes "source_schema_version") s.source_schema_version
        ∷ [])

  unfoldable pub check_identity : SessionSnapshot F → Check
  check_identity s = first_error (identity_checks s)

  abbrev pub bound_checks : SessionSnapshot F → List Check
  bound_checks s =
      (reject_if (ltb s.ended_at s.started_at) (codes "session ended before it started")
        ∷ reject_if (is_empty s.usage_by_model) (codes "snapshot contains no usage")
        ∷ reject_if (ltb max_usage_slices (length s.usage_by_model))
            (codes "snapshot contains more than 256 usage slices")
        ∷ reject_if (ltb max_turns (length s.turns))
            (codes "snapshot contains more than 4096 turns")
        ∷ reject_if (ltb max_classification_methods (length s.classification_method_counts))
            (codes "snapshot contains more than 16 classification methods")
        ∷ reject_if (is_bad_share s.category.confidence)
            (codes "category confidence must be finite and between 0 and 1")
        ∷ reject_if (is_bad_share s.classified_token_coverage)
            (codes "classified token coverage must be finite and between 0 and 1")
        ∷ reject_if (ltb max_snapshot_tokens (total_tokens s))
            (codes "snapshot token total exceeds the allowed bound")
        ∷ reject_if (is_bad_amount (total_cost s))
            (codes "snapshot cost must be finite and within the allowed bound")
        ∷ [])

  unfoldable pub check_bounds : SessionSnapshot F → Check
  check_bounds s = first_error (bound_checks s)

  abbrev pub is_oversized_turn : TurnSnapshot F → Bool
  is_oversized_turn turn =
      ltb max_model_activity_steps (length turn.model_activity)
      || ltb max_workflow_signals (length turn.workflow_signals)

  unfoldable pub check_parts : SessionSnapshot F → Check
  check_parts s = first_error (
      check_each check_usage_slice s.usage_by_model
      ∷ validate_classifier_usage s.classifier_usage
      ∷ reject_if (any is_oversized_turn s.turns)
          (codes "turn activity or workflow signals exceed the allowed bound")
      ∷ check_each check_turn s.turns
      ∷ [])

  abbrev pub snapshot_checks : SessionSnapshot F → List Check
  snapshot_checks s = check_identity s ∷ check_bounds s ∷ check_parts s ∷ check_detail s ∷ []

  unfoldable pub validate_snapshot : SessionSnapshot F → Check
  validate_snapshot s = first_error (snapshot_checks s)
