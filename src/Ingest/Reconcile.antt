-- ===== src/Ingest/Reconcile.antt =====
-- The last part of `validate_snapshot` (crates/metrune-api/src/app.rs): the turns of a snapshot
-- have to add up to its usage, as a whole and for each model.
pub mod Totals
use metrune.Prelude.{
  ℕ, ◌+◌, Bool, true, false, not, ◌&&◌, ◌||◌, Option, none, some, List, [], ◌∷◌, ◌++◌, map, ltb,
  leb, ◌==◌, if◌then◌else◌, any, is_empty,
}
use metrune.Prelude.Float.{Float}
use metrune.Prelude.Text.{Text, codes, text_eq, trim, to_ascii_lowercase}
use metrune.Prelude.Order.{text_ord, pair_ord}
use metrune.Prelude.TreeMap.{TreeMap, get, update, remove}
use metrune.Core.Tokens.{TokenBreakdown, default_tokens, add_assign}
use metrune.Core.Types.{schema_version, UsageSlice, ModelActivityStep}
use metrune.Core.Snapshot.{
  SessionSnapshot, TurnSnapshot, wrapping_sum, float_sum, total_tokens, turn_total_tokens,
  total_cost, turn_total_cost,
}
use metrune.Core.Identity.{canonical_model_id}
use metrune.Ingest.{Check, reject_if, and_then, first_error}

-- `windows(2).any(|pair| pair[0] >= pair[1])`
unfoldable pub any_out_of_order : List ℕ → Bool
any_out_of_order [] = false
any_out_of_order (a ∷ []) = false
any_out_of_order (a ∷ b ∷ rest) = leb b a || any_out_of_order (b ∷ rest)

-- The key of a provider and a model.
unfoldable pub model_key : Text → Text → Text × Text
model_key provider_id model_id =
    (to_ascii_lowercase (trim provider_id), canonical_model_id model_id)

-- The derived `==` of `TokenBreakdown`.
abbrev pub tokens_eq : TokenBreakdown → TokenBreakdown → Bool
tokens_eq a b =
    a.input == b.input
    && a.output == b.output
    && a.cache_read == b.cache_read
    && a.cache_write == b.cache_write
    && a.reasoning == b.reasoning

-- `iter().flat_map(|turn| turn.model_activity.iter())`
abbrev pub all_steps : {F : Type 0} → List (TurnSnapshot F) → List (ModelActivityStep F)
all_steps [] = []
all_steps (turn ∷ turns) = turn.model_activity ++ all_steps turns

module _ {F : Type 0} ⦃o : Float F⦄ where
  -- `0.000_001`
  abbrev pub tolerance : F
  tolerance = o.div_f o.one_f (o.of_u64 1_000_000)

  abbrev pub differs : F → F → Bool
  differs a b = o.ltb_f tolerance (o.abs_diff a b)

  -- `entry(key).or_default()` with the step added.
  unfoldable pub add_step : ModelActivityStep F → Option (TokenBreakdown × F) → TokenBreakdown × F
  add_step step none = (add_assign default_tokens step.tokens, o.add_f o.zero_f step.cost.amount)
  add_step step (some (tokens, cost)) =
      (add_assign tokens step.tokens, o.add_f cost step.cost.amount)

  unfoldable pub turn_models :
      TreeMap (Text × Text) (TokenBreakdown × F)
      → List (ModelActivityStep F)
      → TreeMap (Text × Text) (TokenBreakdown × F)
  turn_models models [] = models
  turn_models models (step ∷ steps) =
      turn_models (update (model_key step.provider_id step.model_id) (add_step step) models) steps

  abbrev pub check_slice : UsageSlice F → Option (TokenBreakdown × F) → Check
  check_slice slice none = some (codes "session model usage is missing from turn activity")
  check_slice slice (some (tokens, cost)) =
      reject_if (not (tokens_eq tokens slice.tokens) || differs cost slice.cost.amount)
        (codes "turn model totals do not reconcile with session usage")

  -- The slices take their entries out of the map, and none may be left.
  unfoldable pub reconcile :
      TreeMap (Text × Text) (TokenBreakdown × F) → List (UsageSlice F) → Check
  reconcile models [] =
      reject_if (not (is_empty models))
        (codes "turn activity contains model usage missing from session totals")
  reconcile models (slice ∷ slices) =
      let key = model_key slice.provider_id slice.model_id in
      and_then (check_slice slice (get key models)) (reconcile (remove key models) slices)

  unfoldable pub check_turns : SessionSnapshot F → Check
  check_turns s = first_error (
      reject_if (not (wrapping_sum (map turn_total_tokens s.turns) == total_tokens s))
        (codes "turn token totals do not reconcile with session usage")
      ∷ reject_if (differs (float_sum o.zero_f (map turn_total_cost s.turns)) (total_cost s))
          (codes "turn cost totals do not reconcile with session usage")
      ∷ reject_if (any_out_of_order (map (λ turn. turn.sequence) s.turns))
          (codes "turn sequences must be strictly increasing")
      ∷ reject_if
          (any (λ turn. any_out_of_order (map (λ step. step.sequence) turn.model_activity)) s.turns)
          (codes "model activity sequences must be strictly increasing")
      ∷ reconcile (turn_models [] (all_steps s.turns)) s.usage_by_model
      ∷ [])

  -- Only for the current schema, and where there are turns.
  unfoldable pub check_detail : SessionSnapshot F → Check
  check_detail s =
      if text_eq s.schema_version schema_version && not (is_empty s.turns)
      then check_turns s
      else none
