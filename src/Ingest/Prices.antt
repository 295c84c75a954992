-- ===== src/Ingest/Prices.antt =====
-- `apply_server_prices` (crates/metrune-api/src/app.rs): the organization's prices replace the
-- client's estimates. Which price is current, the database answers.
use metrune.Prelude.{
  ℕ, ◌-◌, Bool, true, false, ◌&&◌, Option, none, some, List, [], ◌∷◌, ◌==◌, if◌then◌else◌, map,
  select, length, is_empty,
}
use metrune.Prelude.Float.{Float}
use metrune.Prelude.Text.{Text, text_eq, trim, to_ascii_lowercase, eq_ignore_ascii_case}
use metrune.Core.Tokens.{TokenBreakdown, total}
use metrune.Core.Types.{CostKind, reported, estimated, Cost, UsageSlice, ModelActivityStep}
use metrune.Core.Snapshot.{SessionSnapshot, TurnSnapshot, wrapping_sum}
use metrune.Core.Identity.{canonical_model_id}
use metrune.Ingest.Reconcile.{all_steps}

-- A row of `model_prices`, as the query returns it.
pub record Price (F : Type 0) : Type 0 where
  pub currency : Text
  pub input_per_million : F
  pub output_per_million : F
  pub cache_read_per_million : F
  pub cache_write_per_million : F
  pub reasoning_per_million : F
  pub authority : Text
  pub catalog_version : Text

abbrev pub is_reported : CostKind → Bool
is_reported reported = true
is_reported _ = false

module _ {F : Type 0} ⦃o : Float F⦄ where
  abbrev pub amount_at : Price F → TokenBreakdown → F
  amount_at price tokens =
      let input = o.mul_f (o.of_u64 tokens.input) price.input_per_million in
      let output = o.mul_f (o.of_u64 tokens.output) price.output_per_million in
      let cache_read = o.mul_f (o.of_u64 tokens.cache_read) price.cache_read_per_million in
      let cache_write = o.mul_f (o.of_u64 tokens.cache_write) price.cache_write_per_million in
      let reasoning = o.mul_f (o.of_u64 tokens.reasoning) price.reasoning_per_million in
      o.div_f (o.add_f (o.add_f (o.add_f (o.add_f input output) cache_read) cache_write) reasoning)
        (o.of_u64 1_000_000)

  abbrev pub price_cost : Price F → TokenBreakdown → Cost F
  price_cost price tokens = record {
    amount = amount_at price tokens;
    currency = price.currency;
    kind = estimated;
    pricebook_version = some price.catalog_version;
    price_source = some price.authority;
  }

  -- The first loop, at one slice: `find_price` has the provider and the model of the key.
  unfoldable pub reprice_slice : (Text → Text → Option (Price F)) → UsageSlice F → UsageSlice F
  reprice_slice find_price slice =
      if is_reported slice.cost.kind
      then slice
      else elim (find_price (to_ascii_lowercase (trim slice.provider_id))
          (canonical_model_id slice.model_id)) [
            | none ↦ slice
            | some price ↦ record slice { cost = price_cost price slice.tokens }
          ]

  unfoldable pub matches_slice : UsageSlice F → ModelActivityStep F → Bool
  matches_slice slice step =
      eq_ignore_ascii_case step.provider_id slice.provider_id
      && text_eq (canonical_model_id step.model_id) (canonical_model_id slice.model_id)

  -- The share of a step: the last of the matching steps takes what is left.
  unfoldable pub share : UsageSlice F → ℕ → ℕ → F → ModelActivityStep F → F
  share slice sum remaining assigned step =
      if remaining == 1
      then o.max_f (o.sub_f slice.cost.amount assigned) o.zero_f
      else if sum == 0
      then o.zero_f
      else o.div_f (o.mul_f slice.cost.amount (o.of_u64 (total step.tokens))) (o.of_u64 sum)

  -- The steps of one turn, with the number of matching steps that are left and what is assigned.
  unfoldable pub assign_steps :
      UsageSlice F → ℕ → ℕ → F → List (ModelActivityStep F) → ℕ × F × List (ModelActivityStep F)
  assign_steps slice sum remaining assigned [] = (remaining, assigned, [])
  assign_steps slice sum remaining assigned (step ∷ steps) =
      let amount = share slice sum remaining assigned step in
      let taken = assign_steps slice sum (remaining - 1) (o.add_f assigned amount) steps in
      let skipped = assign_steps slice sum remaining assigned steps in
      if matches_slice slice step
      then (
        taken.0,
        taken.1,
        record step { cost = record slice.cost { amount = amount } } ∷ taken.2,
      )
      else (skipped.0, skipped.1, step ∷ skipped.2)

  unfoldable pub assign_turns :
      UsageSlice F → ℕ → ℕ → F → List (TurnSnapshot F) → List (TurnSnapshot F)
  assign_turns slice sum remaining assigned [] = []
  assign_turns slice sum remaining assigned (turn ∷ turns) =
      let (left, given, steps) = assign_steps slice sum remaining assigned turn.model_activity in
      record turn { model_activity = steps } ∷ assign_turns slice sum left given turns

  -- The second loop, at one slice.
  unfoldable pub spread_slice : UsageSlice F → List (TurnSnapshot F) → List (TurnSnapshot F)
  spread_slice slice turns =
      let matching = select (matches_slice slice) (all_steps turns) in
      if is_empty matching
      then turns
      else if is_reported slice.cost.kind
      then turns
      else assign_turns slice (wrapping_sum (map (λ step. total step.tokens) matching))
          (length matching) o.zero_f turns

  unfoldable pub spread_slices : List (UsageSlice F) → List (TurnSnapshot F) → List (TurnSnapshot F)
  spread_slices [] turns = turns
  spread_slices (slice ∷ slices) turns = spread_slices slices (spread_slice slice turns)

  unfoldable pub apply_server_prices :
      (Text → Text → Option (Price F)) → SessionSnapshot F → SessionSnapshot F
  apply_server_prices find_price s =
      let usage = map (reprice_slice find_price) s.usage_by_model in
      record s { usage_by_model = usage; turns = spread_slices usage s.turns }
