-- ===== src/Turns/Classify.antt =====
-- `classify_turns` (crates/metrune-cli/src/app.rs): the batches are classified in turn, and then the
-- deferred turns inherit. A backend (`ClassifierBackend` of crates/metrune-core/src/classifier.rs)
-- answers by the number of the call and the texts; `none` is an error.
pub mod Preserves
pub mod Failure
use metrune.Prelude.{
  ℕ, zero, suc, ◌+◌, ◌==◌, Bool, true, false, Option, none, some, List, [], ◌∷◌, map, if◌then◌else◌,
  length,
}
use metrune.Prelude.Float.{Float}
use metrune.Prelude.Text.{Text, codes}
use metrune.Prelude.Words.{u32_max, saturating_add}
use metrune.Prelude.TreeMap.{map_option}
use metrune.Core.Tokens.{add_assign}
use metrune.Core.Types.{
  DateTime, UsageMessage, UsageMeasurement, ClassifierUsage, default_classifier_usage,
}
use metrune.Core.Category.{
  CategoryAssignment, semantic_model, inherited, is_classified, assignment_no_input,
  assignment_failed,
}
use metrune.Core.Snapshot.{TurnSnapshot}
use metrune.State.{LocalState}
use metrune.State.Open.{cache_classification}
use metrune.Turns.{unclassified_turns}
use metrune.Turns.Triage.{Settings, PendingTurn, Triage, inherit, turn_intent, triage}
use metrune.Turns.Batches.{batches}

pub record BatchClassification (F : Type 0) : Type 0 where
  pub assignments : List (CategoryAssignment F)
  pub usage : ClassifierUsage F

pub record Backend (F : Type 0) : Type 0 where
  pub classify_batch : ℕ → List Text → Option (BatchClassification F)
  pub id : Text

-- The arms of the `match` on the two measurements.
abbrev pub merge_measurement : UsageMeasurement → UsageMeasurement → UsageMeasurement
merge_measurement UsageMeasurement.unavailable next = next
merge_measurement UsageMeasurement.estimated next = UsageMeasurement.estimated
merge_measurement UsageMeasurement.reported UsageMeasurement.estimated = UsageMeasurement.estimated
merge_measurement UsageMeasurement.reported UsageMeasurement.unavailable = UsageMeasurement.reported
merge_measurement UsageMeasurement.reported UsageMeasurement.reported = UsageMeasurement.reported

module _ {F : Type 0} where
  -- `turns[index]`, changed in place.
  abbrev pub change_turn :
      ℕ → (TurnSnapshot F → TurnSnapshot F) → List (TurnSnapshot F) → List (TurnSnapshot F)
  change_turn index f [] = []
  change_turn zero f (turn ∷ turns) = f turn ∷ turns
  change_turn (suc index) f (turn ∷ turns) = turn ∷ change_turn index f turns

  abbrev pub turn_at : ℕ → List (TurnSnapshot F) → Option (TurnSnapshot F)
  turn_at index [] = none
  turn_at zero (turn ∷ turns) = some turn
  turn_at (suc index) (turn ∷ turns) = turn_at index turns

  abbrev pub set_semantic : CategoryAssignment F → TurnSnapshot F → TurnSnapshot F
  set_semantic assignment turn = record turn {
    category = assignment;
    classification_method = semantic_model;
  }

-- The turns, the usage and the state while the batches are classified.
pub record Progress (F : Type 0) : Type 0 where
  pub turns : List (TurnSnapshot F)
  pub usage : ClassifierUsage F
  pub db : LocalState

module _ {F : Type 0} where
  -- The answers go to the turns in order, up to the end of the shorter list.
  unfoldable pub accept_answers :
      Settings F
      → (ℕ → DateTime)
      → List PendingTurn
      → List (CategoryAssignment F)
      → Progress F
      → Progress F
  accept_answers r clock [] assignments progress = progress
  accept_answers r clock (p ∷ ps) [] progress = progress
  accept_answers r clock (p ∷ ps) (assignment ∷ assignments) progress =
      accept_answers r clock ps assignments (record progress {
        turns = change_turn p.index (set_semantic assignment) progress.turns;
        db = cache_classification r.codec (clock p.index) p.cache_key assignment progress.db;
      })

module _ {F : Type 0} ⦃o : Float F⦄ where
  unfoldable pub add_usage : ClassifierUsage F → ClassifierUsage F → ClassifierUsage F
  add_usage usage batch = record {
    provider_id = batch.provider_id;
    model_id = batch.model_id;
    tokens = add_assign usage.tokens batch.tokens;
    cost = record usage.cost { amount = o.add_f usage.cost.amount batch.cost.amount };
    request_count = saturating_add u32_max usage.request_count batch.request_count;
    measurement = merge_measurement usage.measurement batch.measurement;
  }

  abbrev pub set_failed : Text → TurnSnapshot F → TurnSnapshot F
  set_failed id turn = record turn { category = assignment_failed id }

  unfoldable pub mark_failed :
      Text → List PendingTurn → List (TurnSnapshot F) → List (TurnSnapshot F)
  mark_failed id [] turns = turns
  mark_failed id (p ∷ ps) turns = mark_failed id ps (change_turn p.index (set_failed id) turns)

  -- What the answer to a batch does.
  unfoldable pub settle_batch :
      Settings F
      → Text
      → (ℕ → DateTime)
      → List PendingTurn
      → Option (BatchClassification F)
      → Progress F
      → Progress F
  settle_batch r id clock batch none progress = record progress {
    turns = mark_failed id batch progress.turns;
  }
  settle_batch r id clock batch (some answer) progress =
      accept_answers r clock batch answer.assignments
        (record progress { usage = add_usage progress.usage answer.usage })

  unfoldable pub run_batches :
      Settings F
      → Backend F
      → (ℕ → DateTime)
      → ℕ
      → List (List PendingTurn)
      → Progress F
      → Progress F
  run_batches r backend clock call [] progress = progress
  run_batches r backend clock call (batch ∷ rest) progress =
      run_batches r backend clock (suc call) rest (
        settle_batch r backend.id clock batch
          (backend.classify_batch call (map (λ p. p.intent) batch)) progress)

  abbrev pub set_inherited : TurnSnapshot F → TurnSnapshot F → TurnSnapshot F
  set_inherited source turn =
      if is_classified source.category.classification_status
      then inherit turn source.category
      else record turn { category = assignment_no_input }

  abbrev pub inherit_from :
      Option (TurnSnapshot F) → ℕ → List (TurnSnapshot F) → List (TurnSnapshot F)
  inherit_from none index turns = turns
  inherit_from (some source) index turns = change_turn index (set_inherited source) turns

  unfoldable pub inherit_deferred : List (ℕ × ℕ) → List (TurnSnapshot F) → List (TurnSnapshot F)
  inherit_deferred [] turns = turns
  inherit_deferred ((index, source) ∷ rest) turns =
      inherit_deferred rest (inherit_from (turn_at source turns) index turns)

  unfoldable pub with_intents :
      Settings F → List (UsageMessage F) → List (TurnSnapshot F × Option Text)
  with_intents r messages =
      map (λ turn. (turn, turn_intent r.unicode messages turn)) (unclassified_turns messages)

  -- The batches, and then the deferred turns.
  abbrev pub classify_pending :
      Settings F
      → Backend F
      → (ℕ → DateTime)
      → LocalState
      → Triage F
      → List (List PendingTurn)
      → Progress F
  classify_pending r backend clock db first bs =
      let progress =
        run_batches r backend clock 0 bs
          (record { turns = first.turns; usage = default_classifier_usage; db = db }) in
      record progress { turns = inherit_deferred first.deferred_inheritance progress.turns }

  unfoldable pub classify_turns :
      Settings F
      → Backend F
      → (ℕ → DateTime)
      → List (UsageMessage F)
      → LocalState
      → Option (Progress F)
  classify_turns r backend clock messages db =
      let first = triage r db 0 false none (with_intents r messages) in
      map_option (classify_pending r backend clock db first)
        (batches (length first.pending) first.pending)
