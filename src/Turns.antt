-- ===== src/Turns.antt =====
-- The turns of a session (crates/metrune-cli/src/app.rs): `turn_from_messages`, the grouping of
-- `classify_turns`, and the batches that it sends to the classifier.
pub mod Keys
pub mod Conservation
pub mod Sequences
pub mod Intent
pub mod Rules
pub mod Triage
pub mod Batches
pub mod Classify
use metrune.Prelude.{
  ℕ, ◌+◌, ◌%◌, ◌^◌, Bool, true, false, ◌&&◌, Option, none, some, List, [], ◌∷◌, ◌++◌, map, leb,
  if◌then◌else◌, length, max,
}
use metrune.Prelude.Float.{Float}
use metrune.Prelude.Text.{Text, text_eq}
use metrune.Prelude.Words.{u32_max, saturating_add}
use metrune.Prelude.TreeMap.{TreeMap, update}
use metrune.Core.Tokens.{add_assign}
use metrune.Core.Types.{UsageMessage, ModelActivityStep, WorkflowSignal, SignalCount}
use metrune.Core.Category.{default_assignment, none_method}
use metrune.Core.Snapshot.{TurnSnapshot}
use metrune.Core.Identity.{canonical_model_id}
use metrune.Turns.Keys.{nat_ord, signal_ord}

module _ {F : Type 0} where
  -- `sort_by_key` is stable: a message goes before the first one of a greater key.
  unfoldable pub insert_message : UsageMessage F → List (UsageMessage F) → List (UsageMessage F)
  insert_message m [] = m ∷ []
  insert_message m (x ∷ xs) =
      let rest = insert_message m xs in
      if leb m.activity_sequence x.activity_sequence then m ∷ x ∷ xs else x ∷ rest

  unfoldable pub sort_messages : List (UsageMessage F) → List (UsageMessage F)
  sort_messages [] = []
  sort_messages (m ∷ ms) = insert_message m (sort_messages ms)

  abbrev pub push_message : UsageMessage F → Option (List (UsageMessage F)) → List (UsageMessage F)
  push_message m none = m ∷ []
  push_message m (some ms) = ms ++ m ∷ []

  -- The messages of each turn, in the order they come; no turn has number 0.
  unfoldable pub group_turns :
      TreeMap ℕ (List (UsageMessage F)) → List (UsageMessage F) → TreeMap ℕ (List (UsageMessage F))
  group_turns grouped [] = grouped
  group_turns grouped (m ∷ ms) =
      group_turns (update (max m.turn_sequence 1) (push_message m) grouped) ms

  abbrev pub same_model : UsageMessage F → ModelActivityStep F → Bool
  same_model m step =
      text_eq step.provider_id m.provider_id
      && text_eq step.model_id (canonical_model_id m.model_id)

  abbrev pub new_step : ℕ → UsageMessage F → ModelActivityStep F
  new_step sequence m = record {
    sequence = sequence;
    provider_id = m.provider_id;
    model_id = canonical_model_id m.model_id;
    tokens = m.tokens;
    cost = m.cost;
    call_count = 1;
  }

abbrev pub reverse_onto : {A : Type 0} → List A → List A → List A
reverse_onto [] acc = acc
reverse_onto (x ∷ xs) acc = reverse_onto xs (x ∷ acc)

-- `or_default() += 1` on a u32, which wraps in a release build.
abbrev pub count_one : Option ℕ → ℕ
count_one none = 1
count_one (some n) = (n + 1) % 2 ^ 32

-- `signal_counts`, by signal and index of the step.
abbrev pub SignalCounts : Type 0
SignalCounts = TreeMap (WorkflowSignal × ℕ) ℕ

unfoldable pub count_signals : ℕ → List WorkflowSignal → SignalCounts → SignalCounts
count_signals step_index [] counts = counts
count_signals step_index (s ∷ signals) counts =
    count_signals step_index signals (update (s, step_index) count_one counts)

module _ {F : Type 0} ⦃o : Float F⦄ where
  abbrev pub extend_step : UsageMessage F → ModelActivityStep F → ModelActivityStep F
  extend_step m step = record step {
    tokens = add_assign step.tokens m.tokens;
    cost = record step.cost { amount = o.add_f step.cost.amount m.cost.amount };
    call_count = saturating_add u32_max step.call_count 1;
  }

  -- One round of the loop, on the steps with the last one first.
  unfoldable pub push_step :
      UsageMessage F → List (ModelActivityStep F) → List (ModelActivityStep F)
  push_step m [] = new_step 0 m ∷ []
  push_step m (last ∷ steps) =
      if same_model m last
      then extend_step m last ∷ steps
      else new_step (length (last ∷ steps)) m ∷ last ∷ steps

  abbrev pub last_sequence : List (ModelActivityStep F) → ℕ
  last_sequence [] = 0
  last_sequence (last ∷ steps) = last.sequence

  unfoldable pub collect_steps :
      List (ModelActivityStep F)
      → SignalCounts
      → List (UsageMessage F)
      → List (ModelActivityStep F) × SignalCounts
  collect_steps steps counts [] = (steps, counts)
  collect_steps steps counts (m ∷ ms) =
      let pushed = push_step m steps in
      collect_steps pushed (count_signals (last_sequence pushed) m.workflow_signals counts) ms

  unfoldable pub turn_from_messages : ℕ → List (UsageMessage F) → TurnSnapshot F
  turn_from_messages sequence messages =
      let collected = collect_steps [] [] (sort_messages messages) in
      record {
        sequence = sequence;
        category = default_assignment;
        classification_method = none_method;
        classification_cached = false;
        model_activity = reverse_onto collected.0 [];
        workflow_signals =
            map (λ e. record { signal = e.0.0; count = e.1; model_step_index = some e.0.1 })
              collected.1;
      }

  -- The turns, before they are classified.
  unfoldable pub unclassified_turns : List (UsageMessage F) → List (TurnSnapshot F)
  unclassified_turns messages = map (λ e. turn_from_messages e.0 e.1) (group_turns [] messages)
