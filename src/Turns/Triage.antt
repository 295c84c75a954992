-- ===== src/Turns/Triage.antt =====
-- The first pass of `classify_turns` (crates/metrune-cli/src/app.rs): the turns that are decided
-- without the classifier, and those that wait for it.
pub mod Work
pub mod Unanswered
use metrune.Prelude.{
  ℕ, suc, ◌-◌, ◌==◌, Bool, true, false, not, Option, none, some, List, [], ◌∷◌, map, max,
  if◌then◌else◌, is_empty, find_first,
}
use metrune.Prelude.Float.{Float}
use metrune.Prelude.Text.{Text, codes}
use metrune.Core.Types.{UsageMessage}
use metrune.Core.Category.{
  CategoryAssignment, semantic_model, inherited, rule, assignment_not_configured,
  assignment_no_input,
}
use metrune.Core.Snapshot.{TurnSnapshot}
use metrune.Core.Identity.{Digests}
use metrune.State.{LocalState, Codec}
use metrune.State.Open.{cached_classification}
use metrune.Turns.Intent.{Unicode, normalize_intent, is_continuation, classification_cache_key}
use metrune.Turns.Rules.{classify_by_rule}

-- What `classify_turns` is called with, but for the messages and the backend.
pub record Settings (F : Type 0) : Type 0 where
  pub disabled : Bool
  pub classifier_fingerprint : Text
  pub cache_secret : Text
  pub rule_confidence : F
  pub unicode : Unicode
  pub digests : Digests
  pub codec : Codec F

-- An entry of `pending`.
pub record PendingTurn : Type 0 where
  pub index : ℕ
  pub intent : Text
  pub cache_key : Text

-- How one round of the loop ends.
pub data Verdict (F : Type 0) : Type 0 where
  -- the turn has a category that later turns do not see
  skipped : TurnSnapshot F → Verdict F
  -- the turn has a category that is `previous` from now on
  settled : TurnSnapshot F → Verdict F
  deferred : Verdict F
  awaiting : Text → Text → Verdict F

module _ {F : Type 0} where
  abbrev pub inherit : TurnSnapshot F → CategoryAssignment F → TurnSnapshot F
  inherit turn source = record turn {
    category = record source { classifier_id = codes "hybrid-inheritance:v1" };
    classification_method = inherited;
  }

  abbrev pub first_text : Option (UsageMessage F) → Option Text
  first_text none = none
  first_text (some m) = m.classification_text

  -- The normalized text of the first message of the turn, where it has one.
  unfoldable pub turn_intent : Unicode → List (UsageMessage F) → TurnSnapshot F → Option Text
  turn_intent u messages turn =
      elim (first_text (find_first (λ m. max m.turn_sequence 1 == turn.sequence) messages)) [
        | none ↦ none
        | some text ↦ some (normalize_intent u text)
      ]

  abbrev pub by_rule : Settings F → Text → Text → TurnSnapshot F → Verdict F
  by_rule r intent key turn =
      elim (classify_by_rule r.rule_confidence intent turn.workflow_signals) [
        | some assignment ↦
            settled (record turn { category = assignment; classification_method = rule })
        | none ↦ awaiting intent key
      ]

  -- `after` says that the turn before this one has an intent.
  abbrev pub uncached :
      Settings F → Bool → Option (CategoryAssignment F) → Text → Text → TurnSnapshot F → Verdict F
  uncached r after previous intent key turn =
      if is_continuation r.unicode intent
      then (elim previous [
        | some source ↦ settled (inherit turn source)
        | none ↦ if after then deferred else by_rule r intent key turn
      ])
      else by_rule r intent key turn

  unfoldable pub with_intent :
      Settings F
      → LocalState
      → Bool
      → Option (CategoryAssignment F)
      → Text
      → TurnSnapshot F
      → Verdict F
  with_intent r db after previous intent turn =
      let key =
        classification_cache_key r.digests r.cache_secret r.classifier_fingerprint intent
          turn.workflow_signals previous in
      elim (cached_classification r.codec key db) [
        | some cached ↦ settled (record turn {
          category = cached;
          classification_method = semantic_model;
          classification_cached = true;
        })
        | none ↦ uncached r after previous intent key turn
      ]

module _ {F : Type 0} ⦃o : Float F⦄ where
  unfoldable pub without_intent : Option (CategoryAssignment F) → TurnSnapshot F → Verdict F
  without_intent none turn = skipped (record turn { category = assignment_no_input })
  without_intent (some source) turn =
      if is_empty turn.workflow_signals
      then skipped (record turn { category = assignment_no_input })
      else settled (inherit turn source)

  -- One round of the loop.
  unfoldable pub decide :
      Settings F
      → LocalState
      → Bool
      → Option (CategoryAssignment F)
      → Option Text
      → TurnSnapshot F
      → Verdict F
  decide r db after previous none turn =
      if r.disabled
      then skipped (record turn { category = assignment_not_configured })
      else without_intent previous turn
  decide r db after previous (some intent) turn =
      if r.disabled
      then skipped (record turn { category = assignment_not_configured })
      else if is_empty intent
      then without_intent previous turn
      else with_intent r db after previous intent turn

-- What the loop leaves.
pub record Triage (F : Type 0) : Type 0 where
  pub turns : List (TurnSnapshot F)
  pub pending : List PendingTurn
  pub deferred_inheritance : List (ℕ × ℕ)

abbrev pub is_present : Option Text → Bool
is_present none = false
is_present (some text) = true

module _ {F : Type 0} where
  abbrev pub previous_after :
      Verdict F → Option (CategoryAssignment F) → Option (CategoryAssignment F)
  previous_after (settled turn) previous = some turn.category
  previous_after (skipped turn) previous = previous
  previous_after deferred previous = previous
  previous_after (awaiting intent key) previous = previous

  abbrev pub record_verdict : ℕ → TurnSnapshot F → Verdict F → Triage F → Triage F
  record_verdict index turn (skipped decided) rest = record rest { turns = decided ∷ rest.turns }
  record_verdict index turn (settled decided) rest = record rest { turns = decided ∷ rest.turns }
  record_verdict index turn deferred rest = record {
    turns = turn ∷ rest.turns;
    pending = rest.pending;
    deferred_inheritance = (index, index - 1) ∷ rest.deferred_inheritance;
  }
  record_verdict index turn (awaiting intent key) rest = record {
    turns = turn ∷ rest.turns;
    pending = (record { index = index; intent = intent; cache_key = key }) ∷ rest.pending;
    deferred_inheritance = rest.deferred_inheritance;
  }

module _ {F : Type 0} ⦃o : Float F⦄ where
  -- The loop, from `index` on, over the turns with their intents.
  unfoldable pub triage :
      Settings F
      → LocalState
      → ℕ
      → Bool
      → Option (CategoryAssignment F)
      → List (TurnSnapshot F × Option Text)
      → Triage F
  triage r db index after previous [] = record {
    turns = [];
    pending = [];
    deferred_inheritance = [];
  }
  triage r db index after previous ((turn, intent) ∷ rest) =
      let verdict = decide r db after previous intent turn in
      record_verdict index turn verdict
        (triage r db (suc index) (is_present intent) (previous_after verdict previous) rest)
