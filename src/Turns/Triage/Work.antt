-- ===== src/Turns/Triage/Work.antt =====
-- The turns in the first pass of `classify_turns` (crates/metrune-cli/src/app.rs).
use metrune.Prelude.{ℕ, suc, ◌≡◌, refl, ◌∙◌, Bool, Option, none, some, List, [], ◌∷◌, arith, map}
use metrune.Prelude.Float.{Float}
use metrune.Prelude.Text.{Text}
use metrune.Core.Types.{ModelActivityStep, SignalCount}
use metrune.Core.Category.{CategoryAssignment}
use metrune.Core.Snapshot.{TurnSnapshot}
use metrune.State.{LocalState}
use metrune.Turns.Intent.{classification_cache_key}
use metrune.Turns.Triage.{
  Settings, Triage, Verdict, skipped, settled, deferred, awaiting, triage, decide, uncached,
  by_rule, with_intent, without_intent, record_verdict, previous_after, is_present,
}

module _ {F : Type 0} where
  -- What a turn says of the work, apart from its category.
  abbrev pub work : TurnSnapshot F → ℕ × List (ModelActivityStep F) × List SignalCount
  work turn = (turn.sequence, turn.model_activity, turn.workflow_signals)

  -- The turn that a verdict leaves.
  abbrev pub turn_after : TurnSnapshot F → Verdict F → TurnSnapshot F
  turn_after turn (skipped decided) = decided
  turn_after turn (settled decided) = decided
  turn_after turn deferred = turn
  turn_after turn (awaiting intent key) = turn

  work-by_rule :
      (r : Settings F) (intent key : Text) (turn : TurnSnapshot F)
      → work (turn_after turn (by_rule r intent key turn)) ≡ work turn
  work-by_rule r intent key turn = ground arith

  work-uncached :
      (r : Settings F) (after : Bool) (previous : Option (CategoryAssignment F)) (intent key : Text)
      (turn : TurnSnapshot F)
      → work (turn_after turn (uncached r after previous intent key turn)) ≡ work turn
  work-uncached r after none intent key turn = ground (arith, work-by_rule r intent key turn)
  work-uncached r after (some source) intent key turn =
      ground (arith, work-by_rule r intent key turn)

  work-with_intent :
      (r : Settings F) (db : LocalState) (after : Bool) (previous : Option (CategoryAssignment F))
      (intent : Text) (turn : TurnSnapshot F)
      → work (turn_after turn (with_intent r db after previous intent turn)) ≡ work turn
  unfolding with_intent
  work-with_intent r db after previous intent turn =
      let key =
        classification_cache_key r.digests r.cache_secret r.classifier_fingerprint intent
          turn.workflow_signals previous in
      ground (arith, work-uncached r after previous intent key turn)

  work-record_verdict :
      (index : ℕ) (turn : TurnSnapshot F) (verdict : Verdict F) (rest : Triage F)
      → map work (record_verdict index turn verdict rest).turns
        ≡ work (turn_after turn verdict) ∷ map work rest.turns
  work-record_verdict index turn (skipped decided) rest = refl
  work-record_verdict index turn (settled decided) rest = refl
  work-record_verdict index turn deferred rest = refl
  work-record_verdict index turn (awaiting intent key) rest = refl

module _ {F : Type 0} ⦃o : Float F⦄ where
  work-without_intent :
      (previous : Option (CategoryAssignment F)) (turn : TurnSnapshot F)
      → work (turn_after turn (without_intent previous turn)) ≡ work turn
  unfolding without_intent
  work-without_intent none turn = refl
  work-without_intent (some source) turn = ground arith

  work-decide :
      (r : Settings F) (db : LocalState) (after : Bool) (previous : Option (CategoryAssignment F))
      (intent : Option Text) (turn : TurnSnapshot F)
      → work (turn_after turn (decide r db after previous intent turn)) ≡ work turn
  unfolding decide
  work-decide r db after previous none turn = ground (arith, work-without_intent previous turn)
  work-decide r db after previous (some intent) turn =
      ground
        (arith, work-without_intent previous turn, work-with_intent r db after previous intent turn)

  pub work-triage :
      (r : Settings F) (db : LocalState) (index : ℕ) (after : Bool)
      (previous : Option (CategoryAssignment F)) (turns : List (TurnSnapshot F × Option Text))
      → map work (triage r db index after previous turns).turns ≡ map (λ t. work t.0) turns
  unfolding triage
  work-triage r db index after previous [] = refl
  work-triage r db index after previous ((turn, intent) ∷ rest) =
      let verdict = decide r db after previous intent turn in
      work-record_verdict index turn verdict
        (triage r db (suc index) (is_present intent) (previous_after verdict previous) rest)
      ∙ (λ i.
          work-decide r db after previous intent turn i
          ∷ work-triage r db (suc index) (is_present intent) (previous_after verdict previous) rest
              i)
