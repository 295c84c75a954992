-- ===== src/Turns/Triage/Unanswered.antt =====
-- The turns that the first pass of `classify_turns` leaves to the classifier
-- (crates/metrune-cli/src/app.rs).
use metrune.Prelude.{
  ℕ, suc, ◌≡◌, Bool, true, false, not, ◌&&◌, Option, none, some, List, [], ◌∷◌, arith, All,
}
use metrune.Prelude.Float.{Float}
use metrune.Prelude.Text.{Text}
use metrune.Core.Category.{CategoryAssignment, ClassificationMethod, semantic_model}
use metrune.Core.Snapshot.{TurnSnapshot}
use metrune.State.{LocalState}
use metrune.Turns.Intent.{classification_cache_key}
use metrune.Turns.Triage.{
  Settings, Triage, Verdict, skipped, settled, deferred, awaiting, triage, decide, uncached,
  by_rule, with_intent, without_intent, record_verdict, previous_after, is_present,
}
use metrune.Turns.Triage.Work.{turn_after}

abbrev is_semantic : ClassificationMethod → Bool
is_semantic semantic_model = true
is_semantic _ = false

module _ {F : Type 0} where
  -- The turn says that a model has classified it, and not that the cache did.
  abbrev pub claims_answer : TurnSnapshot F → Bool
  claims_answer turn = is_semantic turn.classification_method && not turn.classification_cached

  abbrev pub Unanswered : List (TurnSnapshot F) → Type 0
  Unanswered turns = All (λ turn. claims_answer turn ≡ false) turns

  own-by_rule :
      (r : Settings F) (intent key : Text) (turn : TurnSnapshot F)
      → claims_answer turn ≡ false
      → claims_answer (turn_after turn (by_rule r intent key turn)) ≡ false
  own-by_rule r intent key turn h = ground (arith, h)

  own-uncached :
      (r : Settings F) (after : Bool) (previous : Option (CategoryAssignment F)) (intent key : Text)
      (turn : TurnSnapshot F)
      → claims_answer turn ≡ false
      → claims_answer (turn_after turn (uncached r after previous intent key turn)) ≡ false
  own-uncached r after none intent key turn h = ground (arith, own-by_rule r intent key turn h)
  own-uncached r after (some source) intent key turn h =
      ground (arith, own-by_rule r intent key turn h)

  own-with_intent :
      (r : Settings F) (db : LocalState) (after : Bool) (previous : Option (CategoryAssignment F))
      (intent : Text) (turn : TurnSnapshot F)
      → claims_answer turn ≡ false
      → claims_answer (turn_after turn (with_intent r db after previous intent turn)) ≡ false
  unfolding with_intent
  own-with_intent r db after previous intent turn h =
      let key =
        classification_cache_key r.digests r.cache_secret r.classifier_fingerprint intent
          turn.workflow_signals previous in
      ground (arith, own-uncached r after previous intent key turn h)

  Unanswered-record_verdict :
      (index : ℕ) (turn : TurnSnapshot F) (verdict : Verdict F) (rest : Triage F)
      → claims_answer (turn_after turn verdict) ≡ false
      → Unanswered rest.turns
      → Unanswered (record_verdict index turn verdict rest).turns
  Unanswered-record_verdict index turn (skipped decided) rest h a = (h, a)
  Unanswered-record_verdict index turn (settled decided) rest h a = (h, a)
  Unanswered-record_verdict index turn deferred rest h a = (h, a)
  Unanswered-record_verdict index turn (awaiting intent key) rest h a = (h, a)

module _ {F : Type 0} ⦃o : Float F⦄ where
  own-without_intent :
      (previous : Option (CategoryAssignment F)) (turn : TurnSnapshot F)
      → claims_answer turn ≡ false
      → claims_answer (turn_after turn (without_intent previous turn)) ≡ false
  unfolding without_intent
  own-without_intent none turn h = h
  own-without_intent (some source) turn h = ground (arith, h)

  own-decide :
      (r : Settings F) (db : LocalState) (after : Bool) (previous : Option (CategoryAssignment F))
      (intent : Option Text) (turn : TurnSnapshot F)
      → claims_answer turn ≡ false
      → claims_answer (turn_after turn (decide r db after previous intent turn)) ≡ false
  unfolding decide
  own-decide r db after previous none turn h = ground (arith, own-without_intent previous turn h)
  own-decide r db after previous (some intent) turn h =
      ground (
        arith,
        own-without_intent previous turn h,
        own-with_intent r db after previous intent turn h,
      )

  pub Unanswered-triage :
      (r : Settings F) (db : LocalState) (index : ℕ) (after : Bool)
      (previous : Option (CategoryAssignment F)) (turns : List (TurnSnapshot F × Option Text))
      → All (λ t. claims_answer t.0 ≡ false) turns
      → Unanswered (triage r db index after previous turns).turns
  unfolding triage
  Unanswered-triage r db index after previous [] h = tt
  Unanswered-triage r db index after previous ((turn, intent) ∷ rest) h =
      let verdict = decide r db after previous intent turn in
      Unanswered-record_verdict index turn verdict
        (triage r db (suc index) (is_present intent) (previous_after verdict previous) rest)
        (own-decide r db after previous intent turn h.0)
        (Unanswered-triage r db (suc index) (is_present intent) (previous_after verdict previous)
          rest h.1)
