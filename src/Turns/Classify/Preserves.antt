-- ===== src/Turns/Classify/Preserves.antt =====
-- The turns after `classify_turns` (crates/metrune-cli/src/app.rs).
use metrune.Prelude.{
  ℕ, zero, suc, ◌≡◌, refl, ap, ◌∙◌, false, Option, none, some, List, [], ◌∷◌, arith, map, length,
}
use metrune.Prelude.Float.{Float}
use metrune.Prelude.Text.{Text}
use metrune.Prelude.TreeMap.{map_option}
use metrune.Core.Types.{DateTime, UsageMessage, default_classifier_usage}
use metrune.Core.Category.{CategoryAssignment}
use metrune.Core.Snapshot.{TurnSnapshot}
use metrune.State.{LocalState}
use metrune.State.Open.{cache_classification}
use metrune.Turns.{unclassified_turns}
use metrune.Turns.Triage.{Settings, PendingTurn, turn_intent, triage}
use metrune.Turns.Triage.Work.{work, work-triage}
use metrune.Turns.Batches.Bounds.{batches-Partition}
use metrune.Turns.Classify.{
  BatchClassification, Backend, change_turn, turn_at, set_semantic, set_failed, set_inherited,
  Progress, accept_answers, mark_failed, settle_batch, run_batches, inherit_from, inherit_deferred,
  with_intents, classify_pending, classify_turns,
}

module _ {F : Type 0} where
  work-change_turn :
      (index : ℕ) (f : TurnSnapshot F → TurnSnapshot F) (turns : List (TurnSnapshot F))
      → ((turn : TurnSnapshot F) → work (f turn) ≡ work turn)
      → map work (change_turn index f turns) ≡ map work turns
  work-change_turn index f [] same = refl
  work-change_turn zero f (turn ∷ turns) same = ap (λ w. w ∷ map work turns) (same turn)
  work-change_turn (suc index) f (turn ∷ turns) same =
      ap (λ ws. work turn ∷ ws) (work-change_turn index f turns same)

  work-accept_answers :
      (r : Settings F) (clock : ℕ → DateTime) (ps : List PendingTurn)
      (assignments : List (CategoryAssignment F)) (progress : Progress F)
      → map work (accept_answers r clock ps assignments progress).turns ≡ map work progress.turns
  unfolding accept_answers
  work-accept_answers r clock [] assignments progress = refl
  work-accept_answers r clock (p ∷ ps) [] progress = refl
  work-accept_answers r clock (p ∷ ps) (a ∷ assignments) progress =
      work-accept_answers r clock ps assignments (record progress {
        turns = change_turn p.index (set_semantic a) progress.turns;
        db = cache_classification r.codec (clock p.index) p.cache_key a progress.db;
      })
      ∙ work-change_turn p.index (set_semantic a) progress.turns (λ turn. refl)

module _ {F : Type 0} ⦃o : Float F⦄ where
  work-mark_failed :
      (id : Text) (ps : List PendingTurn) (turns : List (TurnSnapshot F))
      → map work (mark_failed id ps turns) ≡ map work turns
  unfolding mark_failed
  work-mark_failed id [] turns = refl
  work-mark_failed id (p ∷ ps) turns =
      work-mark_failed id ps (change_turn p.index (set_failed id) turns)
      ∙ work-change_turn p.index (set_failed id) turns (λ turn. refl)

  work-settle_batch :
      (r : Settings F) (id : Text) (clock : ℕ → DateTime) (batch : List PendingTurn)
      (answer : Option (BatchClassification F)) (progress : Progress F)
      → map work (settle_batch r id clock batch answer progress).turns ≡ map work progress.turns
  unfolding settle_batch
  work-settle_batch r id clock batch none progress = work-mark_failed id batch progress.turns
  work-settle_batch r id clock batch (some answer) progress =
      work-accept_answers r clock batch answer.assignments _

  work-run_batches :
      (r : Settings F) (backend : Backend F) (clock : ℕ → DateTime) (call : ℕ)
      (bs : List (List PendingTurn)) (progress : Progress F)
      → map work (run_batches r backend clock call bs progress).turns ≡ map work progress.turns
  unfolding run_batches
  work-run_batches r backend clock call [] progress = refl
  work-run_batches r backend clock call (batch ∷ bs) progress =
      work-run_batches r backend clock (suc call) bs _
      ∙ work-settle_batch r backend.id clock batch
          (backend.classify_batch call (map (λ p. p.intent) batch)) progress

  work-set_inherited : (source turn : TurnSnapshot F) → work (set_inherited source turn) ≡ work turn
  work-set_inherited source turn = ground arith

  work-inherit_from :
      (source : Option (TurnSnapshot F)) (index : ℕ) (turns : List (TurnSnapshot F))
      → map work (inherit_from source index turns) ≡ map work turns
  work-inherit_from none index turns = refl
  work-inherit_from (some source) index turns =
      work-change_turn index (set_inherited source) turns (work-set_inherited source)

  work-inherit_deferred :
      (pairs : List (ℕ × ℕ)) (turns : List (TurnSnapshot F))
      → map work (inherit_deferred pairs turns) ≡ map work turns
  unfolding inherit_deferred
  work-inherit_deferred [] turns = refl
  work-inherit_deferred ((index, source) ∷ pairs) turns =
      work-inherit_deferred pairs (inherit_from (turn_at source turns) index turns)
      ∙ work-inherit_from (turn_at source turns) index turns

  work-with_intents :
      (r : Settings F) (messages : List (UsageMessage F)) (turns : List (TurnSnapshot F))
      → map {A = TurnSnapshot F × Option Text}
          (λ t. work t.0)
          (map (λ turn. (turn, turn_intent r.unicode messages turn)) turns)
        ≡ map work turns
  work-with_intents r messages [] = refl
  work-with_intents r messages (turn ∷ turns) =
      ap (λ ws. work turn ∷ ws) (work-with_intents r messages turns)

  -- Whatever the classifier answers, errors included, `classify_turns` returns, and its turns are
  -- those of the messages, with the same numbers, the same model activity and the same signals.
  pub classify_turns-work :
      (r : Settings F) (backend : Backend F) (clock : ℕ → DateTime)
      (messages : List (UsageMessage F)) (db : LocalState)
      → (progress : Progress F) × (classify_turns r backend clock messages db ≡ some progress)
        × (map work progress.turns ≡ map work (unclassified_turns messages))
  unfolding classify_turns with_intents
  classify_turns-work r backend clock messages db =
      let first = triage r db 0 false none (with_intents r messages) in
      let (bs, returned, parts, sizes) =
        batches-Partition (length first.pending) first.pending (omega arith) in
      (
        classify_pending r backend clock db first bs,
        ap (map_option (classify_pending r backend clock db first)) returned,
        work-inherit_deferred first.deferred_inheritance _
            ∙ work-run_batches r backend clock 0 bs
                (record { turns = first.turns; usage = default_classifier_usage; db = db })
            ∙ work-triage r db 0 false none (with_intents r messages)
            ∙ work-with_intents r messages (unclassified_turns messages),
      )
