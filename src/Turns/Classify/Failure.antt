-- ===== src/Turns/Classify/Failure.antt =====
-- `classify_turns` (crates/metrune-cli/src/app.rs) with a classifier that answers with errors.
use metrune.Prelude.{
  ℕ, zero, suc, ◌≡◌, refl, ap, ◌∙◌, false, Option, none, some, List, [], ◌∷◌, arith, map, length,
  All,
}
use metrune.Prelude.Float.{Float}
use metrune.Prelude.Text.{Text}
use metrune.Prelude.TreeMap.{TreeMap, map_option}
use metrune.Core.Types.{DateTime, UsageMessage, default_classifier_usage}
use metrune.Core.Snapshot.{TurnSnapshot}
use metrune.State.{LocalState}
use metrune.Turns.{unclassified_turns, group_turns, turn_from_messages}
use metrune.Turns.Triage.{Settings, PendingTurn, turn_intent, triage}
use metrune.Turns.Triage.Unanswered.{claims_answer, Unanswered, Unanswered-triage}
use metrune.Turns.Batches.Bounds.{batches-Partition}
use metrune.Turns.Classify.{
  BatchClassification, Backend, change_turn, turn_at, set_failed, set_inherited, Progress,
  mark_failed, settle_batch, run_batches, inherit_from, inherit_deferred, with_intents,
  classify_pending, classify_turns,
}

module _ {F : Type 0} where
  Unanswered-change_turn :
      (index : ℕ) (f : TurnSnapshot F → TurnSnapshot F) (turns : List (TurnSnapshot F))
      → ((turn : TurnSnapshot F) → claims_answer turn ≡ false → claims_answer (f turn) ≡ false)
      → Unanswered turns
      → Unanswered (change_turn index f turns)
  Unanswered-change_turn index f [] own a = tt
  Unanswered-change_turn zero f (turn ∷ turns) own a = (own turn a.0, a.1)
  Unanswered-change_turn (suc index) f (turn ∷ turns) own a =
      (a.0, Unanswered-change_turn index f turns own a.1)

  Unanswered-with_intents :
      (r : Settings F) (messages : List (UsageMessage F)) (turns : List (TurnSnapshot F))
      → Unanswered turns
      → All {A = TurnSnapshot F × Option Text}
          (λ t. claims_answer t.0 ≡ false)
          (map (λ turn. (turn, turn_intent r.unicode messages turn)) turns)
  Unanswered-with_intents r messages [] a = tt
  Unanswered-with_intents r messages (turn ∷ turns) a =
      (a.0, Unanswered-with_intents r messages turns a.1)

module _ {F : Type 0} ⦃o : Float F⦄ where
  Unanswered-turns :
      (grouped : TreeMap ℕ (List (UsageMessage F)))
      → Unanswered (map (λ e. turn_from_messages e.0 e.1) grouped)
  unfolding turn_from_messages
  Unanswered-turns [] = tt
  Unanswered-turns (e ∷ grouped) = (refl, Unanswered-turns grouped)

  Unanswered-mark_failed :
      (id : Text) (ps : List PendingTurn) (turns : List (TurnSnapshot F))
      → Unanswered turns
      → Unanswered (mark_failed id ps turns)
  unfolding mark_failed
  Unanswered-mark_failed id [] turns a = a
  Unanswered-mark_failed id (p ∷ ps) turns a =
      Unanswered-mark_failed id ps (change_turn p.index (set_failed id) turns)
        (Unanswered-change_turn p.index (set_failed id) turns (λ turn h. h) a)

  own-set_inherited :
      (source turn : TurnSnapshot F)
      → claims_answer turn ≡ false
      → claims_answer (set_inherited source turn) ≡ false
  own-set_inherited source turn h = ground (arith, h)

  Unanswered-inherit_from :
      (source : Option (TurnSnapshot F)) (index : ℕ) (turns : List (TurnSnapshot F))
      → Unanswered turns
      → Unanswered (inherit_from source index turns)
  Unanswered-inherit_from none index turns a = a
  Unanswered-inherit_from (some source) index turns a =
      Unanswered-change_turn index (set_inherited source) turns (own-set_inherited source) a

  Unanswered-inherit_deferred :
      (pairs : List (ℕ × ℕ)) (turns : List (TurnSnapshot F))
      → Unanswered turns
      → Unanswered (inherit_deferred pairs turns)
  unfolding inherit_deferred
  Unanswered-inherit_deferred [] turns a = a
  Unanswered-inherit_deferred ((index, source) ∷ pairs) turns a =
      Unanswered-inherit_deferred pairs (inherit_from (turn_at source turns) index turns)
        (Unanswered-inherit_from (turn_at source turns) index turns a)

  abbrev Fruitless : Backend F → Type 0
  Fruitless backend = (call : ℕ) (texts : List Text) → backend.classify_batch call texts ≡ none

  -- What a failed batch leaves alone.
  abbrev Kept : Progress F → Progress F → Type 0
  Kept after before = (after.usage ≡ before.usage) × (after.db ≡ before.db) × Unanswered after.turns

  Kept-settle_batch :
      (r : Settings F) (id : Text) (clock : ℕ → DateTime) (batch : List PendingTurn)
      (answer : Option (BatchClassification F)) (progress : Progress F)
      → answer ≡ none
      → Unanswered progress.turns
      → Kept (settle_batch r id clock batch answer progress) progress
  unfolding settle_batch
  Kept-settle_batch r id clock batch none progress h a =
      (refl, refl, Unanswered-mark_failed id batch progress.turns a)
  Kept-settle_batch r id clock batch (some answer) progress h a = absurd (ground (arith, h))

  Kept-run_batches :
      (r : Settings F) (backend : Backend F) (clock : ℕ → DateTime) (call : ℕ)
      (bs : List (List PendingTurn)) (progress : Progress F)
      → Fruitless backend
      → Unanswered progress.turns
      → Kept (run_batches r backend clock call bs progress) progress
  unfolding run_batches
  Kept-run_batches r backend clock call [] progress h a = (refl, refl, a)
  Kept-run_batches r backend clock call (batch ∷ bs) progress h a =
      let answer = backend.classify_batch call (map (λ p. p.intent) batch) in
      let (usage, db, turns) =
        Kept-settle_batch r backend.id clock batch answer progress
          (h call (map (λ p. p.intent) batch)) a in
      let (usage', db', turns') =
        Kept-run_batches r backend clock (suc call) bs
          (settle_batch r backend.id clock batch answer progress) h turns in
      (usage' ∙ usage, db' ∙ db, turns')

  -- With a classifier that answers every call with an error, `classify_turns` returns, counts no
  -- classifier usage, stores nothing in the state, and marks no turn as classified by the model
  -- unless its category comes from the cache.
  pub classify_turns-Unanswered :
      (r : Settings F) (backend : Backend F) (clock : ℕ → DateTime)
      (messages : List (UsageMessage F)) (db : LocalState)
      → ((call : ℕ) (texts : List Text) → backend.classify_batch call texts ≡ none)
      → (progress : Progress F) × (classify_turns r backend clock messages db ≡ some progress)
        × (progress.usage ≡ default_classifier_usage)
        × (progress.db ≡ db)
        × Unanswered progress.turns
  unfolding classify_turns with_intents unclassified_turns
  classify_turns-Unanswered r backend clock messages db h =
      let first = triage r db 0 false none (with_intents r messages) in
      let (bs, returned, parts, sizes) =
        batches-Partition (length first.pending) first.pending (omega arith) in
      let start = Unanswered-triage r db 0 false none (with_intents r messages) (
        Unanswered-with_intents r messages (unclassified_turns messages)
          (Unanswered-turns (group_turns [] messages))) in
      let (usage, kept, turns) =
        Kept-run_batches r backend clock 0 bs
          (record { turns = first.turns; usage = default_classifier_usage; db = db }) h start in
      (
        classify_pending r backend clock db first bs,
        ap (map_option (classify_pending r backend clock db first)) returned,
        usage,
        kept,
        Unanswered-inherit_deferred first.deferred_inheritance _ turns,
      )
