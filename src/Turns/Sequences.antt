-- ===== src/Turns/Sequences.antt =====
-- The numbers of the steps of `turn_from_messages` (crates/metrune-cli/src/app.rs).
use metrune.Prelude.{suc, ℕ, ◌≡◌, refl, List, [], ◌∷◌, map, arith, length, Bool-cases, inl, inr}
use metrune.Prelude.Float.{Float}
use metrune.Core.Types.{UsageMessage, ModelActivityStep}
use metrune.Ingest.Reconcile.Totals.{Increasing}
use metrune.Turns.{
  SignalCounts, same_model, push_step, count_signals, last_sequence, collect_steps, reverse_onto,
  sort_messages, turn_from_messages,
}

-- The steps, last one first, have the numbers n - 1 to 0.
abbrev Numbered : {F : Type 0} → List (ModelActivityStep F) → Type 0
Numbered [] = Unit
Numbered (step ∷ steps) = (step.sequence ≡ length steps) × Numbered steps

module _ {F : Type 0} ⦃o : Float F⦄ where
  Numbered-push_step :
      (m : UsageMessage F) (steps : List (ModelActivityStep F))
      → Numbered steps
      → Numbered (push_step m steps)
  unfolding push_step
  Numbered-push_step m [] n = (refl, tt)
  Numbered-push_step m (last ∷ steps) n = elim (Bool-cases (same_model m last)) [
    | inl e ↦ rw e n
    | inr e ↦ rw e (refl, n)
  ]

  Numbered-collect_steps :
      (steps : List (ModelActivityStep F)) (counts : SignalCounts) (ms : List (UsageMessage F))
      → Numbered steps
      → Numbered (collect_steps steps counts ms).0
  unfolding collect_steps
  Numbered-collect_steps steps counts [] n = n
  Numbered-collect_steps steps counts (m ∷ ms) n =
      Numbered-collect_steps (push_step m steps)
        (count_signals (last_sequence (push_step m steps)) m.workflow_signals counts) ms
        (Numbered-push_step m steps n)

abbrev sequences : {F : Type 0} → List (ModelActivityStep F) → List ℕ
sequences steps = map (λ step. step.sequence) steps

module _ {F : Type 0} where
  -- Numbers from `n` on, one after the other.
  abbrev Counts : ℕ → List (ModelActivityStep F) → Type 0
  Counts n [] = Unit
  Counts n (step ∷ steps) = (step.sequence ≡ n) × Counts (suc n) steps

  Counts-reverse_onto :
      (steps acc : List (ModelActivityStep F))
      → Numbered steps
      → Counts (length steps) acc
      → Counts 0 (reverse_onto steps acc)
  Counts-reverse_onto [] acc n c = c
  Counts-reverse_onto (step ∷ steps) acc n c = Counts-reverse_onto steps (step ∷ acc) n.1 (n.0, c)

  Increasing-of_Counts :
      (n : ℕ) (steps : List (ModelActivityStep F)) → Counts n steps → Increasing (sequences steps)
  Increasing-of_Counts n [] c = tt
  Increasing-of_Counts n (step ∷ []) c = tt
  Increasing-of_Counts n (step ∷ next ∷ steps) c =
      (omega (arith, c.0, c.1.0), Increasing-of_Counts (suc n) (next ∷ steps) c.1)

module _ {F : Type 0} ⦃o : Float F⦄ where
  -- The steps of a turn have increasing sequence numbers.
  turn_from_messages-Increasing :
      (sequence : ℕ) (messages : List (UsageMessage F))
      → Increasing
          (map (λ step. step.sequence) (turn_from_messages sequence messages).model_activity)
  unfolding turn_from_messages
  turn_from_messages-Increasing sequence messages =
      let collected = collect_steps [] [] (sort_messages messages) in
      Increasing-of_Counts 0 (reverse_onto collected.0 []) (
        Counts-reverse_onto collected.0 []
          (Numbered-collect_steps [] [] (sort_messages messages) tt) tt)
