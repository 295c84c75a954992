-- ===== src/Turns/Conservation.antt =====
-- The tokens of the steps of `turn_from_messages` (crates/metrune-cli/src/app.rs).
use metrune.Prelude.{ℕ, ◌≡◌, refl, sym, ap, ◌∙◌, List, [], ◌∷◌, arith, leb, Bool-cases, inl, inr}
use metrune.Prelude.Float.{Float}
use metrune.Prelude.TreeMap.{sum_values}
use metrune.Core.Tokens.{
  TokenBreakdown, default_tokens, add_assign, add_assign_comm, add_assign_assoc,
}
use metrune.Core.Types.{UsageMessage, ModelActivityStep}
use metrune.Core.Aggregate.Conservation.{message_tokens}
use metrune.Turns.{
  SignalCounts, same_model, push_step, count_signals, last_sequence, collect_steps, reverse_onto,
  insert_message, sort_messages, turn_from_messages,
}

swap : (a b c : TokenBreakdown) → add_assign a (add_assign b c) ≡ add_assign b (add_assign a c)
swap a b c =
    sym (add_assign_assoc a b c)
    ∙ ap (λ t. add_assign t c) (add_assign_comm a b)
    ∙ add_assign_assoc b a c

module _ {F : Type 0} where
  abbrev pub step_tokens : List (ModelActivityStep F) → TokenBreakdown
  step_tokens = sum_values add_assign default_tokens (λ step. step.tokens)

  message_tokens-insert :
      (m : UsageMessage F) (ms : List (UsageMessage F))
      → message_tokens (insert_message m ms) ≡ add_assign m.tokens (message_tokens ms)
  unfolding insert_message
  message_tokens-insert m [] = refl
  message_tokens-insert m (x ∷ xs) =
      elim (Bool-cases (leb m.activity_sequence x.activity_sequence)) [
        | inl e ↦ rw e
        | inr e ↦ rw e (
            ap (add_assign x.tokens) (message_tokens-insert m xs)
            ∙ swap x.tokens m.tokens (message_tokens xs))
      ]

  message_tokens-sort :
      (ms : List (UsageMessage F)) → message_tokens (sort_messages ms) ≡ message_tokens ms
  unfolding sort_messages
  message_tokens-sort [] = refl
  message_tokens-sort (m ∷ ms) =
      message_tokens-insert m (sort_messages ms) ∙ ap (add_assign m.tokens) (message_tokens-sort ms)

  capped :
      (steps : List (ModelActivityStep F))
      → add_assign default_tokens (step_tokens steps) ≡ step_tokens steps
  unfolding add_assign
  capped [] = ground arith
  capped (step ∷ steps) = ground arith

  step_tokens-reverse_onto :
      (steps acc : List (ModelActivityStep F))
      → step_tokens (reverse_onto steps acc) ≡ add_assign (step_tokens steps) (step_tokens acc)
  step_tokens-reverse_onto [] acc = sym (capped acc)
  step_tokens-reverse_onto (step ∷ steps) acc =
      step_tokens-reverse_onto steps (step ∷ acc)
      ∙ swap (step_tokens steps) step.tokens (step_tokens acc)
      ∙ sym (add_assign_assoc step.tokens (step_tokens steps) (step_tokens acc))

module _ {F : Type 0} ⦃o : Float F⦄ where
  step_tokens-push_step :
      (m : UsageMessage F) (steps : List (ModelActivityStep F))
      → step_tokens (push_step m steps) ≡ add_assign m.tokens (step_tokens steps)
  unfolding push_step
  step_tokens-push_step m [] = refl
  step_tokens-push_step m (last ∷ steps) = elim (Bool-cases (same_model m last)) [
    | inl e ↦ rw e (
        ap (λ t. add_assign t (step_tokens steps)) (add_assign_comm last.tokens m.tokens)
        ∙ add_assign_assoc m.tokens last.tokens (step_tokens steps))
    | inr e ↦ rw e
  ]

  step_tokens-collect_steps :
      (steps : List (ModelActivityStep F)) (counts : SignalCounts) (ms : List (UsageMessage F))
      → step_tokens (collect_steps steps counts ms).0
        ≡ add_assign (message_tokens ms) (step_tokens steps)
  unfolding collect_steps
  step_tokens-collect_steps steps counts [] = sym (capped steps)
  step_tokens-collect_steps steps counts (m ∷ ms) =
      step_tokens-collect_steps (push_step m steps)
        (count_signals (last_sequence (push_step m steps)) m.workflow_signals counts) ms
      ∙ ap (add_assign (message_tokens ms)) (step_tokens-push_step m steps)
      ∙ swap (message_tokens ms) m.tokens (step_tokens steps)
      ∙ sym (add_assign_assoc m.tokens (message_tokens ms) (step_tokens steps))

  capped_twice :
      (ms : List (UsageMessage F))
      → add_assign (add_assign (message_tokens ms) default_tokens) default_tokens
        ≡ message_tokens ms
  unfolding add_assign
  capped_twice [] = ground arith
  capped_twice (m ∷ ms) = ground arith

  -- The counters of a turn's steps add up to those of its messages, both with the saturation of
  -- u64, in whatever order the messages come.
  pub step_tokens-turn_from_messages :
      (sequence : ℕ) (messages : List (UsageMessage F))
      → step_tokens (turn_from_messages sequence messages).model_activity ≡ message_tokens messages
  unfolding turn_from_messages
  step_tokens-turn_from_messages sequence messages =
      let sorted = sort_messages messages in
      step_tokens-reverse_onto (collect_steps [] [] sorted).0 []
      ∙ ap (λ t. add_assign t default_tokens) (step_tokens-collect_steps [] [] sorted)
      ∙ capped_twice sorted
      ∙ message_tokens-sort messages
