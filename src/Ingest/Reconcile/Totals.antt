-- ===== src/Ingest/Reconcile/Totals.antt =====
-- The turns and the usage that the last part of `validate_snapshot` compares
-- (crates/metrune-api/src/app.rs).
use metrune.Prelude.{
  ℕ, ◌<◌, ◌≡◌, ◌≢◌, refl, sym, ap, ◌∙◌, Bool, true, false, ◌&&◌, Option, none, some, List, [], ◌∷◌,
  map, arith, All, if◌then◌else◌, inl, inr, Bool-cases, any,
}
use metrune.Prelude.Float.{Float}
use metrune.Prelude.Text.{Text, text_eq, text_eq_refl, eq_of_text_eq}
use metrune.Prelude.Order.{text_ord, pair_ord}
use metrune.Prelude.TreeMap.{
  TreeMap, get, update, remove, IsSorted, IsSorted-update, IsSorted-remove, get-update_self,
  get-update_ne, get-remove_self, get-remove_ne,
}
use metrune.Core.Tokens.{TokenBreakdown, default_tokens, add_assign}
use metrune.Core.Types.{UsageSlice, ModelActivityStep}
use metrune.Core.Snapshot.{SessionSnapshot, TurnSnapshot}
use metrune.Ingest.Reconcile.{
  any_out_of_order, model_key, tokens_eq, all_steps, add_step, turn_models, check_slice, reconcile,
  check_turns,
}

-- Each number is smaller than the next.
abbrev pub Increasing : List ℕ → Type 0
Increasing [] = Unit
Increasing (a ∷ []) = Unit
Increasing (a ∷ b ∷ rest) = (a < b) × Increasing (b ∷ rest)

Increasing-of_test : (ns : List ℕ) → any_out_of_order ns ≡ false → Increasing ns
unfolding any_out_of_order
Increasing-of_test [] h = tt
Increasing-of_test (a ∷ []) h = tt
Increasing-of_test (a ∷ b ∷ rest) h = (ground arith, Increasing-of_test (b ∷ rest) (ground arith))

abbrev pub key_eq : Text × Text → Text × Text → Bool
key_eq a b = text_eq a.0 b.0 && text_eq a.1 b.1

-- `acc` and the tokens of the steps with the key, added up in order.
abbrev pub add_up :
    {F : Type 0} → Text × Text → TokenBreakdown → List (ModelActivityStep F) → TokenBreakdown
add_up k acc [] = acc
add_up k acc (step ∷ steps) =
    add_up k
      (if key_eq (model_key step.provider_id step.model_id) k
        then add_assign acc step.tokens
        else acc)
      steps

abbrev tokens_of : {F : Type 0} → Option (TokenBreakdown × F) → TokenBreakdown
tokens_of none = default_tokens
tokens_of (some v) = v.0

eq_of_key_eq : (a b : Text × Text) → key_eq a b ≡ true → a ≡ b
eq_of_key_eq (a, b) (c, e) h = ground (arith, eq_of_text_eq a c, eq_of_text_eq b e)

key_eq_refl : (a : Text × Text) → key_eq a a ≡ true
key_eq_refl (a, b) = ground (arith, text_eq_refl a, text_eq_refl b)

eq_of_tokens_eq : (a b : TokenBreakdown) → tokens_eq a b ≡ true → a ≡ b
eq_of_tokens_eq a b h = ground arith

module _ {F : Type 0} ⦃o : Float F⦄ where
  tokens-add_step :
      (step : ModelActivityStep F) (found : Option (TokenBreakdown × F))
      → (add_step step found).0 ≡ add_assign (tokens_of found) step.tokens
  unfolding add_step
  tokens-add_step step none = refl
  tokens-add_step step (some v) = refl

  tokens-update :
      (k : Text × Text) (step : ModelActivityStep F)
      (m : TreeMap (Text × Text) (TokenBreakdown × F))
      → tokens_of (get k (update (model_key step.provider_id step.model_id) (add_step step) m)) ≡ (
          if key_eq (model_key step.provider_id step.model_id) k
          then add_assign (tokens_of (get k m)) step.tokens
          else tokens_of (get k m))
  tokens-update k step m =
      let j = model_key step.provider_id step.model_id in
      elim (Bool-cases (key_eq j k)) [
        | inl e ↦
            let p = eq_of_key_eq j k e in
            rw (e, ← p)
              (ap tokens_of (get-update_self j (add_step step) m) ∙ tokens-add_step step (get j m))
        | inr e ↦ rw e (
            ap tokens_of (
              get-update_ne j k (add_step step) m
                (λ p. ground (arith, ap (λ x. key_eq j x) p, key_eq_refl j))))
      ]

  tokens-turn_models :
      (k : Text × Text) (m : TreeMap (Text × Text) (TokenBreakdown × F))
      (steps : List (ModelActivityStep F))
      → tokens_of (get k (turn_models m steps)) ≡ add_up k (tokens_of (get k m)) steps
  unfolding turn_models
  tokens-turn_models k m [] = refl
  tokens-turn_models k m (step ∷ steps) =
      tokens-turn_models k (update (model_key step.provider_id step.model_id) (add_step step) m)
        steps
      ∙ ap (λ acc. add_up k acc steps) (tokens-update k step m)

  IsSorted-turn_models :
      (m : TreeMap (Text × Text) (TokenBreakdown × F)) (steps : List (ModelActivityStep F))
      → IsSorted m
      → IsSorted (turn_models m steps)
  unfolding turn_models
  IsSorted-turn_models m [] s = s
  IsSorted-turn_models m (step ∷ steps) s =
      IsSorted-turn_models (update (model_key step.provider_id step.model_id) (add_step step) m)
        steps (IsSorted-update (model_key step.provider_id step.model_id) (add_step step) m s)

  abbrev slice_key : UsageSlice F → Text × Text
  slice_key slice = model_key slice.provider_id slice.model_id

  abbrev HasTokens : TreeMap (Text × Text) (TokenBreakdown × F) → UsageSlice F → Type 0
  HasTokens m slice =
      (v : TokenBreakdown × F) × (get (slice_key slice) m ≡ some v) × (v.0 ≡ slice.tokens)

  found_of_check :
      (slice : UsageSlice F) (found : Option (TokenBreakdown × F))
      → check_slice slice found ≡ none
      → (v : TokenBreakdown × F) × (found ≡ some v) × (v.0 ≡ slice.tokens)
  found_of_check slice none h = absurd (ground arith)
  found_of_check slice (some v) h = (v, refl, eq_of_tokens_eq v.0 slice.tokens (ground arith))

  HasTokens-remove :
      (k : Text × Text) (m : TreeMap (Text × Text) (TokenBreakdown × F))
      (slices : List (UsageSlice F))
      → IsSorted m
      → All (HasTokens (remove k m)) slices
      → All (HasTokens m) slices
  HasTokens-remove k m [] s a = tt
  HasTokens-remove k m (slice ∷ slices) s ((v, found, same), rest) =
      let other : slice_key slice ≢ k =
        λ p. ground (arith, get-remove_self k m s, ap (λ x. get x (remove k m)) p, found) in
      (
        (v, sym (get-remove_ne k (slice_key slice) m s other) ∙ found, same),
        HasTokens-remove k m slices s rest,
      )

  HasTokens-of_reconcile :
      (m : TreeMap (Text × Text) (TokenBreakdown × F)) (slices : List (UsageSlice F))
      → IsSorted m
      → reconcile m slices ≡ none
      → All (HasTokens m) slices
  unfolding reconcile
  HasTokens-of_reconcile m [] s h = tt
  HasTokens-of_reconcile m (slice ∷ slices) s h =
      let k = slice_key slice in
      let rest =
        HasTokens-of_reconcile (remove k m) slices (IsSorted-remove k m s) (ground arith) in
      (found_of_check slice (get k m) (ground arith), HasTokens-remove k m slices s rest)

  tokens_of_HasTokens :
      (steps : List (ModelActivityStep F)) (slices : List (UsageSlice F))
      → All (HasTokens (turn_models [] steps)) slices
      → All (λ slice. slice.tokens ≡ add_up (slice_key slice) default_tokens steps) slices
  tokens_of_HasTokens steps [] a = tt
  tokens_of_HasTokens steps (slice ∷ slices) ((v, found, same), rest) = (
    sym same ∙ ap tokens_of (sym found) ∙ tokens-turn_models (slice_key slice) [] steps,
    tokens_of_HasTokens steps slices rest,
  )

  -- Where the turns of a snapshot pass the check, each of its usage slices has exactly the tokens
  -- that the model activity of the slice's provider and model adds up to.
  pub check_turns-usage :
      (s : SessionSnapshot F)
      → check_turns s ≡ none
      → All
          (λ slice.
            slice.tokens
            ≡ add_up
                (model_key slice.provider_id slice.model_id)
                default_tokens
                (all_steps s.turns))
          s.usage_by_model
  unfolding check_turns
  check_turns-usage s h =
      let m = turn_models [] (all_steps s.turns) in
      let passes : reconcile m s.usage_by_model ≡ none = ground arith in
      tokens_of_HasTokens (all_steps s.turns) s.usage_by_model (
        HasTokens-of_reconcile m s.usage_by_model (IsSorted-turn_models [] (all_steps s.turns) tt)
          passes)

  Increasing-of_none :
      (turns : List (TurnSnapshot F))
      → any (λ turn. any_out_of_order (map (λ step. step.sequence) turn.model_activity)) turns
        ≡ false
      → All (λ turn. Increasing (map (λ step. step.sequence) turn.model_activity)) turns
  Increasing-of_none [] h = tt
  Increasing-of_none (turn ∷ turns) h = (
    Increasing-of_test (map (λ step. step.sequence) turn.model_activity) (ground arith),
    Increasing-of_none turns (ground arith),
  )

  -- Where the turns of a snapshot pass the check, the sequence numbers of the turns increase, and
  -- so do those of the steps of each turn.
  check_turns-Increasing :
      (s : SessionSnapshot F)
      → check_turns s ≡ none
      → Increasing (map (λ turn. turn.sequence) s.turns)
        × All (λ turn. Increasing (map (λ step. step.sequence) turn.model_activity)) s.turns
  unfolding check_turns
  check_turns-Increasing s h = (
    Increasing-of_test (map (λ turn. turn.sequence) s.turns) (ground arith),
    Increasing-of_none s.turns (ground arith),
  )
