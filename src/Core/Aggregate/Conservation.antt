-- ===== src/Core/Aggregate/Conservation.antt =====
-- The tokens that `aggregate_session` adds up (crates/metrune-core/src/lib.rs).
use metrune.Prelude.{ℕ, ◌+◌, ◌<◌, ◌≡◌, refl, sym, ap, ◌∙◌, min, some, List, [], ◌∷◌, map, arith}
use metrune.Prelude.Words.{u64_max}
use metrune.Prelude.Float.{Float}
use metrune.Prelude.Text.{Text}
use metrune.Prelude.Order.{pair_ord}
use metrune.Prelude.TreeMap.{TreeMap, update, values, sum_values, sum_values-update}
use metrune.Core.Tokens.{
  TokenBreakdown, default_tokens, total, add_assign, exact_total, total-eq-min, add_assign_comm,
  add_assign_assoc, total-add_assign,
}
use metrune.Core.Types.{UsageMessage, UsageSlice}
use metrune.Core.Category.{CategoryAssignment}
use metrune.Core.Snapshot.{SessionSnapshot, wrapping_sum, total_tokens}
use metrune.Core.Identity.{Digests, IdentityContext}
use metrune.Core.Aggregate.{
  earliest, session_messages, message_key, add_message, group_messages, aggregate_session,
}

module _ {F : Type 0} where
  -- The counters of the slices, added up with saturation.
  abbrev pub slice_tokens : List (UsageSlice F) → TokenBreakdown
  slice_tokens = sum_values add_assign default_tokens (λ slice. slice.tokens)

  abbrev pub message_tokens : List (UsageMessage F) → TokenBreakdown
  message_tokens = sum_values add_assign default_tokens (λ m. m.tokens)

  abbrev pub exact_tokens : List (UsageMessage F) → ℕ
  exact_tokens [] = 0
  exact_tokens (m ∷ ms) = exact_total m.tokens + exact_tokens ms

capped_add : (t u : TokenBreakdown) → add_assign (add_assign default_tokens t) u ≡ add_assign t u
unfolding add_assign
capped_add t u = ground arith

module _ {F : Type 0} where
  slice_tokens-capped :
      (vs : List (UsageSlice F)) → add_assign (slice_tokens vs) default_tokens ≡ slice_tokens vs
  unfolding add_assign
  slice_tokens-capped [] = ground arith
  slice_tokens-capped (v ∷ vs) = ground arith

  message_tokens-capped :
      (ms : List (UsageMessage F))
      → add_assign (message_tokens ms) default_tokens ≡ message_tokens ms
  unfolding add_assign
  message_tokens-capped [] = ground arith
  message_tokens-capped (m ∷ ms) = ground arith

  total-slice_tokens :
      (vs : List (UsageSlice F))
      → total (slice_tokens vs) < u64_max
      → wrapping_sum (map (λ slice. total slice.tokens) vs) ≡ total (slice_tokens vs)
  total-slice_tokens [] h = unfold total in refl
  total-slice_tokens (v ∷ vs) h =
      omega (arith, total-add_assign v.tokens (slice_tokens vs), total-slice_tokens vs)

  total-message_tokens :
      (ms : List (UsageMessage F)) → total (message_tokens ms) ≡ min (exact_tokens ms) u64_max
  total-message_tokens [] = unfold total in refl
  total-message_tokens (m ∷ ms) = omega (
    arith,
    total-add_assign m.tokens (message_tokens ms),
    total-eq-min m.tokens,
    total-message_tokens ms,
  )

module _ {F : Type 0} ⦃o : Float F⦄ where
  slice_tokens-update :
      (m : UsageMessage F) (g : TreeMap (Text × Text) (UsageSlice F))
      → slice_tokens (values (update (message_key m) (add_message m) g))
        ≡ add_assign m.tokens (slice_tokens (values g))
  unfolding add_message
  slice_tokens-update m g =
      sum_values-update add_assign default_tokens add_assign_comm add_assign_assoc
        (λ slice. slice.tokens) (message_key m) (add_message m) (add_assign default_tokens m.tokens)
        g refl (λ w. add_assign_comm w.tokens m.tokens ∙ sym (capped_add m.tokens w.tokens))
      ∙ capped_add m.tokens (slice_tokens (values g))

  slice_tokens-group :
      (g : TreeMap (Text × Text) (UsageSlice F)) (ms : List (UsageMessage F))
      → slice_tokens (values (group_messages g ms))
        ≡ add_assign (message_tokens ms) (slice_tokens (values g))
  unfolding group_messages
  slice_tokens-group g [] =
      sym (slice_tokens-capped (values g))
      ∙ add_assign_comm (slice_tokens (values g)) default_tokens
  slice_tokens-group g (m ∷ ms) =
      slice_tokens-group (update (message_key m) (add_message m) g) ms
      ∙ ap (add_assign (message_tokens ms)) (slice_tokens-update m g)
      ∙ sym (add_assign_assoc (message_tokens ms) m.tokens (slice_tokens (values g)))
      ∙ ap (λ t. add_assign t (slice_tokens (values g)))
          (add_assign_comm (message_tokens ms) m.tokens)

  -- The counters of the slices add up to those of the messages of the session, both with the
  -- saturation of u64.
  pub slice_tokens-aggregate :
      (d : Digests) (m : UsageMessage F) (ms : List (UsageMessage F)) (identity : IdentityContext)
      (revision : ℕ) (category : CategoryAssignment F) {s : SessionSnapshot F}
      → aggregate_session d (m ∷ ms) identity revision category ≡ some s
      → slice_tokens s.usage_by_model ≡ message_tokens (session_messages (earliest m ms) (m ∷ ms))
  unfolding aggregate_session
  slice_tokens-aggregate d m ms identity revision category {s} h =
      let sessions = session_messages (earliest m ms) (m ∷ ms) in
      ap slice_tokens (usage_of h) ∙ slice_tokens-group [] sessions ∙ message_tokens-capped sessions
    where
      usage_of :
          aggregate_session d (m ∷ ms) identity revision category ≡ some s
          → s.usage_by_model
            ≡ values (group_messages [] (session_messages (earliest m ms) (m ∷ ms)))
      usage_of e = ground arith

  -- Below the largest u64 the total of the snapshot is the exact sum over the session's messages.
  pub total_tokens-aggregate :
      (d : Digests) (m : UsageMessage F) (ms : List (UsageMessage F)) (identity : IdentityContext)
      (revision : ℕ) (category : CategoryAssignment F) {s : SessionSnapshot F}
      → aggregate_session d (m ∷ ms) identity revision category ≡ some s
      → exact_tokens (session_messages (earliest m ms) (m ∷ ms)) < u64_max
      → total_tokens s ≡ exact_tokens (session_messages (earliest m ms) (m ∷ ms))
  unfolding total_tokens
  total_tokens-aggregate d m ms identity revision category {s} h small =
      let sessions = session_messages (earliest m ms) (m ∷ ms) in
      let same = ap total (slice_tokens-aggregate d m ms identity revision category h) in
      omega (arith, same, total-slice_tokens s.usage_by_model, total-message_tokens sessions)
