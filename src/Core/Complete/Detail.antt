-- ===== src/Core/Complete/Detail.antt =====
-- The session that `aggregate_session_v2` makes of its messages and turns
-- (crates/metrune-core/src/lib.rs).
use metrune.Prelude.{
  ℕ, ◌≡◌, ◌≤◌, refl, true, false, Option, none, some, List, [], ◌∷◌, arith, min, ◌<◌, ◌⊎◌, ltb,
  length, All, Bool-cases, inl, inr,
}
use metrune.Prelude.Float.{Float}
use metrune.Prelude.Text.{Text, len}
use metrune.Prelude.Words.{u32_max}
use metrune.Core.Types.{ClassifierUsage, UsageMessage}
use metrune.Core.Category.{category_str, method_str}
use metrune.Core.Snapshot.{TurnSnapshot, SessionSnapshot}
use metrune.Core.Identity.{Digests, IdentityContext}
use metrune.Core.Dominant.{dominant_category}
use metrune.Core.Dominant.Heaviest.{weight, dominant_category-heaviest}
use metrune.Core.Aggregate.{aggregate_session, session_messages, earliest}
use metrune.Core.Aggregate.Conservation.{slice_tokens, message_tokens, slice_tokens-aggregate}
use metrune.Core.Complete.{
  is_too_long, turn_detail_limit, limit_detail, complete_session, aggregate_session_v2,
}
use metrune.Core.Complete.Counts.{number_of, sum_counts, method_counts-exact}

module _ {F : Type 0} ⦃o : Float F⦄ where
  abbrev KeepsTurns : List (TurnSnapshot F) → SessionSnapshot F → Type 0
  KeepsTurns turns s = (s.turns ≡ turns) × (s.turn_detail_truncated ≡ false)

  abbrev DropsTurns : SessionSnapshot F → Type 0
  DropsTurns s = (s.turns ≡ []) × (s.turn_detail_truncated ≡ true)

  -- The session keeps the turns and is not marked where their text is within the limit or cannot be
  -- written; otherwise it has no turn and is marked.
  abbrev pub Fits :
      (List (TurnSnapshot F) → Option Text) → List (TurnSnapshot F) → SessionSnapshot F → Type 0
  Fits encode_turns turns s =
      ((encode_turns turns ≡ none) × KeepsTurns turns s)
      ⊎ ((text : Text) × (encode_turns turns ≡ some text)
          × (len text ≤ turn_detail_limit)
          × KeepsTurns turns s)
      ⊎ ((text : Text) × (encode_turns turns ≡ some text)
          × (turn_detail_limit < len text)
          × DropsTurns s)

  -- The slices hold the counters of the session's messages, the counts by method are those of all
  -- the turns, and no category weighs more in the turns than that of the session.
  abbrev pub Sums :
      UsageMessage F → List (UsageMessage F) → List (TurnSnapshot F) → SessionSnapshot F → Type 0
  Sums m ms turns s =
      (slice_tokens s.usage_by_model ≡ message_tokens (session_messages (earliest m ms) (m ∷ ms)))
      × All (λ c. c.count ≡ min (number_of (method_str c.method) turns) u32_max)
          s.classification_method_counts
      × (sum_counts s.classification_method_counts ≡ min (length turns) u32_max)
      × ((name : Text) → weight name turns ≤ weight (category_str s.category.category_id) turns)

  Fits-complete_session :
      (encode_turns : List (TurnSnapshot F) → Option Text) (messages : List (UsageMessage F))
      (turns : List (TurnSnapshot F)) (usage : ClassifierUsage F) (base : SessionSnapshot F)
      → base.turn_detail_truncated ≡ false
      → Fits encode_turns turns (complete_session encode_turns messages turns usage base)
  unfolding complete_session limit_detail
  Fits-complete_session encode_turns messages turns usage base unmarked =
      go (encode_turns turns) refl
    where
      go :
          (encoded : Option Text)
          → encode_turns turns ≡ encoded
          → Fits encode_turns turns (complete_session encode_turns messages turns usage base)
      go none e = inl (e, rw (complete_session, e) (refl, unmarked))
      go (some text) e = elim (Bool-cases (ltb turn_detail_limit (len text))) [
        | inl long ↦
            inr (inr (text, e, ground (arith, long), rw (complete_session, e, long) (refl, refl)))
        | inr short ↦
            inr (
              inl
                (text, e, ground (arith, short), rw (complete_session, e, short) (refl, unmarked)))
      ]

  Sums-complete_session :
      (encode_turns : List (TurnSnapshot F) → Option Text) (m : UsageMessage F)
      (ms : List (UsageMessage F)) (turns : List (TurnSnapshot F)) (usage : ClassifierUsage F)
      (base : SessionSnapshot F)
      → slice_tokens base.usage_by_model
        ≡ message_tokens (session_messages (earliest m ms) (m ∷ ms))
      → base.category ≡ dominant_category turns
      → Sums m ms turns (complete_session encode_turns (m ∷ ms) turns usage base)
  unfolding complete_session limit_detail
  Sums-complete_session encode_turns m ms turns usage base slices category =
      let (counts, all) = method_counts-exact turns in
      let heaviest : (name : Text)
          → weight name turns ≤ weight (category_str base.category.category_id) turns =
        λ name. rw category (dominant_category-heaviest name turns) in
      elim (Bool-cases (is_too_long (encode_turns turns))) [
        | inl e ↦ rw (complete_session, e) (slices, counts, all, heaviest)
        | inr e ↦ rw (complete_session, e) (slices, counts, all, heaviest)
      ]

  -- A session that has a message is completed, whatever its turns. Its slices hold the counters of
  -- its messages, with the saturation of u64; its counts by method are the numbers of the turns of
  -- each method, and add up to all the turns, up to the largest u32; its category is one that no
  -- other outweighs in the turns. It keeps the turns, unmarked, unless their text is longer than
  -- the limit, and then it has none and is marked.
  pub aggregate_session_v2-Detailed :
      (d : Digests) (encode_turns : List (TurnSnapshot F) → Option Text) (m : UsageMessage F)
      (ms : List (UsageMessage F)) (identity : IdentityContext) (revision : ℕ)
      (turns : List (TurnSnapshot F)) (usage : ClassifierUsage F)
      → (s : SessionSnapshot F) × (aggregate_session_v2 d encode_turns
            (m ∷ ms)
            identity
            revision
            turns
            usage
          ≡ some s)
        × Sums m ms turns s
        × Fits encode_turns turns s
  unfolding aggregate_session_v2 aggregate_session
  aggregate_session_v2-Detailed d encode_turns m ms identity revision turns usage = (
    _,
    refl,
    Sums-complete_session encode_turns m ms turns usage _
        (slice_tokens-aggregate d m ms identity revision (dominant_category turns) refl) refl,
    Fits-complete_session encode_turns (m ∷ ms) turns usage _ refl,
  )
