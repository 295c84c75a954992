-- ===== src/Core/Aggregate/Keys.antt =====
-- The providers and models of the slices of `aggregate_session` (crates/metrune-core/src/lib.rs).
use Prim.Native.Nat.Ordering.{lt}
use metrune.Prelude.{ℕ, ◌≡◌, refl, sym, ◌∙◌, none, some, List, [], ◌∷◌, arith, All}
use metrune.Prelude.Float.{Float}
use metrune.Prelude.Text.{Text}
use metrune.Prelude.Order.{pair_cmp, pair_ord}
use metrune.Prelude.TreeMap.{TreeMap, update, values, IsAbove, IsSorted, IsSorted-update}
use metrune.Core.Types.{UsageMessage, UsageSlice}
use metrune.Core.Category.{CategoryAssignment}
use metrune.Core.Snapshot.{SessionSnapshot}
use metrune.Core.Identity.{Digests, IdentityContext}
use metrune.Core.Aggregate.{
  earliest, session_messages, message_key, add_message, group_messages, aggregate_session,
}

module _ {F : Type 0} where
  abbrev pub slice_key : UsageSlice F → Text × Text
  slice_key slice = (slice.provider_id, slice.model_id)

  -- The slices are strictly increasing in provider and model.
  abbrev pub IsIncreasing : List (UsageSlice F) → Type 0
  IsIncreasing [] = Unit
  IsIncreasing (slice ∷ rest) =
      All (λ next. pair_cmp (slice_key slice) (slice_key next) ≡ lt) rest × IsIncreasing rest

  -- Each slice stands at its own key.
  abbrev IsKeyed : TreeMap (Text × Text) (UsageSlice F) → Type 0
  IsKeyed g = All (λ e. e.0 ≡ slice_key e.1) g

  above-values :
      (j k : Text × Text) (g : TreeMap (Text × Text) (UsageSlice F))
      → j ≡ k
      → IsKeyed g
      → IsAbove j g
      → All (λ next. pair_cmp k (slice_key next) ≡ lt) (values g)
  above-values j k [] p keyed above = tt
  above-values j k (e ∷ g) p keyed above =
      (sym (λ i. pair_cmp (p i) (keyed.0 i)) ∙ above.0, above-values j k g p keyed.1 above.1)

  IsIncreasing-values :
      (g : TreeMap (Text × Text) (UsageSlice F)) → IsKeyed g → IsSorted g → IsIncreasing (values g)
  IsIncreasing-values [] keyed sorted = tt
  IsIncreasing-values (e ∷ g) keyed sorted = (
    above-values e.0 (slice_key e.1) g keyed.0 keyed.1 sorted.0,
    IsIncreasing-values g keyed.1 sorted.1,
  )

module _ {F : Type 0} ⦃o : Float F⦄ where
  slice_key-add_message :
      (m : UsageMessage F) (w : UsageSlice F) → slice_key (add_message m (some w)) ≡ slice_key w
  unfolding add_message
  slice_key-add_message m w = refl

  slice_key-add_message_new : (m : UsageMessage F) → message_key m ≡ slice_key (add_message m none)
  unfolding add_message message_key
  slice_key-add_message_new m = refl

  IsKeyed-update :
      (m : UsageMessage F) (g : TreeMap (Text × Text) (UsageSlice F))
      → IsKeyed g
      → IsKeyed (update (message_key m) (add_message m) g)
  IsKeyed-update m [] keyed = (slice_key-add_message_new m, tt)
  IsKeyed-update m ((k, w) ∷ g) keyed =
      ground
        (arith, slice_key-add_message_new m, slice_key-add_message m w, IsKeyed-update m g keyed.1)

  group_messages-IsSorted :
      (g : TreeMap (Text × Text) (UsageSlice F)) (ms : List (UsageMessage F))
      → IsKeyed g
      → IsSorted g
      → IsKeyed (group_messages g ms) × IsSorted (group_messages g ms)
  unfolding group_messages
  group_messages-IsSorted g [] keyed sorted = (keyed, sorted)
  group_messages-IsSorted g (m ∷ ms) keyed sorted =
      group_messages-IsSorted (update (message_key m) (add_message m) g) ms
        (IsKeyed-update m g keyed) (IsSorted-update (message_key m) (add_message m) g sorted)

  -- The slices of a snapshot are strictly increasing in provider and model: no pair of a provider
  -- and a model has two slices.
  IsIncreasing-aggregate :
      (d : Digests) (ms : List (UsageMessage F)) (identity : IdentityContext) (revision : ℕ)
      (category : CategoryAssignment F) {s : SessionSnapshot F}
      → aggregate_session d ms identity revision category ≡ some s
      → IsIncreasing s.usage_by_model
  unfolding aggregate_session
  IsIncreasing-aggregate d [] identity revision category h = cc
  IsIncreasing-aggregate d (m ∷ ms) identity revision category {s} h =
      let sessions = session_messages (earliest m ms) (m ∷ ms) in
      let (keyed, sorted) = group_messages-IsSorted [] sessions tt tt in
      let same : s.usage_by_model ≡ values (group_messages [] sessions) = ground arith in
      rw same (IsIncreasing-values (group_messages [] sessions) keyed sorted)
