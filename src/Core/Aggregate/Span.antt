-- ===== src/Core/Aggregate/Span.antt =====
-- The start and the end that `aggregate_session` gives a session (crates/metrune-core/src/lib.rs).
use metrune.Prelude.{ℕ, ◌≤◌, ◌≡◌, refl, sym, ◌⊎◌, inl, some, List, [], ◌∷◌, arith, All}
use metrune.Prelude.Float.{Float}
use metrune.Core.Types.{UsageMessage}
use metrune.Core.Category.{CategoryAssignment}
use metrune.Core.Snapshot.{SessionSnapshot}
use metrune.Core.Identity.{Digests, IdentityContext}
use metrune.Core.Aggregate.{earliest, latest, aggregate_session}

module _ {F : Type 0} where
  earliest-le :
      (best : UsageMessage F) (ms : List (UsageMessage F)) (x : UsageMessage F)
      → earliest best ms ≡ x
      → (x.observed_at ≤ best.observed_at) × All (λ m. x.observed_at ≤ m.observed_at) ms
  unfolding earliest
  earliest-le best [] x e = (ground arith, tt)
  earliest-le best (m ∷ ms) x e = ground (arith, earliest-le m ms x, earliest-le best ms x)

  le-latest :
      (best : UsageMessage F) (ms : List (UsageMessage F)) (x : UsageMessage F)
      → latest best ms ≡ x
      → (best.observed_at ≤ x.observed_at) × All (λ m. m.observed_at ≤ x.observed_at) ms
  unfolding latest
  le-latest best [] x e = (ground arith, tt)
  le-latest best (m ∷ ms) x e = ground (arith, le-latest m ms x, le-latest best ms x)

  -- The message `x` is one of the list.
  abbrev pub IsOneOf : UsageMessage F → List (UsageMessage F) → Type 0
  IsOneOf x [] = ⊥
  IsOneOf x (m ∷ ms) = (x ≡ m) ⊎ IsOneOf x ms

  earliest-IsOneOf :
      (best : UsageMessage F) (ms : List (UsageMessage F)) (x : UsageMessage F)
      → earliest best ms ≡ x
      → IsOneOf x (best ∷ ms)
  unfolding earliest
  earliest-IsOneOf best [] x e = inl (sym e)
  earliest-IsOneOf best (m ∷ ms) x e =
      ground (arith, earliest-IsOneOf m ms x, earliest-IsOneOf best ms x)

  latest-IsOneOf :
      (best : UsageMessage F) (ms : List (UsageMessage F)) (x : UsageMessage F)
      → latest best ms ≡ x
      → IsOneOf x (best ∷ ms)
  unfolding latest
  latest-IsOneOf best [] x e = inl (sym e)
  latest-IsOneOf best (m ∷ ms) x e = ground (arith, latest-IsOneOf m ms x, latest-IsOneOf best ms x)

  abbrev pub Within : SessionSnapshot F → List (UsageMessage F) → Type 0
  Within s = All (λ m. (s.started_at ≤ m.observed_at) × (m.observed_at ≤ s.ended_at))

  Within-All :
      (s : SessionSnapshot F) (ms : List (UsageMessage F)) (x y : UsageMessage F)
      → s.started_at ≡ x.observed_at
      → s.ended_at ≡ y.observed_at
      → All (λ m. x.observed_at ≤ m.observed_at) ms
      → All (λ m. m.observed_at ≤ y.observed_at) ms
      → Within s ms
  Within-All s [] x y p q h k = tt
  Within-All s (m ∷ ms) x y p q h k = ((omega arith, omega arith), Within-All s ms x y p q h.1 k.1)

module _ {F : Type 0} ⦃o : Float F⦄ where
  -- Every message lies between the start and the end of the snapshot, which are the times of
  -- two of the messages.
  pub Within-aggregate :
      (d : Digests) (m : UsageMessage F) (ms : List (UsageMessage F)) (identity : IdentityContext)
      (revision : ℕ) (category : CategoryAssignment F) {s : SessionSnapshot F}
      → aggregate_session d (m ∷ ms) identity revision category ≡ some s
      → Within s (m ∷ ms)
        × ((x : UsageMessage F) × IsOneOf x (m ∷ ms) × (s.started_at ≡ x.observed_at))
        × ((x : UsageMessage F) × IsOneOf x (m ∷ ms) × (s.ended_at ≡ x.observed_at))
  unfolding aggregate_session
  Within-aggregate d m ms identity revision category {s} h =
      let start : s.started_at ≡ (earliest m ms).observed_at = ground arith in
      let end : s.ended_at ≡ (latest m ms).observed_at = ground arith in
      let (low, lows) = earliest-le m ms (earliest m ms) refl in
      let (high, highs) = le-latest m ms (latest m ms) refl in
      (
        Within-All s (m ∷ ms) (earliest m ms) (latest m ms) start end (low, lows) (high, highs),
        (earliest m ms, earliest-IsOneOf m ms (earliest m ms) refl, start),
        (latest m ms, latest-IsOneOf m ms (latest m ms) refl, end),
      )
