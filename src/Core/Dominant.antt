-- ===== src/Core/Dominant.antt =====
-- `dominant_category` (crates/metrune-core/src/lib.rs): the category of a session is that of the
-- turns with the most tokens.
pub mod Heaviest
use Prim.Native.Nat.{compare, Ordering}
use Prim.Native.Nat.Ordering.{lt, eq, gt}
use metrune.Prelude.{ℕ, Bool, true, false, Option, none, some, List, [], ◌∷◌, if◌then◌else◌, select}
use metrune.Prelude.Float.{Float}
use metrune.Prelude.Text.{Text}
use metrune.Prelude.Order.{text_ord}
use metrune.Prelude.TreeMap.{TreeMap, update, values}
use metrune.Core.Tokens.{add_u64}
use metrune.Core.Category.{CategoryAssignment, category_str, is_classified, default_assignment}
use metrune.Core.Snapshot.{TurnSnapshot, turn_total_tokens}

abbrev pub is_not_greater : Ordering → Bool
is_not_greater gt = false
is_not_greater _ = true

module _ {F : Type 0} where
  abbrev pub classified_turns : List (TurnSnapshot F) → List (TurnSnapshot F)
  classified_turns turns = select (λ turn. is_classified turn.category.classification_status) turns

  -- `entry(…).or_insert((0, turn.category.clone()))`
  abbrev pub weight_or_new :
      TurnSnapshot F → Option (ℕ × CategoryAssignment F) → ℕ × CategoryAssignment F
  weight_or_new turn none = (0, turn.category)
  weight_or_new turn (some entry) = entry

module _ {F : Type 0} ⦃o : Float F⦄ where
  -- The more confident of the assignments is kept.
  unfoldable pub weigh :
      TurnSnapshot F → Option (ℕ × CategoryAssignment F) → ℕ × CategoryAssignment F
  weigh turn found =
      let entry = weight_or_new turn found in
      (
        add_u64 entry.0 (turn_total_tokens turn),
        if o.ltb_f entry.1.confidence turn.category.confidence then turn.category else entry.1,
      )

  unfoldable pub weighted :
      TreeMap Text (ℕ × CategoryAssignment F)
      → List (TurnSnapshot F)
      → TreeMap Text (ℕ × CategoryAssignment F)
  weighted m [] = m
  weighted m (turn ∷ turns) =
      weighted (update (category_str turn.category.category_id) (weigh turn) m) turns

  -- By the tokens, then by the confidence.
  abbrev pub weight_cmp : ℕ × CategoryAssignment F → ℕ × CategoryAssignment F → Ordering
  weight_cmp left right = elim (compare left.0 right.0) [
    | lt ↦ lt
    | eq ↦ o.total_cmp left.1.confidence right.1.confidence
    | gt ↦ gt
  ]

  -- `max_by` returns the last of the greatest.
  unfoldable pub heaviest :
      ℕ × CategoryAssignment F → List (ℕ × CategoryAssignment F) → ℕ × CategoryAssignment F
  heaviest best [] = best
  heaviest best (w ∷ ws) = heaviest (if is_not_greater (weight_cmp best w) then w else best) ws

  abbrev pub assignment_of : List (ℕ × CategoryAssignment F) → CategoryAssignment F
  assignment_of [] = default_assignment
  assignment_of (w ∷ ws) = (heaviest w ws).1

  unfoldable pub dominant_category : List (TurnSnapshot F) → CategoryAssignment F
  dominant_category turns = assignment_of (values (weighted [] (classified_turns turns)))
