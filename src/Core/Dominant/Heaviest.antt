-- ===== src/Core/Dominant/Heaviest.antt =====
-- The tokens of the category that `dominant_category` chooses (crates/metrune-core/src/lib.rs).
use metrune.Prelude.{
  ℕ, ◌≤◌, ◌≡◌, refl, sym, ap, ◌∙◌, true, false, Option, none, some, List, [], ◌∷◌, inl, inr, arith,
  if◌then◌else◌, Bool-cases, All,
}
use metrune.Prelude.Float.{Float}
use metrune.Prelude.Text.{Text, text_eq, text_eq_refl, eq_of_text_eq}
use metrune.Prelude.Order.{text_ord}
use metrune.Prelude.TreeMap.{
  TreeMap, get, update, values, IsSorted, IsSorted-update, get-update_self, get-update_ne,
  All-values,
}
use metrune.Core.Tokens.{add_u64}
use metrune.Core.Category.{CategoryAssignment, category_str}
use metrune.Core.Snapshot.{TurnSnapshot, turn_total_tokens}
use metrune.Core.Dominant.{
  classified_turns, weigh, weighted, weight_cmp, is_not_greater, heaviest, assignment_of,
  dominant_category,
}

module _ {F : Type 0} where
  -- The tokens of the turns whose category has the name `k`, added up from `n`.
  abbrev pub weight_from : Text → ℕ → List (TurnSnapshot F) → ℕ
  weight_from k n [] = n
  weight_from k n (turn ∷ turns) =
      weight_from k
        (if text_eq (category_str turn.category.category_id) k
          then add_u64 n (turn_total_tokens turn)
          else n)
        turns

  -- The tokens of the classified turns of a category.
  abbrev pub weight : Text → List (TurnSnapshot F) → ℕ
  weight k turns = weight_from k 0 (classified_turns turns)

  abbrev tokens_of : Option (ℕ × CategoryAssignment F) → ℕ
  tokens_of none = 0
  tokens_of (some w) = w.0

  abbrev Named : TreeMap Text (ℕ × CategoryAssignment F) → Type 0
  Named m =
      (k : Text) (w : ℕ × CategoryAssignment F)
      → get k m ≡ some w
      → category_str w.1.category_id ≡ k

module _ {F : Type 0} ⦃o : Float F⦄ where
  tokens-weigh :
      (turn : TurnSnapshot F) (found : Option (ℕ × CategoryAssignment F))
      → (weigh turn found).0 ≡ add_u64 (tokens_of found) (turn_total_tokens turn)
  unfolding weigh
  tokens-weigh turn none = refl
  tokens-weigh turn (some w) = refl

  tokens-update :
      (k : Text) (turn : TurnSnapshot F) (m : TreeMap Text (ℕ × CategoryAssignment F))
      → tokens_of (get k (update (category_str turn.category.category_id) (weigh turn) m)) ≡ (
          if text_eq (category_str turn.category.category_id) k
          then add_u64 (tokens_of (get k m)) (turn_total_tokens turn)
          else tokens_of (get k m))
  tokens-update k turn m =
      let j = category_str turn.category.category_id in
      elim (Bool-cases (text_eq j k)) [
        | inl e ↦
            let p = eq_of_text_eq j k e in
            rw (e, ← p)
              (ap tokens_of (get-update_self j (weigh turn) m) ∙ tokens-weigh turn (get j m))
        | inr e ↦ rw e (
            ap tokens_of (
              get-update_ne j k (weigh turn) m
                (λ p. ground (arith, ap (λ x. text_eq j x) p, text_eq_refl j))))
      ]

  tokens-weighted :
      (k : Text) (m : TreeMap Text (ℕ × CategoryAssignment F)) (turns : List (TurnSnapshot F))
      → tokens_of (get k (weighted m turns)) ≡ weight_from k (tokens_of (get k m)) turns
  unfolding weighted
  tokens-weighted k m [] = refl
  tokens-weighted k m (turn ∷ turns) =
      tokens-weighted k (update (category_str turn.category.category_id) (weigh turn) m) turns
      ∙ ap (λ n. weight_from k n turns) (tokens-update k turn m)

  Named-weigh :
      (turn : TurnSnapshot F) (found : Option (ℕ × CategoryAssignment F))
      → ((w : ℕ × CategoryAssignment F)
          → found ≡ some w
          → category_str w.1.category_id ≡ category_str turn.category.category_id)
      → category_str (weigh turn found).1.category_id ≡ category_str turn.category.category_id
  unfolding weigh
  Named-weigh turn none h = ground arith
  Named-weigh turn (some w) h = ground (arith, h w refl)

  Named-update :
      (turn : TurnSnapshot F) (m : TreeMap Text (ℕ × CategoryAssignment F))
      → Named m
      → Named (update (category_str turn.category.category_id) (weigh turn) m)
  Named-update turn m named k w h =
      let j = category_str turn.category.category_id in
      elim (Bool-cases (text_eq j k)) [
        | inl e ↦
            let p = eq_of_text_eq j k e in
            let found = get-update_self j (weigh turn) m in
            let v = Named-weigh turn (get j m) (λ w' h'. named j w' h') in
            let same : weigh turn (get j m) ≡ w =
              ground (arith, found, ap (λ x. get x (update j (weigh turn) m)) p) in
            ap (λ x. category_str x.1.category_id) (sym same) ∙ v ∙ p
        | inr e ↦ named k w (
            sym (
              get-update_ne j k (weigh turn) m
                (λ p. ground (arith, ap (λ x. text_eq j x) p, text_eq_refl j)))
            ∙ h)
      ]

  Named-weighted :
      (m : TreeMap Text (ℕ × CategoryAssignment F)) (turns : List (TurnSnapshot F))
      → Named m
      → Named (weighted m turns)
  unfolding weighted
  Named-weighted m [] named = named
  Named-weighted m (turn ∷ turns) named =
      Named-weighted (update (category_str turn.category.category_id) (weigh turn) m) turns
        (Named-update turn m named)

  IsSorted-weighted :
      (m : TreeMap Text (ℕ × CategoryAssignment F)) (turns : List (TurnSnapshot F))
      → IsSorted m
      → IsSorted (weighted m turns)
  unfolding weighted
  IsSorted-weighted m [] s = s
  IsSorted-weighted m (turn ∷ turns) s =
      IsSorted-weighted (update (category_str turn.category.category_id) (weigh turn) m) turns
        (IsSorted-update (category_str turn.category.category_id) (weigh turn) m s)

  pick : ℕ × CategoryAssignment F → ℕ × CategoryAssignment F → ℕ × CategoryAssignment F
  pick best w = if is_not_greater (weight_cmp best w) then w else best

  le-pick :
      (best w : ℕ × CategoryAssignment F) → (best.0 ≤ (pick best w).0) × (w.0 ≤ (pick best w).0)
  unfolding pick
  le-pick best w = ground arith

  le-heaviest :
      (best : ℕ × CategoryAssignment F) (ws : List (ℕ × CategoryAssignment F))
      → (best.0 ≤ (heaviest best ws).0) × All (λ w. w.0 ≤ (heaviest best ws).0) ws
  unfolding heaviest pick
  le-heaviest best [] = (omega arith, tt)
  le-heaviest best (w ∷ ws) =
      let (least, all) = le-heaviest (pick best w) ws in
      let (l, r) = le-pick best w in (omega (arith, l, least), (omega (arith, r, least), all))

  All-heaviest :
      (P : ℕ × CategoryAssignment F → Type 0) (best : ℕ × CategoryAssignment F)
      (ws : List (ℕ × CategoryAssignment F))
      → P best
      → All P ws
      → P (heaviest best ws)
  unfolding heaviest
  All-heaviest P best [] p ps = p
  All-heaviest P best (w ∷ ws) p ps =
      All-heaviest P (if is_not_greater (weight_cmp best w) then w else best) ws
        (elim (is_not_greater (weight_cmp best w)) as (λ b. P (if b then w else best)) [
          | true ↦ ps.0
          | false ↦ p
        ])
        ps.1

  le_of_get :
      (k : Text) (n : ℕ) (m : TreeMap Text (ℕ × CategoryAssignment F))
      → All (λ w. w.0 ≤ n) (values m)
      → tokens_of (get k m) ≤ n
  le_of_get k n [] a = omega arith
  le_of_get k n ((j, w) ∷ m) a = ground (arith, le_of_get k n m a.1)

  Recorded : TreeMap Text (ℕ × CategoryAssignment F) → ℕ × CategoryAssignment F → Type 0
  Recorded m w = tokens_of (get (category_str w.1.category_id) m) ≡ w.0

  Recorded-of_get :
      (m : TreeMap Text (ℕ × CategoryAssignment F))
      → Named m
      → (k : Text) (w : ℕ × CategoryAssignment F) → get k m ≡ some w
      → Recorded m w
  unfolding Recorded
  Recorded-of_get m named k w found =
      ap (λ x. tokens_of (get x m)) (named k w found) ∙ ap tokens_of found

  most-assignment_of :
      (k : Text) (m : TreeMap Text (ℕ × CategoryAssignment F))
      (ws : List (ℕ × CategoryAssignment F))
      → All (Recorded m) ws
      → ((n : ℕ) → All (λ w. w.0 ≤ n) ws → tokens_of (get k m) ≤ n)
      → tokens_of (get k m) ≤ tokens_of (get (category_str (assignment_of ws).category_id) m)
  unfolding Recorded
  most-assignment_of k m [] recorded le = omega (arith, le 0 tt)
  most-assignment_of k m (w ∷ ws) recorded le =
      let (first, rest) = le-heaviest w ws in
      omega (
        arith,
        le (heaviest w ws).0 (first, rest),
        All-heaviest (Recorded m) w ws recorded.0 recorded.1,
      )

  -- No category has more tokens, over the classified turns, than the one that `dominant_category`
  -- chooses.
  pub dominant_category-heaviest :
      (k : Text) (turns : List (TurnSnapshot F))
      → weight k turns ≤ weight (category_str (dominant_category turns).category_id) turns
  unfolding dominant_category
  dominant_category-heaviest k turns =
      let m = weighted [] (classified_turns turns) in
      let sorted = IsSorted-weighted [] (classified_turns turns) tt in
      let named = Named-weighted [] (classified_turns turns) (λ j w h. ground (arith, h)) in
      omega (
        arith,
        tokens-weighted k [] (classified_turns turns),
        tokens-weighted (category_str (dominant_category turns).category_id) []
            (classified_turns turns),
        most-assignment_of k m (values m)
            (All-values {P = Recorded m} m sorted (Recorded-of_get m named)) (λ n. le_of_get k n m),
      )
