-- ===== src/Core/Complete/Counts.antt =====
-- The turns that `aggregate_session_v2` counts per method (crates/metrune-core/src/lib.rs).
use metrune.Prelude.{
  ℕ, suc, ◌≡◌, refl, sym, ap, ◌∙◌, min, Option, none, some, List, [], ◌∷◌, inl, inr, arith,
  if◌then◌else◌, Bool-cases, All, map, length,
}
use metrune.Prelude.Words.{u32_max, saturating_add, saturating_add_comm, saturating_add_assoc}
use metrune.Prelude.Text.{Text, text_eq, text_eq_refl, eq_of_text_eq}
use metrune.Prelude.Order.{text_ord}
use metrune.Prelude.TreeMap.{
  get, update, values, IsSorted, IsSorted-update, get-update_self, get-update_ne, All-values,
  sum_values, sum_values-update,
}
use metrune.Core.Category.{ClassificationMethod, method_str}
use metrune.Core.Snapshot.{TurnSnapshot, ClassificationMethodCount}
use metrune.Core.Complete.{MethodCounts, count_method, count_methods, method_counts}

abbrev count_of : Option (ClassificationMethod × ℕ) → ℕ
count_of none = 0
count_of (some w) = w.1

abbrev Named : MethodCounts → Type 0
Named m = (k : Text) (w : ClassificationMethod × ℕ) → get k m ≡ some w → method_str w.0 ≡ k

-- The counts, added up with saturation.
abbrev pub sum_counts : List ClassificationMethodCount → ℕ
sum_counts [] = 0
sum_counts (c ∷ cs) = saturating_add u32_max c.count (sum_counts cs)

module _ {F : Type 0} where
  -- The turns whose method has the name `k`.
  abbrev pub number_of : Text → List (TurnSnapshot F) → ℕ
  number_of k [] = 0
  number_of k (turn ∷ turns) =
      if text_eq (method_str turn.classification_method) k
      then suc (number_of k turns)
      else number_of k turns

count_of-update :
    (k : Text) (method : ClassificationMethod) (m : MethodCounts)
    → count_of (get k (update (method_str method) (count_method method) m)) ≡ (
        if text_eq (method_str method) k
        then saturating_add u32_max (count_of (get k m)) 1
        else count_of (get k m))
count_of-update k method m =
    let j = method_str method in
    elim (Bool-cases (text_eq j k)) [
      | inl e ↦
          let p = eq_of_text_eq j k e in
          rw (e, ← p) (ap count_of (get-update_self j (count_method method) m) ∙ counted (get j m))
      | inr e ↦ rw e (
          ap count_of (
            get-update_ne j k (count_method method) m
              (λ p. ground (arith, ap (λ x. text_eq j x) p, text_eq_refl j))))
    ]
  where
    counted :
        (found : Option (ClassificationMethod × ℕ))
        → count_of (some (count_method method found)) ≡ saturating_add u32_max (count_of found) 1
    counted none = refl
    counted (some w) = refl

Named-update :
    (method : ClassificationMethod) (m : MethodCounts)
    → Named m
    → Named (update (method_str method) (count_method method) m)
Named-update method m named k w h =
    let j = method_str method in
    elim (Bool-cases (text_eq j k)) [
      | inl e ↦
          let p = eq_of_text_eq j k e in
          let found = get-update_self j (count_method method) m in
          let same : count_method method (get j m) ≡ w =
            ground (arith, found, ap (λ x. get x (update j (count_method method) m)) p) in
          ap (λ x. method_str x.0) (sym same) ∙ counted (get j m) (λ v e'. named j v e') ∙ p
      | inr e ↦ named k w (
          sym (
            get-update_ne j k (count_method method) m
              (λ p. ground (arith, ap (λ x. text_eq j x) p, text_eq_refl j)))
          ∙ h)
    ]
  where
    counted :
        (found : Option (ClassificationMethod × ℕ))
        → ((v : ClassificationMethod × ℕ) → found ≡ some v → method_str v.0 ≡ method_str method)
        → method_str (count_method method found).0 ≡ method_str method
    counted none h = refl
    counted (some v) h = h v refl

sum-capped :
    (ws : List (ClassificationMethod × ℕ))
    → sum_values (saturating_add u32_max) 0 (λ w. w.1) ws
      ≡ saturating_add u32_max 0 (sum_values (saturating_add u32_max) 0 (λ w. w.1) ws)
sum-capped [] = refl
sum-capped (w ∷ ws) = omega arith

abbrev count_entry : ClassificationMethod × ℕ → ClassificationMethodCount
count_entry w = record { method = w.0; count = w.1 }

sum_counts-map :
    (ws : List (ClassificationMethod × ℕ))
    → sum_counts (map count_entry ws) ≡ sum_values (saturating_add u32_max) 0 (λ w. w.1) ws
sum_counts-map [] = refl
sum_counts-map (w ∷ ws) = rw (sum_counts-map ws)

All-count_entry :
    (P : ClassificationMethodCount → Type 0) (ws : List (ClassificationMethod × ℕ))
    → All (λ w. P (count_entry w)) ws
    → All P (map count_entry ws)
All-count_entry P [] a = tt
All-count_entry P (w ∷ ws) a = (a.0, All-count_entry P ws a.1)

module _ {F : Type 0} where
  count_of-count_methods :
      (k : Text) (m : MethodCounts) (turns : List (TurnSnapshot F))
      → count_of (get k m) ≡ min (count_of (get k m)) u32_max
      → count_of (get k (count_methods m turns))
        ≡ saturating_add u32_max (count_of (get k m)) (number_of k turns)
  unfolding count_methods
  count_of-count_methods k m [] capped = omega (arith, capped)
  count_of-count_methods k m (turn ∷ turns) capped =
      let one = count_of-update k turn.classification_method m in
      let rest =
        count_of-count_methods k
          (update (method_str turn.classification_method) (count_method turn.classification_method)
            m)
          turns in
      ground (arith, one, rest)

  Named-count_methods :
      (m : MethodCounts) (turns : List (TurnSnapshot F)) → Named m → Named (count_methods m turns)
  unfolding count_methods
  Named-count_methods m [] named = named
  Named-count_methods m (turn ∷ turns) named =
      Named-count_methods
        (update (method_str turn.classification_method) (count_method turn.classification_method) m)
        turns (Named-update turn.classification_method m named)

  IsSorted-count_methods :
      (m : MethodCounts) (turns : List (TurnSnapshot F))
      → IsSorted m
      → IsSorted (count_methods m turns)
  unfolding count_methods
  IsSorted-count_methods m [] s = s
  IsSorted-count_methods m (turn ∷ turns) s =
      IsSorted-count_methods
        (update (method_str turn.classification_method) (count_method turn.classification_method) m)
        turns
        (IsSorted-update (method_str turn.classification_method)
          (count_method turn.classification_method) m s)

  sum_counts-count_methods :
      (m : MethodCounts) (turns : List (TurnSnapshot F))
      → sum_values (saturating_add u32_max) 0 (λ w. w.1) (values (count_methods m turns))
        ≡ saturating_add u32_max
            (length turns)
            (sum_values (saturating_add u32_max) 0 (λ w. w.1) (values m))
  unfolding count_methods
  sum_counts-count_methods m [] = sum-capped (values m)
  sum_counts-count_methods m (turn ∷ turns) =
      let f = count_method turn.classification_method in
      let step =
        sum_values-update (saturating_add u32_max) 0 (saturating_add_comm u32_max)
          (saturating_add_assoc u32_max) (λ w. w.1) (method_str turn.classification_method) f 1 m
          refl (λ w. omega arith) in
      omega (
        arith,
        step,
        sum_counts-count_methods (update (method_str turn.classification_method) f m) turns,
      )

  -- Each count listed is the number of the turns of its method, and the counts add up to the number
  -- of all turns, up to the largest u32.
  pub method_counts-exact :
      (turns : List (TurnSnapshot F))
      → All
          (λ c. c.count ≡ min (number_of (method_str c.method) turns) u32_max)
          (method_counts turns)
        × (sum_counts (method_counts turns) ≡ min (length turns) u32_max)
  unfolding method_counts
  method_counts-exact turns =
      let m = count_methods [] turns in
      let named = Named-count_methods [] turns (λ k w h. ground (arith, h)) in
      let sorted = IsSorted-count_methods [] turns tt in
      let all =
        All-values {P = λ w. w.1 ≡ min (number_of (method_str w.0) turns) u32_max} m sorted
          (λ k w h. omega (
            arith,
            ap count_of (sym h)
                ∙ sym (ap (λ x. count_of (get x m)) (named k w h))
                ∙ count_of-count_methods (method_str w.0) [] turns refl,
          )) in
      (
        All-count_entry (λ c. c.count ≡ min (number_of (method_str c.method) turns) u32_max)
            (values m) all,
        omega (arith, sum_counts-map (values m), sum_counts-count_methods [] turns),
      )
