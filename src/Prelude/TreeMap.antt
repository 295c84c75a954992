-- ===== src/Prelude/TreeMap.antt =====
-- `BTreeMap` as an association list in the order of its keys, and its `entry` interface.
use Prim.Native.Nat.Ordering.{lt, eq, gt}
use metrune.Prelude.{
  ◌≡◌, ◌≢◌, refl, ap, Option, none, some, List, [], ◌∷◌, arith, All, Bool, true, ◌+◌, ◌≤◌, length,
  select,
}
use metrune.Prelude.Order.{Ord}

abbrev pub TreeMap : Type 0 → Type 0 → Type 0
TreeMap K V = List (K × V)

abbrev pub values : {K V : Type 0} → TreeMap K V → List V
values [] = []
values ((k, v) ∷ m) = v ∷ values m

module _ {K V : Type 0} ⦃o : Ord K⦄ where
  abbrev pub get : K → TreeMap K V → Option V
  get k [] = none
  get k ((j, w) ∷ m) =
      let rest = get k m in elim (o.cmp k j) [ lt ↦ none | eq ↦ some w | gt ↦ rest ]

  -- `*m.entry(k)` is set to `f none` where the key is vacant, and to `f (some w)` at a value `w`.
  abbrev pub update : K → (Option V → V) → TreeMap K V → TreeMap K V
  update k f [] = (k, f none) ∷ []
  update k f ((j, w) ∷ m) =
      let rest = update k f m in
      elim (o.cmp k j) [
        | lt ↦ (k, f none) ∷ (j, w) ∷ m
        | eq ↦ (j, f (some w)) ∷ m
        | gt ↦ (j, w) ∷ rest
      ]

  -- Every key of the map comes after `k`.
  abbrev pub IsAbove : K → TreeMap K V → Type 0
  IsAbove k m = All (λ e. o.cmp k e.0 ≡ lt) m

  abbrev pub IsSorted : TreeMap K V → Type 0
  IsSorted [] = Unit
  IsSorted ((k, v) ∷ m) = IsAbove k m × IsSorted m

module _ {K V : Type 0} ⦃o : Ord K⦄ where
  IsAbove-trans : (j k : K) (m : TreeMap K V) → o.cmp j k ≡ lt → IsAbove k m → IsAbove j m
  IsAbove-trans j k [] h a = tt
  IsAbove-trans j k (e ∷ m) h a = (o.cmp_trans j k e.0 h a.0, IsAbove-trans j k m h a.1)

  IsAbove-update :
      (j k : K) (f : Option V → V) (m : TreeMap K V)
      → o.cmp j k ≡ lt
      → IsAbove j m
      → IsAbove j (update k f m)
  IsAbove-update j k f [] h a = (h, tt)
  IsAbove-update j k f ((i, w) ∷ m) h a = ground (arith, IsAbove-update j k f m)

  -- An update keeps the keys strictly increasing.
  pub IsSorted-update :
      (k : K) (f : Option V → V) (m : TreeMap K V) → IsSorted m → IsSorted (update k f m)
  IsSorted-update k f [] s = (tt, tt)
  IsSorted-update k f ((j, w) ∷ m) s =
      ground
        (arith, o.cmp_swap k j, IsAbove-trans k j m, IsAbove-update j k f m, IsSorted-update k f m)

-- What a list of values adds up to.
abbrev pub sum_values : {V M : Type 0} → (M → M → M) → M → (V → M) → List V → M
sum_values plus unit g [] = unit
sum_values plus unit g (v ∷ vs) = plus (g v) (sum_values plus unit g vs)

module _ {K V M : Type 0} ⦃o : Ord K⦄ (plus : M → M → M) (unit : M)
    (comm : (a b : M) → plus a b ≡ plus b a)
    (assoc : (a b c : M) → plus (plus a b) c ≡ plus a (plus b c)) (g : V → M) where
  -- An update that adds `d` to the value at its key adds `d` to the whole.
  pub sum_values-update :
      (k : K) (f : Option V → V) (d : M) (m : TreeMap K V)
      → g (f none) ≡ d
      → ((w : V) → g (f (some w)) ≡ plus d (g w))
      → sum_values plus unit g (values (update k f m)) ≡ plus d (sum_values plus unit g (values m))
  sum_values-update k f d [] new old = ap (λ x. plus x unit) new
  sum_values-update k f d ((j, w) ∷ m) new old = ground (
    arith,
    old w,
    sum_values-update k f d m new old,
    assoc d (g w) (sum_values plus unit g (values m)),
    assoc (g w) d (sum_values plus unit g (values m)),
    comm d (g w),
  )

-- `Option::map`
abbrev pub map_option : {V W : Type 0} → (V → W) → Option V → Option W
map_option f none = none
map_option f (some v) = some (f v)

module _ {K V : Type 0} ⦃o : Ord K⦄ where
  pub get-update_self :
      (k : K) (f : Option V → V) (m : TreeMap K V) → get k (update k f m) ≡ some (f (get k m))
  get-update_self k f [] = ground (arith, o.cmp_refl k)
  get-update_self k f ((j, w) ∷ m) = ground (arith, o.cmp_refl k, get-update_self k f m)

  pub get-update_ne :
      (k j : K) (f : Option V → V) (m : TreeMap K V) → j ≢ k → get j (update k f m) ≡ get j m
  get-update_ne k j f [] h = ground (arith, o.eq_of_cmp j k)
  get-update_ne k j f ((i, w) ∷ m) h =
      ground (arith, o.eq_of_cmp j k, o.eq_of_cmp k i, o.cmp_trans j k i, get-update_ne k j f m h)

  -- `UPDATE … WHERE key = k`: changes the value at a key that is there.
  abbrev pub modify : K → (V → V) → TreeMap K V → TreeMap K V
  modify k f [] = []
  modify k f ((j, w) ∷ m) =
      let rest = modify k f m in
      elim (o.cmp k j) [ lt ↦ (j, w) ∷ m | eq ↦ (j, f w) ∷ m | gt ↦ (j, w) ∷ rest ]

  pub get-modify_self :
      (k : K) (f : V → V) (m : TreeMap K V) → get k (modify k f m) ≡ map_option f (get k m)
  get-modify_self k f [] = refl
  get-modify_self k f ((j, w) ∷ m) = ground (arith, get-modify_self k f m)

  pub get-modify_ne :
      (k j : K) (f : V → V) (m : TreeMap K V) → j ≢ k → get j (modify k f m) ≡ get j m
  get-modify_ne k j f [] h = refl
  get-modify_ne k j f ((i, w) ∷ m) h =
      ground (arith, o.eq_of_cmp j i, o.eq_of_cmp k i, get-modify_ne k j f m h)

module _ {K V : Type 0} ⦃o : Ord K⦄ where
  -- `m.retain(|_, v| p(v))`
  abbrev pub retain : (V → Bool) → TreeMap K V → TreeMap K V
  retain p = select (λ e. p e.1)

  -- `m.remove(k)`
  abbrev pub remove : K → TreeMap K V → TreeMap K V
  remove k [] = []
  remove k ((j, w) ∷ m) =
      let rest = remove k m in elim (o.cmp k j) [ lt ↦ (j, w) ∷ m | eq ↦ m | gt ↦ (j, w) ∷ rest ]

  pub get-retain :
      (p : V → Bool) (k : K) (w : V) (m : TreeMap K V)
      → get k m ≡ some w
      → p w ≡ true
      → get k (retain p m) ≡ some w
  get-retain p k w [] found kept = ground arith
  get-retain p k w ((j, v) ∷ m) found kept = ground (arith, get-retain p k w m)

  pub get_of_IsAbove : (k : K) (m : TreeMap K V) → IsAbove k m → get k m ≡ none
  get_of_IsAbove k [] above = refl
  get_of_IsAbove k ((j, w) ∷ m) above = ground arith

  IsAbove-retain : (k : K) (p : V → Bool) (m : TreeMap K V) → IsAbove k m → IsAbove k (retain p m)
  IsAbove-retain k p [] above = tt
  IsAbove-retain k p ((j, w) ∷ m) above = ground (arith, IsAbove-retain k p m above.1)

  pub IsSorted-retain : (p : V → Bool) (m : TreeMap K V) → IsSorted m → IsSorted (retain p m)
  IsSorted-retain p [] s = tt
  IsSorted-retain p ((j, w) ∷ m) s =
      ground (arith, IsAbove-retain j p m s.0, IsSorted-retain p m s.1)

  IsAbove-remove : (k j : K) (m : TreeMap K V) → IsAbove k m → IsAbove k (remove j m)
  IsAbove-remove k j [] above = tt
  IsAbove-remove k j ((i, w) ∷ m) above = ground (arith, IsAbove-remove k j m above.1)

  pub IsSorted-remove : (k : K) (m : TreeMap K V) → IsSorted m → IsSorted (remove k m)
  IsSorted-remove k [] s = tt
  IsSorted-remove k ((j, w) ∷ m) s =
      ground (arith, IsAbove-remove j k m s.0, IsSorted-remove k m s.1)

  pub get-remove_self : (k : K) (m : TreeMap K V) → IsSorted m → get k (remove k m) ≡ none
  get-remove_self k [] s = refl
  get-remove_self k ((j, w) ∷ m) s =
      ground (arith, o.eq_of_cmp k j, get_of_IsAbove j m s.0, get-remove_self k m s.1)

  pub get-remove_ne :
      (k j : K) (m : TreeMap K V) → IsSorted m → j ≢ k → get j (remove k m) ≡ get j m
  get-remove_ne k j [] s h = refl
  get-remove_ne k j ((i, w) ∷ m) s h = ground (
    arith,
    o.eq_of_cmp j i,
    o.eq_of_cmp k i,
    get_of_IsAbove j m,
    IsAbove-trans j i m,
    get-remove_ne k j m s.1 h,
  )

  pub length-update-le :
      (k : K) (f : Option V → V) (m : TreeMap K V) → length (update k f m) ≤ length m + 1
  length-update-le k f [] = omega arith
  length-update-le k f ((j, w) ∷ m) = ground (arith, length-update-le k f m)

  pub length-update_of_some :
      (k : K) (f : Option V → V) (v : V) (m : TreeMap K V)
      → get k m ≡ some v
      → length (update k f m) ≡ length m
  length-update_of_some k f v [] h = ground arith
  length-update_of_some k f v ((j, w) ∷ m) h = ground (arith, length-update_of_some k f v m)

  pub length-remove-le : (k : K) (m : TreeMap K V) → length (remove k m) ≤ length m
  length-remove-le k [] = omega arith
  length-remove-le k ((j, w) ∷ m) = ground (arith, length-remove-le k m)

module _ {K V : Type 0} ⦃o : Ord K⦄ where
  get_of_lt : (k j : K) (m : TreeMap K V) → o.cmp k j ≡ lt → IsAbove j m → get k m ≡ none
  get_of_lt k j m h above = get_of_IsAbove k m (IsAbove-trans k j m h above)

  get-skip :
      (j k : K) (v w : V) (m : TreeMap K V)
      → IsAbove j m
      → get k m ≡ some w
      → get k ((j, v) ∷ m) ≡ some w
  get-skip j k v w m above found =
      ground (arith, o.eq_of_cmp k j, get_of_IsAbove j m, get_of_lt k j m)

  -- What holds of each value found at a key holds of all the values.
  pub All-values :
      {P : V → Type 0} (m : TreeMap K V)
      → IsSorted m
      → ((k : K) (w : V) → get k m ≡ some w → P w)
      → All P (values m)
  All-values [] s h = tt
  All-values ((j, v) ∷ m) s h = (
    h j v (ground (arith, o.cmp_refl j)),
    All-values m s.1 (λ k w found. h k w (get-skip j k v w m s.0 found)),
  )

  -- Each entry is found at its key.
  pub All-found : (m : TreeMap K V) → IsSorted m → All (λ e. get e.0 m ≡ some e.1) m
  All-found [] s = tt
  All-found ((j, v) ∷ m) s = (ground (arith, o.cmp_refl j), weaken m (All-found m s.1))
    where
      weaken :
          (es : List (K × V))
          → All (λ e. get e.0 m ≡ some e.1) es
          → All (λ e. get e.0 ((j, v) ∷ m) ≡ some e.1) es
      weaken [] a = tt
      weaken (e ∷ es) a = (get-skip j e.0 v e.1 m s.0 a.0, weaken es a.1)

  IsAbove-modify : (j k : K) (f : V → V) (m : TreeMap K V) → IsAbove j m → IsAbove j (modify k f m)
  IsAbove-modify j k f [] a = tt
  IsAbove-modify j k f ((i, w) ∷ m) a = ground (arith, IsAbove-modify j k f m a.1)

  pub IsSorted-modify : (k : K) (f : V → V) (m : TreeMap K V) → IsSorted m → IsSorted (modify k f m)
  IsSorted-modify k f [] s = tt
  IsSorted-modify k f ((j, w) ∷ m) s =
      ground (arith, IsAbove-modify j k f m s.0, IsSorted-modify k f m s.1)
