-- ===== src/Pricing/Selection.antt =====
-- The entry that `PriceBook::estimate` selects (crates/metrune-core/src/pricing.rs).
use mathlib.Core.Path.{subst}
use metrune.Prelude.{
  ℕ, suc, ◌≡◌, refl, sym, ap, Bool, true, false, none, some, List, [], ◌∷◌, arith, if◌then◌else◌,
  All, ◌⊎◌, inl, inr, Bool-cases,
}
use metrune.Prelude.Text.{Text, to_ascii_lowercase}
use metrune.Core.Types.{DateTime, UsageMessage}
use metrune.Core.Identity.{canonical_model_id}
use metrune.Pricing.{
  PriceEntry, PriceBook, Rank, rank_leb, rank_of, is_applicable, candidates, highest, max_candidate,
  selected_entry,
}

rank_leb_refl : (a : Rank) → rank_leb a a ≡ true
unfolding rank_leb
rank_leb_refl a = ground arith

rank_leb_trans : (a b c : Rank) → rank_leb a b ≡ true → rank_leb b c ≡ true → rank_leb a c ≡ true
unfolding rank_leb
rank_leb_trans a b c h k = ground arith

rank_leb_total : (a b : Rank) → rank_leb a b ≡ false → rank_leb b a ≡ true
unfolding rank_leb
rank_leb_total a b h = ground arith

module _ {F : Type 0} where
  -- The ranks of the entries that apply are at most `top`.
  abbrev pub AtMost : Text → Text → DateTime → Rank → ℕ → List (PriceEntry F) → Type 0
  AtMost canonical provider now top index [] = Unit
  AtMost canonical provider now top index (entry ∷ entries) =
      ((is_applicable canonical provider now entry ≡ false)
        ⊎ (rank_leb (rank_of index entry) top ≡ true))
      × AtMost canonical provider now top (suc index) entries

  -- `entry` stands at the place `i` of a list that starts at `index`.
  abbrev pub IsAt : PriceEntry F → ℕ → ℕ → List (PriceEntry F) → Type 0
  IsAt entry i index [] = ⊥
  IsAt entry i index (e ∷ es) = ((entry ≡ e) × (i ≡ index)) ⊎ IsAt entry i (suc index) es

  -- No entry applies.
  abbrev pub NoneApplies : Text → Text → DateTime → List (PriceEntry F) → Type 0
  NoneApplies canonical provider now entries =
      All (λ e. is_applicable canonical provider now e ≡ false) entries

  -- What a candidate says of the entries.
  abbrev pub Stands :
      Text → Text → DateTime → ℕ → List (PriceEntry F) → PriceEntry F × Rank → Type 0
  Stands canonical provider now index entries c =
      IsAt c.0 c.1.index index entries
      × (is_applicable canonical provider now c.0 ≡ true)
      × (c.1 ≡ rank_of c.1.index c.0)

  abbrev higher : PriceEntry F × Rank → PriceEntry F × Rank → PriceEntry F × Rank
  higher best c = if rank_leb best.1 c.1 then c else best

  le-higher :
      (best c : PriceEntry F × Rank)
      → (rank_leb best.1 (higher best c).1 ≡ true) × (rank_leb c.1 (higher best c).1 ≡ true)
  le-higher best c = elim (Bool-cases (rank_leb best.1 c.1)) [
    | inl e ↦ rw e (e, rank_leb_refl c.1)
    | inr e ↦ rw e (rank_leb_refl best.1, rank_leb_total best.1 c.1 e)
  ]

  le-highest :
      (best : PriceEntry F × Rank) (cs : List (PriceEntry F × Rank)) (top : Rank)
      → rank_leb top best.1 ≡ true
      → rank_leb top (highest best cs).1 ≡ true
  unfolding highest
  le-highest best [] top h = h
  le-highest best (c ∷ cs) top h =
      le-highest (higher best c) cs top
        (rank_leb_trans top best.1 (higher best c).1 h (le-higher best c).0)

  All-highest :
      (best : PriceEntry F × Rank) (cs : List (PriceEntry F × Rank))
      → All (λ x. rank_leb x.1 (highest best cs).1 ≡ true) cs
  unfolding highest
  All-highest best [] = tt
  All-highest best (c ∷ cs) =
      (le-highest (higher best c) cs c.1 (le-higher best c).1, All-highest (higher best c) cs)

  highest-All :
      (P : PriceEntry F × Rank → Type 0) (best : PriceEntry F × Rank)
      (cs : List (PriceEntry F × Rank))
      → P best
      → All P cs
      → P (highest best cs)
  unfolding highest
  highest-All P best [] p ps = p
  highest-All P best (c ∷ cs) p ps =
      highest-All P (if rank_leb best.1 c.1 then c else best) cs
        (elim (rank_leb best.1 c.1) as (λ b. P (if b then c else best)) [ true ↦ ps.0 | false ↦ p ])
        ps.1

  module _ (canonical provider : Text) (now : DateTime) where
    Stands-later :
        (index : ℕ) (e : PriceEntry F) (es : List (PriceEntry F)) (cs : List (PriceEntry F × Rank))
        → All (Stands canonical provider now (suc index) es) cs
        → All (Stands canonical provider now index (e ∷ es)) cs
    Stands-later index e es [] a = tt
    Stands-later index e es (c ∷ cs) a =
        let (at, applies, rank) = a.0 in ((inr at, applies, rank), Stands-later index e es cs a.1)

    Stands-candidates :
        (index : ℕ) (entries : List (PriceEntry F))
        → All
            (Stands canonical provider now index entries)
            (candidates canonical provider now index entries)
    unfolding candidates
    Stands-candidates index [] = tt
    Stands-candidates index (e ∷ es) =
        let later =
          Stands-later index e es (candidates canonical provider now (suc index) es)
            (Stands-candidates (suc index) es) in
        elim (Bool-cases (is_applicable canonical provider now e)) [
          | inl h ↦ rw h ((inl (refl, refl), h, refl), later)
          | inr h ↦ rw h later
        ]

    AtMost-of_All :
        (top : Rank) (index : ℕ) (entries : List (PriceEntry F))
        → All (λ c. rank_leb c.1 top ≡ true) (candidates canonical provider now index entries)
        → AtMost canonical provider now top index entries
    unfolding candidates
    AtMost-of_All top index [] a = tt
    AtMost-of_All top index (e ∷ es) a =
        let (first, rest) = split (is_applicable canonical provider now e) refl a in
        (first, AtMost-of_All top (suc index) es rest)
      where
        split :
            (b : Bool)
            → is_applicable canonical provider now e ≡ b
            → All
                (λ c. rank_leb c.1 top ≡ true)
                (if b
                  then (e, rank_of index e) ∷ candidates canonical provider now (suc index) es
                  else candidates canonical provider now (suc index) es)
            → ((is_applicable canonical provider now e ≡ false)
                ⊎ (rank_leb (rank_of index e) top ≡ true))
              × All
                  (λ c. rank_leb c.1 top ≡ true)
                  (candidates canonical provider now (suc index) es)
        split true h a = (inr a.0, a.1)
        split false h a = (inl h, a)

    NoneApplies-of_nil :
        (index : ℕ) (entries : List (PriceEntry F))
        → candidates canonical provider now index entries ≡ []
        → NoneApplies canonical provider now entries
    unfolding candidates
    NoneApplies-of_nil index [] h = tt
    NoneApplies-of_nil index (e ∷ es) h =
        let (first, rest) = split (is_applicable canonical provider now e) refl h in
        (first, NoneApplies-of_nil (suc index) es rest)
      where
        split :
            (b : Bool)
            → is_applicable canonical provider now e ≡ b
            → (if b
                then (e, rank_of index e) ∷ candidates canonical provider now (suc index) es
                else candidates canonical provider now (suc index) es)
              ≡ []
            → (is_applicable canonical provider now e ≡ false)
              × (candidates canonical provider now (suc index) es ≡ [])
        split true h none_left = absurd (ground (arith, none_left))
        split false h none_left = (h, none_left)

  -- The entry at the place `i` is chosen: it applies, and no entry that applies has a higher rank.
  abbrev pub IsChosen : PriceBook F → DateTime → UsageMessage F → PriceEntry F → ℕ → Type 0
  IsChosen book now m entry i =
      let canonical = canonical_model_id m.model_id in
      let provider = to_ascii_lowercase m.provider_id in
      IsAt entry i 0 book.entries
      × (is_applicable canonical provider now entry ≡ true)
      × AtMost canonical provider now (rank_of i entry) 0 book.entries

  -- Either no entry of the book applies to the message, and none is selected, or the selected one
  -- is an entry of the book that applies, and no entry that applies has a higher rank: a price of
  -- the provider goes before one of any provider, then the authority, the later start and the later
  -- place decide.
  pub selected_entry-IsChosen :
      (book : PriceBook F) (now : DateTime) (m : UsageMessage F)
      → ((selected_entry book now m ≡ none)
          × NoneApplies
              (canonical_model_id m.model_id)
              (to_ascii_lowercase m.provider_id)
              now
              book.entries)
        ⊎ ((entry : PriceEntry F) × (i : ℕ) × (selected_entry book now m
              ≡ some (entry, rank_of i entry))
            × IsChosen book now m entry i)
  unfolding selected_entry
  selected_entry-IsChosen book now m = go (candidates canonical provider now 0 book.entries) refl
    where
      canonical : Text
      canonical = canonical_model_id m.model_id

      provider : Text
      provider = to_ascii_lowercase m.provider_id

      go :
          (cs : List (PriceEntry F × Rank))
          → candidates canonical provider now 0 book.entries ≡ cs
          → ((max_candidate cs ≡ none) × NoneApplies canonical provider now book.entries)
            ⊎ ((entry : PriceEntry F) × (i : ℕ) × (max_candidate cs ≡ some (entry, rank_of i entry))
                × IsChosen book now m entry i)
      go [] h = inl (refl, NoneApplies-of_nil canonical provider now 0 book.entries h)
      go (c ∷ cs) h =
          let best = highest c cs in
          let stands =
            subst (All (Stands canonical provider now 0 book.entries)) h
              (Stands-candidates canonical provider now 0 book.entries) in
          let (at, applies, rank) =
            highest-All (Stands canonical provider now 0 book.entries) c cs stands.0 stands.1 in
          let least : All (λ x. rank_leb x.1 best.1 ≡ true) (c ∷ cs) =
            (le-highest c cs c.1 (rank_leb_refl c.1), All-highest c cs) in
          let most =
            AtMost-of_All canonical provider now best.1 0 book.entries
              (subst (All (λ x. rank_leb x.1 best.1 ≡ true)) (sym h) least) in
          inr (
            best.0,
            best.1.index,
            ap (λ r. some (best.0, r)) rank,
            (at, applies, subst (λ r. AtMost canonical provider now r 0 book.entries) rank most),
          )
