-- ===== src/Prelude/Order.antt =====
-- The trait `Ord` with its laws, at texts and at pairs of texts.
use Prim.Native.Nat.{compare, Ordering}
use Prim.Native.Nat.Ordering.{lt, eq, gt}
use metrune.Prelude.{◌≡◌, refl, [], ◌∷◌, arith}
use metrune.Prelude.Text.{Text}

pub record Ord {ℓ} (K : Type ℓ) : Type ℓ where
  pub cmp : K → K → Ordering
  pub cmp_refl : (a : K) → cmp a a ≡ eq
  pub eq_of_cmp : (a b : K) → cmp a b ≡ eq → a ≡ b
  pub cmp_swap : (a b : K) → cmp a b ≡ gt → cmp b a ≡ lt
  pub cmp_trans : (a b c : K) → cmp a b ≡ lt → cmp b c ≡ lt → cmp a c ≡ lt

abbrev pub lex_text : Text → Text → Ordering
lex_text [] [] = eq
lex_text [] (b ∷ t) = lt
lex_text (a ∷ s) [] = gt
lex_text (a ∷ s) (b ∷ t) =
    let rest = lex_text s t in elim (compare a b) [ eq ↦ rest | lt ↦ lt | gt ↦ gt ]

pub lex_text_refl : (s : Text) → lex_text s s ≡ eq
lex_text_refl [] = refl
lex_text_refl (a ∷ s) = ground (arith, lex_text_refl s)

pub eq_of_lex_text : (s t : Text) → lex_text s t ≡ eq → s ≡ t
eq_of_lex_text [] [] h = refl
eq_of_lex_text [] (b ∷ t) h = ground arith
eq_of_lex_text (a ∷ s) [] h = ground arith
eq_of_lex_text (a ∷ s) (b ∷ t) h = ground (arith, eq_of_lex_text s t)

pub lex_text_swap : (s t : Text) → lex_text s t ≡ gt → lex_text t s ≡ lt
lex_text_swap [] [] h = ground arith
lex_text_swap [] (b ∷ t) h = ground arith
lex_text_swap (a ∷ s) [] h = refl
lex_text_swap (a ∷ s) (b ∷ t) h = ground (arith, lex_text_swap s t)

pub lex_text_trans : (s t u : Text) → lex_text s t ≡ lt → lex_text t u ≡ lt → lex_text s u ≡ lt
lex_text_trans [] [] u h k = k
lex_text_trans [] (b ∷ t) [] h k = ground arith
lex_text_trans [] (b ∷ t) (c ∷ u) h k = refl
lex_text_trans (a ∷ s) [] u h k = ground arith
lex_text_trans (a ∷ s) (b ∷ t) [] h k = ground arith
lex_text_trans (a ∷ s) (b ∷ t) (c ∷ u) h k = ground (arith, lex_text_trans s t u)

instance abbrev pub text_ord : Ord Text
text_ord = record {
  cmp = lex_text;
  cmp_refl = lex_text_refl;
  eq_of_cmp = eq_of_lex_text;
  cmp_swap = lex_text_swap;
  cmp_trans = lex_text_trans;
}

abbrev pub pair_cmp : Text × Text → Text × Text → Ordering
pair_cmp x y = elim (lex_text x.0 y.0) [ eq ↦ lex_text x.1 y.1 | lt ↦ lt | gt ↦ gt ]

pub pair_cmp_refl : (x : Text × Text) → pair_cmp x x ≡ eq
pair_cmp_refl x = ground (arith, lex_text_refl x.0, lex_text_refl x.1)

pub eq_of_pair_cmp : (x y : Text × Text) → pair_cmp x y ≡ eq → x ≡ y
eq_of_pair_cmp x y h = ground (arith, eq_of_lex_text x.0 y.0, eq_of_lex_text x.1 y.1)

pub pair_cmp_swap : (x y : Text × Text) → pair_cmp x y ≡ gt → pair_cmp y x ≡ lt
pair_cmp_swap x y h =
    ground (
      arith,
      eq_of_lex_text x.0 y.0,
      lex_text_refl y.0,
      lex_text_swap x.0 y.0,
      lex_text_swap x.1 y.1,
    )

pub pair_cmp_trans :
    (x y z : Text × Text) → pair_cmp x y ≡ lt → pair_cmp y z ≡ lt → pair_cmp x z ≡ lt
pair_cmp_trans x y z h k = ground (
  arith,
  eq_of_lex_text x.0 y.0,
  eq_of_lex_text y.0 z.0,
  lex_text_trans x.0 y.0 z.0,
  lex_text_trans x.1 y.1 z.1,
  lex_text_refl z.0,
)

-- Pairs compare by the first part, then by the second.
instance abbrev pub pair_ord : Ord (Text × Text)
pair_ord = record {
  cmp = pair_cmp;
  cmp_refl = pair_cmp_refl;
  eq_of_cmp = eq_of_pair_cmp;
  cmp_swap = pair_cmp_swap;
  cmp_trans = pair_cmp_trans;
}
