-- ===== src/Turns/Keys.antt =====
-- The orders of the keys `u32` and `(WorkflowSignal, u32)` (crates/metrune-cli/src/app.rs): a signal
-- compares by its place in the declaration (crates/metrune-core/src/lib.rs).
use Prim.Native.Nat.{compare, Ordering}
use Prim.Native.Nat.Ordering.{lt, eq, gt}
use metrune.Prelude.{ℕ, ◌≡◌, arith}
use metrune.Prelude.Order.{Ord}
use metrune.Core.Types.{
  WorkflowSignal, read, searched, edited, tests_run, tests_failed, planned, delegated, git_used,
  built, deployed,
}

pub nat_cmp_refl : (a : ℕ) → compare a a ≡ eq
nat_cmp_refl a = ground arith

pub eq_of_nat_cmp : (a b : ℕ) → compare a b ≡ eq → a ≡ b
eq_of_nat_cmp a b h = ground arith

pub nat_cmp_swap : (a b : ℕ) → compare a b ≡ gt → compare b a ≡ lt
nat_cmp_swap a b h = ground arith

pub nat_cmp_trans : (a b c : ℕ) → compare a b ≡ lt → compare b c ≡ lt → compare a c ≡ lt
nat_cmp_trans a b c h k = ground arith

instance abbrev pub nat_ord : Ord ℕ
nat_ord = record {
  cmp = compare;
  cmp_refl = nat_cmp_refl;
  eq_of_cmp = eq_of_nat_cmp;
  cmp_swap = nat_cmp_swap;
  cmp_trans = nat_cmp_trans;
}

abbrev pub rank : WorkflowSignal → ℕ
rank read = 0
rank searched = 1
rank edited = 2
rank tests_run = 3
rank tests_failed = 4
rank planned = 5
rank delegated = 6
rank git_used = 7
rank built = 8
rank deployed = 9

-- The order of pairs of numbers.
abbrev pub lex : ℕ → ℕ → ℕ → ℕ → Ordering
lex a b c d = elim (compare a c) [ eq ↦ compare b d | lt ↦ lt | gt ↦ gt ]

lex_refl : (a b : ℕ) → lex a b a b ≡ eq
lex_refl a b = ground arith

eq_of_lex : (a b c d : ℕ) → lex a b c d ≡ eq → (a ≡ c) × (b ≡ d)
eq_of_lex a b c d h = ground arith

lex_swap : (a b c d : ℕ) → lex a b c d ≡ gt → lex c d a b ≡ lt
lex_swap a b c d h = ground arith

lex_trans : (a b c d e f : ℕ) → lex a b c d ≡ lt → lex c d e f ≡ lt → lex a b e f ≡ lt
lex_trans a b c d e f h k = ground arith

rank_injective : (s t : WorkflowSignal) → rank s ≡ rank t → s ≡ t
rank_injective s t h = ground arith

abbrev pub signal_cmp : WorkflowSignal × ℕ → WorkflowSignal × ℕ → Ordering
signal_cmp x y = lex (rank x.0) x.1 (rank y.0) y.1

pub signal_cmp_refl : (x : WorkflowSignal × ℕ) → signal_cmp x x ≡ eq
signal_cmp_refl x = lex_refl (rank x.0) x.1

pub eq_of_signal_cmp : (x y : WorkflowSignal × ℕ) → signal_cmp x y ≡ eq → x ≡ y
eq_of_signal_cmp x y h =
    let (p, q) = eq_of_lex (rank x.0) x.1 (rank y.0) y.1 h in λ i. (rank_injective x.0 y.0 p i, q i)

pub signal_cmp_swap : (x y : WorkflowSignal × ℕ) → signal_cmp x y ≡ gt → signal_cmp y x ≡ lt
signal_cmp_swap x y h = lex_swap (rank x.0) x.1 (rank y.0) y.1 h

pub signal_cmp_trans :
    (x y z : WorkflowSignal × ℕ) → signal_cmp x y ≡ lt → signal_cmp y z ≡ lt → signal_cmp x z ≡ lt
signal_cmp_trans x y z h k = lex_trans (rank x.0) x.1 (rank y.0) y.1 (rank z.0) z.1 h k

instance abbrev pub signal_ord : Ord (WorkflowSignal × ℕ)
signal_ord = record {
  cmp = signal_cmp;
  cmp_refl = signal_cmp_refl;
  eq_of_cmp = eq_of_signal_cmp;
  cmp_swap = signal_cmp_swap;
  cmp_trans = signal_cmp_trans;
}
