-- ===== src/Prelude/Words.antt =====
-- Unsigned machine integers: the bounds of u32 and u64, and Rust's saturating addition.
use metrune.Prelude.{ℕ, ◌+◌, ◌-◌, ◌^◌, ◌≡◌, min, arith}

abbrev pub u64_max : ℕ
u64_max = 2 ^ 64 - 1

abbrev pub u32_max : ℕ
u32_max = 2 ^ 32 - 1

-- `a.saturating_add(b)` at a type whose largest value is `cap`.
abbrev pub saturating_add : ℕ → ℕ → ℕ → ℕ
saturating_add cap a b = min (a + b) cap

pub saturating_add_comm : (cap a b : ℕ) → saturating_add cap a b ≡ saturating_add cap b a
saturating_add_comm cap a b = omega arith

pub saturating_add_assoc :
    (cap a b c : ℕ)
    → saturating_add cap (saturating_add cap a b) c ≡ saturating_add cap a (saturating_add cap b c)
saturating_add_assoc cap a b c = omega arith
