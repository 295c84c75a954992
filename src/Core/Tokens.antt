-- ===== src/Core/Tokens.antt =====
-- `TokenBreakdown` of crates/metrune-core/src/lib.rs: five u64 counters that saturate.
use metrune.Prelude.{ℕ, ◌+◌, ◌≡◌, min, ap, ◌∙◌, arith}
use metrune.Prelude.Words.{u64_max, saturating_add}

pub record TokenBreakdown : Type 0 where
  pub input : ℕ
  pub output : ℕ
  pub cache_read : ℕ
  pub cache_write : ℕ
  pub reasoning : ℕ

abbrev pub default_tokens : TokenBreakdown
default_tokens = record { input = 0; output = 0; cache_read = 0; cache_write = 0; reasoning = 0 }

abbrev pub add_u64 : ℕ → ℕ → ℕ
add_u64 = saturating_add u64_max

unfoldable pub total : TokenBreakdown → ℕ
total t =
    add_u64 (add_u64 (add_u64 (add_u64 t.input t.output) t.cache_read) t.cache_write) t.reasoning

unfoldable pub add_assign : TokenBreakdown → TokenBreakdown → TokenBreakdown
add_assign t other = record {
  input = add_u64 t.input other.input;
  output = add_u64 t.output other.output;
  cache_read = add_u64 t.cache_read other.cache_read;
  cache_write = add_u64 t.cache_write other.cache_write;
  reasoning = add_u64 t.reasoning other.reasoning;
}

-- The sum of the five counters, with no bound.
abbrev pub exact_total : TokenBreakdown → ℕ
exact_total t = t.input + t.output + t.cache_read + t.cache_write + t.reasoning

-- `total` is the exact sum, capped once.
pub total-eq-min : (t : TokenBreakdown) → total t ≡ min (exact_total t) u64_max
unfolding total
total-eq-min t = omega arith

pub add_assign_comm : (a b : TokenBreakdown) → add_assign a b ≡ add_assign b a
unfolding add_assign
add_assign_comm a b = ground arith

pub add_assign_assoc :
    (a b c : TokenBreakdown) → add_assign (add_assign a b) c ≡ add_assign a (add_assign b c)
unfolding add_assign
add_assign_assoc a b c = ground arith

add_interchange :
    (a b c d : ℕ) → add_u64 (add_u64 a b) (add_u64 c d) ≡ add_u64 (add_u64 a c) (add_u64 b d)
add_interchange a b c d = omega arith

-- Adding breakdowns adds their totals, both capped at the largest u64.
pub total-add_assign : (a b : TokenBreakdown) → total (add_assign a b) ≡ add_u64 (total a) (total b)
unfolding total add_assign
total-add_assign a b =
    let a2 = add_u64 a.input a.output in
    let b2 = add_u64 b.input b.output in
    let a3 = add_u64 a2 a.cache_read in
    let b3 = add_u64 b2 b.cache_read in
    let a4 = add_u64 a3 a.cache_write in
    let b4 = add_u64 b3 b.cache_write in
    ap
      (λ x.
        add_u64
          (add_u64 (add_u64 x (add_u64 a.cache_read b.cache_read))
            (add_u64 a.cache_write b.cache_write))
          (add_u64 a.reasoning b.reasoning))
      (add_interchange a.input b.input a.output b.output)
    ∙ ap
        (λ x.
          add_u64 (add_u64 x (add_u64 a.cache_write b.cache_write))
            (add_u64 a.reasoning b.reasoning))
        (add_interchange a2 b2 a.cache_read b.cache_read)
    ∙ ap (λ x. add_u64 x (add_u64 a.reasoning b.reasoning))
        (add_interchange a3 b3 a.cache_write b.cache_write)
    ∙ add_interchange a4 b4 a.reasoning b.reasoning
