-- ===== src/Prelude/Float.antt =====
-- Rust's `f64` and `f32`: a type with the operations that the program uses. The language here has
-- no floats, so code over them takes their type and this record as parameters.
use Prim.Native.Nat.{Ordering}
use metrune.Prelude.{ℕ, Bool}

pub record Float (F : Type 0) : Type 0 where
  pub zero_f : F
  pub one_f : F
  pub add_f : F → F → F
  pub mul_f : F → F → F
  pub div_f : F → F → F
  pub sub_f : F → F → F
  pub abs_diff : F → F → F
  pub max_f : F → F → F
  -- `n as f64`
  pub of_u64 : ℕ → F
  -- `a < b`
  pub ltb_f : F → F → Bool
  pub is_finite : F → Bool
  -- `f64::total_cmp`
  pub total_cmp : F → F → Ordering
