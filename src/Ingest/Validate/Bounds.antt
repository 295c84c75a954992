-- ===== src/Ingest/Validate/Bounds.antt =====
-- The bounds that `validate_snapshot` checks (crates/metrune-api/src/app.rs), and the total they
-- read (crates/metrune-core/src/lib.rs).
use metrune.Prelude.{
  ℕ, ◌+◌, ◌≤◌, ◌<◌, ◌≡◌, refl, Bool, true, false, not, ◌||◌, none, some, List, [], ◌∷◌, arith, ltb,
  length, is_empty, All,
}
use metrune.Prelude.Float.{Float}
use metrune.Prelude.Text.{Text, len}
use metrune.Prelude.Words.{u64_max}
use metrune.Core.Tokens.{total}
use metrune.Core.Types.{UsageSlice}
use metrune.Core.Snapshot.{SessionSnapshot, total_tokens}
use metrune.Ingest.{Check, reject_if, first_error, max_usage_slices, max_turns, max_snapshot_tokens}
use metrune.Ingest.Validate.{
  snapshot_checks, identity_checks, bound_checks, is_supported_schema, check_identity, check_bounds,
  validate_snapshot,
}

-- The bounds of an accepted snapshot.
abbrev pub InBounds : {F : Type 0} → SessionSnapshot F → Type 0
InBounds s =
    (is_supported_schema s.schema_version ≡ true)
    × (32 ≤ len s.session_key)
    × (32 ≤ len s.user_key)
    × (s.started_at ≤ s.ended_at)
    × (1 ≤ length s.usage_by_model)
    × (length s.usage_by_model ≤ max_usage_slices)
    × (length s.turns ≤ max_turns)
    × (total_tokens s ≤ max_snapshot_tokens)

nonempty : {A : Type 0} (xs : List A) → is_empty xs ≡ false → 1 ≤ length xs
nonempty [] h = ground arith
nonempty (x ∷ xs) h = omega arith

-- Where there is no error, every check passes.
checks_pass : (checks : List Check) → first_error checks ≡ none → All (λ c. c ≡ none) checks
checks_pass [] h = tt
checks_pass (none ∷ checks) h = (refl, checks_pass checks h)
checks_pass (some e ∷ checks) h = ground arith

is_good : (bad : Bool) (error : Text) → reject_if bad error ≡ none → bad ≡ false
is_good bad error h = ground arith

le_of_test : (a b : ℕ) → ltb b a ≡ false → a ≤ b
le_of_test a b h = ground arith

true_of_not : (b : Bool) → not b ≡ false → b ≡ true
true_of_not b h = ground arith

both_long : (a b : ℕ) → (ltb a 32 || ltb b 32) ≡ false → (32 ≤ a) × (32 ≤ b)
both_long a b h = ground arith

module _ {F : Type 0} ⦃o : Float F⦄ where
  -- A snapshot that is accepted has a supported schema, keys of at least 32 bytes, an end not
  -- before its start, between 1 and 256 usage slices, at most 4096 turns, and a total of the tokens,
  -- as `total_tokens` counts them modulo 2^64, of at most 10^12.
  pub validate_snapshot-InBounds : (s : SessionSnapshot F) → validate_snapshot s ≡ none → InBounds s
  unfolding validate_snapshot check_identity check_bounds
  validate_snapshot-InBounds s h =
      let parts = checks_pass (snapshot_checks s) h in
      let i = checks_pass (identity_checks s) parts.0 in
      let b = checks_pass (bound_checks s) parts.1.0 in
      let keys = is_good (ltb (len s.session_key) 32 || ltb (len s.user_key) 32) _ i.1.0 in
      let (session, user) = both_long (len s.session_key) (len s.user_key) keys in
      (
        true_of_not (is_supported_schema s.schema_version)
            (is_good (not (is_supported_schema s.schema_version)) _ i.0),
        session,
        user,
        le_of_test s.started_at s.ended_at (is_good (ltb s.ended_at s.started_at) _ b.0),
        nonempty s.usage_by_model (is_good (is_empty s.usage_by_model) _ b.1.0),
        le_of_test (length s.usage_by_model) max_usage_slices (is_good _ _ b.1.1.0),
        le_of_test (length s.turns) max_turns (is_good _ _ b.1.1.1.0),
        le_of_test (total_tokens s) max_snapshot_tokens (is_good _ _ b.1.1.1.1.1.1.1.0),
      )

  -- A release build adds with wrap-around: two slices, one of 2^64 - 1 tokens and one of n + 1,
  -- have a total of n, so the bound on the total does not bound the tokens of a slice.
  pub total_tokens-wraps :
      (s : SessionSnapshot F) (a b : UsageSlice F) (n : ℕ)
      → s.usage_by_model ≡ a ∷ b ∷ []
      → total a.tokens ≡ u64_max
      → total b.tokens ≡ n + 1
      → n < u64_max
      → total_tokens s ≡ n
  unfolding total_tokens
  total_tokens-wraps s a b n h p q small = rw (h, p, q) (omega arith)
