-- ===== src/Turns/Intent.antt =====
-- The text of an intent in the client (crates/metrune-cli/src/app.rs): `normalize_intent`,
-- `is_continuation` and `classification_cache_key`. The Unicode tables of the standard library are
-- parameters.
use metrune.Prelude.{
  ℕ, Bool, not, Option, none, some, List, [], ◌∷◌, ◌++◌, any, take, if◌then◌else◌,
}
use metrune.Prelude.Text.{Text, codes, text_eq, is_whitespace, trim_end_by}
use metrune.Core.Types.{
  WorkflowSignal, SignalCount, taxonomy_version, read, searched, edited, tests_run, tests_failed,
  planned, delegated, git_used, built, deployed,
}
use metrune.Core.Category.{CategoryAssignment, category_str}
use metrune.Core.Identity.{Digests}
use metrune.State.Batch.{le_bytes}

-- `str::to_lowercase` and `char::is_alphanumeric`.
pub record Unicode : Type 0 where
  pub to_lowercase : Text → Text
  pub is_alphanumeric : ℕ → Bool

abbrev pub starts_word : Text → List Text → ℕ → List Text
starts_word [] rest c = (c ∷ []) ∷ rest
starts_word (d ∷ s) rest c = if is_whitespace d then (c ∷ []) ∷ rest else extend rest
  where
    extend : List Text → List Text
    extend [] = (c ∷ []) ∷ []
    extend (w ∷ ws) = (c ∷ w) ∷ ws

abbrev pub split_whitespace : Text → List Text
split_whitespace [] = []
split_whitespace (c ∷ s) =
    let rest = split_whitespace s in if is_whitespace c then rest else starts_word s rest c

-- `join(" ")`
abbrev pub join_words : List Text → Text
join_words [] = []
join_words (w ∷ []) = w
join_words (w ∷ v ∷ ws) = w ++ b' ' ∷ join_words (v ∷ ws)

unfoldable pub normalize_intent : Unicode → Text → Text
normalize_intent u text = u.to_lowercase (take 2048 (join_words (split_whitespace text)))

abbrev trim_start_by : (ℕ → Bool) → Text → Text
trim_start_by p [] = []
trim_start_by p (c ∷ s) = let rest = trim_start_by p s in if p c then rest else c ∷ s

-- `trim_matches`
abbrev pub trim_matches : (ℕ → Bool) → Text → Text
trim_matches p s = trim_end_by p (trim_start_by p s)

abbrev pub continuations : List Text
continuations =
    codes "yes"
    ∷ codes "ok"
    ∷ codes "okay"
    ∷ codes "continue"
    ∷ codes "go ahead"
    ∷ codes "do it"
    ∷ codes "please do"
    ∷ codes "sounds good"
    ∷ codes "thanks"
    ∷ codes "thank you"
    ∷ []

unfoldable pub is_continuation : Unicode → Text → Bool
is_continuation u intent =
    let trimmed = trim_matches (λ c. not (u.is_alphanumeric c)) intent in
    any (λ known. text_eq trimmed known) continuations

-- `WorkflowSignal::as_str`
abbrev pub signal_str : WorkflowSignal → Text
signal_str read = codes "read"
signal_str searched = codes "searched"
signal_str edited = codes "edited"
signal_str tests_run = codes "tests_run"
signal_str tests_failed = codes "tests_failed"
signal_str planned = codes "planned"
signal_str delegated = codes "delegated"
signal_str git_used = codes "git_used"
signal_str built = codes "built"
signal_str deployed = codes "deployed"

abbrev pub signal_bytes : List SignalCount → Text
signal_bytes [] = []
signal_bytes (s ∷ signals) = signal_str s.signal ++ (le_bytes 4 s.count ++ signal_bytes signals)

module _ {F : Type 0} where
  abbrev pub previous_bytes : Option (CategoryAssignment F) → Text
  previous_bytes none = []
  previous_bytes (some a) = category_str a.category_id

  -- What the digest of the cache key reads.
  abbrev pub cache_preimage : Text → Text → List SignalCount → Option (CategoryAssignment F) → Text
  cache_preimage fingerprint intent signals previous =
      taxonomy_version
      ++ (0 ∷ codes "hybrid-rules-v1"
          ++ (0 ∷ fingerprint ++ (0 ∷ intent ++ (signal_bytes signals ++ previous_bytes previous))))

  unfoldable pub classification_cache_key :
      Digests → Text → Text → Text → List SignalCount → Option (CategoryAssignment F) → Text
  classification_cache_key d secret fingerprint intent signals previous =
      d.hmac_sha256_hex secret (cache_preimage fingerprint intent signals previous)
