-- ===== src/Ingest.antt =====
-- The server's side of an upload (crates/metrune-api/src/app.rs): the bounds of a snapshot, and
-- what a check answers.
pub mod Validate
pub mod Reconcile
pub mod Prices
pub mod Versions
pub mod Tables
pub mod Sessions
use metrune.Prelude.{
  ℕ, ◌*◌, ◌^◌, Bool, Option, none, some, List, [], ◌∷◌, ◌++◌, ltb, if◌then◌else◌, any,
}
use metrune.Prelude.Text.{Text, codes, len, is_control}

abbrev pub max_batch_snapshots : ℕ
max_batch_snapshots = 1_000

abbrev pub max_snapshot_text_bytes : ℕ
max_snapshot_text_bytes = 512

abbrev pub max_usage_slices : ℕ
max_usage_slices = 256

abbrev pub max_turns : ℕ
max_turns = 4_096

abbrev pub max_model_activity_steps : ℕ
max_model_activity_steps = 128

abbrev pub max_workflow_signals : ℕ
max_workflow_signals = 32

abbrev pub max_classification_methods : ℕ
max_classification_methods = 16

abbrev pub max_snapshot_tokens : ℕ
max_snapshot_tokens = 1_000_000_000_000

abbrev pub max_snapshot_cost : ℕ
max_snapshot_cost = 1_000_000_000

-- `Result<(), String>`: the error, if there is one.
abbrev pub Check : Type 0
Check = Option Text

-- `if bad { return Err(…) }`
abbrev pub reject_if : Bool → Text → Check
reject_if bad error = if bad then some error else none

-- The first check that fails, as the `?` operator and the early returns have it.
abbrev pub and_then : Check → Check → Check
and_then none next = next
and_then (some e) next = some e

abbrev pub first_error : List Check → Check
first_error [] = none
first_error (c ∷ cs) = and_then c (first_error cs)

-- A check of each element, in order.
abbrev pub check_each : {A : Type 0} → (A → Check) → List A → Check
check_each f [] = none
check_each f (x ∷ xs) = and_then (f x) (check_each f xs)

unfoldable pub validate_snapshot_text : Text → Text → Check
validate_snapshot_text field value =
    if ltb max_snapshot_text_bytes (len value)
    then some (field ++ codes " exceeds 512 bytes")
    else reject_if (any is_control value) (field ++ codes " contains control characters")
