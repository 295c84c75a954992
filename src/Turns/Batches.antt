-- ===== src/Turns/Batches.antt =====
-- The batches that `classify_turns` sends to the classifier (crates/metrune-cli/src/app.rs).
pub mod Bounds
use metrune.Prelude.{
  ℕ, zero, suc, ◌+◌, ◌*◌, Bool, true, false, not, ◌&&◌, Option, none, some, List, [], ◌∷◌, ◌++◌,
  ltb, if◌then◌else◌,
}
use metrune.Prelude.Text.{Text, len}
use metrune.Prelude.Words.{u64_max, saturating_add}
use metrune.Turns.Triage.{PendingTurn}

abbrev pub batch_turns : ℕ
batch_turns = 12

abbrev pub batch_bytes : ℕ
batch_bytes = 16 * 1024

-- Whether one more turn joins the batch, at `end - cursor` turns and `bytes` bytes.
abbrev pub joins : ℕ → ℕ → PendingTurn → Bool
joins count bytes next =
    ltb count batch_turns
    && not (ltb 0 count && ltb batch_bytes (saturating_add u64_max bytes (len next.intent)))

-- The inner loop: the batch and what is left.
unfoldable pub take_batch : ℕ → ℕ → List PendingTurn → List PendingTurn × List PendingTurn
take_batch count bytes [] = ([], [])
take_batch count bytes (next ∷ rest) =
    let taken = take_batch (suc count) (saturating_add u64_max bytes (len next.intent)) rest in
    if joins count bytes next then (next ∷ taken.0, taken.1) else ([], next ∷ rest)

abbrev pub cons_batch :
    List PendingTurn → Option (List (List PendingTurn)) → Option (List (List PendingTurn))
cons_batch batch none = none
cons_batch batch (some batches) = some (batch ∷ batches)

-- The outer loop, whose fuel bounds the number of batches.
unfoldable pub batches : ℕ → List PendingTurn → Option (List (List PendingTurn))
batches fuel [] = some []
batches zero (next ∷ rest) = none
batches (suc fuel) (next ∷ rest) =
    let taken = take_batch 0 0 (next ∷ rest) in cons_batch taken.0 (batches fuel taken.1)
