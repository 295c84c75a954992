-- ===== src/Turns/Batches/Bounds.antt =====
-- The sizes of the batches of `classify_turns` (crates/metrune-cli/src/app.rs).
use metrune.Prelude.{
  ℕ, zero, suc, ◌+◌, ◌≤◌, ◌<◌, ◌≡◌, refl, ap, ◌∙◌, some, List, [], ◌∷◌, ◌++◌, ◌⊎◌, inl, arith, All,
  length, min,
}
use metrune.Prelude.Text.{len}
use metrune.Prelude.Words.{u64_max}
use metrune.Turns.Triage.{PendingTurn}
use metrune.Turns.Batches.{batch_turns, batch_bytes, take_batch, cons_batch, batches}

abbrev pub intent_bytes : List PendingTurn → ℕ
intent_bytes [] = 0
intent_bytes (p ∷ ps) = len p.intent + intent_bytes ps

abbrev pub concat : List (List PendingTurn) → List PendingTurn
concat [] = []
concat (batch ∷ rest) = batch ++ concat rest

-- A batch has a turn, no more than twelve, and at most 16 KiB of intents unless it has only one.
abbrev pub IsBatch : List PendingTurn → Type 0
IsBatch batch =
    (0 < length batch)
    × (length batch ≤ batch_turns)
    × ((length batch ≡ 1) ⊎ (intent_bytes batch ≤ batch_bytes))

take_batch-append :
    (count bytes : ℕ) (ps : List PendingTurn)
    → (take_batch count bytes ps).0 ++ (take_batch count bytes ps).1 ≡ ps
unfolding take_batch
take_batch-append count bytes [] = refl
take_batch-append count bytes (p ∷ ps) =
    ground (arith, take_batch-append (suc count) (min (bytes + len p.intent) u64_max) ps)

-- A batch that has a turn grows within the limits.
take_batch-le :
    (count bytes : ℕ) (ps : List PendingTurn)
    → 0 < count
    → count ≤ batch_turns
    → (count + length (take_batch count bytes ps).0 ≤ batch_turns)
      × (((take_batch count bytes ps).0 ≡ [])
          ⊎ (bytes + intent_bytes (take_batch count bytes ps).0 ≤ batch_bytes))
unfolding take_batch
take_batch-le count bytes [] h k = (omega arith, inl refl)
take_batch-le count bytes (p ∷ ps) h k =
    ground (arith, take_batch-le (suc count) (min (bytes + len p.intent) u64_max) ps)

IsBatch-take_batch : (p : PendingTurn) (ps : List PendingTurn) → IsBatch (take_batch 0 0 (p ∷ ps)).0
unfolding take_batch
IsBatch-take_batch p ps =
    let (few, small) =
      take_batch-le 1 (min (0 + len p.intent) u64_max) ps (omega arith) (omega arith) in
    ground (arith, few, small)

length-take_batch-le :
    (count bytes : ℕ) (ps : List PendingTurn) → length (take_batch count bytes ps).1 ≤ length ps
unfolding take_batch
length-take_batch-le count bytes [] = omega arith
length-take_batch-le count bytes (p ∷ ps) =
    ground (arith, length-take_batch-le (suc count) (min (bytes + len p.intent) u64_max) ps)

length-take_batch-lt :
    (p : PendingTurn) (ps : List PendingTurn) → length (take_batch 0 0 (p ∷ ps)).1 ≤ length ps
unfolding take_batch
length-take_batch-lt p ps = length-take_batch-le 1 (min (0 + len p.intent) u64_max) ps

-- With fuel for as many batches as there are turns, the loop ends. Its batches are the pending
-- turns in their order, and each has at most twelve turns and at most 16 KiB of intents, unless it
-- is a single turn.
pub batches-Partition :
    (fuel : ℕ) (ps : List PendingTurn)
    → length ps ≤ fuel
    → (bs : List (List PendingTurn)) × (batches fuel ps ≡ some bs)
      × (concat bs ≡ ps)
      × All IsBatch bs
unfolding batches
batches-Partition fuel [] h = ([], refl, refl, tt)
batches-Partition zero (p ∷ ps) h = absurd (omega (arith, h))
batches-Partition (suc fuel) (p ∷ ps) h =
    let taken = take_batch 0 0 (p ∷ ps) in
    let (bs, returned, parts, sizes) =
      batches-Partition fuel taken.1 (omega (arith, h, length-take_batch-lt p ps)) in
    (
      taken.0 ∷ bs,
      ap (cons_batch taken.0) returned,
      ap (λ rest. taken.0 ++ rest) parts ∙ take_batch-append 0 0 (p ∷ ps),
      (IsBatch-take_batch p ps, sizes),
    )
