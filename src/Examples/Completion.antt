-- ===== src/Examples/Completion.antt =====
-- A session with its turns, and the classification of turns.
use metrune.Prelude.{
  ℕ, ◌≤◌, ◌≡◌, refl, true, false, min, Option, none, some, List, [], ◌∷◌, arith, All, length, map,
}
use metrune.Prelude.Words.{u32_max}
use metrune.Prelude.Text.{Text, codes}
use metrune.Core.Types.{UsageMessage, default_classifier_usage}
use metrune.Core.Category.{category_str, method_str, testing, research}
use metrune.Core.Snapshot.{TurnSnapshot, SessionSnapshot}
use metrune.Core.Dominant.{dominant_category}
use metrune.Core.Dominant.Heaviest.{weight, dominant_category-heaviest}
use metrune.Core.Complete.{aggregate_session_v2, method_counts}
use metrune.Core.Complete.Counts.{number_of, sum_counts, method_counts-exact}
use metrune.Core.Complete.Detail.{Fits, Sums, aggregate_session_v2-Detailed}
use metrune.Turns.{unclassified_turns}
use metrune.Turns.Rules.{rule_assignment}
use metrune.Turns.Triage.{Settings, PendingTurn}
use metrune.Turns.Triage.Work.{work}
use metrune.Turns.Triage.Unanswered.{Unanswered}
use metrune.Turns.Batches.{batches}
use metrune.Turns.Batches.Bounds.{concat, IsBatch, batches-Partition}
use metrune.Turns.Classify.{Backend, Progress, classify_turns}
use metrune.Turns.Classify.Preserves.{classify_turns-work}
use metrune.Turns.Classify.Failure.{classify_turns-Unanswered}
use metrune.Examples.Sample.{whole, sample_turn, digests, identity, message, codec, empty_state}

abbrev turns : List (TurnSnapshot ℕ)
turns =
    record (sample_turn 1 10) { category = rule_assignment 3 testing }
    ∷ record (sample_turn 2 20) { category = rule_assignment 4 research }
    ∷ sample_turn 3 30
    ∷ []

dominant_category-heaviest_example :
    weight (codes "testing") turns
    ≤ weight (category_str (dominant_category turns).category_id) turns
dominant_category-heaviest_example = dominant_category-heaviest (codes "testing") turns

method_counts-exact_example :
    All (λ c. c.count ≡ min (number_of (method_str c.method) turns) u32_max) (method_counts turns)
    × (sum_counts (method_counts turns) ≡ min (length turns) u32_max)
method_counts-exact_example = method_counts-exact turns

abbrev encode_turns : List (TurnSnapshot ℕ) → Option Text
encode_turns ts = some (codes "[]")

aggregate_session_v2-Detailed_example :
    (s : SessionSnapshot ℕ) × (aggregate_session_v2 digests encode_turns
        (message 5 10 ∷ [])
        identity
        7
        turns
        default_classifier_usage
      ≡ some s)
    × Sums (message 5 10) [] turns s
    × Fits encode_turns turns s
aggregate_session_v2-Detailed_example =
    aggregate_session_v2-Detailed digests encode_turns (message 5 10) [] identity 7 turns
      default_classifier_usage

abbrev waiting_turn : ℕ → PendingTurn
waiting_turn i = record { index = i; intent = codes "say hello"; cache_key = codes "k" }

batches-Partition_example :
    (bs : List (List PendingTurn)) × (batches 2 (waiting_turn 0 ∷ waiting_turn 1 ∷ []) ≡ some bs)
    × (concat bs ≡ waiting_turn 0 ∷ waiting_turn 1 ∷ [])
    × All IsBatch bs
batches-Partition_example = batches-Partition 2 (waiting_turn 0 ∷ waiting_turn 1 ∷ []) (omega arith)

abbrev settings : Settings ℕ
settings = record {
  disabled = false;
  classifier_fingerprint = codes "f";
  cache_secret = codes "secret";
  rule_confidence = 92;
  unicode = record { to_lowercase = λ t. t; is_alphanumeric = λ c. true };
  digests = digests;
  codec = codec;
}

-- A message whose intent no rule decides.
abbrev asked : UsageMessage ℕ
asked = record (message 5 10) { classification_text = some (codes "say hello") }

abbrev answering : Backend ℕ
answering = record {
  classify_batch = λ call texts.
      some (record {
        assignments = rule_assignment 50 testing ∷ [];
        usage = default_classifier_usage;
      });
  id = codes "model";
}

abbrev failing : Backend ℕ
failing = record { classify_batch = λ call texts. none; id = codes "model" }

classify_turns-work_example :
    (progress : Progress ℕ) × (classify_turns settings answering (λ i. i) (asked ∷ []) empty_state
      ≡ some progress)
    × (map work progress.turns ≡ map work (unclassified_turns (asked ∷ [])))
classify_turns-work_example =
    classify_turns-work settings answering (λ i. i) (asked ∷ []) empty_state

classify_turns-Unanswered_example :
    (progress : Progress ℕ) × (classify_turns settings failing (λ i. i) (asked ∷ []) empty_state
      ≡ some progress)
    × (progress.usage ≡ default_classifier_usage)
    × (progress.db ≡ empty_state)
    × Unanswered progress.turns
classify_turns-Unanswered_example =
    classify_turns-Unanswered settings failing (λ i. i) (asked ∷ []) empty_state
      (λ call texts. refl)
