-- ===== src/Examples/Sessions.antt =====
-- The aggregation of a session and of a turn.
use metrune.Prelude.{ℕ, ◌≡◌, refl, Option, none, some, List, [], ◌∷◌, arith}
use metrune.Core.Types.{UsageMessage}
use metrune.Core.Category.{default_assignment}
use metrune.Core.Snapshot.{SessionSnapshot, total_tokens}
use metrune.Core.Aggregate.{aggregate_session, session_messages, earliest}
use metrune.Core.Aggregate.Conservation.{
  slice_tokens, message_tokens, exact_tokens, slice_tokens-aggregate, total_tokens-aggregate,
}
use metrune.Core.Aggregate.Span.{IsOneOf, Within, Within-aggregate}
use metrune.Turns.{turn_from_messages}
use metrune.Turns.Conservation.{step_tokens, step_tokens-turn_from_messages}
use metrune.Examples.Sample.{whole, sample_snapshot, digests, identity, message}

abbrev messages : List (UsageMessage ℕ)
messages = message 5 10 ∷ message 3 20 ∷ []

abbrev or_else : Option (SessionSnapshot ℕ) → SessionSnapshot ℕ → SessionSnapshot ℕ
or_else none other = other
or_else (some s) other = s

abbrev aggregated : Option (SessionSnapshot ℕ)
aggregated = aggregate_session digests messages identity 7 default_assignment

abbrev snapshot : SessionSnapshot ℕ
snapshot = or_else aggregated (sample_snapshot [] 0 0)

slice_tokens-aggregate_example :
    slice_tokens snapshot.usage_by_model
    ≡ message_tokens (session_messages (earliest (message 5 10) (message 3 20 ∷ [])) messages)
unfolding aggregate_session
slice_tokens-aggregate_example =
    slice_tokens-aggregate digests (message 5 10) (message 3 20 ∷ []) identity 7 default_assignment
      refl

total_tokens-aggregate_example :
    total_tokens snapshot
    ≡ exact_tokens (session_messages (earliest (message 5 10) (message 3 20 ∷ [])) messages)
unfolding aggregate_session session_messages earliest
total_tokens-aggregate_example =
    total_tokens-aggregate digests (message 5 10) (message 3 20 ∷ []) identity 7 default_assignment
      refl (omega arith)

Within-aggregate_example :
    Within snapshot messages
    × ((x : UsageMessage ℕ) × IsOneOf x messages × (snapshot.started_at ≡ x.observed_at))
    × ((x : UsageMessage ℕ) × IsOneOf x messages × (snapshot.ended_at ≡ x.observed_at))
unfolding aggregate_session
Within-aggregate_example =
    Within-aggregate digests (message 5 10) (message 3 20 ∷ []) identity 7 default_assignment refl

step_tokens-turn_from_messages_example :
    step_tokens (turn_from_messages 1 messages).model_activity ≡ message_tokens messages
step_tokens-turn_from_messages_example = step_tokens-turn_from_messages 1 messages
