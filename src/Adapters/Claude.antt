-- ===== src/Adapters/Claude.antt =====
-- The adapter of Claude Code (crates/metrune-core/src/adapters/claude.rs): the messages of a
-- session's file, each with its turn, its place in the turn and the prompt it answers. The lines are
-- those that could be read, and the clock does not move during a parse.
pub mod Reading
use metrune.Prelude.{
  ℕ, zero, suc, ◌&&◌, Bool, true, false, not, Option, none, some, List, [], ◌∷◌, ◌++◌, min, max,
  if◌then◌else◌, any,
}
use metrune.Prelude.Decimal.{to_string}
use metrune.Prelude.Float.{Float}
use metrune.Prelude.Text.{Text, codes, text_eq}
use metrune.Prelude.Words.{u32_max, saturating_add}
use metrune.Core.Types.{DateTime, WorkflowSignal, all_signals, UsageMessage}
use metrune.Adapters.Value.{Value, at_path, get_key, or_value, as_str, elements}
use metrune.Adapters.Signals.{push_signal, workflow_signals}
use metrune.Adapters.Common.{Clock, timestamp_at, text_hint, parse_usage_value}

abbrev pub claude_id : Text
claude_id = codes "claude"

-- The variables of the loop.
pub record Reader : Type 0 where
  pub turn_sequence : ℕ
  pub activity_sequence : ℕ
  pub intent : Option Text
  pub pending_signals : List WorkflowSignal

abbrev pub new_reader : Reader
new_reader = record {
  turn_sequence = 0;
  activity_sequence = 0;
  intent = none;
  pending_signals = [];
}

-- `min()` of an iterator.
abbrev pub earlier : DateTime → Option DateTime → Option DateTime
earlier t none = some t
earlier t (some s) = some (min t s)

abbrev pub is_named : Text → Option Text → Bool
is_named name none = false
is_named name (some text) = text_eq text name

abbrev pub collect_signals : List WorkflowSignal → List WorkflowSignal → List WorkflowSignal
collect_signals [] pending = pending
collect_signals (signal ∷ signals) pending = collect_signals signals (push_signal pending signal)

unfoldable pub counted : Reader → Reader
counted r = record {
  turn_sequence = r.turn_sequence;
  activity_sequence = saturating_add u32_max r.activity_sequence 1;
  intent = r.intent;
  pending_signals = r.pending_signals;
}

module _ {F : Type 0} where
  abbrev pub session_start : Clock → List (Value F) → Option DateTime
  session_start clock [] = none
  session_start clock (value ∷ values) =
      earlier (timestamp_at clock value) (session_start clock values)

  -- The lines that hold a value of JSON.
  abbrev pub records_of : (Text → Option (Value F)) → List Text → List (Value F)
  records_of from_str [] = []
  records_of from_str (line ∷ lines) =
      let rest = records_of from_str lines in
      elim (from_str line) [ none ↦ rest | some value ↦ value ∷ rest ]

  abbrev pub speaker : Value F → Option Text
  speaker value = as_str (
      or_value (get_key value (codes "type")) (
        or_value (get_key value (codes "role"))
          (at_path value (codes "message" ∷ codes "role" ∷ []))))

  abbrev pub is_result_part : Value F → Bool
  is_result_part part = is_named (codes "tool_result") (as_str (get_key part (codes "type")))

  abbrev pub is_tool_result : Value F → Bool
  is_tool_result value =
      any is_result_part (elements (at_path value (codes "message" ∷ codes "content" ∷ [])))

  -- The user speaks, and no tool in the user's name.
  abbrev pub is_prompt : Value F → Bool
  is_prompt value = is_named (codes "user") (speaker value) && not (is_tool_result value)

  unfoldable pub after_prompt : Value F → Reader → Reader
  after_prompt value r =
      if is_prompt value
      then record {
        turn_sequence = saturating_add u32_max r.turn_sequence 1;
        activity_sequence = 0;
        intent = text_hint value;
        pending_signals = [];
      }
      else r

  unfoldable pub collected : Value F → Reader → Reader
  collected value r = record {
    turn_sequence = r.turn_sequence;
    activity_sequence = r.activity_sequence;
    intent = r.intent;
    pending_signals = collect_signals (workflow_signals value) r.pending_signals;
  }

  unfoldable pub placed : Option DateTime → Reader → UsageMessage F → UsageMessage F
  placed session_started_at r m = record {
    source_message_id = m.source_message_id;
    session_id = m.session_id;
    project_path = m.project_path;
    client_id = m.client_id;
    client_version = m.client_version;
    provider_id = m.provider_id;
    model_id = m.model_id;
    session_started_at = session_started_at;
    observed_at = m.observed_at;
    tokens = m.tokens;
    cost = m.cost;
    turn_sequence = max r.turn_sequence 1;
    activity_sequence = r.activity_sequence;
    workflow_signals = r.pending_signals;
    signal_capabilities = all_signals;
    classification_text = r.intent;
  }

  -- The reader after a record, and its message with the reader's places.
  unfoldable pub answered :
      Option DateTime → Reader → Option (UsageMessage F) → Reader × Option (UsageMessage F)
  answered started r none = (r, none)
  answered started r (some m) = (counted r, some (placed started (counted r) m))

  abbrev pub with_message : Option (UsageMessage F) → List (UsageMessage F) → List (UsageMessage F)
  with_message none messages = messages
  with_message (some m) messages = m ∷ messages

module _ {F : Type 0} ⦃o : Float F⦄ where
  -- The body of the loop.
  unfoldable pub read_record :
      Clock → Text → Option DateTime → ℕ → Value F → Reader → Reader × Option (UsageMessage F)
  read_record clock source started index value r =
      answered started (collected value (after_prompt value r))
        (parse_usage_value clock value claude_id (source ++ b':' ∷ to_string index) source)

  unfoldable pub read_records :
      Clock → Text → Option DateTime → ℕ → List (Value F) → Reader → List (UsageMessage F)
  read_records clock source started index [] r = []
  read_records clock source started index (value ∷ values) r =
      let step = read_record clock source started index value r in
      with_message step.1 (read_records clock source started (suc index) values step.0)

  unfoldable pub parse :
      (Text → Option (Value F)) → Clock → Text → List Text → List (UsageMessage F)
  parse from_str clock source lines =
      let records = records_of from_str lines in
      read_records clock source (session_start clock records) 0 records new_reader
