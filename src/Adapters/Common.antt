-- ===== src/Adapters/Common.antt =====
-- `parse_usage_value` and what it reads (crates/metrune-core/src/adapters/common.rs). The clock and
-- the texts of chrono are parameters.
use metrune.Prelude.{
  ℕ, ◌/◌, Bool, true, false, not, Option, none, some, List, [], ◌∷◌, ◌++◌, ◌==◌, ltb, leb,
  if◌then◌else◌, is_empty,
}
use metrune.Prelude.Float.{Float}
use metrune.Prelude.Text.{Text, codes, text_eq, trim}
use metrune.Core.Tokens.{TokenBreakdown, total}
use metrune.Core.Types.{DateTime, CostKind, Cost, UsageMessage}
use metrune.State.{i64_max}
use metrune.Adapters.Value.{
  unsigned, negative, float, Value, string, number, array, value_at, get_key, as_str, as_f64,
  elements, as_count,
}
use metrune.Adapters.Signals.{workflow_signals, present}

-- `Utc::now()`, `parse_from_rfc3339` and `timestamp_opt`, at a number of seconds and its sign.
pub record Clock : Type 0 where
  pub now : DateTime
  pub parse_rfc3339 : Text → Option DateTime
  pub timestamp_opt : Bool → ℕ → Option DateTime

abbrev pub or_now : Clock → Option DateTime → DateTime
or_now clock none = clock.now
or_now clock (some t) = t

-- Milliseconds, where the number is too great for seconds.
abbrev pub seconds_of : ℕ → ℕ
seconds_of n = if ltb 10_000_000_000 n then n / 1000 else n

abbrev pub or_text : Text → Option Text → Text
or_text fallback none = fallback
or_text fallback (some t) = t

-- `join("\n")`
abbrev pub join_lines : List Text → Text
join_lines [] = []
join_lines (w ∷ []) = w
join_lines (w ∷ v ∷ ws) = w ++ b'\n' ∷ join_lines (v ∷ ws)

-- `filter(|text| !text.trim().is_empty())`
abbrev pub unless_blank : Text → Option Text
unless_blank text = if is_empty (trim text) then none else some text

-- The four places of a counter.
abbrev pub usage_paths : Text → List (List Text) → List (List Text)
usage_paths name others =
    (codes "usage" ∷ name ∷ []) ∷ (codes "message" ∷ codes "usage" ∷ name ∷ []) ∷ others

module _ {F : Type 0} where
  abbrev pub instant_of : Clock → Option (Value F) → DateTime
  instant_of clock (some (string text)) = or_now clock (clock.parse_rfc3339 text)
  instant_of clock (some (number (unsigned n))) =
      or_now clock (clock.timestamp_opt true (if leb n i64_max then seconds_of n else 0))
  instant_of clock (some (number (negative n))) = or_now clock (clock.timestamp_opt false n)
  instant_of clock (some (number (float x))) = or_now clock (clock.timestamp_opt true 0)
  instant_of clock _ = clock.now

  unfoldable pub timestamp_at : Clock → Value F → DateTime
  timestamp_at clock value = instant_of clock (
      value_at value (
        (codes "timestamp" ∷ [])
        ∷ (codes "created_at" ∷ [])
        ∷ (codes "createdAt" ∷ [])
        ∷ (codes "time" ∷ codes "created" ∷ [])
        ∷ []))

  abbrev pub part_texts : List (Value F) → List (Option Text)
  part_texts [] = []
  part_texts (part ∷ parts) = as_str (get_key part (codes "text")) ∷ part_texts parts

  abbrev pub hint_of : Option (Value F) → Option Text
  hint_of (some (string text)) = unless_blank text
  hint_of (some (array items)) =
      unless_blank (join_lines (present (part_texts (elements (some (array items))))))
  hint_of _ = none

  unfoldable pub text_hint : Value F → Option Text
  text_hint value = hint_of (
      value_at value (
        (codes "message" ∷ codes "content" ∷ [])
        ∷ (codes "content" ∷ [])
        ∷ (codes "payload" ∷ codes "message" ∷ codes "content" ∷ [])
        ∷ (codes "text" ∷ [])
        ∷ []))

  abbrev pub u64_at : Value F → List (List Text) → ℕ
  u64_at value paths = as_count (value_at value paths)

  abbrev pub string_at : Value F → List (List Text) → Option Text
  string_at value paths = as_str (value_at value paths)

  unfoldable pub usage_tokens : Value F → TokenBreakdown
  usage_tokens value = record {
    input = u64_at value (
        usage_paths (codes "input_tokens")
          ((codes "tokens" ∷ codes "input" ∷ []) ∷ (codes "input_tokens" ∷ []) ∷ []));
    output = u64_at value (
        usage_paths (codes "output_tokens")
          ((codes "tokens" ∷ codes "output" ∷ []) ∷ (codes "output_tokens" ∷ []) ∷ []));
    cache_read = u64_at value (
        usage_paths (codes "cache_read_input_tokens")
          ((codes "tokens" ∷ codes "cache" ∷ codes "read" ∷ []) ∷ (codes "cache_read" ∷ []) ∷ []));
    cache_write = u64_at value (
        usage_paths (codes "cache_creation_input_tokens") (
          (codes "tokens" ∷ codes "cache" ∷ codes "write" ∷ []) ∷ (codes "cache_write" ∷ []) ∷ []));
    reasoning = u64_at value (
        usage_paths (codes "reasoning_tokens")
          ((codes "tokens" ∷ codes "reasoning" ∷ []) ∷ (codes "reasoning_tokens" ∷ []) ∷ []));
  }

  abbrev pub role_of : Value F → Option Text
  role_of value = string_at value (
      (codes "role" ∷ [])
      ∷ (codes "message" ∷ codes "role" ∷ [])
      ∷ (codes "payload" ∷ codes "role" ∷ [])
      ∷ [])

-- Another role than the assistant's.
abbrev pub is_other_role : Option Text → Bool
is_other_role none = false
is_other_role (some role) = not (text_eq role (codes "assistant"))

module _ {F : Type 0} ⦃o : Float F⦄ where
  abbrev pub amount_or_zero : Option F → F
  amount_or_zero none = o.zero_f
  amount_or_zero (some x) = x

  unfoldable pub usage_cost : Value F → Cost F
  usage_cost value =
      let amount = amount_or_zero (
        as_f64 (value_at value ((codes "cost" ∷ []) ∷ (codes "usage" ∷ codes "cost" ∷ []) ∷ []))) in
      record {
        amount = amount;
        currency = codes "USD";
        kind = if o.ltb_f o.zero_f amount then CostKind.reported else CostKind.unknown;
        pricebook_version = none;
        price_source = none;
      }

  unfoldable pub usage_message : Clock → Value F → Text → Text → Text → UsageMessage F
  usage_message clock value client_id fallback_id fallback_session_id = record {
    source_message_id = or_text fallback_id (
        string_at value
          ((codes "id" ∷ []) ∷ (codes "message" ∷ codes "id" ∷ []) ∷ (codes "uuid" ∷ []) ∷ []));
    session_id = or_text fallback_session_id (
        string_at value (
          (codes "session_id" ∷ [])
          ∷ (codes "sessionId" ∷ [])
          ∷ (codes "session" ∷ codes "id" ∷ [])
          ∷ []));
    project_path =
        string_at value
          ((codes "cwd" ∷ []) ∷ (codes "workspace" ∷ []) ∷ (codes "project_path" ∷ []) ∷ []);
    client_id = client_id;
    client_version = string_at value ((codes "client_version" ∷ []) ∷ (codes "version" ∷ []) ∷ []);
    provider_id = or_text (codes "unknown") (
        string_at value (
          (codes "provider" ∷ [])
          ∷ (codes "provider_id" ∷ [])
          ∷ (codes "providerID" ∷ [])
          ∷ (codes "model_provider" ∷ [])
          ∷ []));
    model_id = or_text (codes "unknown") (
        string_at value (
          (codes "model" ∷ [])
          ∷ (codes "model_id" ∷ [])
          ∷ (codes "modelID" ∷ [])
          ∷ (codes "message" ∷ codes "model" ∷ [])
          ∷ []));
    session_started_at = none;
    observed_at = timestamp_at clock value;
    tokens = usage_tokens value;
    cost = usage_cost value;
    turn_sequence = 0;
    activity_sequence = 0;
    workflow_signals = workflow_signals value;
    signal_capabilities = [];
    classification_text = text_hint value;
  }

  unfoldable pub parse_usage_value : Clock → Value F → Text → Text → Text → Option (UsageMessage F)
  parse_usage_value clock value client_id fallback_id fallback_session_id =
      if is_other_role (role_of value)
      then none
      else if total (usage_tokens value) == 0
      then none
      else some (usage_message clock value client_id fallback_id fallback_session_id)
