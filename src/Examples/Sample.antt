-- ===== src/Examples/Sample.antt =====
-- Sample data: numbers for floats, short texts for digests and encodings, and a session of two
-- messages.
use Prim.Native.Nat.{compare}
use metrune.Prelude.{
  ℕ, ◌+◌, ◌*◌, ◌-◌, ◌/◌, true, false, max, Option, none, some, [], ◌∷◌, ◌++◌, ltb, if◌then◌else◌,
}
use metrune.Prelude.Float.{Float}
use metrune.Prelude.Text.{Text, codes, text_eq}
use metrune.Core.Tokens.{TokenBreakdown}
use metrune.Core.Types.{
  schema_version, UsageSlice, ModelActivityStep, default_classifier_usage, UsageMessage,
  default_cost, edited, read,
}
use metrune.Core.Category.{default_assignment, none_method}
use metrune.Core.Snapshot.{SessionSnapshot, TurnSnapshot}
use metrune.Core.Identity.{Digests, IdentityContext, folder}
use metrune.State.{Codec, LocalState}

instance abbrev pub whole : Float ℕ
whole = record {
  zero_f = 0;
  one_f = 1;
  add_f = λ a b. a + b;
  mul_f = λ a b. a * b;
  div_f = λ a b. a / b;
  sub_f = λ a b. a - b;
  abs_diff = λ a b. (a - b) + (b - a);
  max_f = λ a b. max a b;
  of_u64 = λ n. n;
  ltb_f = ltb;
  is_finite = λ a. true;
  total_cmp = compare;
}

abbrev pub digests : Digests
digests = record {
  hmac_sha256_hex = λ k t. codes "00000000000000000000000000000000" ++ t;
  sha256_hex = λ t. codes "11111111111111111111111111111111" ++ t;
}

abbrev pub tokens : ℕ → TokenBreakdown
tokens n = record { input = n; output = 1; cache_read = 0; cache_write = 0; reasoning = 2 }

abbrev pub parse_time : Text → Option ℕ
parse_time [] = none
parse_time (t ∷ rest) = some t

abbrev pub usage : ℕ → UsageSlice ℕ
usage n = record {
  provider_id = codes "anthropic";
  model_id = codes "claude-4-5";
  tokens = tokens n;
  cost = record default_cost { amount = n };
}

abbrev pub sample_step : ℕ → ℕ → ModelActivityStep ℕ
sample_step i n = record {
  sequence = i;
  provider_id = codes "anthropic";
  model_id = codes "claude-4-5";
  tokens = tokens n;
  cost = record default_cost { amount = n };
  call_count = 1;
}

abbrev pub sample_turn : ℕ → ℕ → TurnSnapshot ℕ
sample_turn i n = record {
  sequence = i;
  category = default_assignment;
  classification_method = none_method;
  classification_cached = false;
  model_activity = sample_step 0 n ∷ [];
  workflow_signals = [];
}

-- A session with `n` input tokens, in one turn.
abbrev pub sample_snapshot : Text → ℕ → ℕ → SessionSnapshot ℕ
sample_snapshot key revision n = record {
  schema_version = schema_version;
  session_key = codes "session_session_session_session_" ++ key;
  revision = revision;
  user_key = codes "user_user_user_user_user_user_user_";
  project_key = none;
  project_alias = none;
  team_key = none;
  client_id = codes "codex";
  client_version = none;
  started_at = 3;
  ended_at = 5;
  usage_by_model = usage n ∷ [];
  category = default_assignment;
  turns = sample_turn 1 n ∷ [];
  classifier_usage = default_classifier_usage;
  signal_capabilities = [];
  classified_token_coverage = 0;
  classification_method_counts = [];
  turn_detail_truncated = false;
  source_schema_version = none;
}

abbrev pub codec : Codec ℕ
codec = record {
  encode_snapshot = λ s. s.session_key;
  decode_snapshot = λ t.
      if text_eq t (sample_snapshot (codes "a") 1 10).session_key
      then some (sample_snapshot (codes "a") 1 10)
      else none;
  encode_assignment = λ a. codes "assignment";
  decode_assignment = λ t. if text_eq t (codes "assignment") then some default_assignment else none;
  to_rfc3339 = λ t. t ∷ [];
  parse_rfc3339 = parse_time;
}

abbrev pub message : ℕ → ℕ → UsageMessage ℕ
message at n = record {
  source_message_id = codes "m";
  session_id = codes "s";
  project_path = some (codes "/work/app");
  client_id = codes "codex";
  client_version = none;
  provider_id = codes "anthropic";
  model_id = codes "claude-4.5";
  session_started_at = none;
  observed_at = at;
  tokens = tokens n;
  cost = record default_cost { amount = n };
  turn_sequence = 1;
  activity_sequence = at;
  workflow_signals = read ∷ edited ∷ [];
  signal_capabilities = [];
  classification_text = none;
}

abbrev pub identity : IdentityContext
identity = record {
  pseudonym_key = codes "key";
  user_alias = codes "me";
  team_key = none;
  project_aliases = [];
  project_label_mode = folder;
}

abbrev pub empty_state : LocalState
empty_state = record {
  source_checkpoints = [];
  session_outbox = [];
  local_metadata = [];
  session_schema = [];
  classification_cache = [];
}
