-- ===== src/Examples/Transcripts.antt =====
-- A session's file of three lines: a message without a prompt, a prompt, and its usage_record.
use metrune.Prelude.{ℕ, ◌≡◌, refl, Option, none, some, List, [], ◌∷◌, if◌then◌else◌, length}
use metrune.Prelude.Text.{Text, codes, text_eq}
use metrune.Core.Tokens.{total}
use metrune.Adapters.Value.{value_at, unsigned, Value, string, number, object, no_fields, field}
use metrune.Adapters.Common.{Clock, parse_usage_value, usage_tokens}
use metrune.Adapters.Claude.{
  parse, read_records, read_record, answered, after_prompt, collected, counted, placed,
}
use metrune.Adapters.Claude.Reading.{IsRead, parse-IsRead}
use metrune.Examples.Sample.{whole}

abbrev clock : Clock
clock = record { now = 1_000; parse_rfc3339 = λ t. none; timestamp_opt = λ sign n. some n }

abbrev prompt : Value ℕ
prompt = object (
    field (codes "type") (string (codes "user")) (
      field (codes "content") (string (codes "add tests"))
        (field (codes "timestamp") (number (unsigned 20)) no_fields)))

abbrev usage_record : Value ℕ
usage_record = object (
    field (codes "role") (string (codes "assistant")) (
      field (codes "input_tokens") (number (unsigned 7))
        (field (codes "timestamp") (number (unsigned 30)) no_fields)))

abbrev decode : Text → Option (Value ℕ)
decode line =
    if text_eq line (codes "u")
    then some prompt
    else if text_eq line (codes "a")
    then some usage_record
    else none

abbrev transcript : List Text
transcript = codes "a" ∷ codes "u" ∷ codes "?" ∷ codes "a" ∷ []

abbrev transcript_path : Text
transcript_path = codes "/t.jsonl"

parse-IsRead_example : IsRead {F = ℕ} 0 (parse decode clock transcript_path transcript)
parse-IsRead_example = parse-IsRead decode clock transcript_path transcript

parse_test : length (parse decode clock transcript_path transcript) ≡ 2
unfolding parse read_records read_record answered after_prompt collected counted placed
    parse_usage_value value_at total usage_tokens
parse_test = refl
