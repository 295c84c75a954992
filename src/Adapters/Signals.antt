-- ===== src/Adapters/Signals.antt =====
-- `workflow_signals` (crates/metrune-core/src/adapters/common.rs): the signals that the names and
-- the commands of a record show.
use metrune.Prelude.{
  Bool, true, false, not, ◌&&◌, ◌||◌, Option, none, some, List, [], ◌∷◌, ◌++◌, ◌==◌, ◌^◌, ltb,
  if◌then◌else◌, any, is_empty,
}
use metrune.Prelude.Text.{Text, codes, text_eq, to_ascii_lowercase}
use metrune.Core.Types.{
  WorkflowSignal, signal_eq, read, searched, edited, tests_run, tests_failed, planned, delegated,
  git_used, built, deployed,
}
use metrune.Turns.Intent.{join_words}
use metrune.Turns.Rules.{contains}
use metrune.Adapters.Value.{
  unsigned, negative, Value, bool, number, string, value_at, get_key, at_path, as_str, elements,
}

abbrev pub or_empty : Option Text → Text
or_empty none = []
or_empty (some t) = t

abbrev pub push_signal : List WorkflowSignal → WorkflowSignal → List WorkflowSignal
push_signal signals signal =
    if any (signal_eq signal) signals then signals else signals ++ signal ∷ []

abbrev pub push_if : Bool → WorkflowSignal → List WorkflowSignal → List WorkflowSignal
push_if found signal signals = if found then push_signal signals signal else signals

-- `flatten()`: the parts that are there.
abbrev pub present : List (Option Text) → List Text
present [] = []
present (none ∷ parts) = present parts
present (some t ∷ parts) = t ∷ present parts

module _ {F : Type 0} where
  abbrev pub part_names : List (Value F) → List (Option Text)
  part_names [] = []
  part_names (part ∷ parts) =
      as_str (get_key part (codes "name"))
      ∷ as_str (at_path part (codes "input" ∷ codes "command" ∷ []))
      ∷ as_str (get_key part (codes "type"))
      ∷ part_names parts

  abbrev pub tool_name : Value F → Text
  tool_name value = to_ascii_lowercase (
      or_empty (
        as_str (
          value_at value (
            (codes "tool_name" ∷ [])
            ∷ (codes "toolName" ∷ [])
            ∷ (codes "name" ∷ [])
            ∷ (codes "message" ∷ codes "name" ∷ [])
            ∷ (codes "payload" ∷ codes "name" ∷ [])
            ∷ []))))

  abbrev pub command_text : Value F → Text
  command_text value = to_ascii_lowercase (
      or_empty (
        as_str (
          value_at value (
            (codes "command" ∷ [])
            ∷ (codes "input" ∷ codes "command" ∷ [])
            ∷ (codes "arguments" ∷ codes "command" ∷ [])
            ∷ (codes "payload" ∷ codes "command" ∷ [])
            ∷ []))))

  -- The content of the message, or else of the record.
  abbrev pub content_of : Value F → Option (Value F)
  content_of value =
      value_at value ((codes "message" ∷ codes "content" ∷ []) ∷ (codes "content" ∷ []) ∷ [])

  abbrev pub part_tools : Value F → Text
  part_tools value =
      to_ascii_lowercase (join_words (present (part_names (elements (content_of value)))))

  abbrev pub is_failure : Option (Value F) → Bool
  is_failure (some (bool b)) = b
  is_failure (some (number (unsigned n))) = not (n == 0) && ltb n (2 ^ 63)
  is_failure (some (number (negative n))) = true
  is_failure (some (string text)) = not (is_empty text) && not (text_eq text (codes "0"))
  is_failure _ = false

  abbrev pub has_failed : Value F → Bool
  has_failed value = is_failure (
      value_at value (
        (codes "is_error" ∷ [])
        ∷ (codes "isError" ∷ [])
        ∷ (codes "error" ∷ [])
        ∷ (codes "exit_code" ∷ [])
        ∷ (codes "exitCode" ∷ [])
        ∷ []))

abbrev pub mentions : Text → List Text → Bool
mentions combined needles = any (contains combined) needles

-- The signals of the texts, in the order of the tests.
abbrev pub named_signals : Text → Text → List WorkflowSignal
named_signals tool combined =
    push_if
      (mentions combined (
        codes "deploy"
        ∷ codes "kubectl"
        ∷ codes "terraform apply"
        ∷ codes "flyctl"
        ∷ codes "vercel"
        ∷ []))
      deployed
      (push_if
        (mentions combined
          (codes "build" ∷ codes "cargo check" ∷ codes "npm run build" ∷ codes "make" ∷ []))
        built
        (push_if (contains combined (codes "git ") || text_eq tool (codes "git")) git_used (
          push_if (mentions combined (codes "delegate" ∷ codes "spawn_agent" ∷ codes "task" ∷ []))
            delegated
            (push_if
              (mentions combined (codes "plan" ∷ codes "todo_write" ∷ codes "update_plan" ∷ []))
              planned
              (push_if
                (mentions combined (
                  codes "test"
                  ∷ codes "pytest"
                  ∷ codes "cargo test"
                  ∷ codes "npm test"
                  ∷ codes "vitest"
                  ∷ codes "jest"
                  ∷ []))
                tests_run
                (push_if
                  (mentions combined (
                    codes "edit"
                    ∷ codes "write"
                    ∷ codes "patch"
                    ∷ codes "replace"
                    ∷ codes "create_file"
                    ∷ []))
                  edited
                  (push_if
                    (mentions combined (
                      codes "search"
                      ∷ codes "grep"
                      ∷ codes "rg "
                      ∷ codes "find"
                      ∷ codes "glob"
                      ∷ []))
                    searched
                    (push_if
                      (mentions combined
                        (codes "read" ∷ codes "view" ∷ codes "open_file" ∷ codes "cat" ∷ []))
                      read []))))))))

module _ {F : Type 0} where
  unfoldable pub workflow_signals : Value F → List WorkflowSignal
  workflow_signals value =
      let tool = tool_name value in
      let combined = tool ++ b' ' ∷ (command_text value ++ b' ' ∷ part_tools value) in
      let signals = named_signals tool combined in
      push_if (has_failed value && any (signal_eq tests_run) signals) tests_failed signals
