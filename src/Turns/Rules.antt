-- ===== src/Turns/Rules.antt =====
-- `classify_by_rule` (crates/metrune-cli/src/app.rs): the categories that keywords decide.
use metrune.Prelude.{
  Bool, true, false, not, ◌&&◌, ◌||◌, Option, none, some, List, [], ◌∷◌, any, if◌then◌else◌,
}
use metrune.Prelude.Text.{Text, codes, strip_prefix}
use metrune.Core.Types.{
  WorkflowSignal, SignalCount, signal_eq, taxonomy_version, edited, built, deployed,
}
use metrune.Core.Category.{
  CategoryId, CategoryAssignment, classified, implementation, debugging, research, documentation,
  review_refactoring, testing, planning, operations, content,
}

abbrev is_some_text : Option Text → Bool
is_some_text none = false
is_some_text (some s) = true

-- `s.contains(needle)`
abbrev pub contains : Text → Text → Bool
contains [] needle = is_some_text (strip_prefix needle [])
contains (c ∷ s) needle = is_some_text (strip_prefix needle (c ∷ s)) || contains s needle

abbrev pub contains_any : Text → List Text → Bool
contains_any intent needles = any (contains intent) needles

abbrev pub has_signal : List SignalCount → WorkflowSignal → Bool
has_signal signals signal = any (λ count. signal_eq count.signal signal) signals

abbrev pub debugging_words : List Text
debugging_words =
    codes "bug"
    ∷ codes "debug"
    ∷ codes "root cause"
    ∷ codes "failing"
    ∷ codes "failure"
    ∷ codes "crash"
    ∷ codes "regression"
    ∷ codes "fix the error"
    ∷ []

abbrev pub testing_words : List Text
testing_words =
    codes "write tests"
    ∷ codes "add tests"
    ∷ codes "run the tests"
    ∷ codes "test coverage"
    ∷ codes "integration test"
    ∷ codes "unit test"
    ∷ []

abbrev pub operations_words : List Text
operations_words =
    codes "deploy"
    ∷ codes "release"
    ∷ codes "ci/cd"
    ∷ codes "pipeline"
    ∷ codes "infrastructure"
    ∷ codes "docker"
    ∷ codes "kubernetes"
    ∷ []

abbrev pub documentation_words : List Text
documentation_words =
    codes "readme"
    ∷ codes "documentation"
    ∷ codes "document this"
    ∷ codes "api docs"
    ∷ codes "technical guide"
    ∷ []

abbrev pub planning_words : List Text
planning_words =
    codes "make a plan"
    ∷ codes "implementation plan"
    ∷ codes "design the architecture"
    ∷ codes "write a spec"
    ∷ codes "define requirements"
    ∷ []

abbrev pub research_words : List Text
research_words =
    codes "investigate"
    ∷ codes "research"
    ∷ codes "compare"
    ∷ codes "explain"
    ∷ codes "understand"
    ∷ codes "analyze the codebase"
    ∷ codes "check how"
    ∷ []

abbrev pub content_words : List Text
content_words =
    codes "blog post"
    ∷ codes "marketing copy"
    ∷ codes "user-facing copy"
    ∷ codes "write an article"
    ∷ []

abbrev pub implementation_words : List Text
implementation_words =
    codes "implement"
    ∷ codes "add a feature"
    ∷ codes "build a feature"
    ∷ codes "create an endpoint"
    ∷ codes "change the behavior"
    ∷ []

unfoldable pub rule_category : Text → List SignalCount → Option CategoryId
rule_category intent signals =
    if contains_any intent debugging_words
    then some debugging
    else if contains_any intent testing_words
    then some testing
    else if contains_any intent operations_words
        && (has_signal signals deployed
            || has_signal signals built
            || contains_any intent (codes "set up" ∷ codes "configure" ∷ codes "ship" ∷ []))
    then some operations
    else if contains_any intent documentation_words
    then some documentation
    else if contains_any intent
          (codes "refactor" ∷ codes "code review" ∷ codes "review this" ∷ codes "clean up" ∷ [])
        && not (contains_any intent (codes "bug" ∷ codes "failure" ∷ []))
    then some review_refactoring
    else if contains_any intent planning_words && not (has_signal signals edited)
    then some planning
    else if contains_any intent research_words && not (has_signal signals edited)
    then some research
    else if contains_any intent content_words
    then some content
    else if contains_any intent implementation_words
    then some implementation
    else none

module _ {F : Type 0} where
  -- The assignment of a rule, at the confidence 0.92.
  abbrev pub rule_assignment : F → CategoryId → CategoryAssignment F
  rule_assignment confidence category = record {
    category_id = category;
    confidence = confidence;
    taxonomy_version = taxonomy_version;
    classifier_id = codes "hybrid-rule:v1";
    classification_status = classified;
  }

  unfoldable pub classify_by_rule : F → Text → List SignalCount → Option (CategoryAssignment F)
  classify_by_rule confidence intent signals = elim (rule_category intent signals) [
    | none ↦ none
    | some category ↦ some (rule_assignment confidence category)
  ]
