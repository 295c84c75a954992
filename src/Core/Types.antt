-- ===== src/Core/Types.antt =====
-- The enumerations and the plain records of crates/metrune-core/src/lib.rs. An instant is its
-- number of ticks from a fixed origin. One type of floats, `F`, stands for f64 and for f32.
use metrune.Prelude.{ℕ, ◌≡◌, Bool, true, false, Option, none, List, [], ◌∷◌, arith}
use metrune.Prelude.Float.{Float}
use metrune.Prelude.Text.{Text, codes}
use metrune.Core.Tokens.{TokenBreakdown, default_tokens}

abbrev pub DateTime : Type 0
DateTime = ℕ

abbrev pub schema_version : Text
schema_version = codes "2"

abbrev pub legacy_schema_version : Text
legacy_schema_version = codes "1"

abbrev pub taxonomy_version : Text
taxonomy_version = codes "2026-01"

pub data CostKind : Type 0 where
  reported estimated unknown : CostKind

pub record Cost (F : Type 0) : Type 0 where
  pub amount : F
  pub currency : Text
  pub kind : CostKind
  pub pricebook_version : Option Text
  pub price_source : Option Text

module _ {F : Type 0} ⦃o : Float F⦄ where
  -- `Cost::default()`
  abbrev pub default_cost : Cost F
  default_cost = record {
    amount = o.zero_f;
    currency = codes "USD";
    kind = unknown;
    pricebook_version = none;
    price_source = none;
  }

pub data WorkflowSignal : Type 0 where
  read searched edited tests_run tests_failed planned delegated git_used built deployed :
      WorkflowSignal

pub WorkflowSignal-discrete : Discrete WorkflowSignal
WorkflowSignal-discrete = hlevel

-- The derived `==` of `WorkflowSignal`.
abbrev pub signal_eq : WorkflowSignal → WorkflowSignal → Bool
signal_eq read read = true
signal_eq searched searched = true
signal_eq edited edited = true
signal_eq tests_run tests_run = true
signal_eq tests_failed tests_failed = true
signal_eq planned planned = true
signal_eq delegated delegated = true
signal_eq git_used git_used = true
signal_eq built built = true
signal_eq deployed deployed = true
signal_eq _ _ = false

pub signal_eq_refl : (s : WorkflowSignal) → signal_eq s s ≡ true
signal_eq_refl s = ground arith

pub eq_of_signal_eq : (s t : WorkflowSignal) → signal_eq s t ≡ true → s ≡ t
eq_of_signal_eq s t h = ground arith

-- `WorkflowSignal::ALL`
abbrev pub all_signals : List WorkflowSignal
all_signals =
    read ∷ searched ∷ edited ∷ tests_run ∷ tests_failed ∷ planned ∷ delegated ∷ git_used ∷ built
    ∷ deployed ∷ []

pub data UsageMeasurement : Type 0 where
  reported estimated unavailable : UsageMeasurement

pub record UsageSlice (F : Type 0) : Type 0 where
  pub provider_id : Text
  pub model_id : Text
  pub tokens : TokenBreakdown
  pub cost : Cost F

pub record ModelActivityStep (F : Type 0) : Type 0 where
  pub sequence : ℕ
  pub provider_id : Text
  pub model_id : Text
  pub tokens : TokenBreakdown
  pub cost : Cost F
  pub call_count : ℕ

pub record SignalCount : Type 0 where
  pub signal : WorkflowSignal
  pub count : ℕ
  pub model_step_index : Option ℕ

pub record SignalCapability : Type 0 where
  pub signal : WorkflowSignal
  pub supported : Bool

pub record ClassifierUsage (F : Type 0) : Type 0 where
  pub provider_id : Text
  pub model_id : Text
  pub tokens : TokenBreakdown
  pub cost : Cost F
  pub request_count : ℕ
  pub measurement : UsageMeasurement

module _ {F : Type 0} ⦃o : Float F⦄ where
  abbrev pub default_classifier_usage : ClassifierUsage F
  default_classifier_usage = record {
    provider_id = [];
    model_id = [];
    tokens = default_tokens;
    cost = default_cost;
    request_count = 0;
    measurement = unavailable;
  }

pub record UsageMessage (F : Type 0) : Type 0 where
  pub source_message_id : Text
  pub session_id : Text
  pub project_path : Option Text
  pub client_id : Text
  pub client_version : Option Text
  pub provider_id : Text
  pub model_id : Text
  pub session_started_at : Option DateTime
  pub observed_at : DateTime
  pub tokens : TokenBreakdown
  pub cost : Cost F
  pub turn_sequence : ℕ
  pub activity_sequence : ℕ
  pub workflow_signals : List WorkflowSignal
  pub signal_capabilities : List WorkflowSignal
  pub classification_text : Option Text
