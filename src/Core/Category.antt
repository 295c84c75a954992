-- ===== src/Core/Category.antt =====
-- Categories and their assignments (crates/metrune-core/src/lib.rs).
use metrune.Prelude.{Bool, true, false}
use metrune.Prelude.Float.{Float}
use metrune.Prelude.Text.{Text, codes}
use metrune.Core.Types.{taxonomy_version}

pub data CategoryId : Type 0 where
  implementation debugging research documentation review_refactoring testing planning operations :
      CategoryId
  content unknown : CategoryId

-- `CategoryId::as_str`
abbrev pub category_str : CategoryId → Text
category_str implementation = codes "implementation"
category_str debugging = codes "debugging"
category_str research = codes "research"
category_str documentation = codes "documentation"
category_str review_refactoring = codes "review_refactoring"
category_str testing = codes "testing"
category_str planning = codes "planning"
category_str operations = codes "operations"
category_str content = codes "content"
category_str unknown = codes "unknown"

pub data ClassificationStatus : Type 0 where
  classified not_configured unavailable failed no_input : ClassificationStatus

abbrev pub is_classified : ClassificationStatus → Bool
is_classified classified = true
is_classified _ = false

pub data ClassificationMethod : Type 0 where
  rule semantic_model inherited none_method : ClassificationMethod

-- `ClassificationMethod::as_str`
abbrev pub method_str : ClassificationMethod → Text
method_str rule = codes "rule"
method_str semantic_model = codes "semantic_model"
method_str inherited = codes "inherited"
method_str none_method = codes "none"

pub record CategoryAssignment (F : Type 0) : Type 0 where
  pub category_id : CategoryId
  pub confidence : F
  pub taxonomy_version : Text
  pub classifier_id : Text
  pub classification_status : ClassificationStatus

module _ {F : Type 0} ⦃o : Float F⦄ where
  -- `CategoryAssignment::default()`
  abbrev pub default_assignment : CategoryAssignment F
  default_assignment = record {
    category_id = unknown;
    confidence = o.zero_f;
    taxonomy_version = taxonomy_version;
    classifier_id = codes "unavailable";
    classification_status = unavailable;
  }

  abbrev pub assignment_not_configured : CategoryAssignment F
  assignment_not_configured = record default_assignment {
    classifier_id = codes "not_configured";
    classification_status = not_configured;
  }

  abbrev pub assignment_no_input : CategoryAssignment F
  assignment_no_input = record default_assignment {
    classifier_id = codes "no_input";
    classification_status = no_input;
  }

  abbrev pub assignment_failed : Text → CategoryAssignment F
  assignment_failed id = record default_assignment {
    classifier_id = id;
    classification_status = failed;
  }
