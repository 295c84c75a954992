-- ===== src/Pricing.antt =====
-- The price book of the client (crates/metrune-core/src/pricing.rs): `PriceBook::estimate`.
pub mod Selection
pub mod Estimate
pub mod OpenRouter
use metrune.Prelude.{
  ℕ, zero, suc, ◌+◌, ◌/◌, Bool, true, false, not, ◌&&◌, ◌||◌, Option, none, some, List, [], ◌∷◌,
  ◌++◌, ltb, leb, ◌==◌, if◌then◌else◌, is_empty,
}
use metrune.Prelude.Float.{Float}
use metrune.Prelude.Text.{Text, codes, text_eq, to_ascii_lowercase}
use metrune.Prelude.Order.{text_ord}
use metrune.Prelude.TreeMap.{TreeMap, get}
use metrune.Core.Tokens.{TokenBreakdown}
use metrune.Core.Types.{DateTime, CostKind, Cost, UsageMessage}
use metrune.Core.Identity.{canonical_model_id}

pub record ModelPrice (F : Type 0) : Type 0 where
  pub input_per_million : F
  pub output_per_million : F
  pub cache_read_per_million : F
  pub cache_write_per_million : F
  pub reasoning_per_million : F
  pub request_per_request : F
  pub image_per_image : F

pub data PriceAuthority : Type 0 where
  open_router official_provider organization_override self_hosted manual : PriceAuthority

-- `PriceAuthority::as_str`
abbrev pub authority_str : PriceAuthority → Text
authority_str open_router = codes "openrouter"
authority_str official_provider = codes "official_provider"
authority_str organization_override = codes "organization_override"
authority_str self_hosted = codes "self_hosted"
authority_str manual = codes "manual"

abbrev pub priority : PriceAuthority → ℕ
priority manual = 10
priority open_router = 20
priority official_provider = 30
priority self_hosted = 40
priority organization_override = 50

pub record PriceEntry (F : Type 0) : Type 0 where
  pub provider_id : Option Text
  pub model_id : Text
  pub price : ModelPrice F
  pub currency : Text
  pub authority : PriceAuthority
  pub source_url : Option Text
  pub retrieved_at : Option DateTime
  pub effective_from : Option DateTime
  pub effective_until : Option DateTime
  pub notes : Option Text

pub record PriceBook (F : Type 0) : Type 0 where
  pub version : Text
  pub currency : Text
  pub models : TreeMap Text (ModelPrice F)
  pub entries : List (PriceEntry F)

-- The tuple that `max_by_key` compares.
pub record Rank : Type 0 where
  pub provider_specific : ℕ
  pub authority_priority : ℕ
  pub effective_timestamp : ℕ
  pub index : ℕ

-- The order of the tuples.
unfoldable pub rank_leb : Rank → Rank → Bool
rank_leb a b =
    ltb a.provider_specific b.provider_specific
    || a.provider_specific == b.provider_specific
      && (ltb a.authority_priority b.authority_priority
          || a.authority_priority == b.authority_priority
            && (ltb a.effective_timestamp b.effective_timestamp
                || a.effective_timestamp == b.effective_timestamp && leb a.index b.index))

-- `i64::MIN` is 0, and a second after the origin of the instants is one more than it.
abbrev pub effective_seconds : Option DateTime → ℕ
effective_seconds none = 0
effective_seconds (some date) = suc (date / 1_000_000_000)

abbrev pub has_value : {A : Type 0} → Option A → ℕ
has_value none = 0
has_value (some x) = 1

abbrev pub other_provider : Text → Option Text → Bool
other_provider provider none = false
other_provider provider (some id) = not (text_eq (to_ascii_lowercase id) provider)

abbrev pub starts_later : DateTime → Option DateTime → Bool
starts_later now none = false
starts_later now (some date) = ltb now date

abbrev pub has_ended : DateTime → Option DateTime → Bool
has_ended now none = false
has_ended now (some date) = leb date now

module _ {F : Type 0} where
  -- Whether the entry prices the model at the provider now.
  unfoldable pub is_applicable : Text → Text → DateTime → PriceEntry F → Bool
  is_applicable canonical provider now entry = not (
      not (text_eq (canonical_model_id entry.model_id) canonical)
      || other_provider provider entry.provider_id
      || starts_later now entry.effective_from
      || has_ended now entry.effective_until)

  abbrev pub rank_of : ℕ → PriceEntry F → Rank
  rank_of index entry = record {
    provider_specific = has_value entry.provider_id;
    authority_priority = priority entry.authority;
    effective_timestamp = effective_seconds entry.effective_from;
    index = index;
  }

  -- `enumerate().filter_map(…)`, from `index` on.
  unfoldable pub candidates :
      Text → Text → DateTime → ℕ → List (PriceEntry F) → List (PriceEntry F × Rank)
  candidates canonical provider now index [] = []
  candidates canonical provider now index (entry ∷ entries) =
      let rest = candidates canonical provider now (suc index) entries in
      if is_applicable canonical provider now entry
      then (entry, rank_of index entry) ∷ rest
      else rest

  -- `max_by_key` returns the last of the greatest.
  unfoldable pub highest : PriceEntry F × Rank → List (PriceEntry F × Rank) → PriceEntry F × Rank
  highest best [] = best
  highest best (c ∷ cs) = highest (if rank_leb best.1 c.1 then c else best) cs

  abbrev pub max_candidate : List (PriceEntry F × Rank) → Option (PriceEntry F × Rank)
  max_candidate [] = none
  max_candidate (c ∷ cs) = some (highest c cs)

  unfoldable pub selected_entry :
      PriceBook F → DateTime → UsageMessage F → Option (PriceEntry F × Rank)
  selected_entry book now m = max_candidate (
      candidates (canonical_model_id m.model_id) (to_ascii_lowercase m.provider_id) now 0
        book.entries)
