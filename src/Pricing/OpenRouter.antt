-- ===== src/Pricing/OpenRouter.antt =====
-- `PriceCatalog::from_openrouter_json` (crates/metrune-core/src/pricing.rs), on the models that the
-- JSON decodes to. `str::parse::<f64>` is a parameter, and so is the format of the version.
pub mod Rates
use metrune.Prelude.{
  Bool, true, false, not, ◌&&◌, ◌||◌, Option, none, some, List, [], ◌∷◌, ◌++◌, if◌then◌else◌,
}
use metrune.Prelude.Float.{Float}
use metrune.Prelude.Text.{Text, codes}
use metrune.Core.Types.{DateTime}
use metrune.Pricing.{ModelPrice, PriceEntry, open_router}

pub record OpenRouterPricing : Type 0 where
  pub prompt : Text
  pub completion : Text
  pub cache_read : Option Text
  pub cache_write : Option Text
  pub input_cache_read : Option Text
  pub input_cache_write : Option Text
  pub internal_reasoning : Option Text
  pub request : Option Text
  pub image : Option Text

pub record OpenRouterModel : Type 0 where
  pub id : Text
  pub canonical_slug : Option Text
  pub pricing : OpenRouterPricing

pub record PriceCatalog (F : Type 0) : Type 0 where
  pub schema_version : Text
  pub catalog_version : Text
  pub generated_at : DateTime
  pub currency : Text
  pub entries : List (PriceEntry F)

-- The two errors name the value and the model.
pub data RateError : Type 0 where
  unparsable not_a_price : Text → Text → RateError

pub data Parsed (A : Type 0) : Type 0 where
  parsed : A → Parsed A
  unusable : RateError → Parsed A

-- The `?` operator.
abbrev pub and_parsed : {A B : Type 0} → Parsed A → (A → Parsed B) → Parsed B
and_parsed (parsed a) f = f a
and_parsed (unusable e) f = unusable e

-- `Option::or`
abbrev pub or_else : Option Text → Option Text → Option Text
or_else none second = second
or_else (some t) second = some t

abbrev openrouter_models_url : Text
openrouter_models_url = codes "https://openrouter.ai/api/v1/models"

abbrev pub slug_note : Option Text → Option Text
slug_note none = none
slug_note (some slug) = some (codes "canonical slug: " ++ slug)

module _ {F : Type 0} ⦃o : Float F⦄ where
  -- `rate == -1.0`, which no NaN is.
  abbrev pub is_minus_one : F → Bool
  is_minus_one rate =
      let minus_one = o.sub_f o.zero_f o.one_f in
      o.is_finite rate && not (o.ltb_f rate minus_one || o.ltb_f minus_one rate)

  abbrev pub check_rate : Text → Text → Option F → Parsed (Option F)
  check_rate value model_id none = unusable (unparsable value model_id)
  check_rate value model_id (some rate) =
      if is_minus_one rate
      then parsed none
      else if not (o.is_finite rate) || o.ltb_f rate o.zero_f
      then unusable (not_a_price value model_id)
      else parsed (some rate)

  -- `none` where the price is not available.
  unfoldable pub parse_openrouter_rate : (Text → Option F) → Text → Text → Parsed (Option F)
  parse_openrouter_rate parse_f64 value model_id = check_rate value model_id (parse_f64 value)

  abbrev pub or_zero : Option F → F
  or_zero none = o.zero_f
  or_zero (some rate) = rate

  unfoldable pub parse_optional_openrouter_rate : (Text → Option F) → Option Text → Text → Parsed F
  parse_optional_openrouter_rate parse_f64 none model_id = parsed o.zero_f
  parse_optional_openrouter_rate parse_f64 (some value) model_id =
      and_parsed (parse_openrouter_rate parse_f64 value model_id) (λ rate. parsed (or_zero rate))

  abbrev pub per_million : F → F
  per_million rate = o.mul_f rate (o.of_u64 1_000_000)

  abbrev pub openrouter_entry : DateTime → OpenRouterModel → ModelPrice F → PriceEntry F
  openrouter_entry retrieved_at model price = record {
    provider_id = some (codes "openrouter");
    model_id = model.id;
    price = price;
    currency = codes "USD";
    authority = open_router;
    source_url = some openrouter_models_url;
    retrieved_at = some retrieved_at;
    effective_from = some retrieved_at;
    effective_until = none;
    notes = slug_note model.canonical_slug;
  }

  -- The prices of a model, unless one of the optional ones is an error: the first is returned.
  abbrev pub assemble :
      F → F → Parsed F → Parsed F → Parsed F → Parsed F → Parsed F → Parsed (ModelPrice F)
  assemble input output (unusable e) cache_write reasoning request image = unusable e
  assemble input output (parsed cache_read) (unusable e) reasoning request image = unusable e
  assemble input output (parsed cache_read) (parsed cache_write) (unusable e) request image =
      unusable e
  assemble input output (parsed cache_read) (parsed cache_write) (parsed reasoning) (unusable e)
        image =
      unusable e
  assemble input output (parsed cache_read) (parsed cache_write) (parsed reasoning) (parsed request)
        (unusable e) =
      unusable e
  assemble input output (parsed cache_read) (parsed cache_write) (parsed reasoning) (parsed request)
        (parsed image) =
      parsed (record {
        input_per_million = per_million input;
        output_per_million = per_million output;
        cache_read_per_million = per_million cache_read;
        cache_write_per_million = per_million cache_write;
        reasoning_per_million = per_million reasoning;
        request_per_request = request;
        image_per_image = image;
      })

  unfoldable pub rest_of_price : (Text → Option F) → OpenRouterModel → F → F → Parsed (ModelPrice F)
  rest_of_price parse_f64 model input output =
      let optional =
        λ (value : Option Text). parse_optional_openrouter_rate parse_f64 value model.id in
      let pricing = model.pricing in
      assemble input output (optional (or_else pricing.cache_read pricing.input_cache_read))
        (optional (or_else pricing.cache_write pricing.input_cache_write))
        (optional pricing.internal_reasoning) (optional pricing.request) (optional pricing.image)

  -- `none` where the loop continues without the model.
  abbrev pub with_rates :
      (Text → Option F) → OpenRouterModel → Option F → Option F → Parsed (Option (ModelPrice F))
  with_rates parse_f64 model none output = parsed none
  with_rates parse_f64 model (some input) none = parsed none
  with_rates parse_f64 model (some input) (some output) =
      and_parsed (rest_of_price parse_f64 model input output) (λ price. parsed (some price))

  abbrev pub with_input :
      (Text → Option F) → OpenRouterModel → Option F → Parsed (Option (ModelPrice F))
  with_input parse_f64 model none = parsed none
  with_input parse_f64 model (some input) =
      and_parsed (parse_openrouter_rate parse_f64 model.pricing.completion model.id)
        (λ output. with_rates parse_f64 model (some input) output)

  unfoldable pub model_price : (Text → Option F) → OpenRouterModel → Parsed (Option (ModelPrice F))
  model_price parse_f64 model =
      and_parsed (parse_openrouter_rate parse_f64 model.pricing.prompt model.id)
        (with_input parse_f64 model)

  abbrev pub push_entry :
      DateTime → OpenRouterModel → Option (ModelPrice F) → List (PriceEntry F) → List (PriceEntry F)
  push_entry retrieved_at model none entries = entries
  push_entry retrieved_at model (some price) entries =
      openrouter_entry retrieved_at model price ∷ entries

  -- The loop over the models.
  unfoldable pub openrouter_entries :
      (Text → Option F) → DateTime → List OpenRouterModel → Parsed (List (PriceEntry F))
  openrouter_entries parse_f64 retrieved_at [] = parsed []
  openrouter_entries parse_f64 retrieved_at (model ∷ models) =
      let rest = openrouter_entries parse_f64 retrieved_at models in
      and_parsed (model_price parse_f64 model)
        (λ price. and_parsed rest (λ entries. parsed (push_entry retrieved_at model price entries)))

  unfoldable pub from_openrouter_json :
      (Text → Option F)
      → (DateTime → Text)
      → DateTime
      → List OpenRouterModel
      → Parsed (PriceCatalog F)
  from_openrouter_json parse_f64 format retrieved_at models =
      and_parsed (openrouter_entries parse_f64 retrieved_at models) (λ entries. parsed (record {
        schema_version = codes "1";
        catalog_version = codes "openrouter-" ++ format retrieved_at;
        generated_at = retrieved_at;
        currency = codes "USD";
        entries = entries;
      }))
