-- ===== src/Pricing/OpenRouter/Rates.antt =====
-- The rates of OpenRouter (crates/metrune-core/src/pricing.rs).
use mathlib.Core.Path.{subst}
use metrune.Prelude.{
  ◌≡◌, refl, sym, ap, ◌∙◌, true, false, Option, none, some, List, [], ◌∷◌, arith, All, Option-cases,
  inl, inr,
}
use metrune.Prelude.Float.{Float}
use metrune.Prelude.Text.{Text}
use metrune.Core.Types.{DateTime}
use metrune.Pricing.{ModelPrice, PriceEntry}
use metrune.Pricing.OpenRouter.{
  OpenRouterModel, Parsed, parsed, unusable, and_parsed, parse_openrouter_rate, per_million,
  rest_of_price, assemble, or_else, parse_optional_openrouter_rate, with_rates, with_input,
  model_price, push_entry, openrouter_entries,
}

-- A chain that succeeds has steps that succeed.
parsed-step :
    {A B : Type 0} (p : Parsed A) (f : A → Parsed B) (b : B)
    → and_parsed p f ≡ parsed b
    → (a : A) × (p ≡ parsed a) × (f a ≡ parsed b)
parsed-step (parsed a) f b h = (a, refl, h)
parsed-step (unusable e) f b h = absurd (ground (arith, h))

abbrev value_or : {A : Type 0} → A → Parsed A → A
value_or a (parsed b) = b
value_or a (unusable e) = a

parsed_injective : {A : Type 0} (a b : A) → parsed a ≡ parsed b → a ≡ b
parsed_injective a b h = ap (value_or a) h

abbrev some_or : {A : Type 0} → A → Option A → A
some_or a none = a
some_or a (some b) = b

some_injective : {A : Type 0} (a b : A) → some a ≡ some b → a ≡ b
some_injective a b h = ap (some_or a) h

module _ {F : Type 0} ⦃o : Float F⦄ where
  -- Finite and not negative.
  abbrev pub IsRate : F → Type 0
  IsRate rate = (o.is_finite rate ≡ true) × (o.ltb_f rate o.zero_f ≡ false)

  IsRate-parse :
      (parse_f64 : Text → Option F) (value id : Text) (rate : F)
      → parse_openrouter_rate parse_f64 value id ≡ parsed (some rate)
      → IsRate rate
  unfolding parse_openrouter_rate
  IsRate-parse parse_f64 value id rate h = elim (Option-cases (parse_f64 value)) [
    | inl e ↦ ground (arith, h, e)
    | inr (x, e) ↦ ground (arith, h, e)
  ]

  -- The input and output prices are those of two rates, per million.
  abbrev pub IsRated : ModelPrice F → Type 0
  IsRated price =
      (input : F) × (output : F) × IsRate input
      × IsRate output
      × (price.input_per_million ≡ per_million input)
      × (price.output_per_million ≡ per_million output)

  abbrev PerMillion : F → F → ModelPrice F → Type 0
  PerMillion input output price =
      (price.input_per_million ≡ per_million input)
      × (price.output_per_million ≡ per_million output)

  assemble-PerMillion :
      (input output : F) (a b c d e : Parsed F) (price : ModelPrice F)
      → assemble input output a b c d e ≡ parsed price
      → PerMillion input output price
  assemble-PerMillion input output (unusable x) b c d e price h = absurd (ground (arith, h))
  assemble-PerMillion input output (parsed a) (unusable x) c d e price h =
      absurd (ground (arith, h))
  assemble-PerMillion input output (parsed a) (parsed b) (unusable x) d e price h =
      absurd (ground (arith, h))
  assemble-PerMillion input output (parsed a) (parsed b) (parsed c) (unusable x) e price h =
      absurd (ground (arith, h))
  assemble-PerMillion input output (parsed a) (parsed b) (parsed c) (parsed d) (unusable x) price
        h =
      absurd (ground (arith, h))
  assemble-PerMillion input output (parsed a) (parsed b) (parsed c) (parsed d) (parsed e) price h =
      let same = parsed_injective _ price h in
      (sym (ap (λ p. p.input_per_million) same), sym (ap (λ p. p.output_per_million) same))

  rest_of_price-PerMillion :
      (parse_f64 : Text → Option F) (model : OpenRouterModel) (input output : F)
      (price : ModelPrice F)
      → rest_of_price parse_f64 model input output ≡ parsed price
      → PerMillion input output price
  unfolding rest_of_price
  rest_of_price-PerMillion parse_f64 model input output price h =
      let optional =
        λ (value : Option Text). parse_optional_openrouter_rate parse_f64 value model.id in
      let pricing = model.pricing in
      assemble-PerMillion input output
        (optional (or_else pricing.cache_read pricing.input_cache_read))
        (optional (or_else pricing.cache_write pricing.input_cache_write))
        (optional pricing.internal_reasoning) (optional pricing.request) (optional pricing.image)
        price h

  IsRated-model_price :
      (parse_f64 : Text → Option F) (model : OpenRouterModel) (price : ModelPrice F)
      → model_price parse_f64 model ≡ parsed (some price)
      → IsRated price
  unfolding model_price
  IsRated-model_price parse_f64 model price h =
      let (input, read, rest) =
        parsed-step (parse_openrouter_rate parse_f64 model.pricing.prompt model.id)
          (with_input parse_f64 model) (some price) h in
      first input read rest
    where
      second :
          (i : F) (output : Option F)
          → IsRate i
          → parse_openrouter_rate parse_f64 model.pricing.completion model.id ≡ parsed output
          → with_rates parse_f64 model (some i) output ≡ parsed (some price)
          → IsRated price
      second i none rate read h = absurd (ground (arith, h))
      second i (some j) rate read h =
          let (p, made, same) =
            parsed-step (rest_of_price parse_f64 model i j) (λ price. parsed (some price))
              (some price) h in
          let (ki, kj) = rest_of_price-PerMillion parse_f64 model i j price (
            made
            ∙ ap parsed (some_injective p price (parsed_injective (some p) (some price) same))) in
          (i, j, rate, IsRate-parse parse_f64 model.pricing.completion model.id j read, ki, kj)

      first :
          (input : Option F)
          → parse_openrouter_rate parse_f64 model.pricing.prompt model.id ≡ parsed input
          → with_input parse_f64 model input ≡ parsed (some price)
          → IsRated price
      first none read h = absurd (ground (arith, h))
      first (some i) read h =
          let (output, read', rest) =
            parsed-step (parse_openrouter_rate parse_f64 model.pricing.completion model.id)
              (λ output. with_rates parse_f64 model (some i) output) (some price) h in
          second i output (IsRate-parse parse_f64 model.pricing.prompt model.id i read) read' rest

  -- Every entry that is read from the models of OpenRouter prices input and output at finite rates
  -- that are not negative, whatever the texts parse to.
  pub openrouter_entries-IsRated :
      (parse_f64 : Text → Option F) (retrieved_at : DateTime) (models : List OpenRouterModel)
      (entries : List (PriceEntry F))
      → openrouter_entries parse_f64 retrieved_at models ≡ parsed entries
      → All (λ e. IsRated e.price) entries
  unfolding openrouter_entries
  openrouter_entries-IsRated parse_f64 retrieved_at [] entries h =
      subst (All (λ e. IsRated e.price)) (parsed_injective [] entries h) tt
  openrouter_entries-IsRated parse_f64 retrieved_at (model ∷ models) entries h =
      let (price, priced, k) =
        parsed-step (model_price parse_f64 model)
          (λ price.
            and_parsed (openrouter_entries parse_f64 retrieved_at models)
              (λ entries. parsed (push_entry retrieved_at model price entries)))
          entries h in
      let (rest, read, same) =
        parsed-step (openrouter_entries parse_f64 retrieved_at models)
          (λ entries. parsed (push_entry retrieved_at model price entries)) entries k in
      subst (All (λ e. IsRated e.price))
        (parsed_injective (push_entry retrieved_at model price rest) entries same)
        (pushed rest price priced
          (openrouter_entries-IsRated parse_f64 retrieved_at models rest read))
    where
      pushed :
          (rest : List (PriceEntry F)) (price : Option (ModelPrice F))
          → model_price parse_f64 model ≡ parsed price
          → All (λ e. IsRated e.price) rest
          → All (λ e. IsRated e.price) (push_entry retrieved_at model price rest)
      pushed rest none priced a = a
      pushed rest (some p) priced a = (IsRated-model_price parse_f64 model p priced, a)
