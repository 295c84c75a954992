-- ===== src/Pricing/Estimate/Effects.antt =====
-- What `PriceBook::estimate` changes (crates/metrune-core/src/pricing.rs).
use metrune.Prelude.{
  ℕ, ◌≡◌, refl, ap, ◌∙◌, true, false, Option, none, some, List, [], ◌∷◌, ◌++◌, arith, ◌⊎◌, inl, inr,
  if◌then◌else◌, is_empty, Bool-cases, Option-cases,
}
use metrune.Prelude.Float.{Float}
use metrune.Prelude.Text.{Text, codes, to_ascii_lowercase}
use metrune.Prelude.Order.{text_ord}
use metrune.Prelude.TreeMap.{get}
use metrune.Core.Tokens.{TokenBreakdown}
use metrune.Core.Types.{DateTime, CostKind, Cost, UsageMessage}
use metrune.Core.Identity.{canonical_model_id}
use metrune.Pricing.{ModelPrice, authority_str, PriceEntry, PriceBook, Rank, selected_entry}
use metrune.Pricing.Selection.{NoneApplies, IsChosen, selected_entry-IsChosen}
use metrune.Pricing.Estimate.{
  model_price, with_fallback, priced, token_cost, million, estimated_cost, set_price, is_reported,
  estimate,
}

-- The first text that is not empty.
abbrev pub first_filled : Text → List Text → Text
first_filled fallback [] = fallback
first_filled fallback (t ∷ ts) =
    let rest = first_filled fallback ts in if is_empty t then rest else t

module _ {F : Type 0} (book : PriceBook F) (now : DateTime) (m : UsageMessage F) where
  abbrev pub provider_price : Option (ModelPrice F)
  provider_price =
      get (to_ascii_lowercase m.provider_id ++ b'/' ∷ canonical_model_id m.model_id) book.models

  abbrev pub any_provider_price : Option (ModelPrice F)
  any_provider_price = get (canonical_model_id m.model_id) book.models

  abbrev pub NoEntry : Type 0
  NoEntry =
      NoneApplies (canonical_model_id m.model_id) (to_ascii_lowercase m.provider_id) now
        book.entries

  -- No entry applies, and the models have no price under either key.
  abbrev pub IsUnpriced : Type 0
  IsUnpriced = NoEntry × (provider_price ≡ none) × (any_provider_price ≡ none)

  -- The price is that of the entry that comes first among those that apply, or, if none applies,
  -- that of the models at the provider's key or else at the model's.
  abbrev pub IsFound : ModelPrice F → Text → Text → Type 0
  IsFound price currency authority =
      ((entry : PriceEntry F) × (i : ℕ) × IsChosen book now m entry i
        × (price ≡ entry.price)
        × (currency ≡ entry.currency)
        × (authority ≡ authority_str entry.authority))
      ⊎ (NoEntry
          × ((provider_price ≡ some price)
              ⊎ ((provider_price ≡ none) × (any_provider_price ≡ some price)))
          × (currency ≡ book.currency)
          × (authority ≡ codes "manual"))

  -- The price does not depend on the cost that the message has.
  priced-cost : (cost : Cost F) → priced book now (record m { cost = cost }) ≡ priced book now m
  unfolding priced selected_entry
  priced-cost cost = go (selected_entry book now m)
    where
      go :
          (found : Option (PriceEntry F × Rank))
          → with_fallback book (record m { cost = cost }) found ≡ with_fallback book m found
      go none = refl
      go (some c) = refl

  priced-IsFound :
      ((priced book now m ≡ none) × IsUnpriced)
      ⊎ ((price : ModelPrice F) × (currency : Text) × (authority : Text) × (priced book now m
            ≡ some (price, currency, authority))
          × IsFound price currency authority)
  unfolding priced
  priced-IsFound = elim (selected_entry-IsChosen book now m) [
    | inr (entry, i, e, chosen) ↦ inr (
      entry.price,
      entry.currency,
      authority_str entry.authority,
      rw e refl,
      inl (entry, i, chosen, refl, refl, refl),
    )
    | inl (e, nothing) ↦ elim (Option-cases provider_price) [
      | inr (price, h) ↦ inr (
        price,
        book.currency,
        codes "manual",
        rw (e, with_fallback, model_price, h) refl,
        inr (nothing, inl h, refl, refl),
      )
      | inl h ↦ elim (Option-cases any_provider_price) [
        | inr (price, h') ↦ inr (
          price,
          book.currency,
          codes "manual",
          rw (e, with_fallback, model_price, h, h') refl,
          inr (nothing, inr (h, h'), refl, refl),
        )
        | inl h' ↦ inl (rw (e, with_fallback, model_price, h, h') refl, (nothing, h, h'))
      ]
    ]
  ]

module _ {F : Type 0} ⦃o : Float F⦄ where
  -- The counters but the input, with their rates.
  abbrev pub bill : ModelPrice F → TokenBreakdown → List (ℕ × F)
  bill price tokens =
      (tokens.output, price.output_per_million)
      ∷ (tokens.cache_read, price.cache_read_per_million)
      ∷ (tokens.cache_write, price.cache_write_per_million)
      ∷ (tokens.reasoning, price.reasoning_per_million)
      ∷ []

  abbrev pub add_lines : F → List (ℕ × F) → F
  add_lines sum [] = sum
  add_lines sum ((count, rate) ∷ lines) =
      add_lines (o.add_f sum (o.mul_f (o.of_u64 count) rate)) lines

  -- The sum of all five products, for a million tokens.
  abbrev pub due : ModelPrice F → TokenBreakdown → F
  due price tokens =
      o.div_f
        (add_lines (o.mul_f (o.of_u64 tokens.input) price.input_per_million) (bill price tokens))
        million

module _ {F : Type 0} ⦃o : Float F⦄ (book : PriceBook F) (now : DateTime) (m : UsageMessage F) where
  -- The message as it was, if its cost is reported or nothing prices it.
  abbrev pub IsKept : Type 0
  IsKept =
      (estimate book now m ≡ (false, m))
      × ((m.cost.kind ≡ CostKind.reported) ⊎ IsUnpriced book now m)

  -- The message at the price that was found.
  abbrev pub IsPriced : Type 0
  IsPriced =
      (is_reported m.cost.kind ≡ false)
      × ((price : ModelPrice F) × (currency : Text) × (authority : Text) × IsFound book now m price
            currency authority
          × (estimate book now m ≡ (
            true,
            record m {
              cost = record {
                amount = due price m.tokens;
                currency = first_filled (codes "USD") (currency ∷ book.currency ∷ []);
                kind = CostKind.estimated;
                pricebook_version = some book.version;
                price_source = some authority;
              };
            },
          )))

  -- A message whose cost is reported, or that no entry and no model of the book prices, is kept as
  -- it is, and this is said. Any other gets the sum of its five counters at the five rates, per
  -- million, of the first entry in rank that applies, or else of the models, with the version of the
  -- book and the authority of the price, and nothing else of it changes. Estimating it again at the
  -- same time changes nothing more.
  pub estimate-IsPriced :
      (IsKept ⊎ IsPriced) × (estimate book now (estimate book now m).1 ≡ estimate book now m)
  unfolding estimate token_cost
  estimate-IsPriced = elim (Bool-cases (is_reported m.cost.kind)) [
    | inl reported ↦
        (inl (rw reported refl, inl (ground (arith, reported))), rw (reported, reported) refl)
    | inr e ↦ elim (priced-IsFound book now m) [
      | inl (h, unpriced) ↦ (inl (rw (e, h) refl, inr unpriced), rw (e, h, e, h) refl)
      | inr (price, currency, authority, h, found) ↦ (
        inr (e, (price, currency, authority, found, rw (e, h) refl)),
        rw (e, h)
            (let cost = estimated_cost book m (price, currency, authority) in
              ap (set_price book (record m { cost = cost })) (priced-cost book now m cost ∙ h)),
      )
    ]
  ]
