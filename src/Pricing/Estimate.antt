-- ===== src/Pricing/Estimate.antt =====
-- `PriceBook::estimate` (crates/metrune-core/src/pricing.rs): the cost of a message.
pub mod Effects
use metrune.Prelude.{
  ℕ, zero, suc, ◌+◌, ◌/◌, Bool, true, false, not, ◌&&◌, ◌||◌, Option, none, some, List, [], ◌∷◌,
  ◌++◌, ltb, leb, ◌==◌, if◌then◌else◌, is_empty,
}
use metrune.Prelude.Float.{Float}
use metrune.Prelude.Text.{Text, codes, text_eq, to_ascii_lowercase}
use metrune.Prelude.Order.{text_ord}
use metrune.Prelude.TreeMap.{TreeMap, get}
use metrune.Core.Tokens.{TokenBreakdown}
use metrune.Core.Types.{DateTime, CostKind, Cost, UsageMessage}
use metrune.Core.Identity.{canonical_model_id}
use metrune.Pricing.{ModelPrice, authority_str, PriceEntry, PriceBook, Rank, selected_entry}

module _ {F : Type 0} where
  -- The price of `models`, at the provider's key or else at the model's.
  abbrev pub model_price : PriceBook F → Text → Text → Option (ModelPrice F)
  model_price book provider canonical = elim (get (provider ++ b'/' ∷ canonical) book.models) [
    | some price ↦ some price
    | none ↦ get canonical book.models
  ]

  abbrev pub with_fallback :
      PriceBook F
      → UsageMessage F
      → Option (PriceEntry F × Rank)
      → Option (ModelPrice F × Text × Text)
  with_fallback book m (some c) = some (c.0.price, c.0.currency, authority_str c.0.authority)
  with_fallback book m none =
      elim (model_price book (to_ascii_lowercase m.provider_id) (canonical_model_id m.model_id)) [
        | none ↦ none
        | some price ↦ some (price, book.currency, codes "manual")
      ]

  -- The price, the currency and the authority.
  unfoldable pub priced :
      PriceBook F → DateTime → UsageMessage F → Option (ModelPrice F × Text × Text)
  priced book now m = with_fallback book m (selected_entry book now m)

  abbrev pub currency_or : PriceBook F → Text → Text
  currency_or book currency =
      if is_empty currency
      then (if is_empty book.currency then codes "USD" else book.currency)
      else currency

abbrev pub is_reported : CostKind → Bool
is_reported CostKind.reported = true
is_reported CostKind.estimated = false
is_reported CostKind.unknown = false

module _ {F : Type 0} ⦃o : Float F⦄ where
  abbrev pub million : F
  million = o.of_u64 1_000_000

  unfoldable pub token_cost : ModelPrice F → TokenBreakdown → F
  token_cost price tokens =
      let input = o.mul_f (o.of_u64 tokens.input) price.input_per_million in
      let output = o.mul_f (o.of_u64 tokens.output) price.output_per_million in
      let cache_read = o.mul_f (o.of_u64 tokens.cache_read) price.cache_read_per_million in
      let cache_write = o.mul_f (o.of_u64 tokens.cache_write) price.cache_write_per_million in
      let reasoning = o.mul_f (o.of_u64 tokens.reasoning) price.reasoning_per_million in
      o.div_f (o.add_f (o.add_f (o.add_f (o.add_f input output) cache_read) cache_write) reasoning)
        million

  abbrev pub estimated_cost : PriceBook F → UsageMessage F → ModelPrice F × Text × Text → Cost F
  estimated_cost book m (price, currency, authority) = record {
    amount = token_cost price m.tokens;
    currency = currency_or book currency;
    kind = CostKind.estimated;
    pricebook_version = some book.version;
    price_source = some authority;
  }

  abbrev pub set_price :
      PriceBook F → UsageMessage F → Option (ModelPrice F × Text × Text) → Bool × UsageMessage F
  set_price book m none = (false, m)
  set_price book m (some chosen) = (true, record m { cost = estimated_cost book m chosen })

  -- Whether the cost was set, and the message.
  unfoldable pub estimate : PriceBook F → DateTime → UsageMessage F → Bool × UsageMessage F
  estimate book now m =
      if is_reported m.cost.kind then (false, m) else set_price book m (priced book now m)
