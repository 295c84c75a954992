-- ===== src/Examples/Deliveries.antt =====
-- Uploads that empty the outbox, and prices.
use metrune.Prelude.{ℕ, ◌≡◌, ◌⊎◌, refl, none, some, [], ◌∷◌, arith}
use metrune.Prelude.Text.{codes}
use metrune.Core.Identity.{canonical_model_id}
use metrune.Core.Snapshot.{SessionSnapshot, IngestAck}
use metrune.State.{LocalState, OutboxRow}
use metrune.Client.Upload.{Bodies, response}
use metrune.Client.Upload.Rows.{waiting}
use metrune.Client.Upload.Progress.{uploads, uploads-drain}
use metrune.Pricing.{ModelPrice, PriceEntry, PriceBook, open_router, rank_of, selected_entry}
use metrune.Pricing.Selection.{NoneApplies, IsChosen, selected_entry-IsChosen}
use metrune.Pricing.Estimate.{estimate}
use metrune.Pricing.Estimate.Effects.{IsKept, IsPriced, estimate-IsPriced}
use metrune.Examples.Sample.{whole, digests, codec, sample_snapshot, empty_state, message}

abbrev first : SessionSnapshot ℕ
first = sample_snapshot (codes "a") 1 10

abbrev waiting_row : OutboxRow
waiting_row = record {
  revision = 1;
  snapshot_json = first.session_key;
  acknowledged_at = none;
  updated_at = 2;
}

abbrev stored : LocalState
stored = record empty_state { session_outbox = (first.session_key, waiting_row) ∷ [] }

abbrev clean_ack : IngestAck
clean_ack = record {
  batch_id = codes "b";
  accepted = 1;
  duplicates = 0;
  rejected = 0;
  errors = [];
  accepted_session_keys = [];
  rejected_session_keys = [];
}

abbrev bodies : Bodies
bodies = record { decode_ack = λ body. some clean_ack; decode_unsupported = λ body. none }

uploads-drain_example :
    waiting
      (uploads digests codec bodies
        (λ round batch. response 200 (codes "ok"))
        (λ i. 9)
        500
        1
        stored).session_outbox
    ≡ 0
uploads-drain_example =
    uploads-drain digests codec bodies (λ round batch. response 200 (codes "ok")) (λ i. 9) 500 1
      stored (omega arith) ((tt, tt), ((first, refl, refl, refl, omega arith), tt))
      (λ round batch. (codes "ok", clean_ack, refl, refl, refl)) (omega arith)

abbrev price : ModelPrice ℕ
price = record {
  input_per_million = 3;
  output_per_million = 15;
  cache_read_per_million = 1;
  cache_write_per_million = 4;
  reasoning_per_million = 15;
  request_per_request = 0;
  image_per_image = 0;
}

abbrev price_entry : PriceEntry ℕ
price_entry = record {
  provider_id = some (codes "anthropic");
  model_id = codes "claude-4-5";
  price = price;
  currency = codes "USD";
  authority = open_router;
  source_url = none;
  retrieved_at = none;
  effective_from = none;
  effective_until = none;
  notes = none;
}

abbrev book : PriceBook ℕ
book = record {
  version = codes "v1";
  currency = codes "USD";
  models = [];
  entries = price_entry ∷ [];
}

selected_entry-IsChosen_example :
    ((selected_entry book 9 (message 5 10) ≡ none)
      × NoneApplies (codes "claude-4-5") (codes "anthropic") 9 book.entries)
    ⊎ ((entry : PriceEntry ℕ) × (i : ℕ) × (selected_entry book 9 (message 5 10)
          ≡ some (entry, rank_of i entry))
        × IsChosen book 9 (message 5 10) entry i)
unfolding canonical_model_id
selected_entry-IsChosen_example = selected_entry-IsChosen book 9 (message 5 10)

estimate-IsPriced_example :
    (IsKept book 9 (message 5 10) ⊎ IsPriced book 9 (message 5 10))
    × (estimate book 9 (estimate book 9 (message 5 10)).1 ≡ estimate book 9 (message 5 10))
estimate-IsPriced_example = estimate-IsPriced book 9 (message 5 10)
