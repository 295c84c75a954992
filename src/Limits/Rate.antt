-- ===== src/Limits/Rate.antt =====
-- `RateLimiter` (crates/metrune-api/src/limits.rs): a budget of requests for each scope and key in a
-- fixed window.
pub mod Budget
use metrune.Prelude.{
  ℕ, ◌+◌, Bool, ◌&&◌, Option, none, some, List, [], ◌∷◌, ◌++◌, ltb, leb, ◌==◌, if◌then◌else◌,
  length,
}
use metrune.Prelude.Text.{Text}
use metrune.Prelude.Words.{u32_max, saturating_add}
use metrune.Prelude.Order.{text_ord}
use metrune.Prelude.TreeMap.{TreeMap, get, update, retain}
use metrune.Limits.{Instant, from_secs, max_rate_limit_keys}
use metrune.Limits.Login.{is_vacant}

pub record RateLimit : Type 0 where
  pub window : ℕ
  pub max_requests : ℕ

-- `RateLimit::new`
abbrev pub new_rate_limit : ℕ → ℕ → RateLimit
new_rate_limit window_secs max_requests = record {
  window = from_secs window_secs;
  max_requests = max_requests;
}

pub record RateWindow : Type 0 where
  pub expires_at : Instant
  pub hits : ℕ

abbrev pub Windows : Type 0
Windows = TreeMap Text RateWindow

pub data Verdict : Type 0 where
  allowed shedding_load limit_exceeded : Verdict

-- `format!("{scope}:{key}")`
unfoldable pub entry_name : Text → Text → Text
entry_name scope key = scope ++ b':' ∷ key

abbrev pub is_live : Instant → RateWindow → Bool
is_live now window = ltb now window.expires_at

-- `entry(…).or_insert(…)`
abbrev pub window_or_new : Instant → RateLimit → Option RateWindow → RateWindow
window_or_new now limit none = record { expires_at = now + limit.window; hits = 0 }
window_or_new now limit (some window) = window

abbrev pub hit : RateWindow → RateWindow
hit window = record window { hits = saturating_add u32_max window.hits 1 }

-- From the entry on: an exhausted window stays, and a fresh one stays in the table all the same.
unfoldable pub charge : Instant → RateLimit → Text → Windows → Verdict × Windows
charge now limit entry windows =
    let window = window_or_new now limit (get entry windows) in
    if leb limit.max_requests window.hits
    then (limit_exceeded, update entry (window_or_new now limit) windows)
    else (allowed, update entry (λ found. hit (window_or_new now limit found)) windows)

unfoldable pub check_entry : Instant → RateLimit → Text → Windows → Verdict × Windows
unfolding charge
check_entry now limit entry windows =
    let kept = retain (is_live now) windows in
    if limit.max_requests == 0
    then (allowed, windows)
    else if leb max_rate_limit_keys (length kept) && is_vacant (get entry kept)
    then (shedding_load, kept)
    else charge now limit entry kept

unfoldable pub check : Instant → Text → Text → RateLimit → Windows → Verdict × Windows
unfolding check_entry entry_name
check now scope key limit windows = check_entry now limit (entry_name scope key) windows
