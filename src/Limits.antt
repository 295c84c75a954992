-- ===== src/Limits.antt =====
-- The rate limits of the API (crates/metrune-api/src/limits.rs). An instant is its number of ticks of
-- a nanosecond; the hash maps behind their locks are maps, and each call is one step on them.
pub mod Login
pub mod Rate
use metrune.Prelude.{ℕ, ◌*◌, ◌^◌}

abbrev pub Instant : Type 0
Instant = ℕ

-- `Duration::from_secs`
abbrev pub from_secs : ℕ → ℕ
from_secs n = n * 1_000_000_000

abbrev pub max_rate_limit_keys : ℕ
max_rate_limit_keys = 100_000

abbrev pub max_login_keys : ℕ
max_login_keys = 100_000

abbrev pub login_window : ℕ
login_window = from_secs 60

abbrev pub max_login_failures_per_window : ℕ
max_login_failures_per_window = 5
