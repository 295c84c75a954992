-- ===== src/Limits/Login.antt =====
-- `LoginAttemptLimiter`, and the part of the handler `login` that it guards
-- (crates/metrune-api/src/limits.rs, crates/metrune-api/src/app.rs).
pub mod Counting
pub mod Lockout
use metrune.Prelude.{
  ℕ, zero, ◌+◌, ◌-◌, Bool, true, false, ◌&&◌, not, Option, none, some, List, [], ◌∷◌, ltb, leb,
  if◌then◌else◌, length,
}
use metrune.Prelude.Text.{Text}
use metrune.Prelude.Words.{u32_max, saturating_add}
use metrune.Prelude.Order.{text_ord}
use metrune.Prelude.TreeMap.{TreeMap, get, update, retain, remove}
use metrune.Limits.{Instant, max_login_keys, login_window, max_login_failures_per_window}

pub record LoginAttemptWindow : Type 0 where
  pub started_at : Instant
  pub failures : ℕ

abbrev pub Attempts : Type 0
Attempts = TreeMap Text LoginAttemptWindow

-- `now.duration_since(window.started_at) < LOGIN_WINDOW`
abbrev pub is_recent : Instant → LoginAttemptWindow → Bool
is_recent now window = ltb (now - window.started_at) login_window

unfoldable pub drop_old_when_full : Instant → Attempts → Attempts
drop_old_when_full now attempts =
    if leb max_login_keys (length attempts) then retain (is_recent now) attempts else attempts

abbrev pub is_exhausted : Option LoginAttemptWindow → Bool
is_exhausted none = false
is_exhausted (some window) = leb max_login_failures_per_window window.failures

unfoldable pub is_limited : Instant → Text → Attempts → Bool × Attempts
is_limited now key attempts =
    let kept = drop_old_when_full now attempts in (is_exhausted (get key kept), kept)

unfoldable pub count_failure : Instant → Option LoginAttemptWindow → LoginAttemptWindow
count_failure now none = record { started_at = now; failures = saturating_add u32_max 0 1 }
count_failure now (some window) =
    if leb login_window (now - window.started_at)
    then record { started_at = now; failures = saturating_add u32_max 0 1 }
    else record window { failures = saturating_add u32_max window.failures 1 }

-- `!attempts.contains_key(key)`
abbrev pub is_vacant : {V : Type 0} → Option V → Bool
is_vacant none = true
is_vacant (some v) = false

unfoldable pub record_failure : Instant → Text → Attempts → Attempts
record_failure now key attempts =
    let kept = drop_old_when_full now attempts in
    if leb max_login_keys (length attempts)
      && (leb max_login_keys (length kept) && is_vacant (get key kept))
    then kept
    else update key (count_failure now) kept

unfoldable pub reset : Text → Attempts → Attempts
reset key attempts = remove key attempts

pub data LoginReply : Type 0 where
  too_many_attempts invalid_credentials signed_in : LoginReply

-- One request for the account `key`; `valid` says whether exactly one user has the address and the
-- password verifies.
pub record LoginAttempt : Type 0 where
  pub at : Instant
  pub key : Text
  pub valid : Bool

-- The handler, from the check of the budget to the reset of the counter, of a request that no other
-- one overlaps: the source takes the lock of the limiter once for the check and once for the count.
unfoldable pub login : LoginAttempt → Attempts → LoginReply × Attempts
login a attempts =
    let (limited, kept) = is_limited a.at a.key attempts in
    if limited
    then (too_many_attempts, kept)
    else if a.valid
    then (signed_in, reset a.key kept)
    else (invalid_credentials, record_failure a.at a.key kept)

unfoldable pub logins : List LoginAttempt → Attempts → Attempts
logins [] attempts = attempts
logins (a ∷ rest) attempts = logins rest (login a attempts).1
