-- ===== src/Limits/Login/Counting.antt =====
-- The counters of `LoginAttemptLimiter` (crates/metrune-api/src/limits.rs).
use metrune.Prelude.{
  ◌+◌, ◌-◌, ◌≤◌, ◌<◌, ◌≡◌, refl, ap, ◌∙◌, Option, none, some, List, [], ◌∷◌, arith, length, leb,
  length-select-le, ◌&&◌, false,
}
use metrune.Prelude.Text.{Text}
use metrune.Prelude.Words.{u32_max}
use metrune.Prelude.Order.{text_ord}
use metrune.Prelude.TreeMap.{get, update, get-update_self, length-update-le, length-update_of_some}
use metrune.Limits.{Instant, max_login_keys, login_window, max_login_failures_per_window}
use metrune.Limits.Login.{
  LoginAttemptWindow, Attempts, is_recent, drop_old_when_full, is_exhausted, is_limited,
  count_failure, is_vacant, record_failure,
}

length-drop_old-le : (now : Instant) (m : Attempts) → length (drop_old_when_full now m) ≤ length m
unfolding drop_old_when_full
length-drop_old-le now m =
    ground (arith, length-select-le (λ (e : Text × LoginAttemptWindow). is_recent now e.1) m)

pub drop_old_of_room :
    (now : Instant) (m : Attempts) → length m < max_login_keys → drop_old_when_full now m ≡ m
unfolding drop_old_when_full
drop_old_of_room now m h = ground arith

-- Where the table may grow, or already has the key, an update keeps it in its bound.
length-update_bounded :
    (now : Instant) (key : Text) (kept : Attempts) (found : Option LoginAttemptWindow)
    → get key kept ≡ found
    → length kept ≤ max_login_keys
    → (leb max_login_keys (length kept) && is_vacant found) ≡ false
    → length (update key (count_failure now) kept) ≤ max_login_keys
length-update_bounded now key kept none e h room =
    ground (arith, length-update-le key (count_failure now) kept)
length-update_bounded now key kept (some w) e h room =
    omega (arith, length-update_of_some key (count_failure now) w kept e)

-- Recording a failure in a table of at most 100,000 accounts leaves one of at most 100,000.
length-record_failure-le :
    (now : Instant) (key : Text) (m : Attempts)
    → length m ≤ max_login_keys
    → length (record_failure now key m) ≤ max_login_keys
unfolding record_failure
length-record_failure-le now key m h =
    let kept = drop_old_when_full now m in
    let smaller = length-drop_old-le now m in
    let same = drop_old_of_room now m in
    ground (
      arith,
      smaller,
      same,
      length-update_bounded now key kept (get key kept) refl,
      length-update-le key (count_failure now) kept,
    )

-- With room in the table a failure is counted at its key.
pub record_failure_of_room :
    (now : Instant) (key : Text) (m : Attempts)
    → length m < max_login_keys
    → record_failure now key m ≡ update key (count_failure now) m
unfolding record_failure
record_failure_of_room now key m h = rw (drop_old_of_room now m h) (ground arith)

unfoldable pub record_failures : List Instant → Text → Attempts → Attempts
record_failures [] key m = m
record_failures (t ∷ ts) key m = record_failures ts key (record_failure t key m)

-- The times lie in the window that starts at `start`.
abbrev pub AreInWindow : Instant → List Instant → Type 0
AreInWindow start [] = Unit
AreInWindow start (t ∷ ts) = (t - start < login_window) × AreInWindow start ts

record_failures-count :
    (ts : List Instant) (key : Text) (w : LoginAttemptWindow) (m : Attempts)
    → get key m ≡ some w
    → length m < max_login_keys
    → AreInWindow w.started_at ts
    → w.failures + length ts ≤ u32_max
    → (get key (record_failures ts key m)
        ≡ some (record { started_at = w.started_at; failures = w.failures + length ts }))
      × (length (record_failures ts key m) ≡ length m)
unfolding record_failures
record_failures-count [] key w m found room inside fits = (found ∙ ground arith, refl)
record_failures-count (t ∷ ts) key w m found room inside fits =
    let next : LoginAttemptWindow = record w { failures = w.failures + 1 } in
    let counted : get key (record_failure t key m) ≡ some next =
      rw (record_failure_of_room t key m room)
        (get-update_self key (count_failure t) m ∙ unfold count_failure in ground arith) in
    let size : length (record_failure t key m) ≡ length m =
      rw (record_failure_of_room t key m room)
        (length-update_of_some key (count_failure t) w m found) in
    let (found', size') =
      record_failures-count ts key next (record_failure t key m) counted (omega arith) inside.1
        (omega arith) in
    (found' ∙ ground arith, size' ∙ size)

-- For an account without a row, in a table with room, the failures of one window are counted
-- exactly: the account is limited from the fifth on and not before.
pub is_limited-record_failures :
    (start now : Instant) (ts : List Instant) (key : Text) (m : Attempts)
    → get key m ≡ none
    → length m + 1 < max_login_keys
    → AreInWindow start ts
    → 1 + length ts ≤ u32_max
    → (is_limited now key (record_failures (start ∷ ts) key m)).0
      ≡ leb max_login_failures_per_window (1 + length ts)
unfolding is_limited
is_limited-record_failures start now ts key m vacant room inside fits =
    let first : LoginAttemptWindow = record { started_at = start; failures = 1 } in
    let counted : get key (record_failure start key m) ≡ some first =
      rw (record_failure_of_room start key m (omega arith)) (
        get-update_self key (count_failure start) m
        ∙ unfold count_failure in ground (arith, vacant)) in
    let size : length (record_failure start key m) ≤ length m + 1 =
      rw (record_failure_of_room start key m (omega arith))
        (length-update-le key (count_failure start) m) in
    let (found, same) =
      record_failures-count ts key first (record_failure start key m) counted (omega arith) inside
        fits in
    let whole : record_failures (start ∷ ts) key m
        ≡ record_failures ts key (record_failure start key m) =
      unfold record_failures in refl in
    let kept =
      drop_old_of_room now (record_failures ts key (record_failure start key m)) (omega arith) in
    ap (λ x. is_exhausted (get key (drop_old_when_full now x))) whole
    ∙ ap (λ x. is_exhausted (get key x)) kept
    ∙ ap is_exhausted found
