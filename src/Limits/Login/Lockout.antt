-- ===== src/Limits/Login/Lockout.antt =====
-- `LoginAttemptLimiter::is_limited` (crates/metrune-api/src/limits.rs) in front of the handler
-- `login` (crates/metrune-api/src/app.rs).
use metrune.Prelude.{
  ℕ, ◌+◌, ◌≤◌, ◌<◌, ◌≡◌, ◌≢◌, refl, ap, sym, ◌∙◌, if◌then◌else◌, Bool, some, List, [], ◌∷◌, arith,
  length, Bool-cases, inl, inr, true, false,
}
use metrune.Prelude.Text.{Text, text_eq, text_eq_refl, eq_of_text_eq}
use metrune.Prelude.Order.{text_ord}
use metrune.Prelude.TreeMap.{
  get, update, remove, IsSorted, IsSorted-update, IsSorted-remove, get-update_ne, length-update-le,
  get-remove_ne, length-remove-le,
}
use metrune.Limits.{Instant, max_login_keys, max_login_failures_per_window}
use metrune.Limits.Login.{
  LoginAttemptWindow, Attempts, is_limited, is_exhausted, count_failure, reset, too_many_attempts,
  invalid_credentials, signed_in, LoginReply, LoginAttempt, login, logins,
}
use metrune.Limits.Login.Counting.{drop_old_of_room, record_failure_of_room}

-- What a request keeps: the table is in order, it grows by one row at most, and the row of the
-- exhausted account stays.
record Keeps (k : Text) (w : LoginAttemptWindow) (n : ℕ) (m : Attempts) : Type 0 where
  pub sorted : IsSorted m
  pub found : get k m ≡ some w
  pub size : length m ≤ n

-- The three outcomes of a request, over the tables that each leaves.
abbrev outcome : Bool → Bool → Attempts → Attempts → Attempts → LoginReply × Attempts
outcome limited valid refused accepted failed =
    if limited
    then (too_many_attempts, refused)
    else if valid
    then (signed_in, accepted)
    else (invalid_credentials, failed)

-- With room in the table nothing is dropped.
login_of_room :
    (a : LoginAttempt) (m : Attempts)
    → length m < max_login_keys
    → login a m
      ≡ outcome
          (is_exhausted (get a.key m))
          a.valid
          m
          (remove a.key m)
          (update a.key (count_failure a.at) m)
unfolding login is_limited reset
login_of_room a m room =
    rw (drop_old_of_room a.at m room) (rw (record_failure_of_room a.at a.key m room) refl)

login_locked :
    (w : LoginAttemptWindow) (a : LoginAttempt) (m : Attempts)
    → max_login_failures_per_window ≤ w.failures
    → length m < max_login_keys
    → get a.key m ≡ some w
    → login a m ≡ (too_many_attempts, m)
login_locked w a m exhausted room found = login_of_room a m room ∙ ground (arith, found)

Keeps-login :
    (k : Text) (w : LoginAttemptWindow) (n : ℕ) (a : LoginAttempt) (m : Attempts)
    → max_login_failures_per_window ≤ w.failures
    → n < max_login_keys
    → Keeps k w n m
    → Keeps k w (n + 1) (login a m).1
Keeps-login k w n a m exhausted room h = elim (Bool-cases (text_eq k a.key)) [
  | inl e ↦
      let same =
        login_locked w a m exhausted (omega arith)
          (ap (λ j. get j m) (sym (eq_of_text_eq k a.key e)) ∙ h.found) in
      rw same (record { sorted = h.sorted; found = h.found; size = omega arith })
  | inr e ↦
      let other : k ≢ a.key = λ p. ground (arith, ap (text_eq k) p, text_eq_refl k) in
      let removed : Keeps k w (n + 1) (remove a.key m) = record {
        sorted = IsSorted-remove a.key m h.sorted;
        found = get-remove_ne a.key k m h.sorted other ∙ h.found;
        size = omega (arith, length-remove-le a.key m);
      } in
      let updated : Keeps k w (n + 1) (update a.key (count_failure a.at) m) = record {
        sorted = IsSorted-update a.key (count_failure a.at) m h.sorted;
        found = get-update_ne a.key k (count_failure a.at) m other ∙ h.found;
        size = omega (arith, length-update-le a.key (count_failure a.at) m);
      } in
      rw (login_of_room a m (omega arith))
        (cases (is_exhausted (get a.key m)) a.valid removed updated)
]
  where
    cases :
        (limited valid : Bool)
        → Keeps k w (n + 1) (remove a.key m)
        → Keeps k w (n + 1) (update a.key (count_failure a.at) m)
        → Keeps k w
            (n + 1)
            (outcome limited valid m (remove a.key m) (update a.key (count_failure a.at) m)).1
    cases true valid r u = record { sorted = h.sorted; found = h.found; size = omega arith }
    cases false true r u = r
    cases false false r u = u

Keeps-logins :
    (k : Text) (w : LoginAttemptWindow) (n : ℕ) (requests : List LoginAttempt) (m : Attempts)
    → max_login_failures_per_window ≤ w.failures
    → n + length requests < max_login_keys
    → Keeps k w n m
    → Keeps k w (n + length requests) (logins requests m)
unfolding logins
Keeps-logins k w n [] m exhausted room h = record {
  sorted = h.sorted;
  found = h.found;
  size = omega (arith, h.size);
}
Keeps-logins k w n (a ∷ rest) m exhausted room h =
    let step = Keeps-login k w n a m exhausted (omega arith) h in
    let all = Keeps-logins k w (n + 1) rest (login a m).1 exhausted (omega arith) step in
    record { sorted = all.sorted; found = all.found; size = omega (arith, all.size) }

-- An account that used up its failures is refused at every later time, with the right password too,
-- after any requests for any accounts, as long as these cannot have filled the table.
pub login-locked_out :
    (k : Text) (w : LoginAttemptWindow) (requests : List LoginAttempt) (m : Attempts) (at : Instant)
    (valid : Bool)
    → IsSorted m
    → get k m ≡ some w
    → max_login_failures_per_window ≤ w.failures
    → length m + length requests < max_login_keys
    → (login (record { at = at; key = k; valid = valid }) (logins requests m)).0 ≡ too_many_attempts
login-locked_out k w requests m at valid sorted found exhausted room =
    let before : Keeps k w (length m) m = record {
      sorted = sorted;
      found = found;
      size = omega arith;
    } in
    let after = Keeps-logins k w (length m) requests m exhausted room before in
    let a : LoginAttempt = record { at = at; key = k; valid = valid } in
    ap (λ x. x.0)
      (login_locked w a (logins requests m) exhausted (omega (arith, after.size)) after.found)
