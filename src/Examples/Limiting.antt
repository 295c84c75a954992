-- ===== src/Examples/Limiting.antt =====
-- The limiters, and the codes that a person types.
use metrune.Prelude.{◌-◌, ◌≡◌, refl, true, some, List, [], ◌∷◌, arith, length, min}
use metrune.Prelude.Text.{Text, codes}
use metrune.Limits.{from_secs}
use metrune.Limits.Login.{
  LoginAttemptWindow, Attempts, LoginAttempt, login, logins, too_many_attempts,
}
use metrune.Limits.Login.Lockout.{login-locked_out}
use metrune.Limits.Rate.{RateLimit, RateWindow, Windows, new_rate_limit}
use metrune.Limits.Rate.Budget.{Call, granted, calls_at, granted-eq_budget}
use metrune.Device.Code.{normalize_user_code, generate_user_code, plain_user_code}
use metrune.Device.Code.Laws.{normalize-generate_user_code}

abbrev account : Text
account = codes "me@example.test"

abbrev exhausted : LoginAttemptWindow
exhausted = record { started_at = 10; failures = 5 }

abbrev attempts : Attempts
attempts = (account, exhausted) ∷ []

abbrev others : List LoginAttempt
others = record { at = 50; key = account; valid = true } ∷ []

-- An hour after the fifth failure.
login-locked_out_example :
    (login (record { at = from_secs 3600; key = account; valid = true }) (logins others attempts)).0
    ≡ too_many_attempts
login-locked_out_example =
    login-locked_out account exhausted others attempts (from_secs 3600) true (tt, tt) refl
      (omega arith) (omega arith)

abbrev limit : RateLimit
limit = new_rate_limit 60 2

abbrev window : RateWindow
window = record { expires_at = 1_000; hits = 1 }

abbrev entry : Text
entry = codes "ingest:1"

abbrev windows : Windows
windows = (entry, window) ∷ []

abbrev calls : List Call
calls =
    record { at = 10; entry = entry; limit = limit }
    ∷ record { at = 20; entry = entry; limit = limit }
    ∷ []

granted-eq_budget_example : granted entry calls windows ≡ min (calls_at entry calls) (2 - 1)
granted-eq_budget_example =
    granted-eq_budget entry limit window calls windows refl (omega arith) (omega arith)
      (omega arith, (λ p. refl), (omega arith, (λ p. refl), tt))

normalize-generate_user_code_example :
    (normalize_user_code (generate_user_code (1 ∷ 2 ∷ 3 ∷ 4 ∷ 255 ∷ []))
      ≡ some (plain_user_code (1 ∷ 2 ∷ 3 ∷ 4 ∷ 255 ∷ [])))
    × (length (plain_user_code (1 ∷ 2 ∷ 3 ∷ 4 ∷ 255 ∷ [])) ≡ 8)
normalize-generate_user_code_example = normalize-generate_user_code (1 ∷ 2 ∷ 3 ∷ 4 ∷ 255 ∷ [])
