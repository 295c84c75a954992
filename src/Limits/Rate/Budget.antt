-- ===== src/Limits/Rate/Budget.antt =====
-- `RateLimiter::check` over a sequence of calls (crates/metrune-api/src/limits.rs).
use metrune.Prelude.{
  ℕ, ◌+◌, ◌-◌, min, ◌≤◌, ◌<◌, ◌≡◌, ◌≢◌, ap, Option, some, if◌then◌else◌, List, [], ◌∷◌, arith,
  Bool-cases, inl, inr, leb,
}
use metrune.Prelude.Text.{Text, text_eq, text_eq_refl, eq_of_text_eq}
use metrune.Prelude.Words.{u32_max}
use metrune.Prelude.Order.{text_ord}
use metrune.Prelude.TreeMap.{get, retain, get-update_self, get-update_ne, get-retain}
use metrune.Limits.{Instant}
use metrune.Limits.Rate.{
  RateLimit, RateWindow, Windows, Verdict, allowed, is_live, window_or_new, hit, charge,
  check_entry,
}

-- One call of the limiter.
pub record Call : Type 0 where
  pub at : Instant
  pub entry : Text
  pub limit : RateLimit

abbrev pub is_allowed : Verdict → ℕ
is_allowed allowed = 1
is_allowed _ = 0

-- How many of the calls at the entry `k` are allowed.
unfoldable pub granted : Text → List Call → Windows → ℕ
granted k [] m = 0
granted k (c ∷ cs) m =
    let (verdict, m') = check_entry c.at c.limit c.entry m in
    let rest = granted k cs m' in if text_eq c.entry k then is_allowed verdict + rest else rest

-- Every call is before `deadline`, and those at `k` come with the limit `limit`.
abbrev pub AreBefore : Instant → Text → RateLimit → List Call → Type 0
AreBefore deadline k limit [] = Unit
AreBefore deadline k limit (c ∷ cs) =
    (c.at < deadline) × (c.entry ≡ k → c.limit ≡ limit) × AreBefore deadline k limit cs

-- A live window at another entry is left alone.
check_entry-other :
    (c : Call) (k : Text) (w : RateWindow) (m : Windows)
    → get k m ≡ some w
    → c.at < w.expires_at
    → k ≢ c.entry
    → get k (check_entry c.at c.limit c.entry m).1 ≡ some w
unfolding check_entry charge
check_entry-other c k w m found live other =
    let kept = get-retain (is_live c.at) k w m found (ground arith) in
    ground (
      arith,
      kept,
      get-update_ne c.entry k (window_or_new c.at c.limit) (retain (is_live c.at) m) other,
      get-update_ne c.entry k (λ found. hit (window_or_new c.at c.limit found))
          (retain (is_live c.at) m) other,
    )

check_entry_self :
    (at : Instant) (k : Text) (limit : RateLimit) (w : RateWindow) (m : Windows)
    → get k m ≡ some w
    → at < w.expires_at
    → 0 < limit.max_requests
    → let (verdict, m') = check_entry at limit k m in
      (is_allowed verdict ≡ (if leb limit.max_requests w.hits then 0 else 1))
      × (get k m' ≡ some (if leb limit.max_requests w.hits then w else hit w))
unfolding check_entry charge
check_entry_self at k limit w m found live positive =
    let kept = get-retain (is_live at) k w m found (ground arith) in
    let self =
      λ (f : Option RateWindow → RateWindow). get-update_self k f (retain (is_live at) m) in
    (
      ground (arith, kept),
      ground (
        arith,
        kept,
        self (window_or_new at limit),
        self (λ found. hit (window_or_new at limit found)),
      ),
    )

-- The calls at the entry `k`.
abbrev pub calls_at : Text → List Call → ℕ
calls_at k [] = 0
calls_at k (c ∷ cs) = let rest = calls_at k cs in if text_eq c.entry k then 1 + rest else rest

-- While its window lasts, and its limit is a positive u32 and stays the same, an entry is
-- granted exactly the requests that are left of the budget, whatever is asked at other entries:
-- neither one more, nor one less if so many are asked.
pub granted-eq_budget :
    (k : Text) (limit : RateLimit) (w : RateWindow) (cs : List Call) (m : Windows)
    → get k m ≡ some w
    → 0 < limit.max_requests
    → limit.max_requests ≤ u32_max
    → AreBefore w.expires_at k limit cs
    → granted k cs m ≡ min (calls_at k cs) (limit.max_requests - w.hits)
unfolding granted
granted-eq_budget k limit w [] m found positive fits before = omega arith
granted-eq_budget k limit w (c ∷ cs) m found positive fits before =
    elim (Bool-cases (text_eq c.entry k)) [
      | inl here ↦
          let p = eq_of_text_eq c.entry k here in
          let l = before.1 p in
          let same : check_entry c.at c.limit c.entry m ≡ check_entry c.at limit k m =
            λ i. check_entry c.at (l i) (p i) m in
          let (verdict, found') = check_entry_self c.at k limit w m found before.0 positive in
          rw (here, same)
            (elim (Bool-cases (leb limit.max_requests w.hits)) [
              | inl full ↦ ground (
                arith,
                verdict,
                full,
                granted-eq_budget k limit w cs (check_entry c.at limit k m).1 (rw full at found')
                    positive fits before.2,
              )
              | inr room ↦ ground (
                arith,
                verdict,
                room,
                granted-eq_budget k limit (hit w) cs (check_entry c.at limit k m).1
                    (rw room at found') positive fits before.2,
              )
            ])
      | inr there ↦
          let other : k ≢ c.entry = λ p. ground (arith, ap (λ j. text_eq j k) p, text_eq_refl k) in
          rw there (
            granted-eq_budget k limit w cs (check_entry c.at c.limit c.entry m).1
              (check_entry-other c k w m found before.0 other) positive fits before.2)
    ]
