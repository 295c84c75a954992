-- ===== src/Adapters/Claude/Reading.antt =====
-- What a parse of a session's file promises (crates/metrune-core/src/adapters/claude.rs).
use mathlib.Core.Path.{subst}
use metrune.Prelude.{
  sym, ℕ, suc, ◌≤◌, ◌≡◌, refl, Option, none, some, List, [], ◌∷◌, ◌++◌, ◌==◌, arith, max, All,
  Bool-cases, inl, inr,
}
use metrune.Prelude.Decimal.{to_string}
use metrune.Prelude.Float.{Float}
use metrune.Prelude.Text.{Text}
use metrune.Prelude.Words.{u32_max}
use metrune.Core.Tokens.{total}
use metrune.Core.Types.{DateTime, UsageMessage}
use metrune.Adapters.Value.{Value}
use metrune.Adapters.Common.{
  Clock, timestamp_at, parse_usage_value, usage_message, usage_tokens, is_other_role, role_of,
}
use metrune.Adapters.Claude.{
  claude_id, Reader, new_reader, earlier, session_start, records_of, is_prompt, after_prompt,
  collected, counted, placed, read_record, with_message, answered, read_records, parse,
}

-- A start that is not after `t`.
abbrev StartsBy : Option DateTime → DateTime → Type 0
StartsBy none t = ⊥
StartsBy (some s) t = s ≤ t

StartsBy-earlier : (t s : DateTime) (o : Option DateTime) → StartsBy o s → StartsBy (earlier t o) s
StartsBy-earlier t s none h = absurd h
StartsBy-earlier t s (some u) h = omega arith

StartsBy-earlier_now : (t : DateTime) (o : Option DateTime) → StartsBy (earlier t o) t
StartsBy-earlier_now t none = omega arith
StartsBy-earlier_now t (some u) = omega arith

module _ {F : Type 0} where
  -- Every message counts tokens, has the places that a classification may have, and none is of an
  -- earlier turn than the one before it.
  abbrev pub IsRead : ℕ → List (UsageMessage F) → Type 0
  IsRead turn [] = Unit
  IsRead turn (m ∷ messages) =
      (max turn 1 ≤ m.turn_sequence)
      × (m.turn_sequence ≤ u32_max)
      × (1 ≤ m.activity_sequence)
      × (m.activity_sequence ≤ u32_max)
      × (1 ≤ total m.tokens)
      × StartsBy m.session_started_at m.observed_at
      × IsRead m.turn_sequence messages

  IsRead-from :
      (a b : ℕ) (messages : List (UsageMessage F))
      → max a 1 ≤ max b 1
      → IsRead b messages
      → IsRead a messages
  IsRead-from a b [] h r = tt
  IsRead-from a b (m ∷ messages) h (later, turns, first, steps, counts, starts, rest) =
      (omega arith, turns, first, steps, counts, starts, rest)

  StartsBy-earlier-All :
      (clock : Clock) (t : DateTime) (started : Option DateTime) (values : List (Value F))
      → All (λ v. StartsBy started (timestamp_at clock v)) values
      → All (λ v. StartsBy (earlier t started) (timestamp_at clock v)) values
  StartsBy-earlier-All clock t started [] h = tt
  StartsBy-earlier-All clock t started (v ∷ values) (h, rest) = (
    StartsBy-earlier t (timestamp_at clock v) started h,
    StartsBy-earlier-All clock t started values rest,
  )

  session_start-All :
      (clock : Clock) (values : List (Value F))
      → All (λ v. StartsBy (session_start clock values) (timestamp_at clock v)) values
  session_start-All clock [] = tt
  session_start-All clock (v ∷ values) = (
    StartsBy-earlier_now (timestamp_at clock v) (session_start clock values),
    StartsBy-earlier-All clock (timestamp_at clock v) (session_start clock values) values
        (session_start-All clock values),
  )

  -- The turns of a reader never go back, and stay within u32.
  later_turn :
      (value : Value F) (r : Reader)
      → r.turn_sequence ≤ u32_max
      → (r.turn_sequence ≤ (after_prompt value r).turn_sequence)
        × ((after_prompt value r).turn_sequence ≤ u32_max)
  unfolding after_prompt
  later_turn value r h = elim (Bool-cases (is_prompt value)) [
    | inl e ↦ rw (e) (omega arith, omega arith)
    | inr e ↦ rw (e) (omega arith, h)
  ]

  abbrev IsCounted : DateTime → Option (UsageMessage F) → Type 0
  IsCounted t none = Unit
  IsCounted t (some m) = (1 ≤ total m.tokens) × (m.observed_at ≡ t)

  -- One step of the loop, at what was parsed and at the rest of the loop.
  IsRead-answered :
      (started : Option DateTime) (t turn : ℕ) (r : Reader) (o : Option (UsageMessage F))
      (rest : Reader → List (UsageMessage F))
      → StartsBy started t
      → IsCounted t o
      → turn ≤ r.turn_sequence
      → r.turn_sequence ≤ u32_max
      → ((q : Reader) → q.turn_sequence ≤ u32_max → IsRead q.turn_sequence (rest q))
      → IsRead turn (with_message (answered started r o).1 (rest (answered started r o).0))
  unfolding answered counted placed
  IsRead-answered started t turn r none rest h c l b k =
      IsRead-from turn r.turn_sequence (rest r) (omega arith) (k r b)
  IsRead-answered started t turn r (some m) rest h (c, e) l b k = (
    omega arith,
    omega arith,
    omega arith,
    omega arith,
    c,
    subst (StartsBy started) (sym e) h,
    IsRead-from (max r.turn_sequence 1) r.turn_sequence (rest (counted r)) (omega arith)
        (k (counted r) b),
  )

module _ {F : Type 0} ⦃o : Float F⦄ where
  parsed :
      (clock : Clock) (value : Value F) (client id session : Text)
      → IsCounted (timestamp_at clock value) (parse_usage_value clock value client id session)
  unfolding parse_usage_value usage_message
  parsed clock value client id session = elim (Bool-cases (is_other_role (role_of value))) [
    | inl e ↦ rw (e) tt
    | inr e ↦ elim (Bool-cases (total (usage_tokens value) == 0)) [
      | inl e' ↦ rw (e, e') tt
      | inr e' ↦ rw (e, e') (ground (arith, e'), refl)
    ]
  ]

  read_records-IsRead :
      (clock : Clock) (source : Text) (started : Option DateTime) (index : ℕ)
      (values : List (Value F)) (r : Reader)
      → All (λ v. StartsBy started (timestamp_at clock v)) values
      → r.turn_sequence ≤ u32_max
      → IsRead r.turn_sequence (read_records clock source started index values r)
  unfolding read_records read_record collected
  read_records-IsRead clock source started index [] r h b = tt
  read_records-IsRead clock source started index (v ∷ values) r (h, rest) b =
      let (later, bound) = later_turn v r b in
      IsRead-answered started (timestamp_at clock v) r.turn_sequence
        (collected v (after_prompt v r))
        (parse_usage_value clock v claude_id (source ++ b':' ∷ to_string index) source)
        (λ q. read_records clock source started (suc index) values q) h
        (parsed clock v claude_id (source ++ b':' ∷ to_string index) source) later bound
        (λ q c. read_records-IsRead clock source started (suc index) values q rest c)

  -- Whatever lines a session's file has, every message that the Claude adapter reads from it has a
  -- token count that is not zero, a turn and an activity number between 1 and the largest u32, and a
  -- session start that is not after it was observed; and no message is of an earlier turn than the
  -- one before it.
  pub parse-IsRead :
      (from_str : Text → Option (Value F)) (clock : Clock) (source : Text) (lines : List Text)
      → IsRead 0 (parse from_str clock source lines)
  unfolding parse
  parse-IsRead from_str clock source lines =
      read_records-IsRead clock source (session_start clock (records_of from_str lines)) 0
        (records_of from_str lines) new_reader (session_start-All clock (records_of from_str lines))
        (omega arith)
