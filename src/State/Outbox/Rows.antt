-- ===== src/State/Outbox/Rows.antt =====
-- The loops of `acknowledge` and `acknowledge_session_keys` as updates without errors, up to the
-- first revision that SQLite cannot hold (crates/metrune-core/src/state.rs).
use metrune.Prelude.{
  Bool, ◌≡◌, refl, Option, none, some, List, [], ◌∷◌, any, Bool-cases, inl, inr, if◌then◌else◌,
  ◌&&◌,
}
use metrune.Prelude.Text.{Text, text_eq}
use metrune.Prelude.Order.{text_ord}
use metrune.Prelude.TreeMap.{TreeMap}
use metrune.Core.Types.{DateTime}
use metrune.Core.Snapshot.{SessionSnapshot}
use metrune.State.{OutboxRow, StateError, integer_out_of_range}
use metrune.State.Outbox.{is_out_of_range, acknowledge_one, acknowledge_rows, acknowledge_named}

-- The elements before the first that satisfies `p`.
abbrev pub until : {A : Type 0} → (A → Bool) → List A → List A
until p [] = []
until p (x ∷ xs) = let rest = until p xs in if p x then [] else x ∷ rest

-- The named snapshots that `rusqlite` refuses.
abbrev pub is_refused : {F : Type 0} → List Text → SessionSnapshot F → Bool
is_refused keys s = any (text_eq s.session_key) keys && is_out_of_range s

-- The error of a loop that refuses what satisfies `p`.
abbrev pub refusal : {A : Type 0} → (A → Bool) → List A → Option StateError
refusal p snapshots = if any p snapshots then some integer_out_of_range else none

module _ {F : Type 0} (now : DateTime) where
  -- The rows after an update for each snapshot, without errors.
  abbrev pub set_rows : List (SessionSnapshot F) → TreeMap Text OutboxRow → TreeMap Text OutboxRow
  set_rows [] rows = rows
  set_rows (s ∷ rest) rows = set_rows rest (acknowledge_one now s rows)

  abbrev pub set_named :
      List (SessionSnapshot F) → List Text → TreeMap Text OutboxRow → TreeMap Text OutboxRow
  set_named [] keys rows = rows
  set_named (s ∷ rest) keys rows =
      set_named rest keys
        (if any (text_eq s.session_key) keys then acknowledge_one now s rows else rows)

  -- The loop is the updates before the first revision that is refused, and then its error.
  pub acknowledge_rows-until :
      (ss : List (SessionSnapshot F)) (rows : TreeMap Text OutboxRow)
      → acknowledge_rows now ss rows
        ≡ (refusal is_out_of_range ss, set_rows (until is_out_of_range ss) rows)
  unfolding acknowledge_rows
  acknowledge_rows-until [] rows = refl
  acknowledge_rows-until (s ∷ ss) rows = elim (Bool-cases (is_out_of_range s)) [
    | inl e ↦ rw e refl
    | inr e ↦ rw e (acknowledge_rows-until ss (acknowledge_one now s rows))
  ]

  pub acknowledge_named-until :
      (ss : List (SessionSnapshot F)) (keys : List Text) (rows : TreeMap Text OutboxRow)
      → acknowledge_named now ss keys rows
        ≡ (refusal (is_refused keys) ss, set_named (until (is_refused keys) ss) keys rows)
  unfolding acknowledge_named
  acknowledge_named-until [] keys rows = refl
  acknowledge_named-until (s ∷ ss) keys rows = elim (Bool-cases (is_refused keys s)) [
    | inl e ↦ rw e refl
    | inr e ↦ rw e (
        acknowledge_named-until ss keys
          (if any (text_eq s.session_key) keys then acknowledge_one now s rows else rows))
  ]
