-- ===== src/State/Metadata/Revision.antt =====
-- `next_revision` over a sequence of calls (crates/metrune-core/src/state.rs).
use mathlib.Core.Path.{subst}
use metrune.Prelude.{ℕ, ◌≤◌, ◌⊎◌, ◌<◌, ◌≡◌, ap, ◌∙◌, some, List, [], ◌∷◌, arith, max, All}
use metrune.Prelude.Words.{u64_max, saturating_add}
use metrune.Prelude.Decimal.{to_string, parse_u64-to_string}
use metrune.Prelude.Order.{text_ord}
use metrune.Prelude.TreeMap.{get, get-update_self}
use metrune.State.{LocalState}
use metrune.State.Metadata.{revision_key, revision_or_zero, next_revision}

-- The revision that the database remembers.
abbrev pub last_revision : LocalState → ℕ
last_revision db = revision_or_zero (get revision_key db.local_metadata)

revision_or_zero-to_string : (n : ℕ) → n ≤ u64_max → revision_or_zero (some (to_string n)) ≡ n
revision_or_zero-to_string n h = ground (arith, parse_u64-to_string n h)

next_revision-remembered :
    (observed : ℕ) (db : LocalState)
    → observed ≤ u64_max
    → last_revision (next_revision observed db).1 ≡ (next_revision observed db).0
unfolding next_revision
next_revision-remembered observed db h =
    let revision = max observed (saturating_add u64_max (last_revision db) 1) in
    ap revision_or_zero
      (get-update_self revision_key (λ found. to_string revision) db.local_metadata)
    ∙ revision_or_zero-to_string revision (omega arith)

-- The revisions handed out for a sequence of observed values.
unfoldable pub revisions : List ℕ → LocalState → List ℕ
revisions [] db = []
revisions (n ∷ ns) db = let (r, db') = next_revision n db in r ∷ revisions ns db'

-- Each revision is at least the value observed, and above the one before, unless it is the largest
-- u64.
abbrev pub Serves : ℕ → List ℕ → List ℕ → Type 0
Serves last [] [] = Unit
Serves last (n ∷ ns) (r ∷ rs) = (n ≤ r) × ((last < r) ⊎ (r ≡ u64_max)) × Serves r ns rs
Serves last [] (r ∷ rs) = ⊥
Serves last (n ∷ ns) [] = ⊥

next_revision-grows :
    (observed : ℕ) (db : LocalState)
    → observed ≤ u64_max
    → (observed ≤ (next_revision observed db).0)
      × ((last_revision db < (next_revision observed db).0)
          ⊎ ((next_revision observed db).0 ≡ u64_max))
unfolding next_revision
next_revision-grows observed db h = omega arith

-- Whatever u64 revisions the scans observe, and in whichever process, each revision that is
-- served is above the one before until the largest u64 is reached, and is no lower than what was
-- observed.
pub revisions-Serves :
    (observed : List ℕ) (db : LocalState)
    → All (λ n. n ≤ u64_max) observed
    → Serves (last_revision db) observed (revisions observed db)
unfolding revisions
revisions-Serves [] db h = tt
revisions-Serves (n ∷ ns) db h =
    let (r, db') = next_revision n db in
    let (least, grows) = next_revision-grows n db h.0 in
    let rest = revisions-Serves ns (next_revision n db).1 h.1 in
    (
      least,
      grows,
      subst (λ last. Serves last ns (revisions ns db')) (next_revision-remembered n db h.0) rest,
    )
