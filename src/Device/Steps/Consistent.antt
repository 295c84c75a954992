-- ===== src/Device/Steps/Consistent.antt =====
-- The columns of a row of the table, over every handler (crates/metrune-api/src/device_auth.rs).
use Prim.Native.Nat.{Ordering}
use Prim.Native.Nat.Ordering.{lt, eq, gt}
use mathlib.Core.Path.{subst}
use metrune.Prelude.{sym, ◌≤◌, ◌≡◌, ◌≢◌, refl, none, some, List, [], ◌∷◌, arith, All}
use metrune.Prelude.Text.{Text}
use metrune.Prelude.Order.{Ord, text_ord}
use metrune.Prelude.TreeMap.{TreeMap, get, update, modify, IsSorted, IsAbove, IsSorted-update}
use metrune.Core.Identity.{Digests}
use metrune.Device.{
  pending, approved, denied, consumed, DeviceStatus, DeviceAuthorization, DeviceState, DeviceConfig,
  initial_poll_interval_seconds, max_poll_interval_seconds,
}
use metrune.Core.Types.{DateTime}
use metrune.Device.Authorize.{Draw, new_authorization}
use metrune.Device.Exchange.{poll_row, slow_down_row}
use metrune.Device.Steps.{
  RowStep, polls, slows, approves, denies, consumes, TableStep, stays, inserts, changes, Request,
  handle, handle_all,
}
use metrune.Device.Steps.Refines.{handle-TableStep}

-- Which of the columns that a decision and an exchange fill are there.
abbrev pub FitsStatus : DeviceStatus → DeviceAuthorization → Type 0
FitsStatus pending row =
    (row.organization_id ≡ none)
    × (row.owner_user_id ≡ none)
    × (row.approved_at ≡ none)
    × (row.denied_at ≡ none)
    × (row.consumed_at ≡ none)
FitsStatus approved row =
    (row.organization_id ≢ none)
    × (row.owner_user_id ≢ none)
    × (row.approved_at ≢ none)
    × (row.denied_at ≡ none)
    × (row.consumed_at ≡ none)
FitsStatus denied row =
    (row.organization_id ≢ none)
    × (row.owner_user_id ≢ none)
    × (row.approved_at ≡ none)
    × (row.denied_at ≢ none)
    × (row.consumed_at ≡ none)
FitsStatus consumed row =
    (row.organization_id ≢ none)
    × (row.owner_user_id ≢ none)
    × (row.approved_at ≢ none)
    × (row.denied_at ≡ none)
    × (row.consumed_at ≢ none)

abbrev pub IsConsistent : DeviceAuthorization → Type 0
IsConsistent row =
    FitsStatus row.status row
    × (initial_poll_interval_seconds ≤ row.poll_interval_seconds)
    × (row.poll_interval_seconds ≤ max_poll_interval_seconds)

abbrev pub IsValidTable : TreeMap Text DeviceAuthorization → Type 0
IsValidTable rows = IsSorted rows × All (λ e. IsConsistent e.1) rows

fits :
    (row : DeviceAuthorization) {s : DeviceStatus}
    → row.status ≡ s
    → IsConsistent row
    → FitsStatus s row
fits row w c = subst (λ t. FitsStatus t row) w c.0

IsConsistent-step :
    {row row' : DeviceAuthorization} → RowStep row row' → IsConsistent row → IsConsistent row'
IsConsistent-step {row} (polls now w) c =
    (subst (λ s. FitsStatus s (poll_row now row)) (sym w) (fits row w c), c.1, c.2)
IsConsistent-step {row} (slows now w) c = (
  subst (λ s. FitsStatus s (slow_down_row now row)) (sym w) (fits row w c),
  omega (arith, c.1),
  omega arith,
)
IsConsistent-step {row} (approves now o u t w) c =
    let f = fits row w c in
    (((λ p. ground arith), (λ p. ground arith), (λ p. ground arith), f.3, f.4), c.1, c.2)
IsConsistent-step {row} (denies now o u w) c =
    let f = fits row w c in
    (((λ p. ground arith), (λ p. ground arith), f.2, (λ p. ground arith), f.4), c.1, c.2)
IsConsistent-step {row} (consumes now w) c =
    let f = fits row w c in ((f.0, f.1, f.2, f.3, (λ p. ground arith)), c.1, c.2)

module _ {K V : Type 0} ⦃o : Ord K⦄ where
  IsAbove-modify : (j k : K) (f : V → V) (m : TreeMap K V) → IsAbove j m → IsAbove j (modify k f m)
  IsAbove-modify j k f [] a = tt
  IsAbove-modify j k f ((i, w) ∷ m) a = ground (arith, IsAbove-modify j k f m)

  IsSorted-modify : (k : K) (f : V → V) (m : TreeMap K V) → IsSorted m → IsSorted (modify k f m)
  IsSorted-modify k f [] s = tt
  IsSorted-modify k f ((j, w) ∷ m) s = ground (arith, IsAbove-modify j k f m, IsSorted-modify k f m)

  All-update :
      (P : V → Type 0) (k : K) (v : V) (m : TreeMap K V)
      → P v
      → All (λ e. P e.1) m
      → All (λ e. P e.1) (update k (λ found. v) m)
  All-update P k v [] p a = (p, tt)
  All-update P k v ((j, w) ∷ m) p a = by_order (o.cmp k j) (All-update P k v m p a.1)
    where
      by_order :
          (r : Ordering)
          → All (λ e. P e.1) (update k (λ found. v) m)
          → All
              (λ e. P e.1)
              (elim r as (λ x. TreeMap K V) [
                | lt ↦ (k, v) ∷ (j, w) ∷ m
                | eq ↦ (j, v) ∷ m
                | gt ↦ (j, w) ∷ update k (λ found. v) m
              ])
      by_order lt rest = (p, a)
      by_order eq rest = (p, a.1)
      by_order gt rest = (a.0, rest)

  All-modify :
      (P : V → Type 0) (k : K) (v : V) (f : V → V) (m : TreeMap K V)
      → get k m ≡ some v
      → (P v → P (f v))
      → All (λ e. P e.1) m
      → All (λ e. P e.1) (modify k f m)
  All-modify P k v f [] h p a = tt
  All-modify P k v f ((j, w) ∷ m) h p a =
      by_order (o.cmp k j) refl (λ g. All-modify P k v f m g p a.1)
    where
      by_order :
          (r : Ordering)
          → o.cmp k j ≡ r
          → (get k m ≡ some v → All (λ e. P e.1) (modify k f m))
          → All
              (λ e. P e.1)
              (elim r as (λ x. TreeMap K V) [
                | lt ↦ (j, w) ∷ m
                | eq ↦ (j, f w) ∷ m
                | gt ↦ (j, w) ∷ modify k f m
              ])
      by_order lt e rest = a
      by_order eq e rest =
          let same : w ≡ v = ground arith in
          (subst (λ x. P (f x)) (sym same) (p (subst P same a.0)), a.1)
      by_order gt e rest = (a.0, rest (ground arith))

IsConsistent-new :
    (d : Digests) (now : DateTime) (draw : Draw) (name platform : Text)
    → IsConsistent (new_authorization d now draw name platform)
IsConsistent-new d now draw name platform =
    ((refl, refl, refl, refl, refl), omega arith, omega arith)

pub IsValidTable-step :
    {rows rows' : TreeMap Text DeviceAuthorization}
    → TableStep rows rows'
    → IsValidTable rows
    → IsValidTable rows'
IsValidTable-step stays v = v
IsValidTable-step {rows} (inserts d now draw k name platform h) v = (
  IsSorted-update k (λ found. new_authorization d now draw name platform) rows v.0,
  All-update IsConsistent k (new_authorization d now draw name platform) rows
      (IsConsistent-new d now draw name platform) v.1,
)
IsValidTable-step {rows} (changes k row f h step) v = (
  IsSorted-modify k f rows v.0,
  All-modify IsConsistent k row f rows h (IsConsistent-step step) v.1,
)

-- Where every row's columns fit its status, its polling interval is between 5 and 60 seconds and
-- the keys of the table increase, all of this still holds after any requests in any order.
pub IsValidTable-handle_all :
    (d : Digests) (config : DeviceConfig) (requests : List Request) (db : DeviceState)
    → IsValidTable db.authorizations
    → IsValidTable (handle_all d config requests db).authorizations
unfolding handle_all
IsValidTable-handle_all d config [] db v = v
IsValidTable-handle_all d config (request ∷ rest) db v =
    IsValidTable-handle_all d config rest (handle d config request db)
      (IsValidTable-step (handle-TableStep d config request db v.0) v)
