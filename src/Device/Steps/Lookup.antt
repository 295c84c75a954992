-- ===== src/Device/Steps/Lookup.antt =====
-- The look-up of a row by its user code, in `approve_device`
-- (crates/metrune-api/src/device_auth.rs).
use Prim.Native.Nat.Ordering.{lt}
use metrune.Prelude.{◌≡◌, Bool, true, some, List, [], ◌∷◌, arith, find_first}
use metrune.Prelude.Text.{Text}
use metrune.Prelude.Order.{Ord, text_ord}
use metrune.Prelude.TreeMap.{TreeMap, get, IsSorted, IsAbove}
use metrune.Core.Types.{DateTime}
use metrune.Device.{pending, DeviceAuthorization, DeviceState}
use metrune.Device.Approve.{find_open, is_open}

module _ {K V : Type 0} ⦃o : Ord K⦄ where
  find_first-above :
      (k : K) (p : K × V → Bool) (e : K × V) (m : TreeMap K V)
      → IsAbove k m
      → find_first p m ≡ some e
      → o.cmp k e.0 ≡ lt
  find_first-above k p e [] a h = ground arith
  find_first-above k p e ((j, w) ∷ m) a h = ground (arith, find_first-above k p e m a.1)

  get_of_find_first :
      (p : K × V → Bool) (e : K × V) (m : TreeMap K V)
      → IsSorted m
      → find_first p m ≡ some e
      → get e.0 m ≡ some e.1
  get_of_find_first p e [] s h = ground arith
  get_of_find_first p e ((j, w) ∷ m) s h = ground (
    arith,
    o.cmp_refl j,
    o.cmp_trans j e.0 j,
    o.eq_of_cmp e.0 j,
    find_first-above j p e m s.0,
    get_of_find_first p e m s.1,
  )

find_first-passes :
    {A : Type 0} (p : A → Bool) (e : A) (xs : List A) → find_first p xs ≡ some e → p e ≡ true
find_first-passes p e [] h = ground arith
find_first-passes p e (x ∷ xs) h = ground (arith, find_first-passes p e xs)

-- A row found by its user code is the row at its key, and is pending.
pub open_row :
    (d : Text) (now : DateTime) (e : Text × DeviceAuthorization) (db : DeviceState)
    → IsSorted db.authorizations
    → find_open d now db ≡ some e
    → (get e.0 db.authorizations ≡ some e.1) × (e.1.status ≡ pending)
unfolding find_open
open_row d now e db s h =
    let p : is_open d now e ≡ true = find_first-passes (is_open d now) e db.authorizations h in
    (get_of_find_first (is_open d now) e db.authorizations s h, ground arith)
