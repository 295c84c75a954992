-- ===== src/State/Metadata/UpdateCheck.antt =====
-- `claim_update_check`, by itself and repeated (crates/metrune-core/src/state.rs).
use metrune.Prelude.{ℕ, ◌-◌, ◌≡◌, refl, true, false, ◌||◌, some, arith, ltb, leb, if◌then◌else◌}
use metrune.Prelude.Order.{text_ord}
use metrune.Prelude.TreeMap.{get-update_self}
use metrune.Core.Types.{DateTime}
use metrune.State.{LocalState, Codec}
use metrune.State.Metadata.{
  update_check_key, update_check_due, record_update_check, claim_update_check,
}

module _ {F : Type 0} (c : Codec F) (now : DateTime) (interval : ℕ) (db : LocalState) where
  -- A claim succeeds exactly if the check is due. A successful claim records the time as
  -- `record_update_check` does, and a refused one changes nothing.
  pub claim_update_check_lem : claim_update_check c now interval db ≡ (
      if update_check_due c now interval db
      then (true, record_update_check c now db)
      else (false, db))
  unfolding claim_update_check update_check_due record_update_check
  claim_update_check_lem = refl

  -- Where a time is read back as it was written: after a successful claim another one succeeds
  -- exactly if the interval has passed since, or if its clock reads an earlier time than the claim's.
  -- It then records its own time, and otherwise it changes nothing.
  pub claim_update_check_exclusive :
      {db' : LocalState} (other : DateTime)
      → ((t : DateTime) → c.parse_rfc3339 (c.to_rfc3339 t) ≡ some t)
      → claim_update_check c now interval db ≡ (true, db')
      → claim_update_check c other interval db' ≡ (
          if ltb other now || leb interval (other - now)
          then (true, record_update_check c other db')
          else (false, db'))
  unfolding claim_update_check record_update_check
  claim_update_check_exclusive {db'} other readable h = ground (
    arith,
    readable now,
    get-update_self update_check_key (λ found. c.to_rfc3339 now) db.local_metadata,
  )
