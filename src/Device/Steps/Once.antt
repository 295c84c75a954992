-- ===== src/Device/Steps/Once.antt =====
-- What `exchange_device_code` answers, and later requests after it
-- (crates/metrune-api/src/device_auth.rs).
use metrune.Prelude.{◌<◌, ◌≡◌, ◌≢◌, refl, sym, ◌∙◌, ap, Option, none, some, List, [], ◌∷◌, arith}
use metrune.Prelude.Text.{Text, codes}
use metrune.Prelude.Order.{text_ord}
use metrune.Prelude.TreeMap.{
  TreeMap, get, modify, get-update_ne, get-modify_ne, get-modify_self, map_option,
}
use metrune.Limits.Rate.{check}
use metrune.Core.Types.{DateTime}
use metrune.Core.Identity.{Digests}
use metrune.Device.{approved, consumed, DeviceAuthorization, DeviceState, DeviceConfig, ok}
use metrune.Device.Authorize.{new_authorization}
use metrune.Device.Exchange.{
  DeviceTokenRequest, DeviceTokenResponse, Grant, consume_row, enroll, answer, pending_response,
  exchange_device_code, lock_device_authorization,
}
use metrune.Device.Steps.{
  RowStep, polls, slows, approves, denies, consumes, TableStep, stays, inserts, changes, Request,
  exchanges, handle, handle_all,
}
use metrune.Device.Steps.Refines.{handle-TableStep}
use metrune.Device.Steps.Consistent.{IsValidTable, IsValidTable-step}

no_step : {row row' : DeviceAuthorization} → RowStep row row' → row.status ≢ consumed
no_step (polls now w) h = ground arith
no_step (slows now w) h = ground arith
no_step (approves now o u t w) h = ground arith
no_step (denies now o u w) h = ground arith
no_step (consumes now w) h = ground arith

consumed-TableStep :
    (k : Text) (row : DeviceAuthorization) {rows rows' : TreeMap Text DeviceAuthorization}
    → TableStep rows rows'
    → get k rows ≡ some row
    → row.status ≡ consumed
    → get k rows' ≡ some row
consumed-TableStep k row stays h c = h
consumed-TableStep k row {rows} (inserts d now draw j name platform vacant) h c =
    get-update_ne j k (λ found. new_authorization d now draw name platform) rows
      (λ e. ground (arith, ap (λ x. get x rows) e))
    ∙ h
consumed-TableStep k row {rows} (changes j old f found step) h c =
    get-modify_ne j k f rows (λ e. no_step step (ground (arith, ap (λ x. get x rows) e))) ∙ h

consumed-handle_all :
    (d : Digests) (config : DeviceConfig) (k : Text) (row : DeviceAuthorization)
    (requests : List Request) (db : DeviceState)
    → IsValidTable db.authorizations
    → get k db.authorizations ≡ some row
    → row.status ≡ consumed
    → get k (handle_all d config requests db).authorizations ≡ some row
unfolding handle_all
consumed-handle_all d config k row [] db v h c = h
consumed-handle_all d config k row (request ∷ rest) db v h c =
    let step = handle-TableStep d config request db v.0 in
    consumed-handle_all d config k row rest (handle d config request db) (IsValidTable-step step v)
      (consumed-TableStep k row step h c) c

enroll_ok :
    (d : Digests) (now : DateTime) (grant : Grant) (k : Text) (row : DeviceAuthorization)
    (db : DeviceState) (response : DeviceTokenResponse)
    → (enroll d now grant k row db).0 ≡ ok response
    → (row.organization_id ≡ some response.organization_id)
      × ((enroll d now grant k row db).1.authorizations
          ≡ modify k (consume_row now) db.authorizations)
unfolding enroll
enroll_ok d now grant k row db response h = ground arith

answer_ok :
    (d : Digests) (now : DateTime) (grant : Grant) (k : Text) (row : DeviceAuthorization)
    (db : DeviceState) (response : DeviceTokenResponse)
    → (answer d now grant k row db).0 ≡ ok response
    → (row.status ≡ approved)
      × (now < row.expires_at)
      × (row.organization_id ≡ some response.organization_id)
      × ((answer d now grant k row db).1.authorizations
          ≡ modify k (consume_row now) db.authorizations)
unfolding answer pending_response
answer_ok d now grant k row db response h = ground (arith, enroll_ok d now grant k row db response)

-- What a granted exchange found and left: the row of the device code is approved, unexpired and
-- of the organization that the response names, and is consumed afterwards.
abbrev pub Granted :
    Digests
    → DateTime
    → DeviceTokenRequest
    → DeviceTokenResponse
    → DeviceState
    → DeviceState
    → DeviceAuthorization
    → Type 0
Granted d now request response db db' row =
    let k = d.sha256_hex request.device_code in
    (get k db.authorizations ≡ some row)
    × (row.status ≡ approved)
    × (now < row.expires_at)
    × (row.organization_id ≡ some response.organization_id)
    × (get k db'.authorizations ≡ some (consume_row now row))

module _ (d : Digests) (config : DeviceConfig) where
  abbrev charge_token : DateTime → Text → DeviceState → DeviceState
  charge_token now address db = record db {
    windows = (check now (codes "device-token") address config.device_token db.windows).1;
  }

  reaches :
      (now : DateTime) (address : Text) (grant : Grant) (request : DeviceTokenRequest)
      (db : DeviceState) (response : DeviceTokenResponse)
      → (exchange_device_code d config now address grant request db).0 ≡ ok response
      → (row : DeviceAuthorization) × (get (d.sha256_hex request.device_code) db.authorizations
          ≡ some row)
        × (exchange_device_code d config now address grant request db
            ≡ answer d now grant
                (d.sha256_hex request.device_code)
                row
                (charge_token now address db))
  unfolding exchange_device_code lock_device_authorization
  reaches now address grant request db response h =
      by_row (get (d.sha256_hex request.device_code) db.authorizations) refl
    where
      by_row :
          (found : Option DeviceAuthorization)
          → get (d.sha256_hex request.device_code) db.authorizations ≡ found
          → (row : DeviceAuthorization) × (get (d.sha256_hex request.device_code) db.authorizations
              ≡ some row)
            × (exchange_device_code d config now address grant request db
                ≡ answer d now grant
                    (d.sha256_hex request.device_code)
                    row
                    (charge_token now address db))
      by_row none e = absurd (ground arith)
      by_row (some row) e = (row, e, ground arith)

  -- A token is given only for a device code whose row is approved and has not expired; it is the
  -- token of the row's organization, and the row is consumed afterwards.
  pub exchange_device_code-Granted :
      (now : DateTime) (address : Text) (grant : Grant) (request : DeviceTokenRequest)
      (db : DeviceState) (response : DeviceTokenResponse)
      → (exchange_device_code d config now address grant request db).0 ≡ ok response
      → (row : DeviceAuthorization) × Granted d now request response db
          (exchange_device_code d config now address grant request db).1
          row
  exchange_device_code-Granted now address grant request db response h =
      let (row, found, runs) = reaches now address grant request db response h in
      let k = d.sha256_hex request.device_code in
      let charged = charge_token now address db in
      let (status, unexpired, organization, rows) =
        answer_ok d now grant k row charged response (ap (λ r. r.0) (sym runs) ∙ h) in
      (
        row,
        (
          found,
          status,
          unexpired,
          organization,
          ap (λ r. get k r.1.authorizations) runs
              ∙ ap (get k) rows
              ∙ get-modify_self k (consume_row now) db.authorizations
              ∙ ap (map_option (consume_row now)) found,
        ),
      )

  -- On a table whose rows are consistent: after a device code is exchanged, and whatever
  -- requests the server handles next, a request with the same device code is never given a
  -- token.
  pub exchange_device_code-once :
      (now : DateTime) (address : Text) (grant : Grant) (request : DeviceTokenRequest)
      (db : DeviceState) (response : DeviceTokenResponse)
      → IsValidTable db.authorizations
      → (exchange_device_code d config now address grant request db).0 ≡ ok response
      → (later : List Request) (now' : DateTime) (address' : Text) (grant' : Grant)
        (request' : DeviceTokenRequest) (response' : DeviceTokenResponse)
      → request'.device_code ≡ request.device_code
      → (exchange_device_code d config now' address' grant' request' (
          handle_all d config later
            (exchange_device_code d config now address grant request db).1)).0
        ≢ ok response'
  unfolding handle
  exchange_device_code-once now address grant request db response v h later now' address' grant'
        request' response' same again =
      let db1 = (exchange_device_code d config now address grant request db).1 in
      let db2 = handle_all d config later db1 in
      let (row, g) = exchange_device_code-Granted now address grant request db response h in
      let v1 : IsValidTable db1.authorizations =
        IsValidTable-step (handle-TableStep d config (exchanges now address grant request) db v.0)
          v in
      let kept =
        consumed-handle_all d config (d.sha256_hex request.device_code) (consume_row now row) later
          db1 v1 g.4 refl in
      let (row', g') =
        exchange_device_code-Granted now' address' grant' request' db2 response' again in
      let moved = ap (λ x. get (d.sha256_hex x) db2.authorizations) same in
      ground (arith, kept, g'.0, moved, g'.1)
