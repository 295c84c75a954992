-- ===== src/Device/Steps/Refines.antt =====
-- The four handlers as steps of the table (crates/metrune-api/src/device_auth.rs).
use mathlib.Core.Path.{subst}
use metrune.Prelude.{Option-cases, ◌≡◌, refl, none, arith, Bool-cases, inl, inr}
use metrune.Prelude.Text.{Text, codes, text_eq}
use metrune.Prelude.Order.{text_ord}
use metrune.Prelude.TreeMap.{get, update, IsSorted}
use metrune.Limits.Rate.{check}
use metrune.Core.Types.{DateTime}
use metrune.Core.Identity.{Digests}
use metrune.Device.{device_client_id, DeviceState, DeviceConfig, Response, ok, err, OauthError}
use metrune.Device.Authorize.{
  DeviceAuthorizationRequest, Draw, new_authorization, insert_authorization, accept_request,
  authorize_device, validate_installation_name, validate_platform, is_allowed,
  authorization_response, DeviceAuthorizationResponse,
}
use metrune.Device.Approve.{decide, inspect_device, approve_device, verification_response}
use metrune.Device.Steps.{
  TableStep, stays, inserts, Request, authorizes, inspects, decides, exchanges, handle,
}
use metrune.Device.Steps.{Steps}
use metrune.Device.Steps.Polling.{exchange-Steps}
use metrune.Device.Steps.Deciding.{decide-Steps, with_open_row-Steps}

insert-Steps :
    (d : Digests) (now : DateTime) (draw : Draw) (k name platform : Text) (db db' : DeviceState)
    → insert_authorization k (new_authorization d now draw name platform) db ≡ ok db'
    → Steps db db'
unfolding insert_authorization
insert-Steps d now draw k name platform db db' h =
    let rows = update k (λ found. new_authorization d now draw name platform) db.authorizations in
    let vacant : get k db.authorizations ≡ none = ground arith in
    let same : rows ≡ db'.authorizations = ground arith in
    subst (λ m. TableStep db.authorizations m) same (inserts d now draw k name platform vacant)

accept-Steps :
    (d : Digests) (url : Text) (now : DateTime) (draw : Draw) (request : DeviceAuthorizationRequest)
    (db : DeviceState)
    → Steps db (accept_request d url now draw request db).1
unfolding accept_request
accept-Steps d url now draw request db =
    elim (Option-cases (validate_installation_name request.installation_name)) [
      | inl a ↦ rw (accept_request, a) stays
      | inr (name, a) ↦ elim (Option-cases (validate_platform request.platform)) [
        | inl b ↦ rw (accept_request, a, b) stays
        | inr (platform, b) ↦
            rw (accept_request, a, b)
              (by_result name platform
                (insert_authorization (d.sha256_hex draw.device_code)
                  (new_authorization d now draw name platform) db)
                refl)
      ]
    ]
  where
    by_result :
        (name platform : Text) (r : Response OauthError DeviceState)
        → insert_authorization
            (d.sha256_hex draw.device_code)
            (new_authorization d now draw name platform)
            db
          ≡ r
        → Steps db
            (elim r as (λ x. Response OauthError DeviceAuthorizationResponse × DeviceState) [
              | err e ↦ (err e, db)
              | ok db' ↦ (ok (authorization_response url draw), db')
            ]).1
    by_result name platform (err e) h = stays
    by_result name platform (ok db') h =
        insert-Steps d now draw (d.sha256_hex draw.device_code) name platform db db' h

authorize-Steps :
    (d : Digests) (config : DeviceConfig) (url : Text) (now : DateTime) (address : Text)
    (draw : Draw) (request : DeviceAuthorizationRequest) (db : DeviceState)
    → Steps db (authorize_device d config url now address draw request db).1
unfolding authorize_device
authorize-Steps d config url now address draw request db =
    let c =
      check now (codes "device-authorization") address config.device_authorization db.windows in
    elim (Bool-cases (is_allowed c.0)) [
      | inr t ↦ rw t stays
      | inl t ↦ elim (Bool-cases (text_eq request.client_id device_client_id)) [
        | inr t2 ↦ rw (t, t2) stays
        | inl t2 ↦ rw (t, t2) (accept-Steps d url now draw request (record db { windows = c.1 }))
      ]
    ]

-- On a table whose keys increase, every request takes one step of the state machine: it leaves
-- the table as it was, inserts a new pending row, or changes one row as its status allows.
pub handle-TableStep :
    (d : Digests) (config : DeviceConfig) (request : Request) (db : DeviceState)
    → IsSorted db.authorizations
    → TableStep db.authorizations (handle d config request db).authorizations
unfolding handle inspect_device approve_device
handle-TableStep d config (authorizes now url address draw request) db s =
    authorize-Steps d config url now address draw request db
handle-TableStep d config (inspects now session user_code) db s =
    with_open_row-Steps d config now session user_code
      (λ o u normalized e db'. (ok (verification_response normalized e.1), db')) db
      (λ o u normalized e db' found waits. stays) s
handle-TableStep d config (decides now session request) db s =
    with_open_row-Steps d config now session request.user_code
      (λ o u normalized e db'. decide now o u request normalized e db') db
      (λ o u normalized e db' found waits.
        decide-Steps now o u request normalized e db' found waits)
      s
handle-TableStep d config (exchanges now address grant request) db s =
    exchange-Steps d config now address grant request db
