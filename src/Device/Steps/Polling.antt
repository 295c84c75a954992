-- ===== src/Device/Steps/Polling.antt =====
-- `exchange_device_code` and `pending_response` as steps of the table
-- (crates/metrune-api/src/device_auth.rs).
use metrune.Prelude.{Option-cases, ◌≡◌, refl, some, arith, Bool-cases, inl, inr, leb}
use metrune.Prelude.Text.{Text, codes, text_eq}
use metrune.Prelude.Order.{text_ord}
use metrune.Prelude.TreeMap.{get}
use metrune.Limits.Rate.{check}
use metrune.Core.Types.{DateTime}
use metrune.Core.Identity.{Digests}
use metrune.Device.{
  DeviceStatus, pending, approved, denied, consumed, device_client_id, device_grant_type,
  DeviceAuthorization, DeviceState, DeviceConfig, Response, err, access_denied, invalid_grant,
  OauthError,
}
use metrune.Device.Authorize.{is_allowed}
use metrune.Device.Exchange.{
  DeviceTokenRequest, Grant, lock_device_authorization, slow_down_row, poll_row, pending_response,
  consume_row, enroll, answer, exchange_device_code, polled_too_soon, find_team_key,
  new_installation, is_new_installation, DeviceTokenResponse,
}
use metrune.Device.Steps.{polls, slows, consumes, TableStep, stays, changes}
use metrune.Device.Steps.{Steps}

pending-Steps :
    (A : Type 0) (now : DateTime) (k : Text) (row : DeviceAuthorization) (db : DeviceState)
    → get k db.authorizations ≡ some row
    → row.status ≡ pending
    → Steps db (pending_response {A = A} now k row db).1
unfolding pending_response
pending-Steps A now k row db h p = elim (Bool-cases (polled_too_soon now row)) [
  | inl t ↦ rw t (changes k row (slow_down_row now) h (slows now p))
  | inr t ↦ rw t (changes k row (poll_row now) h (polls now p))
]

enroll-Steps :
    (d : Digests) (now : DateTime) (grant : Grant) (k : Text) (row : DeviceAuthorization)
    (db : DeviceState)
    → get k db.authorizations ≡ some row
    → row.status ≡ approved
    → Steps db (enroll d now grant k row db).1
unfolding enroll
enroll-Steps d now grant k row db h p = elim (Option-cases row.organization_id) [
  | inl a ↦ rw a stays
  | inr (o, a) ↦ elim (Option-cases row.owner_user_id) [
    | inl b ↦ rw (a, b) stays
    | inr (u, b) ↦
        elim (Bool-cases (
          is_new_installation
            (new_installation d grant o u (find_team_key o row.team_id db.teams) row)
            db.installations)) [
              | inl t ↦ rw (a, b, t) (changes k row (consume_row now) h (consumes now p))
              | inr t ↦ rw (a, b, t) stays
            ]
  ]
]

answer-Steps :
    (d : Digests) (now : DateTime) (grant : Grant) (k : Text) (row : DeviceAuthorization)
    (db : DeviceState)
    → get k db.authorizations ≡ some row
    → Steps db (answer d now grant k row db).1
unfolding answer
answer-Steps d now grant k row db h = elim (Bool-cases (leb row.expires_at now)) [
  | inl t ↦ rw t stays
  | inr t ↦ rw t (by_status row.status refl)
]
  where
    by_status :
        (status : DeviceStatus)
        → row.status ≡ status
        → TableStep db.authorizations
            (elim row.status as (λ x. Response OauthError DeviceTokenResponse × DeviceState) [
              | pending ↦ pending_response now k row db
              | approved ↦ enroll d now grant k row db
              | denied ↦ (err access_denied, db)
              | consumed ↦ (err invalid_grant, db)
            ]).1.authorizations
    by_status pending e = rw e (pending-Steps DeviceTokenResponse now k row db h e)
    by_status approved e = rw e (enroll-Steps d now grant k row db h e)
    by_status denied e = rw e stays
    by_status consumed e = rw e stays

locked_row :
    (d : Digests) (request : DeviceTokenRequest) (db : DeviceState) (row : DeviceAuthorization)
    → lock_device_authorization d request db ≡ some row
    → get (d.sha256_hex request.device_code) db.authorizations ≡ some row
unfolding lock_device_authorization
locked_row d request db row h = ground arith

pub exchange-Steps :
    (d : Digests) (config : DeviceConfig) (now : DateTime) (address : Text) (grant : Grant)
    (request : DeviceTokenRequest) (db : DeviceState)
    → Steps db (exchange_device_code d config now address grant request db).1
unfolding exchange_device_code
exchange-Steps d config now address grant request db =
    let c = check now (codes "device-token") address config.device_token db.windows in
    elim (Bool-cases (is_allowed c.0)) [
      | inr t ↦ rw t stays
      | inl t ↦ elim (Bool-cases (text_eq request.grant_type device_grant_type)) [
        | inr t2 ↦ rw (t, t2) stays
        | inl t2 ↦ elim (Bool-cases (text_eq request.client_id device_client_id)) [
          | inr t3 ↦ rw (t, t2, t3) stays
          | inl t3 ↦
              elim (Option-cases
                (lock_device_authorization d request (record db { windows = c.1 }))) [
                  | inl n ↦ rw (t, t2, t3, n) stays
                  | inr (row, n) ↦
                      rw (t, t2, t3, n)
                        (answer-Steps d now grant (d.sha256_hex request.device_code) row
                          (record db { windows = c.1 })
                          (locked_row d request (record db { windows = c.1 }) row n))
                ]
        ]
      ]
    ]
