-- ===== src/Device/Steps/Deciding.antt =====
-- `inspect_device` and `approve_device` as steps of the table
-- (crates/metrune-api/src/device_auth.rs).
use metrune.Prelude.{Option-cases, ◌≡◌, refl, Option, some, Bool-cases, inl, inr, ◌++◌, ◌⊎◌}
use metrune.Prelude.Text.{Text, codes}
use metrune.Prelude.Order.{text_ord}
use metrune.Prelude.TreeMap.{get, IsSorted}
use metrune.Limits.Rate.{check}
use metrune.Device.Code.{normalize_user_code}
use metrune.Core.Types.{DateTime}
use metrune.Core.Identity.{Digests}
use metrune.Device.{
  Uuid, pending, DeviceDecision, approve, deny, DeviceAuthorization, DeviceState, DeviceConfig,
  Response, BrowserError, ok, err,
}
use metrune.Device.Authorize.{is_allowed}
use metrune.Device.Approve.{
  Session, find_open, DeviceApprovalRequest, approve_row, deny_row, decide, with_open_row,
  validate_team, active_organization,
}
use metrune.Device.Steps.{approves, denies, stays, changes}
use metrune.Device.Steps.{Steps}
use metrune.Device.Steps.Lookup.{open_row}

decision-cases : (x : DeviceDecision) → (x ≡ approve) ⊎ (x ≡ deny)
decision-cases approve = inl refl
decision-cases deny = inr refl

pub decide-Steps :
    (now : DateTime) (o u : Uuid) (request : DeviceApprovalRequest) (normalized : Text)
    (e : Text × DeviceAuthorization) (db : DeviceState)
    → get e.0 db.authorizations ≡ some e.1
    → e.1.status ≡ pending
    → Steps db (decide now o u request normalized e db).1
unfolding decide
decide-Steps now o u request normalized e db h p = elim (decision-cases request.decision) [
  | inl a ↦ elim (Bool-cases (validate_team o request.team_id db.teams)) [
    | inl t ↦
        rw (a, t)
          (changes e.0 e.1 (approve_row now o u request.team_id) h
            (approves now o u request.team_id p))
    | inr t ↦ rw (a, t) stays
  ]
  | inr a ↦ rw a (changes e.0 e.1 (deny_row now o u) h (denies now o u p))
]

response-cases :
    {E A : Type 0} (x : Response E A) → ((e : E) × (x ≡ err e)) ⊎ ((a : A) × (x ≡ ok a))
response-cases (err e) = inl (e, refl)
response-cases (ok a) = inr (a, refl)

pub with_open_row-Steps :
    {A : Type 0} (d : Digests) (config : DeviceConfig) (now : DateTime) (session : Option Session)
    (user_code : Text)
    (action : Uuid
      → Uuid
      → Text
      → Text × DeviceAuthorization
      → DeviceState
      → Response BrowserError A × DeviceState)
    (db : DeviceState)
    → ((o u : Uuid) (normalized : Text) (e : Text × DeviceAuthorization) (db' : DeviceState)
        → get e.0 db'.authorizations ≡ some e.1
        → e.1.status ≡ pending
        → Steps db' (action o u normalized e db').1)
    → IsSorted db.authorizations
    → Steps db (with_open_row d config now session user_code action db).1
unfolding with_open_row
with_open_row-Steps {A} d config now session user_code action db each s =
    elim (response-cases (active_organization session)) [
      | inl (e, t) ↦ rw (with_open_row, t) stays
      | inr ((o, u), t) ↦
          let c =
            check now (codes "device-verification") (codes "user:" ++ u) config.device_verification
              db.windows in
          let charged = record db { windows = c.1 } in
          elim (Bool-cases (is_allowed c.0)) [
            | inr t2 ↦ rw (with_open_row, t, t2) stays
            | inl t2 ↦ elim (Option-cases (normalize_user_code user_code)) [
              | inl t3 ↦ rw (with_open_row, t, t2, t3) stays
              | inr (normalized, t3) ↦
                  elim (Option-cases (find_open (d.sha256_hex normalized) now charged)) [
                    | inl t4 ↦ rw (with_open_row, t, t2, t3, t4) stays
                    | inr (e, t4) ↦
                        let (found, waits) =
                          open_row (d.sha256_hex normalized) now e charged s t4 in
                        rw (with_open_row, t, t2, t3, t4)
                          (each o u normalized e charged found waits)
                  ]
            ]
          ]
    ]
