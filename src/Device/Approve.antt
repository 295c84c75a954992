-- ===== src/Device/Approve.antt =====
-- The requests of the signed-in browser: `inspect_device` and `approve_device`
-- (crates/metrune-api/src/device_auth.rs). Who the session belongs to is an argument, since the
-- session tables are not part of this model.
use metrune.Prelude.{
  Bool, true, false, not, ◌&&◌, Option, none, some, List, ◌++◌, ltb, if◌then◌else◌, any, find_first,
}
use metrune.Prelude.Text.{Text, codes, text_eq}
use metrune.Prelude.Order.{text_ord}
use metrune.Prelude.TreeMap.{modify}
use metrune.Limits.Rate.{check}
use metrune.Core.Types.{DateTime}
use metrune.Core.Identity.{Digests}
use metrune.Device.{
  Uuid, DeviceStatus, pending, approved, denied, DeviceDecision, approve, deny, DeviceAuthorization,
  Team, DeviceState, DeviceConfig, BrowserError, unauthenticated, no_workspace, not_a_member,
  too_many_requests, invalid_code, foreign_team, Response, ok, err,
}
use metrune.Device.Authorize.{is_allowed}
use metrune.Device.Code.{normalize_user_code, display_user_code}

-- What `user_session_auth` and the membership query find.
pub record Session : Type 0 where
  pub user_id : Uuid
  pub active_organization_id : Option Uuid
  pub is_member : Bool

unfoldable pub active_organization : Option Session → Response BrowserError (Uuid × Uuid)
active_organization none = err unauthenticated
active_organization (some session) = elim session.active_organization_id [
  | none ↦ err no_workspace
  | some organization_id ↦
      if session.is_member then ok (organization_id, session.user_id) else err not_a_member
]

abbrev pub is_pending : DeviceStatus → Bool
is_pending pending = true
is_pending _ = false

-- `user_code_hash = … AND status = 'pending' AND expires_at > NOW()`
abbrev pub is_open : Text → DateTime → Text × DeviceAuthorization → Bool
is_open user_hash now e =
    text_eq e.1.user_code_hash user_hash && is_pending e.1.status && ltb now e.1.expires_at

unfoldable pub find_open : Text → DateTime → DeviceState → Option (Text × DeviceAuthorization)
find_open user_hash now db = find_first (is_open user_hash now) db.authorizations

unfoldable pub validate_team : Uuid → Option Uuid → List Team → Bool
validate_team organization_id none teams = true
validate_team organization_id (some team_id) teams =
    any (λ team. text_eq team.id team_id && text_eq team.organization_id organization_id) teams

pub record DeviceApprovalRequest : Type 0 where
  pub user_code : Text
  pub decision : DeviceDecision
  pub team_id : Option Uuid

pub record DeviceApprovalResponse : Type 0 where
  pub status : DeviceStatus
  pub user_code : Text
  pub installation_name : Text
  pub platform : Text

abbrev pub approve_row :
    DateTime → Uuid → Uuid → Option Uuid → DeviceAuthorization → DeviceAuthorization
approve_row now organization_id user_id team_id row = record row {
  status = approved;
  organization_id = some organization_id;
  owner_user_id = some user_id;
  team_id = team_id;
  approved_at = some now;
}

abbrev pub deny_row : DateTime → Uuid → Uuid → DeviceAuthorization → DeviceAuthorization
deny_row now organization_id user_id row = record row {
  status = denied;
  organization_id = some organization_id;
  owner_user_id = some user_id;
  team_id = none;
  denied_at = some now;
}

abbrev pub change_row :
    Text → (DeviceAuthorization → DeviceAuthorization) → DeviceState → DeviceState
change_row device_hash f db = record db { authorizations = modify device_hash f db.authorizations }

abbrev pub approval_response : DeviceStatus → Text → DeviceAuthorization → DeviceApprovalResponse
approval_response status normalized row = record {
  status = status;
  user_code = display_user_code normalized;
  installation_name = row.installation_name;
  platform = row.platform;
}

-- The transaction, on the row that it locked.
unfoldable pub decide :
    DateTime
    → Uuid
    → Uuid
    → DeviceApprovalRequest
    → Text
    → Text × DeviceAuthorization
    → DeviceState
    → Response BrowserError DeviceApprovalResponse × DeviceState
decide now organization_id user_id request normalized e db = elim request.decision [
  | approve ↦
      if validate_team organization_id request.team_id db.teams
      then (
        ok (approval_response approved normalized e.1),
        change_row e.0 (approve_row now organization_id user_id request.team_id) db,
      )
      else (err foreign_team, db)
  | deny ↦ (
    ok (approval_response denied normalized e.1),
    change_row e.0 (deny_row now organization_id user_id) db,
  )
]

-- The code is looked up once the session, the budget and its form are accepted.
unfoldable pub with_open_row :
    {A : Type 0}
    → Digests
    → DeviceConfig
    → DateTime
    → Option Session
    → Text
    → (Uuid
        → Uuid
        → Text
        → Text × DeviceAuthorization
        → DeviceState
        → Response BrowserError A × DeviceState)
    → DeviceState
    → Response BrowserError A × DeviceState
with_open_row d config now session user_code action db = elim (active_organization session) [
  | err e ↦ (err e, db)
  | ok (organization_id, user_id) ↦
      let (verdict, windows) =
        check now (codes "device-verification") (codes "user:" ++ user_id)
          config.device_verification db.windows in
      let charged = record db { windows = windows } in
      if not (is_allowed verdict)
      then (err too_many_requests, charged)
      else elim (normalize_user_code user_code) [
        | none ↦ (err invalid_code, charged)
        | some normalized ↦ elim (find_open (d.sha256_hex normalized) now charged) [
          | none ↦ (err invalid_code, charged)
          | some e ↦ action organization_id user_id normalized e charged
        ]
      ]
]

pub record DeviceVerificationResponse : Type 0 where
  pub user_code : Text
  pub installation_name : Text
  pub platform : Text
  pub expires_at : DateTime

abbrev pub verification_response : Text → DeviceAuthorization → DeviceVerificationResponse
verification_response normalized row = record {
  user_code = display_user_code normalized;
  installation_name = row.installation_name;
  platform = row.platform;
  expires_at = row.expires_at;
}

unfoldable pub inspect_device :
    Digests
    → DeviceConfig
    → DateTime
    → Option Session
    → Text
    → DeviceState
    → Response BrowserError DeviceVerificationResponse × DeviceState
unfolding with_open_row
inspect_device d config now session user_code db =
    with_open_row d config now session user_code
      (λ organization_id user_id normalized e db'. (ok (verification_response normalized e.1), db'))
      db

unfoldable pub approve_device :
    Digests
    → DeviceConfig
    → DateTime
    → Option Session
    → DeviceApprovalRequest
    → DeviceState
    → Response BrowserError DeviceApprovalResponse × DeviceState
unfolding with_open_row decide
approve_device d config now session request db =
    with_open_row d config now session request.user_code
      (λ organization_id user_id normalized e db'.
        decide now organization_id user_id request normalized e db')
      db
