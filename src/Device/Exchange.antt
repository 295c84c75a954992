-- ===== src/Device/Exchange.antt =====
-- The token request of the command line client: `exchange_device_code` and the functions it calls
-- (crates/metrune-api/src/device_auth.rs). One clock reading serves the whole request.
use metrune.Prelude.{
  ◌+◌, Bool, true, false, not, ◌&&◌, Option, none, some, List, ◌∷◌, ltb, leb, min, if◌then◌else◌,
  any, find_first,
}
use metrune.Prelude.Text.{Text, codes, text_eq}
use metrune.Prelude.Order.{text_ord}
use metrune.Prelude.TreeMap.{get, map_option}
use metrune.Limits.Rate.{check}
use metrune.Core.Types.{DateTime}
use metrune.Core.Identity.{Digests}
use metrune.Device.{
  device_client_id, device_grant_type, seconds, max_poll_interval_seconds, Uuid, pending, approved,
  denied, consumed, DeviceAuthorization, Installation, Team, DeviceState, DeviceConfig, OauthError,
  temporarily_unavailable, invalid_client, unsupported_grant_type, invalid_grant, expired_token,
  slow_down, authorization_pending, access_denied, server_error, Response, ok, err,
}
use metrune.Device.Authorize.{is_allowed}
use metrune.Device.Approve.{change_row}

pub record DeviceTokenRequest : Type 0 where
  pub grant_type : Text
  pub device_code : Text
  pub client_id : Text

pub record DeviceTokenResponse : Type 0 where
  pub access_token : Text
  pub installation_id : Uuid
  pub pseudonym_key : Text
  pub organization_id : Uuid
  pub team_key : Option Text

-- What the random generator gives to one exchange.
pub record Grant : Type 0 where
  pub installation_id : Uuid
  pub installation_token : Text
  pub pseudonym_key : Text

-- `WHERE device_code_hash = $1 AND client_id = $2`
unfoldable pub lock_device_authorization :
    Digests → DeviceTokenRequest → DeviceState → Option DeviceAuthorization
lock_device_authorization d request db =
    elim (get (d.sha256_hex request.device_code) db.authorizations) [
      | none ↦ none
      | some row ↦ if text_eq row.client_id request.client_id then some row else none
    ]

unfoldable pub polled_too_soon : DateTime → DeviceAuthorization → Bool
polled_too_soon now row = elim row.last_polled_at [
  | none ↦ false
  | some last ↦ ltb now (last + seconds row.poll_interval_seconds)
]

abbrev pub slow_down_row : DateTime → DeviceAuthorization → DeviceAuthorization
slow_down_row now row = record row {
  poll_interval_seconds = min (row.poll_interval_seconds + 5) max_poll_interval_seconds;
  last_polled_at = some now;
}

abbrev pub poll_row : DateTime → DeviceAuthorization → DeviceAuthorization
poll_row now row = record row { last_polled_at = some now }

unfoldable pub pending_response :
    {A : Type 0}
    → DateTime
    → Text
    → DeviceAuthorization
    → DeviceState
    → Response OauthError A × DeviceState
pending_response now device_hash row db =
    if polled_too_soon now row
    then (err slow_down, change_row device_hash (slow_down_row now) db)
    else (err authorization_pending, change_row device_hash (poll_row now) db)

-- `SELECT name FROM teams WHERE id = $1 AND organization_id = $2`
unfoldable pub find_team_key : Uuid → Option Uuid → List Team → Option Text
find_team_key organization_id none teams = none
find_team_key organization_id (some team_id) teams =
    map_option (λ team. team.name)
      (find_first (λ team. text_eq team.id team_id && text_eq team.organization_id organization_id)
        teams)

abbrev pub new_installation :
    Digests → Grant → Uuid → Uuid → Option Text → DeviceAuthorization → Installation
new_installation d grant organization_id owner_user_id team_key row = record {
  id = grant.installation_id;
  organization_id = organization_id;
  name = row.installation_name;
  token_hash = d.sha256_hex grant.installation_token;
  team_key = team_key;
  team_id = row.team_id;
  owner_user_id = owner_user_id;
  platform = row.platform;
}

abbrev pub consume_row : DateTime → DeviceAuthorization → DeviceAuthorization
consume_row now row = record row { status = consumed; consumed_at = some now }

abbrev pub token_response : Grant → Uuid → Option Text → DeviceTokenResponse
token_response grant organization_id team_key = record {
  access_token = grant.installation_token;
  installation_id = grant.installation_id;
  pseudonym_key = grant.pseudonym_key;
  organization_id = organization_id;
  team_key = team_key;
}

-- `installations` holds an id and a token hash once.
abbrev pub is_new_installation : Installation → List Installation → Bool
is_new_installation new found =
    not (any (λ i. if text_eq i.id new.id then true else text_eq i.token_hash new.token_hash) found)

-- The rest of the exchange, for an approved row.
unfoldable pub enroll :
    Digests
    → DateTime
    → Grant
    → Text
    → DeviceAuthorization
    → DeviceState
    → Response OauthError DeviceTokenResponse × DeviceState
enroll d now grant device_hash row db = elim row.organization_id [
  | none ↦ (err server_error, db)
  | some organization_id ↦ elim row.owner_user_id [
    | none ↦ (err server_error, db)
    | some owner_user_id ↦
        let team_key = find_team_key organization_id row.team_id db.teams in
        let installation = new_installation d grant organization_id owner_user_id team_key row in
        if is_new_installation installation db.installations
        then (
          ok (token_response grant organization_id team_key),
          change_row device_hash (consume_row now)
              (record db { installations = installation ∷ db.installations }),
        )
        else (err server_error, db)
  ]
]

-- What the row's status decides.
unfoldable pub answer :
    Digests
    → DateTime
    → Grant
    → Text
    → DeviceAuthorization
    → DeviceState
    → Response OauthError DeviceTokenResponse × DeviceState
unfolding pending_response enroll
answer d now grant device_hash row db =
    if leb row.expires_at now then (err expired_token, db) else elim row.status [
      | pending ↦ pending_response now device_hash row db
      | approved ↦ enroll d now grant device_hash row db
      | denied ↦ (err access_denied, db)
      | consumed ↦ (err invalid_grant, db)
    ]

unfoldable pub exchange_device_code :
    Digests
    → DeviceConfig
    → DateTime
    → Text
    → Grant
    → DeviceTokenRequest
    → DeviceState
    → Response OauthError DeviceTokenResponse × DeviceState
exchange_device_code d config now address grant request db =
    let (verdict, windows) =
      check now (codes "device-token") address config.device_token db.windows in
    let charged = record db { windows = windows } in
    if not (is_allowed verdict)
    then (err temporarily_unavailable, charged)
    else if not (text_eq request.grant_type device_grant_type)
    then (err unsupported_grant_type, charged)
    else if not (text_eq request.client_id device_client_id)
    then (err invalid_client, charged)
    else elim (lock_device_authorization d request charged) [
      | none ↦ (err invalid_grant, charged)
      | some row ↦ answer d now grant (d.sha256_hex request.device_code) row charged
    ]
