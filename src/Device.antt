-- ===== src/Device.antt =====
-- Browser-approved enrolment of a device (crates/metrune-api/src/device_auth.rs, with the validators
-- of crates/metrune-api/src/app.rs): the data, and the tables behind the handlers.
pub mod Code
pub mod Authorize
pub mod Approve
pub mod Exchange
pub mod Steps
use metrune.Prelude.{ℕ, ◌*◌, Bool, Option, List}
use metrune.Prelude.Text.{Text, codes}
use metrune.Prelude.TreeMap.{TreeMap}
use metrune.Limits.Rate.{RateLimit, Windows}
use metrune.Core.Types.{DateTime}

abbrev pub device_client_id : Text
device_client_id = codes "metrune-cli"

abbrev pub device_grant_type : Text
device_grant_type = codes "urn:ietf:params:oauth:grant-type:device_code"

-- A tick is a nanosecond.
abbrev pub seconds : ℕ → ℕ
seconds n = n * 1_000_000_000

abbrev pub device_code_lifetime_minutes : ℕ
device_code_lifetime_minutes = 10

abbrev pub initial_poll_interval_seconds : ℕ
initial_poll_interval_seconds = 5

abbrev pub max_poll_interval_seconds : ℕ
max_poll_interval_seconds = 60

pub data DeviceStatus : Type 0 where
  pending approved denied consumed : DeviceStatus

pub data DeviceDecision : Type 0 where
  approve deny : DeviceDecision

-- The hyphenated text of a UUID.
abbrev pub Uuid : Type 0
Uuid = Text

-- A row of `device_enrollment_authorizations`. The key of its table is the hash of the device code,
-- which is unique as the row's id is.
pub record DeviceAuthorization : Type 0 where
  pub user_code_hash : Text
  pub client_id : Text
  pub installation_name : Text
  pub platform : Text
  pub organization_id : Option Uuid
  pub owner_user_id : Option Uuid
  pub team_id : Option Uuid
  pub status : DeviceStatus
  pub poll_interval_seconds : ℕ
  pub last_polled_at : Option DateTime
  pub expires_at : DateTime
  pub approved_at : Option DateTime
  pub denied_at : Option DateTime
  pub consumed_at : Option DateTime

pub record Installation : Type 0 where
  pub id : Uuid
  pub organization_id : Uuid
  pub name : Text
  pub token_hash : Text
  pub team_key : Option Text
  pub team_id : Option Uuid
  pub owner_user_id : Uuid
  pub platform : Text

pub record Team : Type 0 where
  pub id : Uuid
  pub organization_id : Uuid
  pub name : Text

-- What the handlers read and write: the limiter and three tables.
pub record DeviceState : Type 0 where
  pub windows : Windows
  pub authorizations : TreeMap Text DeviceAuthorization
  pub teams : List Team
  pub installations : List Installation

pub record DeviceConfig : Type 0 where
  pub device_authorization : RateLimit
  pub device_verification : RateLimit
  pub device_token : RateLimit

-- The OAuth failures, by their `error` code.
pub data OauthError : Type 0 where
  temporarily_unavailable invalid_client invalid_request unsupported_grant_type : OauthError
  invalid_grant expired_token slow_down authorization_pending access_denied server_error :
      OauthError

-- The failures of the browser's requests.
pub data BrowserError : Type 0 where
  unauthenticated no_workspace not_a_member too_many_requests invalid_code foreign_team :
      BrowserError

pub data Response (E A : Type 0) : Type 0 where
  ok : A → Response E A
  err : E → Response E A
