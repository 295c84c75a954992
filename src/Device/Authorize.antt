-- ===== src/Device/Authorize.antt =====
-- The request of the command line client: the validators, and `authorize_device`
-- (crates/metrune-api/src/device_auth.rs, crates/metrune-api/src/app.rs).
use metrune.Prelude.{
  ℕ, ◌+◌, ◌*◌, Bool, true, false, not, ◌||◌, Option, none, some, List, [], ◌∷◌, ◌++◌, ltb,
  if◌then◌else◌, any, is_empty, length,
}
use metrune.Prelude.Text.{Text, codes, text_eq, trim, trim_end_by, is_control}
use metrune.Prelude.Order.{text_ord}
use metrune.Prelude.TreeMap.{TreeMap, get, update}
use metrune.Limits.Rate.{Verdict, allowed, check}
use metrune.Limits.Login.{is_vacant}
use metrune.Core.Types.{DateTime}
use metrune.Core.Identity.{Digests}
use metrune.Device.{
  device_client_id, seconds, device_code_lifetime_minutes, initial_poll_interval_seconds, pending,
  DeviceAuthorization, DeviceState, DeviceConfig, OauthError, temporarily_unavailable,
  invalid_client, invalid_request, server_error, Response, ok, err,
}
use metrune.Device.Code.{plain_user_code, display_user_code}

unfoldable pub validate_installation_name : Text → Option Text
validate_installation_name given =
    let name = trim given in
    if is_empty name || ltb 120 (length name) || any is_control name then none else some name

abbrev pub supported_platforms : List Text
supported_platforms =
    codes "linux" ∷ codes "wsl" ∷ codes "windows" ∷ codes "macos" ∷ codes "other" ∷ []

unfoldable pub validate_platform : Text → Option Text
validate_platform platform =
    if any (text_eq platform) supported_platforms then some platform else none

pub record DeviceAuthorizationRequest : Type 0 where
  pub client_id : Text
  pub installation_name : Text
  pub platform : Text

pub record DeviceAuthorizationResponse : Type 0 where
  pub device_code : Text
  pub user_code : Text
  pub verification_uri : Text
  pub verification_uri_complete : Text
  pub expires_in : ℕ
  pub interval : ℕ

abbrev pub verification_urls : Text → Text → Text × Text
verification_urls public_web_url user_code =
    let uri = trim_end_by (λ c. text_eq (c ∷ []) (codes "/")) public_web_url ++ codes "/device" in
    (uri, uri ++ codes "?user_code=" ++ user_code)

-- What the random generator and the clock give to one request.
pub record Draw : Type 0 where
  pub device_code : Text
  pub user_code_bytes : List ℕ

abbrev pub new_authorization : Digests → DateTime → Draw → Text → Text → DeviceAuthorization
new_authorization d now draw installation_name platform = record {
  user_code_hash = d.sha256_hex (plain_user_code draw.user_code_bytes);
  client_id = device_client_id;
  installation_name = installation_name;
  platform = platform;
  organization_id = none;
  owner_user_id = none;
  team_id = none;
  status = pending;
  poll_interval_seconds = initial_poll_interval_seconds;
  last_polled_at = none;
  expires_at = now + seconds (device_code_lifetime_minutes * 60);
  approved_at = none;
  denied_at = none;
  consumed_at = none;
}

-- The hashes are unique columns, so an insertion that repeats one fails.
abbrev pub is_new : Text → Text → TreeMap Text DeviceAuthorization → Bool
is_new device_hash user_hash rows =
    if any (λ e. text_eq e.1.user_code_hash user_hash) rows
    then false
    else is_vacant (get device_hash rows)

unfoldable pub insert_authorization :
    Text → DeviceAuthorization → DeviceState → Response OauthError DeviceState
insert_authorization device_hash row db =
    if is_new device_hash row.user_code_hash db.authorizations
    then ok (record db { authorizations = update device_hash (λ found. row) db.authorizations })
    else err server_error

abbrev pub authorization_response : Text → Draw → DeviceAuthorizationResponse
authorization_response public_web_url draw =
    let user_code = display_user_code (plain_user_code draw.user_code_bytes) in
    let (uri, complete) = verification_urls public_web_url user_code in
    record {
      device_code = draw.device_code;
      user_code = user_code;
      verification_uri = uri;
      verification_uri_complete = complete;
      expires_in = device_code_lifetime_minutes * 60;
      interval = initial_poll_interval_seconds;
    }

-- After the rate limit and the check of the client.
unfoldable pub accept_request :
    Digests
    → Text
    → DateTime
    → Draw
    → DeviceAuthorizationRequest
    → DeviceState
    → Response OauthError DeviceAuthorizationResponse × DeviceState
accept_request d public_web_url now draw request db =
    elim (validate_installation_name request.installation_name) [
      | none ↦ (err invalid_request, db)
      | some installation_name ↦ elim (validate_platform request.platform) [
        | none ↦ (err invalid_request, db)
        | some platform ↦
            elim (insert_authorization (d.sha256_hex draw.device_code)
              (new_authorization d now draw installation_name platform) db) [
                | err e ↦ (err e, db)
                | ok db' ↦ (ok (authorization_response public_web_url draw), db')
              ]
      ]
    ]

abbrev pub is_allowed : Verdict → Bool
is_allowed allowed = true
is_allowed _ = false

unfoldable pub authorize_device :
    Digests
    → DeviceConfig
    → Text
    → DateTime
    → Text
    → Draw
    → DeviceAuthorizationRequest
    → DeviceState
    → Response OauthError DeviceAuthorizationResponse × DeviceState
authorize_device d config public_web_url now address draw request db =
    let (verdict, windows) =
      check now (codes "device-authorization") address config.device_authorization db.windows in
    let charged = record db { windows = windows } in
    if not (is_allowed verdict)
    then (err temporarily_unavailable, charged)
    else if not (text_eq request.client_id device_client_id)
    then (err invalid_client, charged)
    else accept_request d public_web_url now draw request charged
