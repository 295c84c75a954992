-- ===== src/Examples/Enrolment.antt =====
-- A device that is approved, exchanged, and refused when its code comes again.
use metrune.Prelude.{◌≡◌, ◌≢◌, refl, none, some, List, [], ◌∷◌, arith}
use metrune.Prelude.Text.{codes}
use metrune.Prelude.Order.{text_ord}
use metrune.Limits.Rate.{new_rate_limit, check, check_entry, charge, entry_name}
use metrune.Device.{
  seconds, device_client_id, device_grant_type, DeviceAuthorization, DeviceState, DeviceConfig,
  approved, ok,
}
use metrune.Device.Exchange.{
  DeviceTokenRequest, DeviceTokenResponse, Grant, exchange_device_code, lock_device_authorization,
  answer, enroll, find_team_key,
}
use metrune.Device.Steps.{TableStep, Request, inspects, exchanges, handle, handle_all}
use metrune.Device.Steps.Refines.{handle-TableStep}
use metrune.Device.Steps.Consistent.{IsValidTable, IsValidTable-handle_all}
use metrune.Device.Steps.Once.{Granted, exchange_device_code-Granted, exchange_device_code-once}
use metrune.Examples.Sample.{digests}

abbrev row : DeviceAuthorization
row = record {
  user_code_hash = digests.sha256_hex (codes "ABCD0123");
  client_id = device_client_id;
  installation_name = codes "laptop";
  platform = codes "linux";
  organization_id = some (codes "7");
  owner_user_id = some (codes "9");
  team_id = none;
  status = approved;
  poll_interval_seconds = 5;
  last_polled_at = some 20;
  expires_at = seconds 600;
  approved_at = some 30;
  denied_at = none;
  consumed_at = none;
}

abbrev state : DeviceState
state = record {
  windows = [];
  authorizations = (digests.sha256_hex (codes "mdc_1"), row) ∷ [];
  teams = [];
  installations = [];
}

abbrev config : DeviceConfig
config = record {
  device_authorization = new_rate_limit 60 10;
  device_verification = new_rate_limit 3600 60;
  device_token = new_rate_limit 60 300;
}

abbrev request : DeviceTokenRequest
request = record {
  grant_type = device_grant_type;
  device_code = codes "mdc_1";
  client_id = device_client_id;
}

abbrev grant : Grant
grant = record {
  installation_id = codes "1";
  installation_token = codes "mti_1";
  pseudonym_key = codes "mpk_1";
}

abbrev grant_2 : Grant
grant_2 = record {
  installation_id = codes "2";
  installation_token = codes "mti_2";
  pseudonym_key = codes "mpk_2";
}

abbrev response : DeviceTokenResponse
response = record {
  access_token = codes "mti_1";
  installation_id = codes "1";
  pseudonym_key = codes "mpk_1";
  organization_id = codes "7";
  team_key = none;
}

abbrev response_2 : DeviceTokenResponse
response_2 = record response {
  access_token = codes "mti_2";
  installation_id = codes "2";
  pseudonym_key = codes "mpk_2";
}

abbrev later : List Request
later = inspects 70 none (codes "ABCD-0123") ∷ []

abbrev exchanged : DeviceState
exchanged = (exchange_device_code digests config 60 (codes "10.0.0.1") grant request state).1

table-IsValid : IsValidTable state.authorizations
table-IsValid = (
  (tt, tt),
  (
    (
      ((λ p. ground arith), (λ p. ground arith), (λ p. ground arith), refl, refl),
      omega arith,
      omega arith,
    ),
    tt,
  ),
)

granted_response :
    (exchange_device_code digests config 60 (codes "10.0.0.1") grant request state).0 ≡ ok response
unfolding exchange_device_code lock_device_authorization answer enroll check check_entry charge
    entry_name find_team_key
granted_response = refl

exchange_device_code-Granted_example :
    (r : DeviceAuthorization) × Granted digests 60 request response state exchanged r
exchange_device_code-Granted_example =
    exchange_device_code-Granted digests config 60 (codes "10.0.0.1") grant request state response
      granted_response

exchange_device_code-once_example :
    (exchange_device_code digests config 80
      (codes "10.0.0.2")
      grant_2
      request
      (handle_all digests config later exchanged)).0
    ≢ ok response_2
exchange_device_code-once_example =
    exchange_device_code-once digests config 60 (codes "10.0.0.1") grant request state response
      table-IsValid granted_response later 80 (codes "10.0.0.2") grant_2 request response_2 refl

IsValidTable-handle_all_example :
    IsValidTable (handle_all digests config later state).authorizations
IsValidTable-handle_all_example = IsValidTable-handle_all digests config later state table-IsValid

handle-TableStep_example :
    TableStep state.authorizations
      (handle digests config (exchanges 60 (codes "10.0.0.1") grant request) state).authorizations
handle-TableStep_example =
    handle-TableStep digests config (exchanges 60 (codes "10.0.0.1") grant request) state (tt, tt)
