-- ===== src/Device/Steps.antt =====
-- The table of device authorizations as a state machine: what one request may do to it, and what
-- the four handlers of crates/metrune-api/src/device_auth.rs make of that.
pub mod Lookup
pub mod Polling
pub mod Deciding
pub mod Refines
pub mod Once
pub mod Consistent
use metrune.Prelude.{
  ℕ, ◌+◌, ◌≡◌, refl, sym, ◌∙◌, ap, Bool, true, false, Option, none, some, List, [], ◌∷◌, arith,
  Bool-cases, inl, inr, not, ◌&&◌, find_first, any, if◌then◌else◌,
}
use metrune.Prelude.Text.{Text}
use metrune.Prelude.Order.{Ord, text_ord}
use metrune.Prelude.TreeMap.{TreeMap, get, update, modify, IsSorted, IsAbove}
use metrune.Limits.Rate.{check}
use metrune.Core.Types.{DateTime}
use metrune.Core.Identity.{Digests}
use metrune.Device.{
  Uuid, DeviceStatus, pending, approved, denied, consumed, DeviceDecision, approve, deny,
  DeviceAuthorization, DeviceState, DeviceConfig, Response, ok, err,
}
use metrune.Device.Authorize.{
  DeviceAuthorizationRequest, Draw, new_authorization, insert_authorization, is_new, accept_request,
  authorize_device,
}
use metrune.Device.Approve.{
  Session, is_pending, find_open, is_open, DeviceApprovalRequest, approve_row, deny_row, change_row,
  decide, with_open_row, inspect_device, approve_device,
}
use metrune.Device.Exchange.{
  DeviceTokenRequest, Grant, lock_device_authorization, slow_down_row, poll_row, pending_response,
  consume_row, enroll, answer, exchange_device_code,
}

-- What happens to one row.
pub data RowStep : DeviceAuthorization → DeviceAuthorization → Type 0 where
  polls :
      {row : DeviceAuthorization} (now : DateTime)
      → row.status ≡ pending
      → RowStep row (poll_row now row)
  slows :
      {row : DeviceAuthorization} (now : DateTime)
      → row.status ≡ pending
      → RowStep row (slow_down_row now row)
  approves :
      {row : DeviceAuthorization} (now : DateTime) (organization_id user_id : Uuid)
      (team_id : Option Uuid)
      → row.status ≡ pending
      → RowStep row (approve_row now organization_id user_id team_id row)
  denies :
      {row : DeviceAuthorization} (now : DateTime) (organization_id user_id : Uuid)
      → row.status ≡ pending
      → RowStep row (deny_row now organization_id user_id row)
  consumes :
      {row : DeviceAuthorization} (now : DateTime)
      → row.status ≡ approved
      → RowStep row (consume_row now row)

-- What one request does to the table.
pub data TableStep (rows : TreeMap Text DeviceAuthorization)
    : TreeMap Text DeviceAuthorization → Type 0 where
  stays : TableStep rows rows
  inserts :
      (d : Digests) (now : DateTime) (draw : Draw) (k name platform : Text)
      → get k rows ≡ none
      → TableStep rows (update k (λ found. new_authorization d now draw name platform) rows)
  changes :
      (k : Text) (row : DeviceAuthorization) (f : DeviceAuthorization → DeviceAuthorization)
      → get k rows ≡ some row
      → RowStep row (f row)
      → TableStep rows (modify k f rows)

abbrev pub Steps : DeviceState → DeviceState → Type 0
Steps db db' = TableStep db.authorizations db'.authorizations

-- A request, with the clock reading and the random values that its handler draws.
pub data Request : Type 0 where
  authorizes : DateTime → Text → Text → Draw → DeviceAuthorizationRequest → Request
  inspects : DateTime → Option Session → Text → Request
  decides : DateTime → Option Session → DeviceApprovalRequest → Request
  exchanges : DateTime → Text → Grant → DeviceTokenRequest → Request

unfoldable pub handle : Digests → DeviceConfig → Request → DeviceState → DeviceState
handle d config (authorizes now url address draw request) db =
    (authorize_device d config url now address draw request db).1
handle d config (inspects now session user_code) db =
    (inspect_device d config now session user_code db).1
handle d config (decides now session request) db =
    (approve_device d config now session request db).1
handle d config (exchanges now address grant request) db =
    (exchange_device_code d config now address grant request db).1

unfoldable pub handle_all : Digests → DeviceConfig → List Request → DeviceState → DeviceState
unfolding handle
handle_all d config [] db = db
handle_all d config (request ∷ rest) db = handle_all d config rest (handle d config request db)
