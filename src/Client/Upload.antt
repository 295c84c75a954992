-- ===== src/Client/Upload.antt =====
-- `upload` (crates/metrune-cli/src/app.rs): a batch of the outbox goes to the server, and its answer
-- settles the rows. What the server answers, and what its JSON decodes to, are parameters.
pub mod Rows
pub mod Progress
use metrune.Prelude.{
  ℕ, ◌+◌, ◌%◌, Bool, true, false, ◌&&◌, ◌||◌, not, Option, none, some, List, [], ◌∷◌, ltb, leb,
  ◌==◌, if◌then◌else◌, is_empty,
}
use metrune.Prelude.Text.{Text, codes, text_eq}
use metrune.Core.Types.{DateTime}
use metrune.Core.Snapshot.{SessionSnapshot, BatchEnvelope, IngestAck, u64_mod}
use metrune.Core.Identity.{Digests}
use metrune.State.{LocalState, Codec, StateError, ok, err}
use metrune.State.Outbox.{acknowledge, acknowledge_session_keys}
use metrune.State.Batch.{pending_batch}

abbrev pub upgrade_required : ℕ
upgrade_required = 426

abbrev pub client_unsupported_error_code : Text
client_unsupported_error_code = codes "client_unsupported"

pub record ClientUnsupportedResponse : Type 0 where
  pub code : Text
  pub minimum_client_version : Option Text

-- What the request brings: `no_response` where there is no token or the transport fails.
pub data Reply : Type 0 where
  no_response : Reply
  response : ℕ → Text → Reply

pub data UploadError : Type 0 where
  state_failed : StateError → UploadError
  send_failed : UploadError
  client_unsupported : Option Text → UploadError
  needs_upgrade : UploadError
  bad_status : ℕ → UploadError
  bad_body : UploadError
  rejected_snapshots : ℕ → List Text → UploadError

pub data UploadResult : Type 0 where
  uploaded : ℕ → UploadResult
  upload_failed : UploadError → UploadResult

-- `serde_json` on the two bodies.
pub record Bodies : Type 0 where
  pub decode_ack : Text → Option IngestAck
  pub decode_unsupported : Text → Option ClientUnsupportedResponse

abbrev pub unsupported_of : Option ClientUnsupportedResponse → Option (Option Text)
unsupported_of none = none
unsupported_of (some r) =
    if text_eq r.code client_unsupported_error_code then some r.minimum_client_version else none

unfoldable pub client_unsupported_upload : Bodies → ℕ → Text → Option (Option Text)
client_unsupported_upload b status body =
    if status == upgrade_required then unsupported_of (b.decode_unsupported body) else none

abbrev pub upgrade_error : Option (Option Text) → UploadError
upgrade_error none = needs_upgrade
upgrade_error (some minimum) = client_unsupported minimum

-- `error_for_status`
abbrev pub is_error_status : ℕ → Bool
is_error_status status = leb 400 status && ltb status 600

-- `?` on what the state answers.
abbrev pub unless_failed : Option StateError → UploadResult → UploadResult
unless_failed none result = result
unless_failed (some e) result = upload_failed (state_failed e)

module _ {F : Type 0} where
  -- The rows that a partial answer names are settled, first the accepted ones; an error of the first
  -- call leaves the second out.
  unfoldable pub settle_partial :
      DateTime
      → DateTime
      → List (SessionSnapshot F)
      → IngestAck
      → LocalState
      → Option StateError × LocalState
  settle_partial now later snapshots ack db =
      let accepted = acknowledge_session_keys now snapshots ack.accepted_session_keys db in
      if not (is_empty ack.accepted_session_keys) || not (is_empty ack.rejected_session_keys)
      then (elim accepted.0 [
        | some e ↦ (some e, accepted.1)
        | none ↦ acknowledge_session_keys later snapshots ack.rejected_session_keys accepted.1
      ])
      else (none, db)

  unfoldable pub settle_ack :
      DateTime
      → DateTime
      → List (SessionSnapshot F)
      → IngestAck
      → LocalState
      → UploadResult × LocalState
  settle_ack now later snapshots ack db =
      let partial = settle_partial now later snapshots ack db in
      let whole = acknowledge now snapshots db in
      if ltb 0 ack.rejected
      then (
        unless_failed partial.0 (upload_failed (rejected_snapshots ack.rejected ack.errors)),
        partial.1,
      )
      else (unless_failed whole.0 (uploaded ((ack.accepted + ack.duplicates) % u64_mod)), whole.1)

  abbrev pub settle_body :
      DateTime
      → DateTime
      → List (SessionSnapshot F)
      → Option IngestAck
      → LocalState
      → UploadResult × LocalState
  settle_body now later snapshots none db = (upload_failed bad_body, db)
  settle_body now later snapshots (some ack) db = settle_ack now later snapshots ack db

  unfoldable pub settle_reply :
      Bodies
      → DateTime
      → DateTime
      → List (SessionSnapshot F)
      → Reply
      → LocalState
      → UploadResult × LocalState
  settle_reply b now later snapshots no_response db = (upload_failed send_failed, db)
  settle_reply b now later snapshots (response status body) db =
      if status == upgrade_required
      then (upload_failed (upgrade_error (client_unsupported_upload b status body)), db)
      else if is_error_status status
      then (upload_failed (bad_status status), db)
      else settle_body now later snapshots (b.decode_ack body) db

  -- The batch is made at `sent`; `now` and `later` are the times of the acknowledgements.
  unfoldable pub upload :
      Digests
      → Codec F
      → Bodies
      → (BatchEnvelope F → Reply)
      → DateTime
      → DateTime
      → DateTime
      → ℕ
      → LocalState
      → UploadResult × LocalState
  upload d c b server sent now later limit db = elim (pending_batch d c sent limit db) [
    | err e ↦ (upload_failed (state_failed e), db)
    | ok batch ↦
        if is_empty batch.snapshots
        then (uploaded 0, db)
        else settle_reply b now later batch.snapshots (server batch) db
  ]
