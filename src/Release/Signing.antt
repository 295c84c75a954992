-- ===== src/Release/Signing.antt =====
-- The signature of the manifest (crates/metrune-core/src/release.rs). Base64, ed25519 and the JSON of
-- the payload are other crates' code and stand as parameters.
pub mod RoundTrip
use metrune.Prelude.{
  ℕ, Bool, true, false, Option, none, some, List, [], ◌∷◌, ◌==◌, if◌then◌else◌, length,
}
use metrune.Prelude.Text.{Text, trim}
use metrune.Release.Manifest.{ClientReleaseManifest, SignedFields, signed_fields}

pub record ReleaseKeys : Type 0 where
  pub decode : Text → Option Text
  pub encode : Text → Text
  -- the bytes of the verifying key of a signing key
  pub verifying_bytes : Text → Text
  -- `VerifyingKey::from_bytes` and `Signature::from_slice` accept the bytes
  pub is_verifying_key : Text → Bool
  pub is_signature : Text → Bool
  pub sign_bytes : Text → Text → Text
  pub verify_strict : Text → Text → Text → Bool
  pub payload : SignedFields → Option Text

pub data SignatureError : Type 0 where
  missing invalid_key invalid_signature unserializable mismatch : SignatureError

pub data Signed (A : Type 0) : Type 0 where
  signed : A → Signed A
  refused : SignatureError → Signed A

-- `try_into` at 32 bytes.
abbrev pub key_of : Option Text → Option Text
key_of none = none
key_of (some bytes) = if length bytes == 32 then some bytes else none

abbrev pub unsigned : ClientReleaseManifest → ClientReleaseManifest
unsigned manifest = record manifest { signature = none }

module _ (k : ReleaseKeys) where
  abbrev pub decoded_key : Text → Option Text
  decoded_key base64 = key_of (k.decode (trim base64))

  abbrev pub with_payload :
      Text → ClientReleaseManifest → Option Text → Signed ClientReleaseManifest
  with_payload signing_key unsigned none = refused unserializable
  with_payload signing_key unsigned (some payload) =
      signed (record unsigned { signature = some (k.encode (k.sign_bytes signing_key payload)) })

  abbrev pub with_signing_key : ClientReleaseManifest → Option Text → Signed ClientReleaseManifest
  with_signing_key manifest none = refused invalid_key
  with_signing_key manifest (some signing_key) =
      with_payload signing_key (unsigned manifest) (k.payload (signed_fields (unsigned manifest)))

  unfoldable pub sign : Text → ClientReleaseManifest → Signed ClientReleaseManifest
  sign signing_key_base64 manifest = with_signing_key manifest (decoded_key signing_key_base64)

  abbrev pub public_key_of : Option Text → Signed Text
  public_key_of none = refused invalid_key
  public_key_of (some signing_key) = signed (k.encode (k.verifying_bytes signing_key))

  unfoldable pub public_key_for : Text → Signed Text
  public_key_for signing_key_base64 = public_key_of (decoded_key signing_key_base64)

  -- The error, if there is one.
  abbrev pub check_payload : Text → Text → Option Text → Option SignatureError
  check_payload key signature none = some unserializable
  check_payload key signature (some payload) =
      if k.verify_strict key payload signature then none else some mismatch

  abbrev pub check_signature : Text → ClientReleaseManifest → Option Text → Option SignatureError
  check_signature key manifest none = some invalid_signature
  check_signature key manifest (some signature) =
      if k.is_signature signature
      then check_payload key signature (k.payload (signed_fields manifest))
      else some invalid_signature

  abbrev pub check_signed : Text → ClientReleaseManifest → Option Text → Option SignatureError
  check_signed key manifest none = some missing
  check_signed key manifest (some signature) =
      check_signature key manifest (k.decode (trim signature))

  abbrev pub check_key : ClientReleaseManifest → Option Text → Option SignatureError
  check_key manifest none = some invalid_key
  check_key manifest (some key) =
      if k.is_verifying_key key
      then check_signed key manifest manifest.signature
      else some invalid_key

  unfoldable pub verify_signature : Text → ClientReleaseManifest → Option SignatureError
  verify_signature public_key_base64 manifest = check_key manifest (decoded_key public_key_base64)
