-- ===== src/Release/Signing/RoundTrip.antt =====
-- Signing and verifying the manifest (crates/metrune-core/src/release.rs).
use metrune.Prelude.{◌≡◌, refl, sym, ap, ◌∙◌, true, Option, none, some, arith, length}
use metrune.Prelude.Text.{Text, trim}
use metrune.Release.Manifest.{ClientReleaseManifest, signed_fields}
use metrune.Release.Signing.{
  ReleaseKeys, Signed, signed, refused, decoded_key, with_payload, unsigned, with_signing_key,
  public_key_of, sign, public_key_for, verify_signature,
}

-- What the crates `base64` and `ed25519-dalek` promise.
pub record KeyLaws (k : ReleaseKeys) : Type 0 where
  pub decode-encode : (bytes : Text) → k.decode (trim (k.encode bytes)) ≡ some bytes
  pub length-verifying_bytes : (key : Text) → length (k.verifying_bytes key) ≡ 32
  pub verifying_key_is_valid : (key : Text) → k.is_verifying_key (k.verifying_bytes key) ≡ true
  pub signature_is_valid : (key payload : Text) → k.is_signature (k.sign_bytes key payload) ≡ true
  pub verify-sign :
      (key payload : Text)
      → k.verify_strict (k.verifying_bytes key) payload (k.sign_bytes key payload) ≡ true

abbrev value_or : {A : Type 0} → A → Signed A → A
value_or a (signed b) = b
value_or a (refused e) = a

signed_injective : {A : Type 0} (a b : A) → signed a ≡ signed b → a ≡ b
signed_injective a b h = ap (value_or a) h

module _ (k : ReleaseKeys) where
  -- The signature of the manifest is that of its payload under the key.
  abbrev IsSignedBy : Text → ClientReleaseManifest → Type 0
  IsSignedBy key manifest =
      (payload : Text) × (k.payload (signed_fields manifest) ≡ some payload)
      × (manifest.signature ≡ some (k.encode (k.sign_bytes key payload)))

  with_payload-IsSignedBy :
      (key : Text) (manifest done : ClientReleaseManifest) (payload : Option Text)
      → k.payload (signed_fields manifest) ≡ payload
      → with_payload k key manifest payload ≡ signed done
      → IsSignedBy key done
  unfolding signed_fields
  with_payload-IsSignedBy key manifest done none made h = absurd (ground (arith, h))
  with_payload-IsSignedBy key manifest done (some payload) made h =
      let same =
        signed_injective
          (record manifest { signature = some (k.encode (k.sign_bytes key payload)) }) done h in
      (
        payload,
        ap (λ m. k.payload (signed_fields m)) (sym same) ∙ made,
        ap (λ m. m.signature) (sym same),
      )

  sign-IsSignedBy :
      (manifest done : ClientReleaseManifest) (key : Option Text) (public_key : Text)
      → with_signing_key k manifest key ≡ signed done
      → public_key_of k key ≡ signed public_key
      → (signing_key : Text) × (public_key ≡ k.encode (k.verifying_bytes signing_key))
        × IsSignedBy signing_key done
  sign-IsSignedBy manifest done none public_key h p = absurd (ground (arith, h))
  sign-IsSignedBy manifest done (some key) public_key h p = (
    key,
    sym (signed_injective (k.encode (k.verifying_bytes key)) public_key p),
    with_payload-IsSignedBy key (unsigned manifest) done
        (k.payload (signed_fields (unsigned manifest))) refl h,
  )

module _ (k : ReleaseKeys) (laws : KeyLaws k) where
  verify_signature_of_IsSignedBy :
      (key : Text) (manifest : ClientReleaseManifest)
      → IsSignedBy k key manifest
      → verify_signature k (k.encode (k.verifying_bytes key)) manifest ≡ none
  unfolding verify_signature signed_fields
  verify_signature_of_IsSignedBy key manifest made =
      let (payload, read, stored) = made in
      let bytes = k.verifying_bytes key in
      let signature = k.sign_bytes key payload in
      rw
        (
          laws.decode-encode bytes,
          laws.length-verifying_bytes key,
          laws.verifying_key_is_valid key,
          stored,
          laws.decode-encode signature,
          laws.signature_is_valid key payload,
          read,
          laws.verify-sign key payload,
        )
        refl

  -- Where base64 and ed25519 keep their laws, a manifest that `sign` signs verifies under the key
  -- that `public_key_for` gives for the signing key, and so does any manifest with the same signed
  -- fields and the same signature.
  pub verify_signature-sign :
      (signing_key public_key : Text) (manifest done other : ClientReleaseManifest)
      → sign k signing_key manifest ≡ signed done
      → public_key_for k signing_key ≡ signed public_key
      → signed_fields other ≡ signed_fields done
      → other.signature ≡ done.signature
      → verify_signature k public_key other ≡ none
  unfolding sign public_key_for
  verify_signature-sign signing_key public_key manifest done other h p fields same =
      let (key, named, made) =
        sign-IsSignedBy k manifest done (decoded_key k signing_key) public_key h p in
      let (payload, read, stored) = made in
      ap (λ x. verify_signature k x other) named
      ∙ verify_signature_of_IsSignedBy key other
          (payload, ap k.payload fields ∙ read, same ∙ stored)
