-- ===== src/Release/Mirror/Vouched.antt =====
-- The manifest and the bytes that the mirror serves (crates/metrune-api/src/distribution.rs).
use metrune.Prelude.{
  ◌≤◌, ◌≡◌, false, refl, sym, ap, ◌∙◌, Option, none, some, List, [], ◌∷◌, arith, map, Option-cases,
  Bool-cases, inl, inr, ltb, if◌then◌else◌,
}
use metrune.Prelude.Text.{Text}
use metrune.Release.Manifest.{
  ReleaseArtifact, ClientReleaseManifest, signed_artifact, signed_fields,
}
use metrune.Release.Validate.{validate}
use metrune.Release.Signing.{ReleaseKeys, signed, sign, public_key_for, verify_signature}
use metrune.Release.Signing.RoundTrip.{KeyLaws, verify_signature-sign}
use metrune.Release.Mirror.{
  FileEntry, ClientDistribution, Server, Outcome, done, refused, unusable_manifest,
  max_manifest_bytes, mirror_at, mirrored, rewrite, accept_manifest, read_manifest, load_manifest,
  served_manifest,
}

abbrev outcome_or : {A : Type 0} → A → Outcome A → A
outcome_or a (done b) = b
outcome_or a (refused r) = a

pub done_injective : {A : Type 0} (a b : A) → done a ≡ done b → a ≡ b
done_injective a b h = ap (outcome_or a) h

module _ (d : ClientDistribution) (files : Text → Option FileEntry) where
  signed-mirror_at :
      (base : Option Text) (entry : ReleaseArtifact)
      → signed_artifact (mirror_at d files base entry) ≡ signed_artifact entry
  signed-mirror_at none entry = refl
  signed-mirror_at (some base) entry = elim (Bool-cases (mirrored d files entry.artifact)) [
    | inl e ↦ rw e refl
    | inr e ↦ rw e refl
  ]

  signed-artifacts :
      (base : Option Text) (entries : List ReleaseArtifact)
      → map signed_artifact (map (mirror_at d files base) entries) ≡ map signed_artifact entries
  signed-artifacts base [] = refl
  signed-artifacts base (entry ∷ entries) =
      λ i. signed-mirror_at base entry i ∷ signed-artifacts base entries i

  signed_fields-rewrite :
      (m : ClientReleaseManifest) → signed_fields (rewrite d files m) ≡ signed_fields m
  unfolding rewrite signed_fields
  signed_fields-rewrite m =
      ap
        (λ artifacts. record {
          schema_version = m.schema_version;
          version = m.version;
          minimum_version = m.minimum_version;
          released_at = m.released_at;
          upstream_base_url = m.upstream_base_url;
          artifacts = artifacts;
        })
        (signed-artifacts d.public_base_url m.artifacts)

  module _ {V : Type 0} (s : Server V) where
    -- The manifest is the published one but for its URLs and sources: the text decodes to it, it is
    -- valid, and it has the same signed fields and the same signature.
    abbrev IsOf : Text → ClientReleaseManifest → Type 0
    IsOf raw m =
        (published : ClientReleaseManifest) × (s.decode_manifest raw ≡ some published)
        × (validate s.formats published ≡ none)
        × (signed_fields m ≡ signed_fields published)
        × (m.signature ≡ published.signature)

    -- It is of the text of the file at the path of the manifest, which is within the size limit.
    abbrev pub IsPublished : ClientReleaseManifest → Type 0
    IsPublished m =
        (file : FileEntry) × (raw : Text) × (files d.manifest_path ≡ some file)
        × (file.size ≤ max_manifest_bytes)
        × (file.contents ≡ some raw)
        × IsOf raw m

    IsOf-accepted :
        (raw : Text) (published m : ClientReleaseManifest)
        → s.decode_manifest raw ≡ some published
        → accept_manifest d files s (some published) ≡ done m
        → IsOf raw m
    unfolding rewrite
    IsOf-accepted raw published m read h = elim (Option-cases (validate s.formats published)) [
      | inl e ↦
          let same : rewrite d files published ≡ m =
            done_injective (rewrite d files published) m (ground (arith, e, h)) in
          (
            published,
            read,
            e,
            ap signed_fields (sym same) ∙ signed_fields-rewrite published,
            ap (λ x. x.signature) (sym same),
          )
      | inr (error, e) ↦ absurd (ground (arith, e, h))
    ]

    IsOf-read :
        (raw : Text) (decoded : Option ClientReleaseManifest) (m : ClientReleaseManifest)
        → s.decode_manifest raw ≡ decoded
        → accept_manifest d files s decoded ≡ done m
        → IsOf raw m
    IsOf-read raw none m read h = absurd (ground (arith, h))
    IsOf-read raw (some published) m read h = IsOf-accepted raw published m read h

    IsPublished-contents :
        (file : FileEntry) (contents : Option Text) (m : ClientReleaseManifest)
        → files d.manifest_path ≡ some file
        → ltb max_manifest_bytes file.size ≡ false
        → file.contents ≡ contents
        → read_manifest d files s contents ≡ done m
        → IsPublished m
    IsPublished-contents file none m found small held h = absurd (ground (arith, h))
    IsPublished-contents file (some raw) m found small held h = (
      file,
      raw,
      found,
      ground (arith, small),
      held,
      IsOf-read raw (s.decode_manifest raw) m refl h,
    )

    IsPublished-loaded :
        (file : Option FileEntry) (m : ClientReleaseManifest)
        → files d.manifest_path ≡ file
        → load_manifest d files s file ≡ done m
        → IsPublished m
    IsPublished-loaded none m found h = absurd (ground (arith, h))
    IsPublished-loaded (some file) m found h =
        elim (Bool-cases (ltb max_manifest_bytes file.size)) [
          | inl e ↦ absurd (ground (arith, e, h))
          | inr e ↦ IsPublished-contents file file.contents m found e refl (
              sym (
                ap
                  (λ b.
                    if b then refused unusable_manifest else read_manifest d files s file.contents)
                  e)
              ∙ h)
        ]

    -- A manifest that the mirror serves is the one in the file at the mirror's manifest path, with
    -- other URLs and sources at most: that file is within the size limit, and what it decodes to is
    -- valid.
    pub served_manifest-IsPublished :
        (m : ClientReleaseManifest) → served_manifest d files s ≡ done m → IsPublished m
    unfolding served_manifest
    served_manifest-IsPublished m h = IsPublished-loaded (files d.manifest_path) m refl h

    -- Where base64 and ed25519 keep their laws, and the file at the manifest path decodes to nothing
    -- but the manifest that the release key signed, the manifest that the mirror serves verifies under
    -- that key.
    served_manifest-verifies :
        (k : ReleaseKeys) (laws : KeyLaws k) (signing_key public_key : Text)
        (manifest released m : ClientReleaseManifest)
        → sign k signing_key manifest ≡ signed released
        → public_key_for k signing_key ≡ signed public_key
        → ((file : FileEntry) (raw : Text) (decoded : ClientReleaseManifest)
            → files d.manifest_path ≡ some file
            → file.contents ≡ some raw
            → s.decode_manifest raw ≡ some decoded
            → decoded ≡ released)
        → served_manifest d files s ≡ done m
        → verify_signature k public_key m ≡ none
    served_manifest-verifies k laws signing_key public_key manifest released m made key only h =
        let (file, raw, found, small, held, (published, read, valid, fields, same)) =
          served_manifest-IsPublished m h in
        let released_one = only file raw published found held read in
        verify_signature-sign k laws signing_key public_key manifest released m made key
          (fields ∙ ap signed_fields released_one) (same ∙ ap (λ x. x.signature) released_one)
