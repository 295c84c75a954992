-- ===== src/Release/Download/Digest.antt =====
-- The digest of a download (crates/metrune-api/src/distribution.rs).
use metrune.Prelude.{
  ◌≤◌, ◌≡◌, refl, sym, ap, ◌∙◌, true, not, Option, none, some, arith, Bool-cases, inl, inr, ltb,
  if◌then◌else◌,
}
use metrune.Prelude.Text.{Text, eq_ignore_ascii_case}
use metrune.Release.Manifest.{ReleaseArtifact, ClientReleaseManifest, artifact_named}
use metrune.Release.Mirror.{
  FileEntry, ClientDistribution, Server, Outcome, done, refused, unknown_artifact, too_large,
  max_artifact_bytes, artifact_path, served_manifest,
}
use metrune.Release.Mirror.Vouched.{done_injective}
use metrune.Release.Download.{
  Download, and_done, disposition, digest_header, deliver, read_binary, open_artifact,
  download_entry, download_client,
}

and_done-step :
    {A B : Type 0} (p : Outcome A) (f : A → Outcome B) (b : B)
    → and_done p f ≡ done b
    → (a : A) × (p ≡ done a) × (f a ≡ done b)
and_done-step (done a) f b h = (a, refl, h)
and_done-step (refused r) f b h = absurd (ground (arith, h))

module _ {V : Type 0} (s : Server V) where
  -- The bytes have the digest of the entry, and are those of a file within the limit.
  abbrev pub IsVouched : ReleaseArtifact → Option FileEntry → Download → Type 0
  IsVouched entry found file =
      (eq_ignore_ascii_case (s.sha256_hex file.binary) entry.sha256 ≡ true)
      × (file.repr_digest ≡ digest_header entry)
      × ((stored : FileEntry) × (found ≡ some stored)
          × (stored.size ≤ max_artifact_bytes)
          × (stored.contents ≡ some file.binary))

  deliver-digest :
      (entry : ReleaseArtifact) (binary : Text) (file : Download)
      → deliver s entry binary ≡ done file
      → (eq_ignore_ascii_case (s.sha256_hex binary) entry.sha256 ≡ true)
        × (done file
            ≡ done (record {
              content_disposition = disposition entry;
              repr_digest = digest_header entry;
              binary = binary;
            }))
  unfolding deliver
  deliver-digest entry binary file h =
      elim (Bool-cases (eq_ignore_ascii_case (s.sha256_hex binary) entry.sha256)) [
        | inr e ↦ absurd (ground (arith, e, h))
        | inl e ↦ elim (Bool-cases (s.is_header (disposition entry))) [
          | inr e' ↦ absurd (ground (arith, e, e', h))
          | inl e' ↦ elim (Bool-cases (s.is_header (digest_header entry))) [
            | inr e'' ↦ absurd (ground (arith, e, e', e'', h))
            | inl e'' ↦ (e, ground (arith, e, e', e'', h))
          ]
        ]
      ]

  IsVouched-contents :
      (entry : ReleaseArtifact) (stored : FileEntry) (contents : Option Text) (file : Download)
      → stored.contents ≡ contents
      → stored.size ≤ max_artifact_bytes
      → read_binary s entry contents ≡ done file
      → IsVouched entry (some stored) file
  IsVouched-contents entry stored none file read small h = absurd (ground (arith, h))
  IsVouched-contents entry stored (some binary) file read small h =
      let (digest, made) = deliver-digest entry binary file h in
      let same =
        done_injective file
          (record {
            content_disposition = disposition entry;
            repr_digest = digest_header entry;
            binary = binary;
          })
          made in
      let bytes = ap (λ x. x.binary) same in
      (
        ap (λ x. eq_ignore_ascii_case (s.sha256_hex x) entry.sha256) bytes ∙ digest,
        ap (λ x. x.repr_digest) same,
        (stored, refl, small, read ∙ ap some (sym bytes)),
      )

  IsVouched-found :
      (entry : ReleaseArtifact) (found : Option FileEntry) (file : Download)
      → open_artifact s entry found ≡ done file
      → IsVouched entry found file
  IsVouched-found entry none file h = absurd (ground (arith, h))
  IsVouched-found entry (some stored) file h = elim (Bool-cases stored.is_file) [
    | inr e ↦ absurd (ground (arith, e, h))
    | inl e ↦ elim (Bool-cases (ltb max_artifact_bytes stored.size)) [
      | inl e' ↦ absurd (ground (arith, e, e', h))
      | inr e' ↦ IsVouched-contents entry stored stored.contents file refl (ground (arith, e')) (
          sym (
            ap
              (λ b.
                if not b
                then refused unknown_artifact
                else (if ltb max_artifact_bytes stored.size
                    then refused too_large
                    else read_binary s entry stored.contents))
              e
            ∙ ap (λ b. if b then refused too_large else read_binary s entry stored.contents) e')
          ∙ h)
    ]
  ]

  module _ (d : ClientDistribution) (files : Text → Option FileEntry) where
    -- Of the entry with the name, in the manifest that is served.
    abbrev pub IsServed : Text → Download → Type 0
    IsServed artifact file =
        (m : ClientReleaseManifest) × (entry : ReleaseArtifact) × (served_manifest d files s
          ≡ done m)
        × (artifact_named m artifact ≡ some entry)
        × IsVouched entry (files (artifact_path d entry.artifact)) file

    -- What `download_client` answers with is the content of a file of at most 256 MiB, which has the
    -- digest that the served manifest gives for the name that was asked for.
    pub download_client-IsServed :
        (artifact : Text) (file : Download)
        → download_client s d files artifact ≡ done file
        → IsServed artifact file
    unfolding download_client
    download_client-IsServed artifact file h =
        let (m, served, k) =
          and_done-step (served_manifest d files s)
            (λ manifest. download_entry s d files (artifact_named manifest artifact)) file h in
        found m served (artifact_named m artifact) refl k
      where
        found :
            (m : ClientReleaseManifest)
            → served_manifest d files s ≡ done m
            → (entry : Option ReleaseArtifact) → artifact_named m artifact ≡ entry
            → download_entry s d files entry ≡ done file
            → IsServed artifact file
        found m served none named k = absurd (ground (arith, k))
        found m served (some entry) named k = (
          m,
          entry,
          served,
          named,
          IsVouched-found entry (files (artifact_path d entry.artifact)) file k,
        )
