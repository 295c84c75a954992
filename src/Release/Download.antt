-- ===== src/Release/Download.antt =====
-- `download_client` and the check of `install_script` (crates/metrune-api/src/distribution.rs).
pub mod Digest
use metrune.Prelude.{
  ℕ, Bool, true, false, not, Option, none, some, List, [], ◌∷◌, ◌++◌, ltb, if◌then◌else◌,
}
use metrune.Prelude.Text.{Text, codes, eq_ignore_ascii_case}
use metrune.Release.Manifest.{ReleaseArtifact, ClientReleaseManifest, artifact_named}
use metrune.Release.Signing.{ReleaseKeys, SignatureError, verify_signature}
use metrune.Release.Mirror.{
  FileEntry, ClientDistribution, Server, Outcome, done, refused, unknown_artifact, not_mirrored,
  too_large, digest_mismatch, bad_header, no_public_key, untrusted_manifest, max_artifact_bytes,
  artifact_path, served_manifest,
}

pub record Download : Type 0 where
  pub content_disposition : Text
  pub repr_digest : Text
  pub binary : Text

-- The `?` operator.
abbrev pub and_done : {A B : Type 0} → Outcome A → (A → Outcome B) → Outcome B
and_done (done a) f = f a
and_done (refused r) f = refused r

abbrev pub disposition : ReleaseArtifact → Text
disposition entry = codes "attachment; filename=\"" ++ (entry.artifact ++ codes "\"")

abbrev pub digest_header : ReleaseArtifact → Text
digest_header entry = codes "sha-256=:" ++ (entry.sha256 ++ codes ":")

module _ {V : Type 0} (s : Server V) where
  unfoldable pub deliver : ReleaseArtifact → Text → Outcome Download
  deliver entry binary =
      if not (eq_ignore_ascii_case (s.sha256_hex binary) entry.sha256)
      then refused digest_mismatch
      else if not (s.is_header (disposition entry))
      then refused bad_header
      else if not (s.is_header (digest_header entry))
      then refused bad_header
      else done (record {
        content_disposition = disposition entry;
        repr_digest = digest_header entry;
        binary = binary;
      })

  abbrev pub read_binary : ReleaseArtifact → Option Text → Outcome Download
  read_binary entry none = refused not_mirrored
  read_binary entry (some binary) = deliver entry binary

  abbrev pub open_artifact : ReleaseArtifact → Option FileEntry → Outcome Download
  open_artifact entry none = refused not_mirrored
  open_artifact entry (some file) =
      if not file.is_file
      then refused unknown_artifact
      else if ltb max_artifact_bytes file.size
      then refused too_large
      else read_binary entry file.contents

  abbrev pub download_entry :
      ClientDistribution → (Text → Option FileEntry) → Option ReleaseArtifact → Outcome Download
  download_entry d files none = refused unknown_artifact
  download_entry d files (some entry) = open_artifact entry (files (artifact_path d entry.artifact))

  unfoldable pub download_client :
      ClientDistribution → (Text → Option FileEntry) → Text → Outcome Download
  download_client d files artifact =
      and_done (served_manifest d files s)
        (λ manifest. download_entry d files (artifact_named manifest artifact))

  abbrev pub trust : ClientReleaseManifest → Option SignatureError → Outcome ClientReleaseManifest
  trust manifest none = done manifest
  trust manifest (some error) = refused untrusted_manifest

  abbrev pub check_release_key :
      ReleaseKeys → Option Text → ClientReleaseManifest → Outcome ClientReleaseManifest
  check_release_key k none manifest = refused no_public_key
  check_release_key k (some public_key) manifest =
      trust manifest (verify_signature k public_key manifest)

  -- The manifest that `install_script` renders.
  unfoldable pub installable_manifest :
      ReleaseKeys → ClientDistribution → (Text → Option FileEntry) → Outcome ClientReleaseManifest
  installable_manifest k d files =
      and_done (served_manifest d files s) (check_release_key k d.release_public_key)
