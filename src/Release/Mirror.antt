-- ===== src/Release/Mirror.antt =====
-- The mirror of the client's release (crates/metrune-api/src/distribution.rs): the manifest that it
-- serves, and its downloads. The files of the machine are a parameter, each at its path.
pub mod Vouched
use metrune.Prelude.{
  ℕ, ◌*◌, Bool, true, false, not, ◌&&◌, ◌||◌, Option, none, some, List, [], ◌∷◌, ◌++◌, ltb, ◌==◌,
  if◌then◌else◌, map,
}
use metrune.Prelude.Text.{Text, codes, eq_ignore_ascii_case}
use metrune.Prelude.Order.{text_ord}
use metrune.Prelude.TreeMap.{TreeMap, get}
use metrune.Release.Manifest.{ReleaseArtifact, ClientReleaseManifest, mirror, artifact_named}
use metrune.Release.Validate.{Formats, ManifestError, validate}
use metrune.Release.Signing.{ReleaseKeys, SignatureError, verify_signature}

abbrev pub max_manifest_bytes : ℕ
max_manifest_bytes = 256 * 1024

abbrev pub max_artifact_bytes : ℕ
max_artifact_bytes = 256 * 1024 * 1024

-- What `tokio::fs` finds at a path; `contents` is `none` where the reading fails.
pub record FileEntry : Type 0 where
  pub is_file : Bool
  pub size : ℕ
  pub contents : Option Text

pub record ClientDistribution : Type 0 where
  pub manifest_path : Text
  pub download_dir : Text
  pub public_base_url : Option Text
  pub release_public_key : Option Text
  pub legacy_paths : TreeMap Text Text

-- `serde_json` on the manifest, `sha256_hex`, and `HeaderValue::from_str`.
pub record Server (V : Type 0) : Type 0 where
  pub formats : Formats V
  pub decode_manifest : Text → Option ClientReleaseManifest
  pub sha256_hex : Text → Text
  pub is_header : Text → Bool

pub data Refusal : Type 0 where
  no_manifest unusable_manifest unknown_artifact not_mirrored too_large digest_mismatch bad_header :
      Refusal
  no_public_key untrusted_manifest : Refusal

pub data Outcome (A : Type 0) : Type 0 where
  done : A → Outcome A
  refused : Refusal → Outcome A

-- `Path::join`
abbrev pub join_path : Text → Text → Text
join_path dir [] = dir ++ codes "/"
join_path dir (c ∷ name) = if c == b'/' then c ∷ name else dir ++ b'/' ∷ c ∷ name

unfoldable pub artifact_path : ClientDistribution → Text → Text
artifact_path d artifact = elim (get artifact d.legacy_paths) [
  | some path ↦ path
  | none ↦ join_path d.download_dir artifact
]

abbrev pub is_regular : Option FileEntry → Bool
is_regular none = false
is_regular (some entry) = entry.is_file

module _ (d : ClientDistribution) (files : Text → Option FileEntry) where
  abbrev pub mirrored : Text → Bool
  mirrored artifact = is_regular (files (artifact_path d artifact))

  abbrev pub mirror_at : Option Text → ReleaseArtifact → ReleaseArtifact
  mirror_at none entry = entry
  mirror_at (some base) entry =
      if mirrored entry.artifact
      then record entry {
        url = base ++ (codes "/v1/downloads/" ++ entry.artifact);
        source = mirror;
      }
      else entry

  -- The loop that rewrites the artifacts of the manifest.
  unfoldable pub rewrite : ClientReleaseManifest → ClientReleaseManifest
  rewrite m = record m { artifacts = map (mirror_at d.public_base_url) m.artifacts }

  module _ {V : Type 0} (s : Server V) where
    abbrev accept_manifest : Option ClientReleaseManifest → Outcome ClientReleaseManifest
    accept_manifest none = refused unusable_manifest
    accept_manifest (some m) = elim (validate s.formats m) [
      | none ↦ done (rewrite m)
      | some error ↦ refused unusable_manifest
    ]

    abbrev read_manifest : Option Text → Outcome ClientReleaseManifest
    read_manifest none = refused unusable_manifest
    read_manifest (some raw) = accept_manifest (s.decode_manifest raw)

    abbrev load_manifest : Option FileEntry → Outcome ClientReleaseManifest
    load_manifest none = refused no_manifest
    load_manifest (some entry) =
        if ltb max_manifest_bytes entry.size
        then refused unusable_manifest
        else read_manifest entry.contents

    -- `ClientDistribution::manifest`
    unfoldable pub served_manifest : Outcome ClientReleaseManifest
    served_manifest = load_manifest (files d.manifest_path)
