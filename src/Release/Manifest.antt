-- ===== src/Release/Manifest.antt =====
-- The release manifest (crates/metrune-core/src/release.rs): its data, its lookups, and how the
-- release pipeline builds it.
use metrune.Prelude.{ℕ, Option, none, some, List, [], ◌∷◌, ◌++◌, ◌==◌, map, find_first}
use metrune.Prelude.Text.{Text, codes, text_eq, to_ascii_lowercase, trim_end_by}
use metrune.Prelude.Order.{text_ord}
use metrune.Prelude.TreeMap.{TreeMap, get}

abbrev pub manifest_schema_version : ℕ
manifest_schema_version = 1

pub data ArtifactSource : Type 0 where
  mirror upstream : ArtifactSource

pub data SupportTier : Type 0 where
  supported experimental : SupportTier

pub record ReleaseArtifact : Type 0 where
  pub target : Text
  pub artifact : Text
  pub sha256 : Text
  pub tier : SupportTier
  pub url : Text
  pub source : ArtifactSource

pub record ClientReleaseManifest : Type 0 where
  pub schema_version : ℕ
  pub version : Text
  pub minimum_version : Text
  pub released_at : Text
  pub upstream_base_url : Text
  pub artifacts : List ReleaseArtifact
  pub signature : Option Text

abbrev pub artifact_for : ClientReleaseManifest → Text → Option ReleaseArtifact
artifact_for manifest target = find_first (λ entry. text_eq entry.target target) manifest.artifacts

abbrev pub artifact_named : ClientReleaseManifest → Text → Option ReleaseArtifact
artifact_named manifest artifact =
    find_first (λ entry. text_eq entry.artifact artifact) manifest.artifacts

pub record SignedArtifact : Type 0 where
  pub target : Text
  pub artifact : Text
  pub sha256 : Text
  pub tier : SupportTier

pub record SignedFields : Type 0 where
  pub schema_version : ℕ
  pub version : Text
  pub minimum_version : Text
  pub released_at : Text
  pub upstream_base_url : Text
  pub artifacts : List SignedArtifact

abbrev pub signed_artifact : ReleaseArtifact → SignedArtifact
signed_artifact entry = record {
  target = entry.target;
  artifact = entry.artifact;
  sha256 = entry.sha256;
  tier = entry.tier;
}

-- What `signing_payload` serializes.
unfoldable pub signed_fields : ClientReleaseManifest → SignedFields
signed_fields manifest = record {
  schema_version = manifest.schema_version;
  version = manifest.version;
  minimum_version = manifest.minimum_version;
  released_at = manifest.released_at;
  upstream_base_url = manifest.upstream_base_url;
  artifacts = map signed_artifact manifest.artifacts;
}

abbrev pub published_targets : List (Text × Text × SupportTier)
published_targets =
    (codes "linux-x86_64", codes "metrune-linux-x86_64", supported)
    ∷ (codes "windows-x86_64", codes "metrune-windows-x86_64.exe", experimental)
    ∷ (codes "macos-x86_64", codes "metrune-macos-x86_64", experimental)
    ∷ (codes "macos-arm64", codes "metrune-macos-arm64", experimental)
    ∷ []

abbrev pub upstream_artifact : Text → Text × Text × SupportTier → Text → ReleaseArtifact
upstream_artifact base (target, artifact, tier) sha256 = record {
  target = target;
  artifact = artifact;
  sha256 = to_ascii_lowercase sha256;
  tier = tier;
  url = base ++ b'/' ∷ artifact;
  source = upstream;
}

-- The `filter_map` over the published targets.
unfoldable pub published_artifacts :
    Text → TreeMap Text Text → List (Text × Text × SupportTier) → List ReleaseArtifact
published_artifacts base digests [] = []
published_artifacts base digests (entry ∷ entries) =
    let rest = published_artifacts base digests entries in
    elim (get entry.1 digests) [
      | none ↦ rest
      | some sha256 ↦ upstream_artifact base entry sha256 ∷ rest
    ]

unfoldable pub upstream_manifest :
    Text → Text → Text → Text → TreeMap Text Text → ClientReleaseManifest
upstream_manifest version minimum_version released_at upstream_base_url digests =
    let base = trim_end_by (λ c. c == b'/') upstream_base_url in
    record {
      schema_version = manifest_schema_version;
      version = version;
      minimum_version = minimum_version;
      released_at = released_at;
      upstream_base_url = base;
      artifacts = published_artifacts base digests published_targets;
      signature = none;
    }
