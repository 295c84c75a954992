-- ===== src/Release/Validate.antt =====
-- `ClientReleaseManifest::validate` (crates/metrune-core/src/release.rs). The crates `url` and
-- `chrono` are parameters.
pub mod Allowlist
use metrune.Prelude.{
  ℕ, Bool, true, false, not, ◌&&◌, ◌||◌, Option, none, some, List, [], ◌∷◌, ltb, leb, ◌==◌,
  if◌then◌else◌, any, all, is_empty, map,
}
use metrune.Prelude.Text.{Text, codes, text_eq, len, is_whitespace}
use metrune.Ingest.Versions.{Semver, parsed_version}
use metrune.Release.Manifest.{
  ReleaseArtifact, ClientReleaseManifest, manifest_schema_version, published_targets,
}

-- What the code asks of a `Url`.
pub record Url : Type 0 where
  pub scheme : Text
  pub host_str : Option Text
  pub username : Text
  pub password : Option Text
  pub fragment : Option Text

pub record Formats (V : Type 0) : Type 0 where
  pub semver : Semver V
  pub parse_url : Text → Option Url
  pub is_rfc3339 : Text → Bool

pub data ManifestError : Type 0 where
  unsupported_schema : ℕ → ManifestError
  invalid_version : Text → ManifestError
  minimum_after_release : Text → Text → ManifestError
  empty_artifacts invalid_upstream_url invalid_release_timestamp : ManifestError
  duplicate_target duplicate_artifact unknown_target unsafe_artifact invalid_digest insecure_url :
      Text → ManifestError

abbrev pub is_present : Option Text → Bool
is_present none = false
is_present (some t) = true

abbrev is_https : Option Url → Bool
is_https none = false
is_https (some url) =
    text_eq url.scheme (codes "https")
    && is_present url.host_str
    && is_empty url.username
    && not (is_present url.password)

abbrev pub is_local_host : Option Text → Bool
is_local_host none = false
is_local_host (some host) =
    any (text_eq host) (codes "localhost" ∷ codes "127.0.0.1" ∷ codes "::1" ∷ codes "[::1]" ∷ [])

abbrev pub has_safe_authority : Url → Bool
has_safe_authority url =
    is_present url.host_str
    && is_empty url.username
    && not (is_present url.password)
    && not (is_present url.fragment)

abbrev pub is_secure : Option Url → Bool
is_secure none = false
is_secure (some url) =
    has_safe_authority url
    && (text_eq url.scheme (codes "https")
        || text_eq url.scheme (codes "http") && is_local_host url.host_str)

abbrev pub is_digest_char : ℕ → Bool
is_digest_char c = leb b'0' c && leb c b'9' || leb b'a' c && leb c b'f'

abbrev pub is_unsafe_name : Text → Bool
is_unsafe_name name =
    is_empty name
    || text_eq name (codes ".")
    || text_eq name (codes "..")
    || any (λ c. c == b'/') name
    || any (λ c. c == b'\\') name
    || any (λ c. c == 0) name
    || any is_whitespace name

abbrev pub is_known_target : Text → Bool
is_known_target target = any (λ entry. text_eq entry.0 target) published_targets

-- The early returns in a row: the first test that holds gives the error.
abbrev pub first_failure : List (Bool × ManifestError) → Option ManifestError → Option ManifestError
first_failure [] rest = rest
first_failure ((bad, error) ∷ checks) rest = if bad then some error else first_failure checks rest

module _ {V : Type 0} (f : Formats V) where
  abbrev pub is_https_url : Text → Bool
  is_https_url value = is_https (f.parse_url value)

  abbrev pub is_secure_download_url : Text → Bool
  is_secure_download_url value = is_secure (f.parse_url value)

  -- The tests of an entry, with the targets and the names that were seen before it.
  abbrev pub entry_checks : List Text → List Text → ReleaseArtifact → List (Bool × ManifestError)
  entry_checks targets artifacts entry =
      (not (is_known_target entry.target), unknown_target entry.target)
      ∷ (any (text_eq entry.target) targets, duplicate_target entry.target)
      ∷ (any (text_eq entry.artifact) artifacts, duplicate_artifact entry.artifact)
      ∷ (is_unsafe_name entry.artifact, unsafe_artifact entry.artifact)
      ∷ (
        not (len entry.sha256 == 64) || not (all is_digest_char entry.sha256),
        invalid_digest entry.artifact,
      )
      ∷ (not (is_secure_download_url entry.url), insecure_url entry.artifact)
      ∷ []

  unfoldable pub check_artifacts :
      List Text → List Text → List ReleaseArtifact → Option ManifestError
  check_artifacts targets artifacts [] = none
  check_artifacts targets artifacts (entry ∷ entries) =
      first_failure (entry_checks targets artifacts entry)
        (check_artifacts (entry.target ∷ targets) (entry.artifact ∷ artifacts) entries)

  abbrev pub content_checks : ClientReleaseManifest → List (Bool × ManifestError)
  content_checks manifest =
      (not (f.is_rfc3339 manifest.released_at), invalid_release_timestamp)
      ∷ (not (is_https_url manifest.upstream_base_url), invalid_upstream_url)
      ∷ (is_empty manifest.artifacts, empty_artifacts)
      ∷ []

  abbrev pub check_minimum : ClientReleaseManifest → V → Option V → Option ManifestError
  check_minimum manifest version none = some (invalid_version manifest.minimum_version)
  check_minimum manifest version (some minimum) =
      first_failure
        ((
          f.semver.is_less version minimum,
          minimum_after_release manifest.minimum_version manifest.version,
        )
          ∷ content_checks manifest)
        (check_artifacts [] [] manifest.artifacts)

  abbrev pub check_version : ClientReleaseManifest → Option V → Option ManifestError
  check_version manifest none = some (invalid_version manifest.version)
  check_version manifest (some version) =
      check_minimum manifest version (parsed_version f.semver manifest.minimum_version)

  -- The error, if there is one.
  unfoldable pub validate : ClientReleaseManifest → Option ManifestError
  validate manifest =
      if manifest.schema_version == manifest_schema_version
      then check_version manifest (parsed_version f.semver manifest.version)
      else some (unsupported_schema manifest.schema_version)
