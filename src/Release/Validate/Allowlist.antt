-- ===== src/Release/Validate/Allowlist.antt =====
-- The manifests that `validate` accepts (crates/metrune-core/src/release.rs).
use metrune.Prelude.{
  ℕ, ◌≡◌, refl, sym, ap, ◌∙◌, Bool, true, false, not, ◌||◌, Option, none, some, List, [], ◌∷◌,
  arith, any, all, All, map, ◌==◌, is_empty, Bool-cases, if◌then◌else◌, inl, inr,
}
use metrune.Prelude.Text.{Text, text_eq, len}
use metrune.Ingest.Versions.{parsed_version}
use metrune.Release.Manifest.{ReleaseArtifact, ClientReleaseManifest, manifest_schema_version}
use metrune.Release.Validate.{
  Formats, ManifestError, is_digest_char, is_unsafe_name, is_known_target, first_failure,
  entry_checks, content_checks, is_https_url, is_secure_download_url, check_artifacts,
  check_minimum, check_version, minimum_after_release, unsupported_schema, validate,
}

-- No two texts of the list are the same.
abbrev pub Distinct : List Text → Type 0
Distinct [] = Unit
Distinct (t ∷ ts) = All (λ s. text_eq s t ≡ false) ts × Distinct ts

-- None of the texts has been seen.
abbrev Unseen : List Text → List Text → Type 0
Unseen seen ts = All (λ t. any (text_eq t) seen ≡ false) ts

Unseen-split :
    (s : Text) (seen ts : List Text)
    → Unseen (s ∷ seen) ts
    → All (λ t. text_eq t s ≡ false) ts × Unseen seen ts
Unseen-split s seen [] u = (tt, tt)
Unseen-split s seen (t ∷ ts) u =
    let (apart, rest) = Unseen-split s seen ts u.1 in
    ((ground (arith, u.0), apart), (ground (arith, u.0), rest))

holds_of_not : (b : Bool) → not b ≡ false → b ≡ true
holds_of_not b h = ground (arith, h)

digest_tests : (n : ℕ) (b : Bool) → not (n == 64) || not b ≡ false → (n ≡ 64) × (b ≡ true)
digest_tests n b h = ground (arith, h)

eq_of_test : (m n : ℕ) → (m == n) ≡ true → m ≡ n
eq_of_test m n h = ground (arith, h)

first_failure-passes :
    (checks : List (Bool × ManifestError)) (rest : Option ManifestError)
    → first_failure checks rest ≡ none
    → All (λ c. c.0 ≡ false) checks × (rest ≡ none)
first_failure-passes [] rest h = (tt, h)
first_failure-passes ((true, error) ∷ checks) rest h = absurd (ground (arith, h))
first_failure-passes ((false, error) ∷ checks) rest h =
    let (all, passed) = first_failure-passes checks rest h in ((refl, all), passed)

module _ {V : Type 0} (f : Formats V) where
  -- An entry of a published target, with a plain file name, a digest of 64 lowercase hexadecimal
  -- digits, and a URL of HTTPS or of the local host.
  abbrev pub IsAllowed : ReleaseArtifact → Type 0
  IsAllowed entry =
      (is_known_target entry.target ≡ true)
      × (is_unsafe_name entry.artifact ≡ false)
      × (len entry.sha256 ≡ 64)
      × (all is_digest_char entry.sha256 ≡ true)
      × (is_secure_download_url f entry.url ≡ true)

  check_artifacts-passes :
      (targets names : List Text) (entries : List ReleaseArtifact)
      → check_artifacts f targets names entries ≡ none
      → All IsAllowed entries
        × (Unseen targets (map (λ entry. entry.target) entries)
            × Distinct (map (λ entry. entry.target) entries))
        × (Unseen names (map (λ entry. entry.artifact) entries)
            × Distinct (map (λ entry. entry.artifact) entries))
  unfolding check_artifacts
  check_artifacts-passes targets names [] h = (tt, (tt, tt), (tt, tt))
  check_artifacts-passes targets names (entry ∷ entries) h =
      let (passed, rest) =
        first_failure-passes (entry_checks f targets names entry)
          (check_artifacts f (entry.target ∷ targets) (entry.artifact ∷ names) entries) h in
      let known = passed.0 in
      let new_target = passed.1.0 in
      let new_name = passed.1.1.0 in
      let plain = passed.1.1.1.0 in
      let digest = passed.1.1.1.1.0 in
      let secure = passed.1.1.1.1.1.0 in
      let (allowed, (unseen_targets, distinct_targets), (unseen_names, distinct_names)) =
        check_artifacts-passes (entry.target ∷ targets) (entry.artifact ∷ names) entries rest in
      let (apart_targets, old_targets) =
        Unseen-split entry.target targets (map (λ e. e.target) entries) unseen_targets in
      let (apart_names, old_names) =
        Unseen-split entry.artifact names (map (λ e. e.artifact) entries) unseen_names in
      (
        (
          (
            holds_of_not (is_known_target entry.target) known,
            plain,
            (digest_tests (len entry.sha256) (all is_digest_char entry.sha256) digest).0,
            (digest_tests (len entry.sha256) (all is_digest_char entry.sha256) digest).1,
            holds_of_not (is_secure_download_url f entry.url) secure,
          ),
          allowed,
        ),
        ((new_target, old_targets), (apart_targets, distinct_targets)),
        ((new_name, old_names), (apart_names, distinct_names)),
      )

  -- What `validate` accepts.
  abbrev pub IsTrusted : ClientReleaseManifest → Type 0
  IsTrusted manifest =
      (manifest.schema_version ≡ manifest_schema_version)
      × ((version : V) × (minimum : V) × (parsed_version f.semver manifest.version ≡ some version)
          × (parsed_version f.semver manifest.minimum_version ≡ some minimum)
          × (f.semver.is_less version minimum ≡ false))
      × (is_https_url f manifest.upstream_base_url ≡ true)
      × (is_empty manifest.artifacts ≡ false)
      × All IsAllowed manifest.artifacts
      × Distinct (map (λ entry. entry.target) manifest.artifacts)
      × Distinct (map (λ entry. entry.artifact) manifest.artifacts)

  check_minimum-passes :
      (manifest : ClientReleaseManifest) (version : V) (minimum : Option V)
      → manifest.schema_version ≡ manifest_schema_version
      → parsed_version f.semver manifest.version ≡ some version
      → parsed_version f.semver manifest.minimum_version ≡ minimum
      → check_minimum f manifest version minimum ≡ none
      → IsTrusted manifest
  check_minimum-passes manifest version none schema read floor h = absurd (ground (arith, h))
  check_minimum-passes manifest version (some minimum) schema read floor h =
      let (passed, rest) =
        first_failure-passes
          ((
            f.semver.is_less version minimum,
            minimum_after_release manifest.minimum_version manifest.version,
          )
            ∷ content_checks f manifest)
          (check_artifacts f [] [] manifest.artifacts) h in
      let (allowed, (unseen_targets, targets), (unseen_names, names)) =
        check_artifacts-passes [] [] manifest.artifacts rest in
      (
        schema,
        (version, minimum, read, floor, passed.0),
        holds_of_not (is_https_url f manifest.upstream_base_url) passed.1.1.0,
        passed.1.1.1.0,
        allowed,
        targets,
        names,
      )

  check_version-passes :
      (manifest : ClientReleaseManifest) (version : Option V)
      → manifest.schema_version ≡ manifest_schema_version
      → parsed_version f.semver manifest.version ≡ version
      → check_version f manifest version ≡ none
      → IsTrusted manifest
  check_version-passes manifest none schema read h = absurd (ground (arith, h))
  check_version-passes manifest (some version) schema read h =
      check_minimum-passes manifest version (parsed_version f.semver manifest.minimum_version)
        schema read refl h

  -- A manifest that `validate` accepts has the schema of this version, a version that is not below
  -- its minimum, an HTTPS base URL and at least one artifact; each artifact is of a published target,
  -- has a plain file name, a digest of 64 lowercase hexadecimal digits and a URL of HTTPS or of the
  -- local host; and no target and no name occurs twice.
  pub validate-IsTrusted :
      (manifest : ClientReleaseManifest) → validate f manifest ≡ none → IsTrusted manifest
  unfolding validate
  validate-IsTrusted manifest h =
      elim (Bool-cases (manifest.schema_version == manifest_schema_version)) [
        | inl e ↦
            check_version-passes manifest (parsed_version f.semver manifest.version)
              (eq_of_test manifest.schema_version manifest_schema_version e) refl
              (sym (
                  ap
                    (λ b.
                      if b
                      then check_version f manifest (parsed_version f.semver manifest.version)
                      else some (unsupported_schema manifest.schema_version))
                    e)
                ∙ h)
        | inr e ↦ absurd (ground (arith, h, e))
      ]
