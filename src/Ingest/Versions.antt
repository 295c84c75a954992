-- ===== src/Ingest/Versions.antt =====
-- Versions of client and server (crates/metrune-core/src/release.rs, and the header that
-- crates/metrune-api/src/app.rs reads). The parser of the crate `semver` is a parameter.
use metrune.Prelude.{
  ℕ, Bool, true, false, not, ◌&&◌, Option, none, some, [], ◌∷◌, ltb, ◌==◌, if◌then◌else◌, is_empty,
}
use metrune.Prelude.Text.{Text, codes, len, trim}

-- The crate `semver`.
pub record Semver (V : Type 0) : Type 0 where
  pub parse : Text → Option V
  pub major : V → ℕ
  pub is_less : V → V → Bool

abbrev pub trim_start_v : Text → Text
trim_start_v [] = []
trim_start_v (c ∷ s) = let rest = trim_start_v s in if c == b'v' then rest else c ∷ s

abbrev pub server_version : Text
server_version = codes "0.1.1"

module _ {V : Type 0} (v : Semver V) where
  unfoldable pub parsed_version : Text → Option V
  parsed_version version = v.parse (trim_start_v (trim version))

  unfoldable pub versions_share_major : Text → Text → Bool
  versions_share_major left right = elim (parsed_version left) [
    | none ↦ false
    | some l ↦ elim (parsed_version right) [ none ↦ false | some r ↦ v.major l == v.major r ]
  ]

  -- A version that does not parse is older than any that does.
  unfoldable pub version_is_older : Text → Text → Bool
  version_is_older current minimum = elim (parsed_version minimum) [
    | none ↦ false
    | some m ↦ elim (parsed_version current) [ none ↦ true | some c ↦ v.is_less c m ]
  ]

  abbrev pub is_valid_version : Text → Bool
  is_valid_version version = elim (parsed_version version) [ none ↦ false | some p ↦ true ]

  -- The header's value, where it is a version.
  unfoldable pub reported_client_version : Option Text → Option Text
  reported_client_version none = none
  reported_client_version (some value) =
      let version = trim value in
      if not (is_empty version) && not (ltb 64 (len version)) && is_valid_version version
      then some version
      else none
