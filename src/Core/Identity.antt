-- ===== src/Core/Identity.antt =====
-- Pseudonymous identity: `canonical_model_id`, `stable_session_key` and `IdentityContext`
-- (crates/metrune-core/src/lib.rs). HMAC-SHA256 and SHA-256, which other crates implement, are
-- parameters that map a text to the hexadecimal digest of its bytes.
use metrune.Prelude.{Bool, ◌||◌, Option, none, some, [], ◌∷◌, ◌++◌, ◌==◌, if◌then◌else◌}
use metrune.Prelude.Text.{Text, codes, trim, trim_end_by, to_ascii_lowercase, replace, strip_prefix}
use metrune.Prelude.Order.{text_ord}
use metrune.Prelude.TreeMap.{TreeMap, get}
use Prim.Native.Nat.{ℕ}

unfoldable pub canonical_model_id : Text → Text
canonical_model_id model =
    let normalized = replace b'.' b'-' (to_ascii_lowercase (trim model)) in
    elim (strip_prefix (codes "anthropic/") normalized) [ none ↦ normalized | some rest ↦ rest ]

-- The functions of the crates `hmac` and `sha2`.
pub record Digests : Type 0 where
  pub hmac_sha256_hex : Text → Text → Text
  pub sha256_hex : Text → Text

-- What `stable_session_key` feeds to the digest.
unfoldable pub session_preimage : Text → Text → Text
session_preimage client_id session_id =
    codes "metrune-session-v1" ++ 0 ∷ (to_ascii_lowercase (trim client_id) ++ 0 ∷ session_id)

unfoldable pub stable_session_key : Digests → Text → Text → Text
stable_session_key d client_id session_id = d.sha256_hex (session_preimage client_id session_id)

pub data ProjectLabelMode : Type 0 where
  folder anonymous : ProjectLabelMode

pub record IdentityContext : Type 0 where
  pub pseudonym_key : Text
  pub user_alias : Text
  pub team_key : Option Text
  pub project_aliases : TreeMap Text Text
  pub project_label_mode : ProjectLabelMode

abbrev pub pseudonymize : Digests → IdentityContext → Text → Text
pseudonymize d identity value = d.hmac_sha256_hex identity.pseudonym_key value

unfoldable pub user_key : Digests → IdentityContext → Text
user_key d identity = pseudonymize d identity (codes "user:" ++ identity.user_alias)

abbrev pub is_separator : ℕ → Bool
is_separator c = c == b'/' || c == b'\\'

-- `rsplit(['/', '\\']).next()`: what follows the last separator.
abbrev pub last_component : Text → Text → Text
last_component acc [] = acc
last_component acc (c ∷ s) = last_component (if is_separator c then [] else acc ++ c ∷ []) s

-- The last folder of a path, if it has one.
unfoldable pub folder_label : Text → Option Text
folder_label path = elim (last_component [] (trim_end_by is_separator path)) [
  | [] ↦ none
  | c ∷ s ↦ some (c ∷ s)
]

abbrev pub labelled : ProjectLabelMode → Option Text → Option Text
labelled folder label = label
labelled anonymous label = none

-- `self.project_aliases.get(path).cloned().or_else(…)`
unfoldable pub project_alias : IdentityContext → Text → Option Text
project_alias identity path = elim (get path identity.project_aliases) [
  | some alias ↦ some alias
  | none ↦ labelled identity.project_label_mode (folder_label path)
]

unfoldable pub project_identity :
    Digests → IdentityContext → Option Text → Option Text × Option Text
project_identity d identity none = (none, none)
project_identity d identity (some path) =
    (some (pseudonymize d identity (codes "project:" ++ path)), project_alias identity path)
