-- ===== src/Examples/Releases.antt =====
-- The prices of OpenRouter, and the release of the client.
use Prim.Native.Nat.{ℕ}
use metrune.Prelude.{◌≡◌, refl, ap, true, Option, none, some, [], ◌∷◌, ◌++◌, All, ltb}
use metrune.Prelude.Text.{Text, codes, text_eq, text_eq_refl, is_whitespace, trim_end_by}
use metrune.Pricing.OpenRouter.{
  OpenRouterModel, openrouter_entries, openrouter_entry, model_price, rest_of_price,
  parse_openrouter_rate, parse_optional_openrouter_rate,
}
use metrune.Pricing.OpenRouter.Rates.{IsRated, openrouter_entries-IsRated}
use metrune.Pricing.{ModelPrice}
use metrune.Release.Manifest.{
  ReleaseArtifact, ClientReleaseManifest, supported, upstream, signed_fields,
}
use metrune.Release.Signing.{ReleaseKeys, sign, public_key_for, verify_signature}
use metrune.Release.Signing.RoundTrip.{KeyLaws, verify_signature-sign}
use metrune.Ingest.Versions.{parsed_version}
use metrune.Release.Validate.{Url, Formats, validate, check_artifacts}
use metrune.Release.Validate.Allowlist.{IsTrusted, validate-IsTrusted}
use metrune.Release.Mirror.{
  FileEntry, ClientDistribution, Server, artifact_path, rewrite, served_manifest,
}
use metrune.Release.Mirror.Vouched.{IsPublished, served_manifest-IsPublished}
use metrune.Release.Download.{Download, disposition, digest_header, deliver, download_client}
use metrune.Release.Download.Digest.{IsServed, download_client-IsServed}
use metrune.Examples.Sample.{whole}

abbrev open_model : OpenRouterModel
open_model = record {
  id = codes "m";
  canonical_slug = none;
  pricing = record {
    prompt = codes "3";
    completion = codes "5";
    cache_read = none;
    cache_write = none;
    input_cache_read = none;
    input_cache_write = none;
    internal_reasoning = none;
    request = none;
    image = none;
  };
}

-- One digit, which is above the value that stands for -1.
abbrev digit : Text → Option ℕ
digit [] = none
digit (c ∷ s) = some c

abbrev open_price : ModelPrice ℕ
open_price = record {
  input_per_million = 51_000_000;
  output_per_million = 53_000_000;
  cache_read_per_million = 0;
  cache_write_per_million = 0;
  reasoning_per_million = 0;
  request_per_request = 0;
  image_per_image = 0;
}

openrouter_entries-IsRated_example :
    All (λ e. IsRated e.price) (openrouter_entry 7 open_model open_price ∷ [])
unfolding openrouter_entries model_price rest_of_price parse_openrouter_rate
    parse_optional_openrouter_rate
openrouter_entries-IsRated_example =
    openrouter_entries-IsRated digit 7 (open_model ∷ [])
      (openrouter_entry 7 open_model open_price ∷ []) refl

-- A base64 text is the bytes between two letters, and a signature is the payload.
abbrev key : Text
key = codes "xxxxxxxxxxxxxxxxxxxxxxxxxxxxxxxx"

abbrev without_last : Text → Text
without_last [] = []
without_last (c ∷ []) = []
without_last (c ∷ d ∷ s) = c ∷ without_last (d ∷ s)

abbrev framed : Text → Text
framed bytes = b'x' ∷ (bytes ++ b'x' ∷ [])

abbrev unframed : Text → Option Text
unframed [] = none
unframed (c ∷ s) = some (without_last s)

abbrev keys : ReleaseKeys
keys = record {
  decode = unframed;
  encode = framed;
  verifying_bytes = λ signing_key. key;
  is_verifying_key = λ bytes. true;
  is_signature = λ bytes. true;
  sign_bytes = λ signing_key payload. payload;
  verify_strict = λ public_key payload signature. text_eq payload signature;
  payload = λ fields. some fields.version;
}

trim_end-framed : (s : Text) → trim_end_by is_whitespace (s ++ b'x' ∷ []) ≡ s ++ b'x' ∷ []
trim_end-framed [] = refl
trim_end-framed (c ∷ []) = refl
trim_end-framed (c ∷ d ∷ s) = rw (trim_end-framed (d ∷ s)) refl

without_last-append : (s : Text) → without_last (s ++ b'x' ∷ []) ≡ s
without_last-append [] = refl
without_last-append (c ∷ []) = refl
without_last-append (c ∷ d ∷ s) = ap (λ t. c ∷ t) (without_last-append (d ∷ s))

keys_laws : KeyLaws keys
keys_laws = record {
  decode-encode =
      λ bytes. rw (trim_end-framed (b'x' ∷ bytes)) (ap some (without_last-append bytes));
  length-verifying_bytes = λ signing_key. refl;
  verifying_key_is_valid = λ signing_key. refl;
  signature_is_valid = λ signing_key payload. refl;
  verify-sign = λ signing_key payload. text_eq_refl payload;
}

abbrev artifact : ReleaseArtifact
artifact = record {
  target = codes "linux-x86_64";
  artifact = codes "metrune-linux-x86_64";
  sha256 = codes "0123456789abcdef0123456789abcdef0123456789abcdef0123456789abcdef";
  tier = supported;
  url = codes "https://example.com/metrune-linux-x86_64";
  source = upstream;
}

abbrev manifest : ClientReleaseManifest
manifest = record {
  schema_version = 1;
  version = codes "1";
  minimum_version = codes "1";
  released_at = codes "t";
  upstream_base_url = codes "https://example.com";
  artifacts = artifact ∷ [];
  signature = none;
}

abbrev released : ClientReleaseManifest
released = record manifest { signature = some (framed (codes "1")) }

verify_signature-sign_example : verify_signature keys (framed key) released ≡ none
unfolding sign public_key_for signed_fields
verify_signature-sign_example =
    verify_signature-sign keys keys_laws (framed key) (framed key) manifest released released refl
      refl refl refl

abbrev https : Url
https = record {
  scheme = codes "https";
  host_str = some (codes "example.com");
  username = [];
  password = none;
  fragment = none;
}

abbrev formats : Formats ℕ
formats = record {
  semver = record { parse = digit; major = λ n. n; is_less = ltb };
  parse_url = λ t. some https;
  is_rfc3339 = λ t. true;
}

validate-IsTrusted_example : IsTrusted formats manifest
unfolding validate check_artifacts parsed_version
validate-IsTrusted_example = validate-IsTrusted formats manifest refl

abbrev server : Server ℕ
server = record {
  formats = formats;
  decode_manifest = λ raw. some manifest;
  sha256_hex = λ bytes. artifact.sha256;
  is_header = λ t. true;
}

abbrev distribution : ClientDistribution
distribution = record {
  manifest_path = codes "m";
  download_dir = codes "d";
  public_base_url = none;
  release_public_key = none;
  legacy_paths = [];
}

abbrev files : Text → Option FileEntry
files path = some (record { is_file = true; size = 3; contents = some (codes "abc") })

served_manifest-IsPublished_example : IsPublished distribution files server manifest
unfolding served_manifest rewrite validate check_artifacts parsed_version
served_manifest-IsPublished_example =
    served_manifest-IsPublished distribution files server manifest refl

abbrev download : Download
download = record {
  content_disposition = disposition artifact;
  repr_digest = digest_header artifact;
  binary = codes "abc";
}

download_client-IsServed_example :
    IsServed server distribution files (codes "metrune-linux-x86_64") download
unfolding download_client deliver artifact_path served_manifest rewrite validate check_artifacts
    parsed_version
download_client-IsServed_example =
    download_client-IsServed server distribution files (codes "metrune-linux-x86_64") download refl
