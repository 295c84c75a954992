-- ===== src/Device/Code.antt =====
-- The user code: eight characters of base 32, typed by a person
-- (crates/metrune-api/src/device_auth.rs).
pub mod Laws
use metrune.Prelude.{
  ℕ, zero, suc, ◌+◌, ◌-◌, ◌*◌, ◌/◌, ◌%◌, ◌^◌, Bool, true, false, not, ◌&&◌, ◌||◌, Option, none,
  some, List, [], ◌∷◌, ◌++◌, leb, ◌==◌, if◌then◌else◌, any, all, select, map, take, drop,
}
use metrune.Prelude.Text.{Text, codes, len}

abbrev pub user_code_alphabet : Text
user_code_alphabet = codes "0123456789ABCDEFGHJKMNPQRSTVWXYZ"

-- `alphabet[index]`; the index is below 32.
abbrev pub char_at : Text → ℕ → ℕ
char_at [] i = 0
char_at (c ∷ s) zero = c
char_at (c ∷ s) (suc i) = char_at s i

-- The bytes as one number: the eight low bits of `bits << 8` are free for the next byte.
unfoldable pub bits_of : ℕ → List ℕ → ℕ
bits_of bits [] = bits
bits_of bits (byte ∷ bytes) = bits_of (bits * 256 + byte) bytes

-- The loop that fills the code from its last character.
unfoldable pub code_chars : ℕ → ℕ → Text → Text
code_chars zero bits code = code
code_chars (suc n) bits code =
    code_chars n (bits / 32) (char_at user_code_alphabet (bits % 32) ∷ code)

-- Eight characters, before the dash is put in.
unfoldable pub plain_user_code : List ℕ → Text
unfolding bits_of code_chars
plain_user_code bytes = code_chars 8 (bits_of 0 bytes) []

-- `format!("{}-{}", &normalized[..4], &normalized[4..])`
unfoldable pub display_user_code : Text → Text
display_user_code normalized = take 4 normalized ++ b'-' ∷ drop 4 normalized

-- `generate_user_code`, given the five random bytes.
unfoldable pub generate_user_code : List ℕ → Text
unfolding plain_user_code display_user_code
generate_user_code bytes = display_user_code (plain_user_code bytes)

-- `char::is_ascii_whitespace`
abbrev pub is_ascii_whitespace : ℕ → Bool
is_ascii_whitespace c = c == 9 || c == 10 || c == 12 || c == 13 || c == 32

abbrev pub to_ascii_uppercase : ℕ → ℕ
to_ascii_uppercase c = if leb b'a' c && leb c b'z' then c - 32 else c

abbrev pub is_significant : ℕ → Bool
is_significant c = not (is_ascii_whitespace c) && not (c == b'-')

-- The letters that are easily misread stand for digits.
abbrev pub canonical_char : ℕ → ℕ
canonical_char c =
    let upper = to_ascii_uppercase c in
    if upper == b'O' then b'0' else if upper == b'I' || upper == b'L' then b'1' else upper

abbrev pub is_alphabetic : ℕ → Bool
is_alphabetic c = any (λ a. a == c) user_code_alphabet

unfoldable pub normalize_user_code : Text → Option Text
normalize_user_code value =
    let normalized = map canonical_char (select is_significant value) in
    if len normalized == 8 && all is_alphabetic normalized then some normalized else none
