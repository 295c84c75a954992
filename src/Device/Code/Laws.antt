-- ===== src/Device/Code/Laws.antt =====
-- `generate_user_code` and `normalize_user_code` together (crates/metrune-api/src/device_auth.rs).
use metrune.Prelude.{
  ℕ, zero, suc, ◌+◌, ◌/◌, ◌%◌, ◌<◌, ◌≡◌, refl, ap, sym, none, if◌then◌else◌, ==_iff,
  take-append-drop, ◌∙◌, Bool, true, ◌&&◌, some, List, [], ◌∷◌, ◌++◌, arith, ltb, ◌==◌, length, all,
  select, map, take, drop,
}
use metrune.Prelude.Text.{Text, len}
use metrune.Device.Code.{
  user_code_alphabet, char_at, code_chars, plain_user_code, display_user_code, generate_user_code,
  is_significant, canonical_char, is_alphabetic, normalize_user_code, bits_of,
}

-- What is true of each character of the alphabet: it is kept, stands for itself, and is one byte.
is_plain : ℕ → Bool
is_plain c = is_significant c && (canonical_char c == c && (is_alphabetic c && ltb c 128))

and_intro : (a b : Bool) → a ≡ true → b ≡ true → (a && b) ≡ true
and_intro a b h k = ground arith

and_left : (a b : Bool) → (a && b) ≡ true → a ≡ true
and_left a b h = ground arith

and_right : (a b : Bool) → (a && b) ≡ true → b ≡ true
and_right a b h = ground arith

plain-significant : (c : ℕ) → is_plain c ≡ true → is_significant c ≡ true
unfolding is_plain
plain-significant c h = and_left (is_significant c) _ h

plain-canonical : (c : ℕ) → is_plain c ≡ true → canonical_char c ≡ c
unfolding is_plain
plain-canonical c h =
    (==_iff (canonical_char c) c).0
      (and_left (canonical_char c == c) _ (and_right (is_significant c) _ h))

plain-alphabetic : (c : ℕ) → is_plain c ≡ true → is_alphabetic c ≡ true
unfolding is_plain
plain-alphabetic c h =
    and_left (is_alphabetic c) _
      (and_right (canonical_char c == c) _ (and_right (is_significant c) _ h))

plain-byte : (c : ℕ) → is_plain c ≡ true → ltb c 128 ≡ true
unfolding is_plain
plain-byte c h =
    and_right (is_alphabetic c) _
      (and_right (canonical_char c == c) _ (and_right (is_significant c) _ h))

alphabet-plain : all is_plain user_code_alphabet ≡ true
unfolding is_plain
alphabet-plain = refl

char_at-plain :
    (s : Text) (i : ℕ) → all is_plain s ≡ true → i < length s → is_plain (char_at s i) ≡ true
char_at-plain [] i h k = absurd (omega arith)
char_at-plain (c ∷ s) zero h k = and_left (is_plain c) (all is_plain s) h
char_at-plain (c ∷ s) (suc i) h k =
    char_at-plain s i (and_right (is_plain c) (all is_plain s) h) (omega arith)

code_chars-plain :
    (n bits : ℕ) (code : Text)
    → all is_plain code ≡ true
    → (all is_plain (code_chars n bits code) ≡ true)
      × (length (code_chars n bits code) ≡ n + length code)
unfolding code_chars
code_chars-plain zero bits code h = (h, omega arith)
code_chars-plain (suc n) bits code h =
    let c = char_at user_code_alphabet (bits % 32) in
    let kept = char_at-plain user_code_alphabet (bits % 32) alphabet-plain (omega arith) in
    let (plain, size) =
      code_chars-plain n (bits / 32) (c ∷ code)
        (and_intro (is_plain c) (all is_plain code) kept h) in
    (plain, size ∙ omega arith)

select-plain : (s : Text) → all is_plain s ≡ true → select is_significant s ≡ s
select-plain [] h = refl
select-plain (c ∷ s) h =
    rw (plain-significant c (and_left (is_plain c) _ h))
      (ap (◌∷◌ c) (select-plain s (and_right (is_plain c) _ h)))

map-plain : (s : Text) → all is_plain s ≡ true → map canonical_char s ≡ s
map-plain [] h = refl
map-plain (c ∷ s) h = λ i.
    plain-canonical c (and_left (is_plain c) _ h) i ∷ map-plain s (and_right (is_plain c) _ h) i

all-plain : (s : Text) → all is_plain s ≡ true → all is_alphabetic s ≡ true
all-plain [] h = refl
all-plain (c ∷ s) h =
    and_intro (is_alphabetic c) (all is_alphabetic s)
      (plain-alphabetic c (and_left (is_plain c) _ h)) (all-plain s (and_right (is_plain c) _ h))

len-plain : (s : Text) → all is_plain s ≡ true → len s ≡ length s
len-plain [] h = refl
len-plain (c ∷ s) h =
    rw (plain-byte c (and_left (is_plain c) _ h))
      (omega (arith, len-plain s (and_right (is_plain c) _ h)))

select-append : (p : ℕ → Bool) (s t : Text) → select p (s ++ t) ≡ select p s ++ select p t
select-append p [] t = refl
select-append p (c ∷ s) t = ground (arith, select-append p s t)

-- The dash in the middle is not significant.
select-display :
    (n : ℕ) (s : Text)
    → select is_significant (take n s ++ b'-' ∷ drop n s) ≡ select is_significant s
select-display n s =
    select-append is_significant (take n s) (b'-' ∷ drop n s)
    ∙ sym (select-append is_significant (take n s) (drop n s))
    ∙ ap (select is_significant) (take-append-drop n s)

normalize-display :
    (s : Text)
    → all is_plain s ≡ true
    → length s ≡ 8
    → normalize_user_code (display_user_code s) ≡ some s
unfolding normalize_user_code display_user_code
normalize-display s plain size =
    let same =
      ap (map canonical_char) (select-display 4 s ∙ select-plain s plain) ∙ map-plain s plain in
    let eight : len s ≡ 8 = len-plain s plain ∙ size in
    ap (λ t. if len t == 8 && all is_alphabetic t then some t else none) same
    ∙ ground (arith, eight, all-plain s plain)

-- Whatever the random bytes, the generated code is accepted, and it is read back as the eight
-- characters that were drawn.
pub normalize-generate_user_code :
    (bytes : List ℕ)
    → (normalize_user_code (generate_user_code bytes) ≡ some (plain_user_code bytes))
      × (length (plain_user_code bytes) ≡ 8)
unfolding generate_user_code plain_user_code
normalize-generate_user_code bytes =
    let (plain, size) = code_chars-plain 8 (bits_of 0 bytes) [] refl in
    (normalize-display (code_chars 8 (bits_of 0 bytes) []) plain size, size)
