-- ===== src/Prelude/Decimal.antt =====
-- `u64::to_string` and `str::parse::<u64>`.
use native.Mathlib.Nat.{pow-suc}
use metrune.Prelude.{
  ℕ, zero, suc, ◌+◌, ◌-◌, ◌*◌, ◌/◌, ◌%◌, ◌^◌, ◌≤◌, ◌<◌, ◌≡◌, refl, sym, ap, ◌∙◌, inl, inr, Bool,
  ◌&&◌, Option, none, some, [], ◌∷◌, arith, ltb, leb, ◌==◌, if◌then◌else◌, Bool-cases,
}
use metrune.Prelude.Text.{Text}
use metrune.Prelude.Words.{u64_max}

-- The digits of `n`, in front of `rest`. A u64 has at most 20 digits.
print_digits : ℕ → ℕ → Text → Text
print_digits zero n rest = rest
print_digits (suc f) n rest =
    let more = print_digits f (n / 10) ((48 + n % 10) ∷ rest) in
    if ltb n 10 then (48 + n) ∷ rest else more

unfoldable pub to_string : ℕ → Text
unfolding print_digits
to_string n = print_digits 20 n []

abbrev pub is_digit : ℕ → Bool
is_digit c = leb b'0' c && leb c b'9'

-- Fails on a character that is no digit, and on overflow.
parse_digits : ℕ → Text → Option ℕ
parse_digits acc [] = some acc
parse_digits acc (c ∷ s) =
    let value = acc * 10 + (c - 48) in
    let rest = parse_digits value s in if is_digit c && leb value u64_max then rest else none

-- A leading plus sign is accepted, the empty text and a lone sign are not.
unfoldable pub parse_u64 : Text → Option ℕ
unfolding parse_digits
parse_u64 [] = none
parse_u64 (c ∷ []) = parse_digits 0 (c ∷ [])
parse_u64 (c ∷ d ∷ s) = if c == b'+' then parse_digits 0 (d ∷ s) else parse_digits 0 (c ∷ d ∷ s)

parse_step :
    (a d n : ℕ) (rest : Text)
    → d < 10
    → a * 10 + d ≡ n
    → n ≤ u64_max
    → parse_digits a ((48 + d) ∷ rest) ≡ parse_digits n rest
unfolding parse_digits
parse_step a d n rest h e k =
    let value : a * 10 + (48 + d - 48) ≡ n = omega arith in rw value (ground arith)

parse-print_digits :
    (f n : ℕ) (rest : Text)
    → n < 10 ^ f
    → n ≤ u64_max
    → parse_digits 0 (print_digits f n rest) ≡ parse_digits n rest
unfolding print_digits
parse-print_digits zero n rest h k = let none_left : n ≡ 0 = omega arith in rw none_left
parse-print_digits (suc f) n rest h k = elim (Bool-cases (ltb n 10)) [
  | inl small ↦ rw small (parse_step 0 n n rest (ground arith) (omega arith) k)
  | inr large ↦ rw large (
      parse-print_digits f (n / 10) ((48 + n % 10) ∷ rest) (omega (arith, pow-suc 10 f))
        (omega arith)
      ∙ parse_step (n / 10) (n % 10) n rest (omega arith) (omega arith) k)
]

-- No text that `to_string` prints begins with a sign, and none is empty.
print_digits_shape :
    (f n : ℕ) (c : ℕ) (rest : Text)
    → b'0' ≤ c
    → (d : ℕ) × (s : Text) × (print_digits f n (c ∷ rest) ≡ d ∷ s) × (b'0' ≤ d)
unfolding print_digits
print_digits_shape zero n c rest h = (c, rest, refl, h)
print_digits_shape (suc f) n c rest h = elim (Bool-cases (ltb n 10)) [
  | inl small ↦ rw small (48 + n, c ∷ rest, refl, omega arith)
  | inr large ↦ rw large (print_digits_shape f (n / 10) (48 + n % 10) (c ∷ rest) (omega arith))
]

parse_u64_plain : (d : ℕ) (s : Text) → b'0' ≤ d → parse_u64 (d ∷ s) ≡ parse_digits 0 (d ∷ s)
unfolding parse_u64
parse_u64_plain d [] h = refl
parse_u64_plain d (e ∷ s) h = ground arith

to_string_shape : (n : ℕ) → (d : ℕ) × (s : Text) × (to_string n ≡ d ∷ s) × (b'0' ≤ d)
unfolding to_string
to_string_shape n = elim (Bool-cases (ltb n 10)) [
  | inl small ↦ rw small (48 + n, [], refl, omega arith)
  | inr large ↦ rw large (print_digits_shape 19 (n / 10) (48 + n % 10) [] (omega arith))
]

-- Parsing what was printed returns the number.
pub parse_u64-to_string : (n : ℕ) → n ≤ u64_max → parse_u64 (to_string n) ≡ some n
parse_u64-to_string n h =
    let (d, s, shape, above) = to_string_shape n in
    let whole : parse_digits 0 (to_string n) ≡ parse_digits n [] =
      unfold to_string in parse-print_digits 20 n [] (omega arith) h in
    ap parse_u64 shape
    ∙ parse_u64_plain d s above
    ∙ ap (parse_digits 0) (sym shape)
    ∙ whole
    ∙ unfold parse_digits in refl
