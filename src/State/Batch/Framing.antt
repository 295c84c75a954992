-- ===== src/State/Batch/Framing.antt =====
-- The bytes that the digest of `pending_batch` reads (crates/metrune-core/src/state.rs).
use metrune.Prelude.{
  ℕ, zero, suc, ◌/◌, ◌%◌, ◌^◌, ◌<◌, ◌≡◌, refl, ap, List, [], ◌∷◌, ◌++◌, arith, length, All,
}
use metrune.Prelude.Text.{Bytes, utf8}
use native.Mathlib.Nat.{pow-suc}
use metrune.Core.Types.{schema_version}
use metrune.State.Batch.{le_bytes, frames, digest_input}

le_bytes-injective : (k m n : ℕ) → m < 256 ^ k → n < 256 ^ k → le_bytes k m ≡ le_bytes k n → m ≡ n
unfolding le_bytes
le_bytes-injective zero m n h j e = omega arith
le_bytes-injective (suc k) m n h j e =
    let low : m % 256 ≡ n % 256 = ground arith in
    let high : m / 256 ≡ n / 256 =
      le_bytes-injective k (m / 256) (n / 256) (omega (arith, pow-suc 256 k))
        (omega (arith, pow-suc 256 k)) (ground arith) in
    omega arith

length-le_bytes : (k n : ℕ) → length (le_bytes k n) ≡ k
unfolding le_bytes
length-le_bytes zero n = refl
length-le_bytes (suc k) n = ap suc (length-le_bytes k (n / 256))

append-cancel :
    {A : Type 0} (a b s t : List A) → length a ≡ length b → a ++ s ≡ b ++ t → (a ≡ b) × (s ≡ t)
append-cancel [] [] s t h e = (refl, e)
append-cancel [] (y ∷ b) s t h e = absurd (omega arith)
append-cancel (x ∷ a) [] s t h e = absurd (omega arith)
append-cancel (x ∷ a) (y ∷ b) s t h e = ground (arith, append-cancel a b s t)

-- The lengths fit in a u64.
abbrev pub AreShort : List Bytes → Type 0
AreShort = All (λ x. length x < 2 ^ 64)

frames-injective :
    (xs ys : List Bytes) → AreShort xs → AreShort ys → frames xs ≡ frames ys → xs ≡ ys
frames-injective [] [] h j e = refl
frames-injective [] (y ∷ ys) h j e = unfold frames le_bytes in cc
frames-injective (x ∷ xs) [] h j e = unfold frames le_bytes in cc
frames-injective (x ∷ xs) (y ∷ ys) h j e =
    let (same_size, rest) =
      append-cancel (le_bytes 8 (length x)) (le_bytes 8 (length y)) (x ++ frames xs)
        (y ++ frames ys) (omega (arith, length-le_bytes 8 (length x), length-le_bytes 8 (length y)))
        (unfold frames in e) in
    let sizes = le_bytes-injective 8 (length x) (length y) h.0 j.0 same_size in
    let (heads, tails) = append-cancel x y (frames xs) (frames ys) sizes rest in
    ground (arith, heads, frames-injective xs ys h.1 j.1 tails)

-- Two lists of payloads, each of fewer than 2^64 bytes, that give the digest the same bytes are the
-- same list, in the same order.
pub digest_input-injective :
    (xs ys : List Bytes) → AreShort xs → AreShort ys → digest_input xs ≡ digest_input ys → xs ≡ ys
unfolding digest_input
digest_input-injective xs ys h j e =
    frames-injective xs ys h j
      (append-cancel (utf8 schema_version) (utf8 schema_version) (frames xs) (frames ys) refl e).1
