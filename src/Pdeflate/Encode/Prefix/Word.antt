-- ===== src/Pdeflate/Encode/Prefix/Word.antt =====
-- Two words compared by `^` and `trailing_zeros`: the index of the first byte that differs.
use native.Mathlib.Nat.{pow-suc}
use native.Mathlib.Decide.{dec_lt}
use cozip.Base.{
  ℕ, zero, suc, ◌+◌, ◌*◌, ◌/◌, ◌%◌, ◌^◌, ◌≤◌, ◌<◌, ◌≡◌, ◌≢◌, refl, List, [], ◌∷◌, bit_xor, ◌==◌,
  if◌then◌else◌, length, take, drop, arith, inl, inr, Bool-cases, true, false,
}
use cozip.Base.Bits.Xor.{pow_double, bit_xor_fields, bit_xor-lt, bit_xor-eq, bit_xor-pos}
use cozip.Base.Le.{IsBytes, from_le_bytes}
use cozip.Pdeflate.Encode.Prefix.{trailing_zeros}

-- How many of the first `n` places hold equal bytes, from the front.
unfoldable pub common : ℕ → List ℕ → List ℕ → ℕ
common zero xs ys = 0
common (suc n) (x ∷ xs) (y ∷ ys) = if x == y then suc (common n xs ys) else 0
common (suc n) _ _ = 0

trailing_zeros_low :
    (k g k' r q : ℕ) → k + g ≡ k' → 0 < r → r < 2 ^ k → trailing_zeros k' (r + 2 ^ k * q) < k
unfolding trailing_zeros
trailing_zeros_low zero g k' r q e some_bit h = absurd (omega arith)
trailing_zeros_low (suc k) g zero r q e some_bit h = absurd (omega arith)
trailing_zeros_low (suc k) g (suc k') r q e some_bit h =
    let double : 2 ^ suc k * q ≡ 2 * (2 ^ k * q) = pow_double k q in
    elim (Bool-cases ((r + 2 ^ suc k * q) % 2 == 0)) [
      | inl t ↦
          let even : (r + 2 ^ suc k * q) % 2 ≡ 0 = ground arith in
          let half : (r + 2 ^ suc k * q) / 2 ≡ r / 2 + 2 ^ k * q = omega arith in
          rw (t, half)
            (omega (
              arith,
              trailing_zeros_low k g k' (r / 2) q (omega arith) (omega arith)
                  (omega (arith, pow-suc 2 k)),
            ))
      | inr t ↦ rw t (omega arith)
    ]

trailing_zeros_high :
    (k g k' d : ℕ) → k + g ≡ k' → trailing_zeros k' (2 ^ k * d) ≡ k + trailing_zeros g d
unfolding trailing_zeros
trailing_zeros_high zero g k' d e =
    let e₁ : k' ≡ g = omega arith in
    let e₂ : 2 ^ 0 * d ≡ d = omega arith in rw (e₁, e₂) (omega arith)
trailing_zeros_high (suc k) g zero d e = absurd (omega arith)
trailing_zeros_high (suc k) g (suc k') d e =
    let double : 2 ^ suc k * d ≡ 2 * (2 ^ k * d) = pow_double k d in
    let even : (2 ^ suc k * d % 2 == 0) ≡ true = ground arith in
    let half : 2 ^ suc k * d / 2 ≡ 2 ^ k * d = omega arith in
    rw (even, half, trailing_zeros_high k g k' d (omega arith)) (omega arith)

-- The words of the next `k` bytes: equal iff their `^` is 0, and otherwise its trailing zeros count
-- the equal bytes.
pub word_differ :
    (k g bits : ℕ) (xs ys : List ℕ) (n : ℕ)
    → IsBytes xs
    → IsBytes ys
    → k ≤ length xs
    → k ≤ length ys
    → 8 * k + g ≡ bits
    → k ≤ n
    → bit_xor (from_le_bytes (take k xs)) (from_le_bytes (take k ys)) ≢ 0
    → trailing_zeros bits (bit_xor (from_le_bytes (take k xs)) (from_le_bytes (take k ys))) / 8
      ≡ common n xs ys
unfolding from_le_bytes common
word_differ zero g bits xs ys n hx hy lx ly e le h = absurd (h refl)
word_differ (suc k) g bits [] ys n hx hy lx ly e le h = absurd (omega arith)
word_differ (suc k) g bits (x ∷ xs) [] n hx hy lx ly e le h = absurd (omega arith)
word_differ (suc k) g bits (x ∷ xs) (y ∷ ys) zero hx hy lx ly e le h = absurd (omega arith)
word_differ (suc k) g bits (x ∷ xs) (y ∷ ys) (suc n) hx hy lx ly e le h =
    let a = from_le_bytes (take k xs) in
    let b = from_le_bytes (take k ys) in
    let split = bit_xor_fields 8 a x b y hx.0 hy.0 in
    let low = bit_xor-lt 8 x y hx.0 hy.0 in
    elim (dec_lt 0 (bit_xor x y)) [
      | yes p ↦
          let ne = bit_xor-pos x y p in
          let t : (x == y) ≡ false = ground arith in
          rw (split, t)
            (omega (
              arith,
              trailing_zeros_low 8 (8 * k + g) bits (bit_xor x y) (bit_xor a b) (omega arith) p low,
            ))
      | no p ↦
          let none : bit_xor x y ≡ 0 = omega arith in
          let head : x ≡ y = bit_xor-eq 8 x y hx.0 hy.0 none in
          let t : (x == y) ≡ true = ground arith in
          let rest : bit_xor a b ≢ 0 = λ z. h (omega arith) in
          let high = trailing_zeros_high 8 (8 * k + g) bits (bit_xor a b) (omega arith) in
          let tail =
            word_differ k g (8 * k + g) xs ys n hx.1 hy.1 (omega arith) (omega arith) refl
              (omega arith) rest in
          let whole : bit_xor (x + 256 * a) (y + 256 * b) ≡ 256 * bit_xor a b = omega arith in
          rw (whole, t) (omega (arith, high, tail))
    ]

pub word_same :
    (k : ℕ) (xs ys : List ℕ) (n m : ℕ)
    → IsBytes xs
    → IsBytes ys
    → k ≤ length xs
    → k ≤ length ys
    → k + m ≡ n
    → bit_xor (from_le_bytes (take k xs)) (from_le_bytes (take k ys)) ≡ 0
    → common n xs ys ≡ k + common m (drop k xs) (drop k ys)
unfolding from_le_bytes common
word_same zero xs ys n m hx hy lx ly e h = let e' : n ≡ m = omega arith in rw e' (omega arith)
word_same (suc k) [] ys n m hx hy lx ly e h = absurd (omega arith)
word_same (suc k) (x ∷ xs) [] n m hx hy lx ly e h = absurd (omega arith)
word_same (suc k) (x ∷ xs) (y ∷ ys) zero m hx hy lx ly e h = absurd (omega arith)
word_same (suc k) (x ∷ xs) (y ∷ ys) (suc n) m hx hy lx ly e h =
    let a = from_le_bytes (take k xs) in
    let b = from_le_bytes (take k ys) in
    let split = bit_xor_fields 8 a x b y hx.0 hy.0 in
    let head : x ≡ y = bit_xor-eq 8 x y hx.0 hy.0 (omega arith) in
    let tail =
      word_same k xs ys n m hx.1 hy.1 (omega arith) (omega arith) (omega arith) (omega arith) in
    let t : (x == y) ≡ true = ground arith in rw (t, tail) (omega arith)
