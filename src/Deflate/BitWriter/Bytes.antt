-- ===== src/Deflate/BitWriter/Bytes.antt =====
-- The bits of bytes that are put together and shifted.
use cozip.Base.{
  ℕ, zero, suc, ◌+◌, ◌-◌, ◌*◌, ◌/◌, ◌%◌, ◌^◌, ◌≤◌, ◌<◌, ◌≡◌, refl, ap, List, [], ◌∷◌, ◌++◌, length,
  length-append, get_or, ltb, if◌then◌else◌, arith, bit_or, Bool-cases, inl, inr, ltb→ge,
}
use cozip.Base.Bits.Digit.{
  digit, digit-bit_or, digit-div, digit-mul, digit-mul_low, digit-mod, zero-digit, digit-eq-zero,
}
use cozip.Deflate.BitCursor.Bit.{bit}
use cozip.Deflate.ChunkBits.Append.{digits_from}
use cozip.Deflate.ChunkBits.Represents.{get_or_past, bit-append}

pub bit-single : (x i : ℕ) → bit (x ∷ []) i ≡ (if ltb i 8 then digit x i else 0)
unfolding bit
bit-single x i = elim (Bool-cases (ltb i 8)) [
  | inl inside ↦
      let e : i / 8 ≡ 0 = ground (arith, inside) in
      let f : i % 8 ≡ i = ground (arith, inside) in rw (inside, e, f)
  | inr outside ↦
      let e : 1 ≤ i / 8 = ground (arith, outside) in
      rw (outside, get_or_past (x ∷ []) (i / 8) 0 e, zero-digit)
]

-- The bits of bytes and one more.
pub bit-snoc :
    (xs : List ℕ) (x i : ℕ)
    → bit (xs ++ (x ∷ [])) i ≡ (
        if ltb i (8 * length xs)
        then bit xs i
        else if ltb i (8 * length xs + 8)
        then digit x (i - 8 * length xs)
        else 0)
bit-snoc xs x i = ground (arith, bit-append xs (x ∷ []) i, bit-single x (i - 8 * length xs))

-- A shift to the left within a byte.
pub digit-shl :
    (x s j : ℕ) → j < 8 → digit (x * 2 ^ s % 2 ^ 8) j ≡ (if ltb j s then 0 else digit x (j - s))
digit-shl x s j h = rw (digit-mod 8 (x * 2 ^ s) j h) (elim (Bool-cases (ltb j s)) [
  | inl low ↦ rw (low, digit-mul_low s x j (ground (arith, low)))
  | inr high ↦
      let e : s + (j - s) ≡ j = ground (arith, high) in rw high (rw e at (digit-mul s x (j - s)))
])

pub get_or-digits_from :
    (n value shift i : ℕ)
    → get_or (digits_from n value shift) i 0 ≡ (if ltb i n then digit value (shift + i) else 0)
unfolding digits_from
get_or-digits_from zero value shift i = ground arith
get_or-digits_from (suc n) value shift zero =
    let e : shift + 0 ≡ shift = omega arith in rw e (ground arith)
get_or-digits_from (suc n) value shift (suc i) =
    let e : shift + suc i ≡ shift + 1 + i = omega arith in
    rw e (ground (arith, get_or-digits_from n value (shift + 1) i))

pub length-digits_from : (n value shift : ℕ) → length (digits_from n value shift) ≡ n
unfolding digits_from
length-digits_from zero value shift = refl
length-digits_from (suc n) value shift = ap suc (length-digits_from n value (shift + 1))

-- Which bit stands at a place, of bytes whose last one is unfinished and of two new ones.
choose :
    (n i used old merged carried byte value : ℕ)
    → used < 8
    → (i - n < 8 → merged ≡ (if ltb (i - n) used then byte else value))
    → (8 ≤ i - n → carried ≡ value)
    → (8 ≤ i - n - used → value ≡ 0)
    → (if ltb i (n + 8)
        then if ltb i n then old else if ltb i (n + 8) then merged else 0
        else if ltb i (n + 8 + 8)
        then carried
        else 0)
      ≡ (if ltb i (n + used)
          then if ltb i n then old else if ltb i (n + 8) then byte else 0
          else value)
choose n i used old merged carried byte value h m c z = ground arith

module _ (byte used value : ℕ) (h : used < 8) (v : value < 256)
    (clear : (j : ℕ) → used ≤ j → j < 8 → digit byte j ≡ 0) where
  abbrev merged : ℕ
  merged = bit_or byte (value * 2 ^ used % 2 ^ 8)

  digit-merged :
      (j : ℕ)
      → j < 8
      → digit merged j ≡ (if ltb j used then digit byte j else digit value (j - used))
  digit-merged j below =
      rw (digit-bit_or byte (value * 2 ^ used % 2 ^ 8) j, digit-shl value used j below)
        (elim (Bool-cases (ltb j used)) [
          | inl low ↦ ground (arith, low)
          | inr high ↦ ground (arith, high, clear j (ltb→ge _ _ high) below)
        ])

  digit-carried : (j : ℕ) → 8 ≤ j → digit (value / 2 ^ (8 - used)) (j - 8) ≡ digit value (j - used)
  digit-carried j above =
      let e : 8 - used + (j - 8) ≡ j - used = omega arith in
      rw e at (digit-div (8 - used) value (j - 8))

  -- Bytes whose last one is unfinished stand for the bits of the finished ones, of the unfinished
  -- one and of a new byte above it.
  pub bit-merged :
      (xs : List ℕ) (i : ℕ)
      → bit ((xs ++ (merged ∷ [])) ++ (value / 2 ^ (8 - used) ∷ [])) i ≡ (
          if ltb i (8 * length xs + used)
          then bit (xs ++ (byte ∷ [])) i
          else digit value (i - (8 * length xs + used)))
  bit-merged xs i =
      let n = 8 * length xs in
      let len : 8 * length (xs ++ (merged ∷ [])) ≡ n + 8 =
        omega (arith, length-append xs (merged ∷ [])) in
      let o : i - (n + used) ≡ i - n - used = omega arith in
      let o' : i - (n + 8) ≡ i - n - 8 = omega arith in
      rw
        (
          bit-snoc (xs ++ (merged ∷ [])) (value / 2 ^ (8 - used)) i,
          bit-snoc xs byte i,
          bit-snoc xs merged i,
          len,
          o,
          o',
        )
        (choose (8 * length xs) i used (bit xs i) (digit merged (i - n))
          (digit (value / 2 ^ (8 - used)) (i - n - 8)) (digit byte (i - n))
          (digit value (i - n - used)) h (digit-merged (i - n)) (digit-carried (i - n))
          (λ above. digit-eq-zero 8 value (i - n - used) v above))
