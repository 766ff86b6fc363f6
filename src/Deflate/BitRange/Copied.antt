-- ===== src/Deflate/BitRange/Copied.antt =====
-- `copy_bit_range` returns the run of bits that it is asked for.
use cozip.Base.{
  ℕ, zero, suc, ◌+◌, ◌-◌, ◌*◌, ◌/◌, ◌%◌, ◌^◌, ◌≤◌, ◌<◌, ◌≡◌, refl, ap, List, [], ◌∷◌, length,
  length-append, length-take, length-drop, get_or, ltb, leb, ◌==◌, ◌||◌, ◌&&◌, if◌then◌else◌, arith,
  Bool, true, false, Bool-cases, inl, inr, ◌∙◌, take, drop, bit_and, lt→ltb, ge→ltb,
}
use native.Mathlib.Nat.{mod-lt, one-le-pow}
use cozip.Base.Bits.{bit_and_mask}
use cozip.Base.Bits.Digit.{digit, digit-mod, digit-eq-zero}
use cozip.Base.Le.{IsBytes}
use cozip.Base.Results.{err, usize_bound}
use cozip.Base.Returns.{Returns, Returns->>=, Returns-if}
use cozip.Deflate.BitCursor.{saturating_mul}
use cozip.Deflate.BitCursor.Bit.{bit, bits_of, length-bits_of, get_or-bits_of}
use cozip.Deflate.BitRange.{shift_loop, mask_last, copy_aligned, copy_shifted, copy_bit_range}
use cozip.Deflate.BitWriter.{byte_range}
use cozip.Deflate.BitWriter.Bytes.{bit-single, bit-snoc}
use cozip.Deflate.BitWriter.Finish.{bit_past}
use cozip.Deflate.BitWriter.Loop.{bit-byte_range}
use cozip.Deflate.BitWriter.Slice.{split-IsBits8}
use cozip.Deflate.ChunkBits.Represents.{Represents, bit-append, index-get_or}
use cozip.Deflate.Error.{invalid_frame}

bit-cons :
    (x : ℕ) (xs : List ℕ) (i : ℕ) → bit (x ∷ xs) i ≡ (if ltb i 8 then digit x i else bit xs (i - 8))
bit-cons x xs i = ground (arith, bit-append (x ∷ []) xs i, bit-single x i)

-- The low digits of a byte.
digit-masked :
    (byte tail j : ℕ)
    → digit (bit_and byte (2 ^ tail - 1)) j ≡ (if ltb j tail then digit byte j else 0)
digit-masked byte tail j = rw (bit_and_mask tail byte) (elim (Bool-cases (ltb j tail)) [
  | inl low ↦ rw low (digit-mod tail byte j (ground (arith, low)))
  | inr high ↦ rw high (
      digit-eq-zero tail (byte % 2 ^ tail) j (mod-lt byte (one-le-pow tail 2 (omega arith)))
        (ground (arith, high)))
])

-- Bytes with the bits of a byte string from a place on, as far as they go.
abbrev HasRun : List ℕ → ℕ → ℕ → List ℕ → Type 0
HasRun src pos n out = (length out ≡ n) × ((i : ℕ) → i < 8 * n → bit out i ≡ bit src (pos + i))

shift_loop-Returns :
    (n : ℕ) (src : List ℕ) (pos : ℕ)
    → IsBytes src
    → pos / 8 + n ≤ length src
    → Returns (shift_loop n src (pos / 8) (pos % 8)) (HasRun src pos n)
unfolding shift_loop
shift_loop-Returns zero src pos bytes room = (refl, λ i h. absurd (omega arith))
shift_loop-Returns (suc n) src pos bytes room =
    let next : (pos + 8) / 8 ≡ pos / 8 + 1 = omega arith in
    let shift : (pos + 8) % 8 ≡ pos % 8 = omega arith in
    let rest = rw (next, shift) at (shift_loop-Returns n src (pos + 8) bytes (omega arith)) in
    let byte = split-IsBits8 src pos bytes in
    rw (index-get_or src (pos / 8) 0 (omega arith)) (
      Returns->>= (HasRun src (pos + 8) n) (HasRun src pos (suc n)) _ _ rest (λ out (len, same). (
        omega (arith, len),
        λ i h.
            let e : i - 8 + 8 ≡ 8 + (i - 8) = omega arith in
            rw (bit-cons _ out i) (elim (Bool-cases (ltb i 8)) [
              | inl first ↦ rw first (byte.1 i (ground (arith, first)))
              | inr later ↦
                  let f : pos + i ≡ pos + 8 + (i - 8) = ground (arith, later) in
                  rw (later, f) (same (i - 8) (ground (arith, later)))
            ]),
      )))

mask_last-bit :
    (tail : ℕ) (out : List ℕ) (n i : ℕ)
    → length out ≡ suc n
    → tail < 8
    → bit (mask_last tail out) i ≡ (if ltb i (8 * n + tail) then bit out i else 0)
unfolding mask_last
mask_last-bit tail [] n i len h = absurd (omega (arith, len))
mask_last-bit tail (byte ∷ []) n i len h =
    let e : n ≡ 0 = omega (arith, len) in
    rw (e, bit-single (bit_and byte (2 ^ tail - 1)) i, bit-single byte i)
      (ground (arith, digit-masked byte tail i))
mask_last-bit tail (byte ∷ (next ∷ out)) zero i len h = absurd (omega (arith, len))
mask_last-bit tail (byte ∷ (next ∷ out)) (suc n) i len h =
    rw (bit-cons byte (mask_last tail (next ∷ out)) i, bit-cons byte (next ∷ out) i)
      (ground (arith, mask_last-bit tail (next ∷ out) n (i - 8) (omega (arith, len)) h))

length-mask_last : (tail : ℕ) (out : List ℕ) → length (mask_last tail out) ≡ length out
unfolding mask_last
length-mask_last tail [] = refl
length-mask_last tail (byte ∷ []) = refl
length-mask_last tail (byte ∷ (next ∷ out)) = ap suc (length-mask_last tail (next ∷ out))

module _ (src : List ℕ) (start bit_len : ℕ) (bytes : IsBytes src) (some_bits : 0 < bit_len)
    (room : start + bit_len ≤ 8 * length src) where
  abbrev IsCopy : List ℕ → Type 0
  IsCopy out = Represents out (bits_of src start bit_len)

  run_bit :
      (i : ℕ)
      → get_or (bits_of src start bit_len) i 0 ≡ (if ltb i bit_len then bit src (start + i) else 0)
  run_bit i = get_or-bits_of src start bit_len i

  copy_shifted-Returns : Returns (copy_shifted src (start / 8) (start % 8) bit_len) IsCopy
  unfolding copy_shifted
  copy_shifted-Returns =
      let n = (bit_len + 7) / 8 in
      let tail = bit_len % 8 in
      let l = length-bits_of src start bit_len in
      Returns->>= (HasRun src start n) IsCopy _ _
        (shift_loop-Returns n src start bytes (omega arith))
        (λ out (len, same). elim (Bool-cases (tail == 0)) [
          | inl whole ↦ rw whole (record {
            size = omega (arith, len, l);
            same = λ i. rw (run_bit i) (ground (arith, whole, len, same i, bit_past out i));
          })
          | inr part ↦ rw part (record {
            size = omega (arith, length-mask_last tail out, len, l);
            same = λ i.
                rw (run_bit i, mask_last-bit tail out (n - 1) i (omega (arith, len)) (omega arith))
                  (ground (arith, part, same i));
          })
        ])

  last_part :
      start % 8 ≡ 0
      → (i : ℕ) → 8 * (bit_len / 8) ≤ i
      → i < bit_len
      → digit (get_or src (start / 8 + bit_len / 8) 0) (i - 8 * (bit_len / 8)) ≡ bit src (start + i)
  unfolding bit
  last_part aligned i from to =
      let e : (start + i) / 8 ≡ start / 8 + bit_len / 8 = omega arith in
      let f : (start + i) % 8 ≡ i - 8 * (bit_len / 8) = omega arith in rw (e, f)

  copy_aligned-Returns : start % 8 ≡ 0 → Returns (copy_aligned src (start / 8) bit_len) IsCopy
  unfolding copy_aligned byte_range
  copy_aligned-Returns aligned =
      let k = start / 8 in
      let n = bit_len / 8 in
      let tail = bit_len % 8 in
      let l = length-bits_of src start bit_len in
      let last = get_or src (k + n) 0 in
      let masked = bit_and last (2 ^ tail - 1) in
      let inside : (leb k (k + n) && leb (k + n) (length src)) ≡ true = ground arith in
      let whole_bytes : List ℕ = take (k + n - k) (drop k src) in
      let len : length whole_bytes ≡ n =
        omega (arith, length-take (k + n - k) (drop k src), length-drop k src) in
      rw inside (elim (Bool-cases (tail == 0)) [
        | inl whole ↦ rw whole (record {
          size = ground (arith, len, l, whole);
          same = λ i. rw (run_bit i, bit-byte_range src start n aligned i) (ground (arith, whole));
        })
        | inr part ↦ rw part (
            rw (index-get_or src (k + n) 0 (ground (arith, part))) (record {
              size = ground (arith, part, len, l, length-append whole_bytes (masked ∷ []));
              same = λ i.
                  rw
                    (
                      run_bit i,
                      bit-snoc whole_bytes masked i,
                      len,
                      bit-byte_range src start n aligned i,
                      digit-masked last tail (i - 8 * n),
                    )
                    (ground (arith, part, last_part aligned i));
            }))
      ])

range_test : List ℕ → ℕ → ℕ → Bool
range_test src start bit_len =
    ltb (saturating_mul (length src) 8) start || ltb (saturating_mul (length src) 8 - start) bit_len

range_test-cases :
    (src : List ℕ) (start bit_len : ℕ)
    → 8 * length src < usize_bound
    → range_test src start bit_len ≡ ltb (8 * length src) (start + bit_len)
unfolding range_test
range_test-cases src start bit_len short = ground arith

-- `copy_bit_range` on a run of bits that lies inside a byte string does not fail, and returns bytes
-- that stand for the run: as many as it needs, and 0 behind its end. The byte string has fewer than
-- 2 ^ 61 bytes.
pub copy_bit_range-Represents :
    (src : List ℕ) (start bit_len : ℕ)
    → IsBytes src
    → 8 * length src < usize_bound
    → start + bit_len ≤ 8 * length src
    → Returns (copy_bit_range src start bit_len) (λ out. Represents out (bits_of src start bit_len))
unfolding copy_bit_range range_test
copy_bit_range-Represents src start bit_len bytes short room =
    let inside : range_test src start bit_len ≡ false =
      range_test-cases src start bit_len short ∙ ge→ltb (8 * length src) (start + bit_len) room in
    rw inside (elim (Bool-cases (bit_len == 0)) [
      | inl none ↦ rw none (record {
        size = ground (arith, none, length-bits_of src start bit_len);
        same = λ i. rw (get_or-bits_of src start bit_len i) (ground (arith, none, bit_past [] i));
      })
      | inr some_bits ↦
          let positive : 0 < bit_len = ground (arith, some_bits) in
          rw some_bits (
            Returns-if (λ out. Represents out (bits_of src start bit_len)) (start % 8 == 0) _ _
              (λ h. copy_aligned-Returns src start bit_len bytes positive room (ground (arith, h)))
              (λ h. copy_shifted-Returns src start bit_len bytes positive room))
    ])

-- `copy_bit_range` on a run of bits that reaches behind the end of a byte string returns its error,
-- whatever the bits. The byte string has fewer than 2 ^ 61 bytes.
pub copy_bit_range-past :
    (src : List ℕ) (start bit_len : ℕ)
    → 8 * length src < usize_bound
    → 8 * length src < start + bit_len
    → copy_bit_range src start bit_len
      ≡ err (invalid_frame "indexed chunk bit range is out of bounds")
unfolding copy_bit_range range_test
copy_bit_range-past src start bit_len short past =
    let outside : range_test src start bit_len ≡ true =
      range_test-cases src start bit_len short ∙ lt→ltb (8 * length src) (start + bit_len) past in
    rw outside
