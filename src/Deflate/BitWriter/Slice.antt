-- ===== src/Deflate/BitWriter/Slice.antt =====
-- Bits that are read from a byte string eight at a time.
use cozip.Base.{
  ℕ, zero, suc, ◌+◌, ◌-◌, ◌*◌, ◌/◌, ◌%◌, ◌^◌, ◌≤◌, ◌<◌, ◌≡◌, refl, ap, List, [], ◌∷◌, ◌++◌, length,
  get_or, ◌==◌, arith, bit_or, Bool-cases, inl, inr,
}
use native.Mathlib.Nat.{div-le_self}
use cozip.Base.Bits.Digit.{digit, digit-bit_or, digit-div, digit-eq-zero, bit_or-lt}
use cozip.Base.Le.{IsBytes}
use cozip.Base.Returns.{Returns}
use cozip.Deflate.BitCursor.Bit.{bit, bit-lt, bits_of}
use cozip.Deflate.BitWriter.{read_unaligned_byte}
use cozip.Deflate.BitWriter.Bytes.{digit-shl}
use cozip.Deflate.ChunkBits.Append.{digits_from}
use cozip.Deflate.ChunkBits.Represents.{index-get_or}

-- A byte with the eight bits from a place on.
abbrev pub IsBits8 : List ℕ → ℕ → ℕ → Type 0
IsBits8 src pos byte = (byte < 256) × ((j : ℕ) → j < 8 → digit byte j ≡ bit src (pos + j))

get_or-IsByte : (src : List ℕ) (i : ℕ) → IsBytes src → get_or src i 0 < 256
get_or-IsByte [] i h = omega arith
get_or-IsByte (x ∷ src) zero h = h.0
get_or-IsByte (x ∷ src) (suc i) h = get_or-IsByte src i h.1

module _ (src : List ℕ) (pos : ℕ) (bytes : IsBytes src) where
  abbrev low : ℕ
  low = get_or src (pos / 8) 0

  abbrev high : ℕ
  high = get_or src (pos / 8 + 1) 0

  abbrev split : ℕ
  split = bit_or (low / 2 ^ (pos % 8)) (high * 2 ^ (8 - pos % 8) % 2 ^ 8)

  low_part : (j : ℕ) → pos % 8 + j < 8 → digit low (pos % 8 + j) ≡ bit src (pos + j)
  unfolding bit
  low_part j h =
      let e : (pos + j) / 8 ≡ pos / 8 = omega arith in
      let f : (pos + j) % 8 ≡ pos % 8 + j = omega arith in rw (e, f)

  high_part : (j : ℕ) → 8 ≤ pos % 8 + j → j < 8 → digit high (j - (8 - pos % 8)) ≡ bit src (pos + j)
  unfolding bit
  high_part j h below =
      let e : (pos + j) / 8 ≡ pos / 8 + 1 = omega arith in
      let f : (pos + j) % 8 ≡ j - (8 - pos % 8) = omega arith in rw (e, f)

  pub split-IsBits8 : IsBits8 src pos split
  split-IsBits8 =
      let small = get_or-IsByte src (pos / 8) bytes in
      (
        bit_or-lt 8 _ _ (omega (arith, small, div-le_self low (2 ^ (pos % 8)))) (omega arith),
        λ j h.
            rw
              (
                digit-bit_or (low / 2 ^ (pos % 8)) (high * 2 ^ (8 - pos % 8) % 2 ^ 8) j,
                digit-div (pos % 8) low j,
                digit-shl high (8 - pos % 8) j h,
              )
              (ground (
                arith,
                bit-lt src (pos + j),
                low_part j,
                high_part j,
                digit-eq-zero 8 low (pos % 8 + j) small,
              )),
      )

  pub read_unaligned_byte-Returns :
      pos + 8 ≤ 8 * length src → Returns (read_unaligned_byte src pos) (IsBits8 src pos)
  unfolding read_unaligned_byte
  read_unaligned_byte-Returns room =
      let at = index-get_or src (pos / 8) 0 (omega arith) in
      elim (Bool-cases (pos % 8 == 0)) [
        | inl aligned ↦
            rw (aligned, at)
              (
                get_or-IsByte src (pos / 8) bytes,
                λ j h.
                    let e : pos % 8 + j ≡ j = ground (arith, aligned) in
                    rw e at (low_part j (ground (arith, aligned))),
              )
        | inr unaligned ↦
            let next = index-get_or src (pos / 8 + 1) 0 (ground (arith, unaligned)) in
            rw (unaligned, at, next) split-IsBits8
      ]

pub bits_of-append :
    (src : List ℕ) (pos n m : ℕ)
    → bits_of src pos n ++ bits_of src (pos + n) m ≡ bits_of src pos (n + m)
unfolding bits_of
bits_of-append src pos zero m =
    let e : pos + 0 ≡ pos = omega arith in let f : 0 + m ≡ m = omega arith in rw (e, f)
bits_of-append src pos (suc n) m =
    let e : pos + suc n ≡ pos + 1 + n = omega arith in
    let f : suc n + m ≡ suc (n + m) = omega arith in
    rw (e, f) (ap (λ (l : List ℕ). bit src pos ∷ l) (bits_of-append src (pos + 1) n m))

pub digits_from-bits_of :
    (src : List ℕ) (pos value : ℕ) (n shift : ℕ)
    → ((j : ℕ) → j < n → digit value (shift + j) ≡ bit src (pos + j))
    → digits_from n value shift ≡ bits_of src pos n
unfolding digits_from bits_of
digits_from-bits_of src pos value zero shift same = refl
digits_from-bits_of src pos value (suc n) shift same =
    let e : shift + 0 ≡ shift = omega arith in
    let f : pos + 0 ≡ pos = omega arith in
    let rest = digits_from-bits_of src (pos + 1) value n (shift + 1) (λ j h.
      let e' : shift + suc j ≡ shift + 1 + j = omega arith in
      let f' : pos + suc j ≡ pos + 1 + j = omega arith in
      rw (e', f') at (same (suc j) (omega arith))) in
    rw (rest, rw (e, f) at (same 0 (omega arith)))
