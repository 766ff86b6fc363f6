-- ===== src/Deflate/BitCursor/Value.antt =====
-- The number that `read_bits` makes of bits that are all 0 or all 1.
use native.Mathlib.Nat.{one-le-pow}
use cozip.Base.{ℕ, zero, suc, ◌+◌, ◌-◌, ◌*◌, ◌%◌, ◌^◌, ◌≤◌, ◌<◌, ◌≡◌, List, length, bit_or, arith}
use cozip.Base.Bits.{bit_or-zero}
use cozip.Base.Results.{ok}
use cozip.Deflate.BitCursor.{◌>>=◌, read_bits_loop, read_bits, skip_bits}
use cozip.Deflate.BitCursor.Bit.{bit}
use cozip.Deflate.BitCursor.Local.{IsShort, read_bit-bit}
use cozip.Deflate.BitCursor.Safe.{joined, pow_next}

module _ (bytes : List ℕ) (short : IsShort bytes) where
  read_bits_loop_zeros :
      (n s value pos : ℕ)
      → pos + n ≤ 8 * length bytes
      → ((j : ℕ) → j < n → bit bytes (pos + j) ≡ 0)
      → read_bits_loop n s value bytes pos ≡ ok (value, pos + n)
  unfolding read_bits_loop ◌>>=◌
  read_bits_loop_zeros zero s value pos room all = let e : pos + 0 ≡ pos = omega arith in rw e
  read_bits_loop_zeros (suc n) s value pos room all =
      let here : pos + 0 ≡ pos = omega arith in
      let clear : bit bytes pos ≡ 0 = rw here at (all 0 (omega arith)) in
      let none : 0 * 2 ^ s % 2 ^ 32 ≡ 0 = omega arith in
      let e : pos + suc n ≡ pos + 1 + n = omega arith in
      rw (read_bit-bit bytes pos short (omega arith), clear, none, bit_or-zero value, e)
        (read_bits_loop_zeros n (s + 1) value (pos + 1) (omega arith) (λ j h.
          let f : pos + 1 + j ≡ pos + (j + 1) = omega arith in rw f (all (j + 1) (omega arith))))

  read_bits_loop_ones :
      (n s pos : ℕ)
      → s + n ≤ 32
      → pos + n ≤ 8 * length bytes
      → ((j : ℕ) → j < n → bit bytes (pos + j) ≡ 1)
      → read_bits_loop n s (2 ^ s - 1) bytes pos ≡ ok (2 ^ (s + n) - 1, pos + n)
  unfolding read_bits_loop ◌>>=◌
  read_bits_loop_ones zero s pos fits room all =
      let e : pos + 0 ≡ pos = omega arith in let f : s + 0 ≡ s = omega arith in rw (e, f)
  read_bits_loop_ones (suc n) s pos fits room all =
      let here : pos + 0 ≡ pos = omega arith in
      let marked : bit bytes pos ≡ 1 = rw here at (all 0 (omega arith)) in
      let e : pos + suc n ≡ pos + 1 + n = omega arith in
      let f : s + suc n ≡ s + 1 + n = omega arith in
      let value : bit_or (2 ^ s - 1) (1 * 2 ^ s % 2 ^ 32) ≡ 2 ^ (s + 1) - 1 = omega (
        arith,
        joined s (2 ^ s - 1) 1 (omega arith) (omega (arith, one-le-pow s 2)) (omega arith),
        pow_next s,
        one-le-pow s 2,
      ) in
      rw (read_bit-bit bytes pos short (omega arith), marked, value, e, f)
        (read_bits_loop_ones n (s + 1) (pos + 1) (omega arith) (omega arith) (λ j h.
          let f : pos + 1 + j ≡ pos + (j + 1) = omega arith in rw f (all (j + 1) (omega arith))))

  pub read_bits_zeros :
      (n pos : ℕ)
      → pos + n ≤ 8 * length bytes
      → ((j : ℕ) → j < n → bit bytes (pos + j) ≡ 0)
      → read_bits n bytes pos ≡ ok (0, pos + n)
  unfolding read_bits
  read_bits_zeros n pos room all = read_bits_loop_zeros n 0 0 pos room all

  pub read_bits_ones :
      (n pos : ℕ)
      → n ≤ 32
      → pos + n ≤ 8 * length bytes
      → ((j : ℕ) → j < n → bit bytes (pos + j) ≡ 1)
      → read_bits n bytes pos ≡ ok (2 ^ n - 1, pos + n)
  unfolding read_bits
  read_bits_ones n pos fits room all =
      let e : 0 + n ≡ n = omega arith in
      rw e at (read_bits_loop_ones n 0 pos (omega arith) room all)

  pub skip_bits_none : (pos : ℕ) → pos ≤ 8 * length bytes → skip_bits 0 bytes pos ≡ ok (tt, pos)
  unfolding skip_bits
  skip_bits_none pos room = ground arith
