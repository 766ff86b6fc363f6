-- ===== src/Deflate/BitRange.antt =====
-- `copy_bit_range` of cozip_deflate/src/lib.rs: a run of bits of a byte string, as bytes of its own.
pub mod Copied
mod Tests
use cozip.Base.{
  ℕ, zero, suc, ◌+◌, ◌-◌, ◌*◌, ◌/◌, ◌%◌, ◌^◌, List, [], ◌∷◌, ◌++◌, bit_and, bit_or, ltb, ◌==◌, ◌||◌,
  if◌then◌else◌, get_or, length,
}
use cozip.Base.Results.{ok, ◌>>=◌, ◌>>◌, fail_if}
use cozip.Deflate.BitCursor.{index, saturating_mul}
use cozip.Deflate.BitWriter.{byte_range}
use cozip.Deflate.Error.{Result, invalid_frame}

-- The bytes from the place `at` on, each put together from two.
unfoldable pub shift_loop : ℕ → List ℕ → ℕ → ℕ → Result (List ℕ)
shift_loop zero src at bit_shift = ok []
shift_loop (suc n) src at bit_shift = do
  low ← index src at
  rest ← shift_loop n src (at + 1) bit_shift
  ok (bit_or (low / 2 ^ bit_shift) (get_or src (at + 1) 0 * 2 ^ (8 - bit_shift) % 2 ^ 8) ∷ rest)

-- `last_mut`, with the bits above `tail_bits` cleared.
unfoldable pub mask_last : ℕ → List ℕ → List ℕ
mask_last tail_bits [] = []
mask_last tail_bits (byte ∷ []) = bit_and byte (2 ^ tail_bits - 1) ∷ []
mask_last tail_bits (byte ∷ (next ∷ out)) = byte ∷ mask_last tail_bits (next ∷ out)

unfoldable pub copy_aligned : List ℕ → ℕ → ℕ → Result (List ℕ)
copy_aligned src src_byte bit_len =
    let full_bytes = bit_len / 8 in
    let tail_bits = bit_len % 8 in
    do
      out ← byte_range src src_byte (src_byte + full_bytes)
      let with_tail = (do
        last ← index src (src_byte + full_bytes)
        ok (out ++ (bit_and last (2 ^ tail_bits - 1) ∷ [])))
      if tail_bits == 0 then ok out else with_tail

unfoldable pub copy_shifted : List ℕ → ℕ → ℕ → ℕ → Result (List ℕ)
copy_shifted src src_byte bit_shift bit_len = do
  out ← shift_loop ((bit_len + 7) / 8) src src_byte bit_shift
  ok (if bit_len % 8 == 0 then out else mask_last (bit_len % 8) out)

unfoldable pub copy_bit_range : List ℕ → ℕ → ℕ → Result (List ℕ)
copy_bit_range src start_bit bit_len = do
  let total_bits = saturating_mul (length src) 8
  fail_if (ltb total_bits start_bit || ltb (total_bits - start_bit) bit_len)
      (invalid_frame "indexed chunk bit range is out of bounds")
  let aligned = copy_aligned src (start_bit / 8) bit_len
  let shifted = copy_shifted src (start_bit / 8) (start_bit % 8) bit_len
  if bit_len == 0 then ok [] else if start_bit % 8 == 0 then aligned else shifted
