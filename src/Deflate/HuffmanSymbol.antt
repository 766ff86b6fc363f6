-- ===== src/Deflate/HuffmanSymbol.antt =====
-- `decode_huffman_symbol` of cozip_deflate/src/lib.rs.
pub mod Local
pub mod Safe
use cozip.Base.{
  ℕ, zero, suc, ◌+◌, ◌-◌, ◌*◌, ◌%◌, ◌^◌, bit_or, ltb, leb, ◌==◌, ◌&&◌, if◌then◌else◌, get_elem?,
}
use cozip.Base.Results.{err, ok_or, fail_if}
use cozip.Deflate.BitCursor.{Read, lift, ◌>>=◌, ◌>>◌, read_bit, index, saturating_add}
use cozip.Deflate.Error.{invalid_frame}
use cozip.Deflate.HuffmanDecoder.{HuffmanDecoder}

-- The rounds that are left, the length of the code so far, the code, the first code of this length
-- and its place in the table. `<<` drops what leaves the 32 bits.
unfoldable pub decode_symbol_loop : ℕ → HuffmanDecoder → ℕ → ℕ → ℕ → ℕ → Read ℕ
decode_symbol_loop zero decoder len code first idx =
    lift (err (invalid_frame "failed to decode huffman symbol"))
decode_symbol_loop (suc n) decoder len code first idx = do
  bit ← read_bit
  let code' = bit_or code bit
  count ← lift (index decoder.counts len)
  let found = lift (
      ok_or (get_elem? decoder.symbols (saturating_add idx (code' - first)))
        (invalid_frame "huffman symbol lookup out of range"))
  let longer =
      decode_symbol_loop n decoder (len + 1) (code' * 2 % 2 ^ 32) ((first + count) * 2 % 2 ^ 32)
        (saturating_add idx count)
  if leb first code' && ltb (code' - first) count then found else longer

unfoldable pub decode_huffman_symbol : HuffmanDecoder → Read ℕ
decode_huffman_symbol decoder = do
  lift (fail_if (decoder.max_bits == 0) (invalid_frame "empty huffman table"))
  decode_symbol_loop decoder.max_bits decoder 1 0 0 0
