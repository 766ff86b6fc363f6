-- ===== src/Deflate/ChunkBits.antt =====
-- How a chunk of cozip_deflate/src/lib.rs is made to stand inside a longer stream: its last block is
-- marked as not the last, and an empty stored block leads to the next byte. The bits are a Vec of
-- bytes and a number of bits, and both are returned.
pub mod Represents
pub mod Append
pub mod Prepare
pub mod Connector
pub mod Join
mod Tests
use cozip.Base.{
  ℕ, zero, suc, ◌+◌, ◌-◌, ◌*◌, ◌/◌, ◌%◌, ◌^◌, List, [], ◌∷◌, ◌++◌, bit_and, bit_or, bit_xor, ltb,
  leb, ◌==◌, if◌then◌else◌, set, take, length,
}
use cozip.Base.Results.{ok, err, ◌>>=◌, ◌>>◌, fail_if}
use cozip.Deflate.BitCursor.{index}
use cozip.Deflate.Error.{Result, invalid_frame, stuck}
use cozip.Deflate.Layout.{DeflateStreamLayout}

abbrev pub Bits : Type 0
Bits = List ℕ × ℕ

unfoldable pub append_bit_to_vec_lsb : Bits → ℕ → Result Bits
append_bit_to_vec_lsb (bits, bit_len) bit =
    let byte_index = bit_len / 8 in
    let bits' = if byte_index == length bits then bits ++ (0 ∷ []) else bits in
    let marked = index bits' byte_index >>= λ byte.
    ok (set bits' byte_index (bit_or byte (2 ^ (bit_len % 8))), bit_len + 1) in
    if bit_and bit 1 == 1 then marked else ok (bits', bit_len + 1)

-- The rounds that are left, and the next shift.
unfoldable pub append_byte_loop : ℕ → Bits → ℕ → ℕ → Result Bits
append_byte_loop zero bits value shift = ok bits
append_byte_loop (suc n) bits value shift = do
  bits' ← append_bit_to_vec_lsb bits (bit_and (value / 2 ^ shift) 1)
  append_byte_loop n bits' value (shift + 1)

unfoldable pub append_byte_to_vec_lsb : Bits → ℕ → Result Bits
append_byte_to_vec_lsb bits value = append_byte_loop 8 bits value 0

-- At most seven rounds lead to the next byte.
unfoldable pub pad_to_byte : ℕ → Bits → Result Bits
pad_to_byte zero bits = err stuck
pad_to_byte (suc n) bits =
    let more = append_bit_to_vec_lsb bits 0 >>= pad_to_byte n in
    if bits.1 % 8 == 0 then ok bits else more

unfoldable pub append_empty_stored_block_non_final_bits : Bits → Result Bits
append_empty_stored_block_non_final_bits bits = do
  b₁ ← append_bit_to_vec_lsb bits 0
  b₂ ← append_bit_to_vec_lsb b₁ 0
  b₃ ← append_bit_to_vec_lsb b₂ 0
  b₄ ← pad_to_byte 8 b₃
  b₅ ← append_byte_to_vec_lsb b₄ 0x00
  b₆ ← append_byte_to_vec_lsb b₅ 0x00
  b₇ ← append_byte_to_vec_lsb b₆ 0xff
  append_byte_to_vec_lsb b₇ 0xff

-- The chunk as it is left, and the number of its bits.
unfoldable pub prepare_chunk_bits_for_non_final_stream : List ℕ → DeflateStreamLayout → Result Bits
prepare_chunk_bits_for_non_final_stream chunk layout =
    let prepared = (do
      fail_if (leb layout.end_bit layout.final_header_bit)
          (invalid_frame "invalid deflate layout: final header bit out of range")
      let required_bytes = (layout.end_bit + 7) / 8
      fail_if (ltb (length chunk) required_bytes)
          (invalid_frame "chunk shorter than declared deflate layout")
      let chunk' = take required_bytes chunk
      let byte_index = layout.final_header_bit / 8
      let bit_mask = 2 ^ (layout.final_header_bit % 8)
      byte ← index chunk' byte_index
      let chunk'' = set chunk' byte_index (bit_and byte (bit_xor bit_mask 0xff))
      if layout.end_bit % 8 == 0
          then ok (chunk'', layout.end_bit)
          else append_empty_stored_block_non_final_bits (chunk'', layout.end_bit)) in
    if layout.end_bit == 0 then ok (chunk, 0) else prepared
