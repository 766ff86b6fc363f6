-- ===== src/Deflate/BitWriter.antt =====
-- `DeflateBitWriter` of cozip_deflate/src/lib.rs, and how a chunk is written with it bit by bit. The
-- inner writer is the bytes that it has taken; it takes every byte. The counters of the I/O calls
-- and their times are left out.
pub mod Bytes
pub mod Emits
pub mod Writes
pub mod Slice
pub mod Loop
pub mod Chunk
pub mod Finish
mod Tests
use cozip.Base.{
  ℕ, zero, suc, ◌+◌, ◌-◌, ◌*◌, ◌/◌, ◌%◌, ◌^◌, List, [], ◌∷◌, ◌++◌, bit_and, bit_or, ltb, leb, ◌==◌,
  ◌&&◌, if◌then◌else◌, take, drop, length,
}
use cozip.Base.Results.{ok, err, ◌>>=◌, ◌>>◌, fail_if, usize_bound}
use cozip.Deflate.BitCursor.{index, bit_at, saturating_add, saturating_mul}
use cozip.Deflate.Error.{Result, invalid_frame, panicked, stuck}
use cozip.Deflate.Layout.{DeflateStreamLayout, parse_deflate_stream_layout}

pub record DeflateBitWriter : Type 0 where
  pub inner : List ℕ
  pub byte : ℕ
  pub used : ℕ
  pub out_buf : List ℕ
  pub total_bits : ℕ

unfoldable pub new_writer : List ℕ → DeflateBitWriter
new_writer inner = record { inner = inner; byte = 0; used = 0; out_buf = []; total_bits = 0 }

unfoldable pub flush_out_buf : DeflateBitWriter → DeflateBitWriter
flush_out_buf w =
    if length w.out_buf == 0 then w else record w { inner = w.inner ++ w.out_buf; out_buf = [] }

unfoldable pub emit_byte : DeflateBitWriter → ℕ → DeflateBitWriter
unfolding flush_out_buf
emit_byte w byte =
    let w' = record w { out_buf = w.out_buf ++ (byte ∷ []) } in
    if leb (32 * 1024) (length w'.out_buf) then flush_out_buf w' else w'

-- Bytes that are joined to the buffer, which is flushed once it is long.
unfoldable pub buffer_bytes : DeflateBitWriter → List ℕ → DeflateBitWriter
unfolding flush_out_buf
buffer_bytes w bytes =
    let w' = record w { out_buf = w.out_buf ++ bytes } in
    if leb (32 * 1024) (length w'.out_buf) then flush_out_buf w' else w'

unfoldable pub emit_bytes : DeflateBitWriter → List ℕ → DeflateBitWriter
unfolding flush_out_buf buffer_bytes
emit_bytes w bytes =
    let direct = λ (v : DeflateBitWriter). record v { inner = v.inner ++ bytes } in
    let flushed = flush_out_buf w in
    if length bytes == 0
    then w
    else if length w.out_buf == 0 && leb (16 * 1024) (length bytes)
    then direct w
    else if ltb (64 * 1024) (length w.out_buf + length bytes)
    then if leb (16 * 1024) (length bytes) then direct flushed else buffer_bytes flushed bytes
    else buffer_bytes w bytes

unfoldable pub write_bit : DeflateBitWriter → ℕ → DeflateBitWriter
unfolding emit_byte
write_bit w bit =
    let byte = bit_or w.byte (bit_and bit 1 * 2 ^ w.used % 2 ^ 8) in
    let w' = record w {
      byte = byte;
      used = w.used + 1;
      total_bits = saturating_add w.total_bits 1;
    } in
    if w'.used == 8 then record (emit_byte w' w'.byte) { byte = 0; used = 0 } else w'

unfoldable pub write_byte_bits : DeflateBitWriter → ℕ → DeflateBitWriter
unfolding emit_byte
write_byte_bits w value =
    let whole = emit_byte w value in
    let merged = emit_byte w (bit_or w.byte (value * 2 ^ w.used % 2 ^ 8)) in
    if w.used == 0
    then record whole { total_bits = saturating_add whole.total_bits 8 }
    else record merged {
      byte = value / 2 ^ (8 - w.used);
      total_bits = saturating_add merged.total_bits 8;
    }

unfoldable pub read_unaligned_byte : List ℕ → ℕ → Result ℕ
read_unaligned_byte bytes bit_pos =
    let byte_pos = bit_pos / 8 in
    let shift = bit_pos % 8 in
    let aligned = index bytes byte_pos in
    let split = (do
      low ← index bytes byte_pos
      high ← index bytes (byte_pos + 1)
      ok (bit_or (low / 2 ^ shift) (high * 2 ^ (8 - shift) % 2 ^ 8))) in
    if shift == 0 then aligned else split

-- `src[start..end]`
unfoldable pub byte_range : List ℕ → ℕ → ℕ → Result (List ℕ)
byte_range src start end =
    if leb start end && leb end (length src)
    then ok (take (end - start) (drop start src))
    else err panicked

-- Whole bytes, where source and writer stand at the begin of a byte.
unfoldable pub write_bulk : DeflateBitWriter → List ℕ → ℕ → ℕ → Result DeflateBitWriter
write_bulk w src src_bit byte_count = do
  bytes ← byte_range src (src_bit / 8) (src_bit / 8 + byte_count)
  let w' = emit_bytes w bytes
  ok (record w' { total_bits = saturating_add w'.total_bits (saturating_mul byte_count 8) })

-- The rounds that are left, the next bit and the bits that are left; a round writes one at least.
unfoldable pub write_bits_loop : ℕ → DeflateBitWriter → List ℕ → ℕ → ℕ → Result DeflateBitWriter
write_bits_loop zero w src src_bit bit_len = if bit_len == 0 then ok w else err stuck
write_bits_loop (suc n) w src src_bit bit_len =
    let byte_count = bit_len / 8 in
    let bulk = (do
      w' ← write_bulk w src src_bit byte_count
      write_bits_loop n w' src (src_bit + byte_count * 8) (bit_len - byte_count * 8)) in
    let whole_byte = (do
      byte ← read_unaligned_byte src src_bit
      write_bits_loop n (write_byte_bits w byte) src (src_bit + 8) (bit_len - 8)) in
    let one_bit = (do
      bit ← bit_at src src_bit
      write_bits_loop n (write_bit w bit) src (src_bit + 1) (bit_len - 1)) in
    if bit_len == 0
    then ok w
    else if (w.used == 0 && src_bit % 8 == 0) && leb 8 bit_len
    then bulk
    else if leb 8 bit_len
    then whole_byte
    else one_bit

unfoldable pub write_bits_from_slice : DeflateBitWriter → List ℕ → ℕ → ℕ → Result DeflateBitWriter
write_bits_from_slice w src src_bit bit_len = write_bits_loop bit_len w src src_bit bit_len

unfoldable pub finish : DeflateBitWriter → DeflateBitWriter
unfolding emit_byte flush_out_buf
finish w =
    let padded = record (emit_byte w w.byte) { byte = 0; used = 0 } in
    flush_out_buf (if ltb 0 w.used then padded else w)

unfoldable pub write_chunk_bits_with_final_override :
    DeflateBitWriter → List ℕ → DeflateStreamLayout → ℕ → Result DeflateBitWriter
write_chunk_bits_with_final_override w chunk layout desired =
    let written = (do
      fail_if (leb layout.end_bit layout.final_header_bit)
          (invalid_frame "invalid deflate layout: final header bit out of range")
      let desired_final = bit_and desired 1
      current_final ← bit_at chunk layout.final_header_bit
      let unchanged = write_bits_from_slice w chunk 0 layout.end_bit
      let changed = (do
        w' ←
            if ltb 0 layout.final_header_bit
            then write_bits_from_slice w chunk 0 layout.final_header_bit
            else ok w
        let w'' = write_bit w' desired_final
        let tail_start = layout.final_header_bit + 1
        if ltb tail_start layout.end_bit
            then write_bits_from_slice w'' chunk tail_start (layout.end_bit - tail_start)
            else ok w'')
      if current_final == desired_final then unchanged else changed) in
    if layout.end_bit == 0 then ok w else written

unfoldable pub append_deflate_chunk_as_block_sequence_with_layout :
    DeflateBitWriter → List ℕ → DeflateStreamLayout → ℕ → Result DeflateBitWriter
append_deflate_chunk_as_block_sequence_with_layout w chunk layout is_final_chunk =
    let written = (do
      fail_if (leb layout.end_bit layout.final_header_bit)
          (invalid_frame "invalid deflate layout: final header bit out of range")
      write_chunk_bits_with_final_override w chunk layout is_final_chunk) in
    if layout.end_bit == 0 then ok w else written

unfoldable pub append_deflate_chunk_as_block_sequence :
    DeflateBitWriter → List ℕ → ℕ → Result DeflateBitWriter
append_deflate_chunk_as_block_sequence w chunk is_final_chunk = do
  layout ← parse_deflate_stream_layout chunk
  append_deflate_chunk_as_block_sequence_with_layout w chunk layout is_final_chunk

-- `while writer.used != 0`; every bit brings the writer one place on, so that 8 rounds are enough.
unfoldable pub write_pad_loop : ℕ → DeflateBitWriter → Result DeflateBitWriter
write_pad_loop zero w = if w.used == 0 then ok w else err stuck
write_pad_loop (suc n) w =
    let rest = write_pad_loop n (write_bit w 0) in if w.used == 0 then ok w else rest

unfoldable pub append_empty_stored_block_non_final : DeflateBitWriter → Result DeflateBitWriter
append_empty_stored_block_non_final w = do
  let w₁ = write_bit (write_bit (write_bit w 0) 0) 0
  w₂ ← write_pad_loop 8 w₁
  let w₃ = write_byte_bits (write_byte_bits w₂ 0x00) 0x00
  ok (write_byte_bits (write_byte_bits w₃ 0xff) 0xff)
