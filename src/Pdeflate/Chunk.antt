-- ===== src/Pdeflate/Chunk.antt =====
-- The payload of a chunk: its header, its flags, its section index, and how the encoder packs it
-- (`pack_chunk_payload_cpu`, `set_chunk_final_stream_flag`, `write_stream_chunk_frame` and the plain
-- layout of `finalize_chunk_from_table`, in cozip_pdeflate/src/pdeflate/mod.rs).
pub mod Flags
mod Tests
pub mod Decode
pub mod Sections
pub mod Layout
pub mod RoundTrip
use cozip.Base.{
  ℕ, zero, suc, ◌+◌, ◌-◌, ◌*◌, ◌/◌, List, [], ◌∷◌, ◌++◌, Bool, bit_and, bit_or, not, ltb, ◌==◌,
  if◌then◌else◌, length, take, drop, get_or, list_eq,
}
use cozip.Base.Le.{to_le_bytes, from_le_bytes}
use cozip.Base.Results.{ok, err, ◌>>=◌, ◌>>◌, fail_if, ok_or, checked_add, checked_mul, try_from}
use cozip.Pdeflate.Cursor.{write_u16_le, write_u32_le}
use cozip.Pdeflate.Error.{Result, invalid_stream, numeric_overflow}
use cozip.Pdeflate.Table.{serialize_table_entries}
use cozip.Pdeflate.Varint.{write_varint_u32}

-- `b"PDF0"`
abbrev pub chunk_magic : List ℕ
chunk_magic = 0x50 ∷ 0x44 ∷ 0x46 ∷ 0x30 ∷ []

abbrev pub chunk_version : ℕ
chunk_version = 0

abbrev pub chunk_flag_huffman : ℕ
chunk_flag_huffman = 1

abbrev pub chunk_flag_final_stream : ℕ
chunk_flag_final_stream = 2

abbrev pub chunk_header_size : ℕ
chunk_header_size = 36

abbrev pub max_table_id : ℕ
max_table_id = 0x0ffe

unfoldable pub chunk_huffman_enabled : ℕ → Bool
chunk_huffman_enabled flags = not (bit_and flags chunk_flag_huffman == 0)

unfoldable pub chunk_final_stream_enabled : ℕ → Bool
chunk_final_stream_enabled flags = not (bit_and flags chunk_flag_final_stream == 0)

unfoldable pub read_chunk_flags : List ℕ → Result ℕ
read_chunk_flags payload = do
  fail_if (ltb (length payload) 8) (invalid_stream "chunk header truncated")
  ok (from_le_bytes (get_or payload 6 0 ∷ get_or payload 7 0 ∷ []))

-- `!2` has all bits of a `u16` but one. The result is the payload with its bytes 6 and 7 replaced.
unfoldable pub set_chunk_final_stream_flag : List ℕ → Bool → Result (List ℕ)
set_chunk_final_stream_flag payload enabled = do
  fail_if (ltb (length payload) chunk_header_size) (invalid_stream "chunk header truncated")
  fail_if (not (list_eq (take 4 payload) chunk_magic)) (invalid_stream "bad chunk magic")
  let version = from_le_bytes (get_or payload 4 0 ∷ get_or payload 5 0 ∷ [])
  fail_if (not (version == chunk_version)) (invalid_stream "unsupported chunk version")
  flags ← read_chunk_flags payload
  let flags' =
      if enabled
      then bit_or flags chunk_flag_final_stream
      else bit_and flags (0xffff - chunk_flag_final_stream)
  ok (take 6 payload ++ (to_le_bytes 2 flags' ++ drop 8 payload))

-- `writer` is what is written so far; writing to it does not fail in the model.
unfoldable pub write_stream_chunk_frame : List ℕ → List ℕ → Result (List ℕ)
write_stream_chunk_frame writer payload = do
  len ← try_from 32 (length payload) numeric_overflow
  ok ((writer ++ to_le_bytes 4 len) ++ payload)

unfoldable pub section_bit_len_to_byte_len : ℕ → Result ℕ
section_bit_len_to_byte_len section_bit_len = do
  fail_if (not (bit_and section_bit_len 7 == 0))
      (invalid_stream "section bit_len is not byte-aligned")
  ok (section_bit_len / 8)

-- The plain section index of `finalize_chunk_from_table`, and the sum of the lengths.
unfoldable pub plain_index_loop : List ℕ → ℕ → List ℕ → Result (List ℕ × ℕ)
plain_index_loop [] cursor plain_index = ok (plain_index, cursor)
plain_index_loop (len_u32 ∷ section_cmd_lens) cursor plain_index = do
  bits ← ok_or (checked_mul len_u32 8) numeric_overflow
  plain_bit_len ← try_from 32 bits numeric_overflow
  cursor' ← ok_or (checked_add cursor len_u32) numeric_overflow
  plain_index_loop section_cmd_lens cursor' (write_varint_u32 plain_index plain_bit_len)

unfoldable pub build_plain_index : List ℕ → List ℕ → Result (List ℕ)
build_plain_index section_cmd_lens section_cmd = do
  (plain_index, cursor) ← plain_index_loop section_cmd_lens 0 []
  fail_if (not (cursor == length section_cmd))
      (invalid_stream "sum(section command len) != section command stream size")
  ok plain_index

unfoldable pub pack_chunk_payload_cpu :
    ℕ → ℕ → ℕ → ℕ → List ℕ → List ℕ → List ℕ → List ℕ → List ℕ → Result (List ℕ)
pack_chunk_payload_cpu chunk_len flags table_count section_count table_index table_data huff_lut
      section_index section_cmd =
    do
      let table_index_offset = chunk_header_size
      table_data_offset ←
          ok_or (checked_add table_index_offset (length table_index)) numeric_overflow
      huff_lut_offset ← ok_or (checked_add table_data_offset (length table_data)) numeric_overflow
      section_index_offset ← ok_or (checked_add huff_lut_offset (length huff_lut)) numeric_overflow
      section_bitstream_offset ←
          ok_or (checked_add section_index_offset (length section_index)) numeric_overflow
      total_len ← ok_or (checked_add section_bitstream_offset (length section_cmd)) numeric_overflow
      let p₁ = write_u16_le (write_u16_le chunk_magic chunk_version) flags
      chunk_len' ← try_from 32 chunk_len numeric_overflow
      let p₂ = write_u32_le p₁ chunk_len'
      table_count' ← try_from 16 table_count numeric_overflow
      let p₃ = write_u16_le p₂ table_count'
      section_count' ← try_from 16 section_count numeric_overflow
      let p₄ = write_u16_le p₃ section_count'
      o₁ ← try_from 32 table_index_offset numeric_overflow
      let p₅ = write_u32_le p₄ o₁
      o₂ ← try_from 32 table_data_offset numeric_overflow
      let p₆ = write_u32_le p₅ o₂
      o₃ ← try_from 32 huff_lut_offset numeric_overflow
      let p₇ = write_u32_le p₆ o₃
      o₄ ← try_from 32 section_index_offset numeric_overflow
      let p₈ = write_u32_le p₇ o₄
      o₅ ← try_from 32 section_bitstream_offset numeric_overflow
      let p₉ = write_u32_le p₈ o₅
      fail_if (not (length p₉ == chunk_header_size)) (invalid_stream "internal header sizing bug")
      ok (((((p₉ ++ table_index) ++ table_data) ++ huff_lut) ++ section_index) ++ section_cmd)

-- `finalize_chunk_from_table` on the plain layout, from the commands of the sections on.
unfoldable pub finalize_plain : ℕ → ℕ → List (List ℕ) → List ℕ → List ℕ → Result (List ℕ)
finalize_plain chunk_len section_count table section_cmd_lens section_cmd = do
  section_index ← build_plain_index section_cmd_lens section_cmd
  (table_index, table_data) ← serialize_table_entries table
  pack_chunk_payload_cpu chunk_len 0 (length table_index) section_count table_index table_data []
      section_index section_cmd
