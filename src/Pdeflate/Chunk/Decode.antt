-- ===== src/Pdeflate/Chunk/Decode.antt =====
-- How the decoder reads the payload of a chunk (`decompress_chunk_into` and
-- `preprocess_chunk_for_gpu_decode` of cozip_pdeflate/src/pdeflate/mod.rs). The profile is left out.
use cozip.Base.{
  ℕ, zero, suc, ◌+◌, ◌-◌, ◌/◌, List, [], ◌∷◌, ◌++◌, Bool, Option, none, some, bit_and, not, ltb,
  leb, ◌==◌, ◌&&◌, if◌then◌else◌, length, take, drop, list_eq,
}
use cozip.Base.At.{get_range}
use cozip.Base.Results.{ok, ◌>>=◌, ◌>>◌, fail_if, ok_or, checked_add, try_from}
use cozip.Pdeflate.Chunk.{
  chunk_magic, chunk_version, chunk_header_size, max_table_id, chunk_huffman_enabled,
  section_bit_len_to_byte_len,
}
use cozip.Pdeflate.Cursor.{read_exact, read_u16_le, read_u32_le}
use cozip.Pdeflate.Error.{Result, invalid_stream, numeric_overflow, panicked}
use cozip.Pdeflate.Huffman.{HuffmanLut, deserialize_huffman_lut}
use cozip.Pdeflate.Huffman.Reader.{
  decode_section_bitstream_to_huffman_symbols_with_lut, huffman_symbols_to_logical_commands,
}
use cozip.Pdeflate.Section.{section_start, decode_section}
use cozip.Pdeflate.Table.{prepare_rows}
use cozip.Pdeflate.Varint.{read_varint_u32}

-- What the header says.
pub record ChunkHeader : Type 0 where
  pub huffman_enabled : Bool
  pub chunk_uncompressed_len : ℕ
  pub table_count : ℕ
  pub section_count : ℕ
  pub table_index_offset : ℕ
  pub table_data_offset : ℕ
  pub huff_lut_offset : ℕ
  pub section_index_offset : ℕ
  pub section_bitstream_offset : ℕ

-- `!(1 | 2)` has all bits of a `u16` but two.
unfoldable pub read_header_fields : List ℕ → Result ChunkHeader
read_header_fields payload = do
  fail_if (ltb (length payload) chunk_header_size) (invalid_stream "chunk header truncated")
  (magic, c₁) ← read_exact payload 0 4
  fail_if (not (list_eq magic chunk_magic)) (invalid_stream "bad chunk magic")
  (version, c₂) ← read_u16_le payload c₁
  fail_if (not (version == chunk_version)) (invalid_stream "unsupported chunk version")
  (flags, c₃) ← read_u16_le payload c₂
  fail_if (not (bit_and flags 0xfffc == 0)) (invalid_stream "unsupported chunk flags")
  (chunk_uncompressed_len, c₄) ← read_u32_le payload c₃
  (table_count, c₅) ← read_u16_le payload c₄
  (section_count, c₆) ← read_u16_le payload c₅
  (table_index_offset, c₇) ← read_u32_le payload c₆
  (table_data_offset, c₈) ← read_u32_le payload c₇
  (huff_lut_offset, c₉) ← read_u32_le payload c₈
  (section_index_offset, c₁₀) ← read_u32_le payload c₉
  (section_bitstream_offset, c₁₁) ← read_u32_le payload c₁₀
  ok (record {
    huffman_enabled = chunk_huffman_enabled flags;
    chunk_uncompressed_len = chunk_uncompressed_len;
    table_count = table_count;
    section_count = section_count;
    table_index_offset = table_index_offset;
    table_data_offset = table_data_offset;
    huff_lut_offset = huff_lut_offset;
    section_index_offset = section_index_offset;
    section_bitstream_offset = section_bitstream_offset;
  })

-- The tests on the header.
unfoldable pub check_header : ChunkHeader → ℕ → Result (Unit {0})
check_header h payload_len = do
  fail_if (ltb max_table_id h.table_count) (invalid_stream "table_count too large")
  fail_if (h.section_count == 0) (invalid_stream "section_count is zero")
  fail_if
      (not (
        leb h.table_index_offset h.table_data_offset
        && (leb h.table_data_offset h.huff_lut_offset
            && (leb h.huff_lut_offset h.section_index_offset
                && (leb h.section_index_offset h.section_bitstream_offset
                    && leb h.section_bitstream_offset payload_len)))))
      (invalid_stream "invalid chunk offsets")
  fail_if (not (h.table_index_offset == chunk_header_size))
      (invalid_stream "unexpected table_index_offset")

-- `&payload[a..b]`, which panics out of range.
unfoldable pub slice : List ℕ → ℕ → ℕ → Result (List ℕ)
slice payload a b = ok_or (get_range payload a b) panicked

pub record SectionMeta : Type 0 where
  pub bit_len : ℕ
  pub cmd_offset : ℕ
  pub cmd_len : ℕ
  pub out_offset : ℕ
  pub out_len : ℕ

-- One entry of the section index. The section's bytes begin at `cmd_cursor`.
unfoldable pub read_section_meta :
    Bool → ℕ → ℕ → List ℕ → List ℕ → ℕ → ℕ → ℕ → Result (SectionMeta × ℕ × ℕ)
read_section_meta huffman_enabled section_count chunk_len section_index section_cmd sec idx_cursor
      cmd_cursor =
    do
      (sec_bit_len, idx_cursor') ← read_varint_u32 section_index idx_cursor
      sec_cmd_len ←
          if huffman_enabled
          then ok ((sec_bit_len + 7) / 8)
          else section_bit_len_to_byte_len sec_bit_len
      sec_cmd_end ← ok_or (checked_add cmd_cursor sec_cmd_len) numeric_overflow
      fail_if (ltb (length section_cmd) sec_cmd_end)
          (invalid_stream "section cmd range out of bounds")
      let out_start = section_start sec section_count chunk_len
      let out_end = section_start (sec + 1) section_count chunk_len
      bit_len ← try_from 32 sec_bit_len numeric_overflow
      cmd_offset ← try_from 32 cmd_cursor numeric_overflow
      cmd_len ← try_from 32 sec_cmd_len numeric_overflow
      out_offset ← try_from 32 out_start numeric_overflow
      out_len ← try_from 32 (out_end - out_start) numeric_overflow
      ok (
        record {
          bit_len = bit_len;
          cmd_offset = cmd_offset;
          cmd_len = cmd_len;
          out_offset = out_offset;
          out_len = out_len;
        },
        idx_cursor',
        sec_cmd_end,
      )

-- `n` sections from `sec` on; the cursors behind them.
unfoldable pub read_section_metas :
    ℕ → Bool → ℕ → ℕ → List ℕ → List ℕ → ℕ → ℕ → ℕ → Result (List SectionMeta × ℕ × ℕ)
read_section_metas zero huffman_enabled section_count chunk_len section_index section_cmd sec
      idx_cursor cmd_cursor =
    ok ([], idx_cursor, cmd_cursor)
read_section_metas (suc n) huffman_enabled section_count chunk_len section_index section_cmd sec
      idx_cursor cmd_cursor =
    do
      (section, idx_cursor', cmd_cursor') ←
          read_section_meta huffman_enabled section_count chunk_len section_index section_cmd sec
            idx_cursor cmd_cursor
      (sections, idx_end, cmd_end) ←
          read_section_metas n huffman_enabled section_count chunk_len section_index section_cmd
            (sec + 1) idx_cursor' cmd_cursor'
      ok (section ∷ sections, idx_end, cmd_end)

-- The command bytes of a section.
unfoldable pub section_commands : Option HuffmanLut → SectionMeta → List ℕ → Result (List ℕ)
section_commands (some huff_lut) section sec_cmd = do
  sec_symbols ←
      decode_section_bitstream_to_huffman_symbols_with_lut sec_cmd section.bit_len huff_lut
  ok (huffman_symbols_to_logical_commands sec_symbols)
section_commands none section sec_cmd = do
  byte_len ← section_bit_len_to_byte_len section.bit_len
  fail_if (not (byte_len == length sec_cmd)) (invalid_stream "section bitstream length mismatch")
  ok sec_cmd

-- `decode_section` on `out[out_start..out_end]`.
unfoldable pub decode_into :
    Option HuffmanLut → List (List ℕ) → List ℕ → SectionMeta → List ℕ → Result (List ℕ)
decode_into huff_lut table_repeat section_cmd section out = do
  cmd_end ← ok_or (checked_add section.cmd_offset section.cmd_len) numeric_overflow
  out_end ← ok_or (checked_add section.out_offset section.out_len) numeric_overflow
  sec_cmd ←
      ok_or (get_range section_cmd section.cmd_offset cmd_end)
        (invalid_stream "section cmd range out of bounds")
  sec_logical_cmd ← section_commands huff_lut section sec_cmd
  out_slice ← slice out section.out_offset out_end
  bytes ← decode_section sec_logical_cmd section.out_len table_repeat (length out_slice)
  ok (take section.out_offset out ++ (bytes ++ drop out_end out))

unfoldable pub decode_sections :
    Option HuffmanLut → List (List ℕ) → List ℕ → List SectionMeta → List ℕ → Result (List ℕ)
decode_sections huff_lut table_repeat section_cmd [] out = ok out
decode_sections huff_lut table_repeat section_cmd (section ∷ sections) out = do
  out' ← decode_into huff_lut table_repeat section_cmd section out
  decode_sections huff_lut table_repeat section_cmd sections out'

unfoldable pub read_huff_lut : Bool → List ℕ → Result (Option HuffmanLut)
read_huff_lut huffman_enabled block =
    if huffman_enabled then (deserialize_huffman_lut block >>= λ lut. ok (some lut)) else ok none

-- The section index read to its end, and the command bytes covered to theirs.
unfoldable pub read_section_index : ChunkHeader → List ℕ → List ℕ → Result (List SectionMeta)
read_section_index h section_index section_cmd = do
  (sections, idx_end, cmd_end) ←
      read_section_metas h.section_count h.huffman_enabled h.section_count h.chunk_uncompressed_len
        section_index section_cmd 0 0 0
  fail_if (not (idx_end == length section_index)) (invalid_stream "trailing bytes in section index")
  fail_if (not (cmd_end == length section_cmd))
      (invalid_stream "sum(section_bit_len) != section_bitstream size")
  ok sections

-- What `out` holds after a success; `scratch_rows` are the rows that the thread's last call left.
unfoldable pub decompress_chunk_into : List (List ℕ) → List ℕ → List ℕ → Result (List ℕ)
decompress_chunk_into scratch_rows payload out = do
  h ← read_header_fields payload
  check_header h (length payload)
  table_index ← slice payload h.table_index_offset h.table_data_offset
  fail_if (not (length table_index == h.table_count)) (invalid_stream "table index length mismatch")
  fail_if (not (length out == h.chunk_uncompressed_len))
      (invalid_stream "chunk output len mismatch")
  table_data ← slice payload h.table_data_offset h.huff_lut_offset
  lut_block ← slice payload h.huff_lut_offset h.section_index_offset
  huff_lut ← read_huff_lut h.huffman_enabled lut_block
  section_index ← slice payload h.section_index_offset h.section_bitstream_offset
  section_cmd ← slice payload h.section_bitstream_offset (length payload)
  table_repeat ← prepare_rows table_index table_data scratch_rows
  sections ← read_section_index h section_index section_cmd
  decode_sections huff_lut table_repeat section_cmd sections out
