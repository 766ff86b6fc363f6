-- ===== src/Pdeflate/Chunk/RoundTrip.antt =====
-- A plain chunk is packed, flagged and decoded again.
use cozip.Base.{
  ℕ, ◌+◌, ◌*◌, ◌^◌, ◌≤◌, ◌<◌, ◌≡◌, refl, sym, List, [], ◌∷◌, ◌++◌, map, lt→ltb, append_assoc,
  append-nil, arith, Bool, false, true, none, bit_and, ==_self, length, length-append, length-map,
  All, drop_past,
}
use cozip.Base.At.{At, At-start, At-step, get_range-At}
use cozip.Base.Groups.{groups}
use cozip.Base.Results.{ok, ◌>>=◌, try_from-ok, checked_add-ok, usize_bound}
use cozip.Pdeflate.Chunk.{
  chunk_huffman_enabled, max_table_id, plain_index_loop, build_plain_index, finalize_plain,
  set_chunk_final_stream_flag,
}
use cozip.Pdeflate.Chunk.Decode.{slice, read_huff_lut, read_section_index, decompress_chunk_into}
use cozip.Pdeflate.Chunk.Flags.{with_final, read_chunk_flags-set_chunk_final_stream_flag}
use cozip.Pdeflate.Chunk.Layout.{
  sizes, length-sizes, Parts, IsParts, payload_of, header_of, body, body-At,
  read_header_fields-payload_of, check_header-payload_of, pack_chunk_payload_cpu-payload_of,
}
use cozip.Pdeflate.Chunk.Sections.{
  cmd_of, bits_of, output_of, IsSections, metas_of, read_section_metas-of, decode_sections-of,
}
use cozip.Pdeflate.Command.Stream.{Command, stream, IsRow, expand_all}
use cozip.Pdeflate.Error.{numeric_overflow}
use cozip.Pdeflate.Section.{section_start}
use cozip.Pdeflate.Section.Bounds.{section_start_partition}
use cozip.Pdeflate.Table.RoundTrip.{IsEntry, index_of, data_of, serialize_table_entries-of}
use cozip.Pdeflate.Table.Rows.{row_of, row_of-IsRow, prepare_rows-cycle}
use cozip.Pdeflate.Varint.RoundTrip.{write_varint_u32-groups}

-- What a chunk is made of: its table, and the commands of its sections.
abbrev pub parts_of : ℕ → ℕ → List (List ℕ) → List (List Command) → Parts
parts_of chunk_len flags table sections = record {
  chunk_len = chunk_len;
  flags = flags;
  table_count = length (index_of table);
  section_count = length sections;
  table_index = index_of table;
  table_data = data_of table;
  huff_lut = [];
  section_index = bits_of sections;
  section_cmd = cmd_of sections;
}

-- A chunk within the limits of the format, whose commands fill every section exactly.
pub record IsChunk (chunk_len : ℕ) (table : List (List ℕ)) (sections : List (List Command))
    : Type 0 where
  pub entries : All IsEntry table
  pub few_entries : length table ≤ max_table_id
  pub some_sections : 0 < length sections
  pub few_sections : length sections < 2 ^ 16
  pub len_small : chunk_len < 2 ^ 32
  pub head_small : length table + length (data_of table) + length (bits_of sections) < 2 ^ 31
  pub cmd_small : length (cmd_of sections) < 2 ^ 29
  pub filled : IsSections (map row_of table) (length sections) chunk_len 0 sections

final_known :
    (enabled : Bool)
    → (bit_and (with_final 0 enabled) 0xfffc ≡ 0)
      × (chunk_huffman_enabled (with_final 0 enabled) ≡ false)
unfolding chunk_huffman_enabled
final_known true = (refl, refl)
final_known false = (refl, refl)

length-output_of :
    (rows : List (List ℕ)) (count total : ℕ) (sections : List (List Command)) (sec : ℕ)
    → IsSections rows count total sec sections
    → section_start sec count total + length (output_of rows sections)
      ≡ section_start count count total
unfolding IsSections output_of
length-output_of rows count total [] sec h = rw h (omega arith)
length-output_of rows count total (cmds ∷ sections) sec h = omega (
  arith,
  h.1,
  length-append (expand_all rows cmds) (output_of rows sections),
  length-output_of rows count total sections (sec + 1) h.2,
)

plain_index_loop-bits_of :
    (todo : List (List Command)) (cursor : ℕ) (plain_index : List ℕ)
    → cursor + length (cmd_of todo) < 2 ^ 29
    → plain_index_loop (map (λ cmds. length (stream cmds)) todo) cursor plain_index
      ≡ ok (plain_index ++ bits_of todo, cursor + length (cmd_of todo))
unfolding plain_index_loop bits_of cmd_of
plain_index_loop-bits_of [] cursor plain_index h =
    let e : cursor + 0 ≡ cursor = omega arith in rw (append-nil, e)
plain_index_loop-bits_of (cmds ∷ todo) cursor plain_index h =
    let n = length (stream cmds) in
    let size = length-append (stream cmds) (cmd_of todo) in
    let fits : n * 8 < usize_bound = omega arith in
    let end : cursor + n + length (cmd_of todo) ≡ cursor + length (stream cmds ++ cmd_of todo) =
      omega arith in
    rw (
      lt→ltb (n * 8) usize_bound fits,
      try_from-ok 32 (n * 8) numeric_overflow (omega arith),
      checked_add-ok cursor n numeric_overflow (omega arith),
      write_varint_u32-groups plain_index (n * 8) (omega arith),
      plain_index_loop-bits_of todo (cursor + n) (plain_index ++ groups 4 (n * 8)) (omega arith),
      append_assoc,
      end,
    )

module _ {chunk_len : ℕ} {table : List (List ℕ)} {sections : List (List Command)}
    (chunk : IsChunk chunk_len table sections) where
  length-index_of : length (index_of table) ≡ length table
  unfolding index_of
  length-index_of = length-map table length

  parts_of-IsParts :
      (flags : ℕ) → flags < 2 ^ 16 → IsParts (parts_of chunk_len flags table sections)
  parts_of-IsParts flags h = record {
    chunk_len_small = chunk.len_small;
    flags_small = h;
    table_count_small = omega (arith, length-index_of, chunk.few_entries);
    section_count_small = chunk.few_sections;
    offset_small = omega (arith, length-index_of, chunk.head_small);
    cmd_small = chunk.cmd_small;
  }

  build_plain_index-bits_of :
      build_plain_index (map (λ cmds. length (stream cmds)) sections) (cmd_of sections)
      ≡ ok (bits_of sections)
  unfolding build_plain_index
  build_plain_index-bits_of =
      let small = chunk.cmd_small in
      let e : 0 + length (cmd_of sections) ≡ length (cmd_of sections) = omega arith in
      rw (
        plain_index_loop-bits_of sections 0 [] (omega arith),
        e,
        ==_self (length (cmd_of sections)),
      )

  pub finalize_plain-payload_of :
      finalize_plain chunk_len
        (length sections)
        table
        (map (λ cmds. length (stream cmds)) sections)
        (cmd_of sections)
      ≡ ok (payload_of (parts_of chunk_len 0 table sections))
  unfolding finalize_plain
  finalize_plain-payload_of =
      rw (build_plain_index-bits_of, serialize_table_entries-of table chunk.entries)
        (pack_chunk_payload_cpu-payload_of (parts_of chunk_len 0 table sections)
          (parts_of-IsParts 0 (omega arith)))

  read_section_index-metas_of :
      (flags : ℕ)
      → chunk_huffman_enabled flags ≡ false
      → read_section_index
          (header_of (parts_of chunk_len flags table sections))
          (bits_of sections)
          (cmd_of sections)
        ≡ ok (metas_of (length sections) chunk_len 0 0 sections)
  unfolding read_section_index header_of
  read_section_index-metas_of flags plain =
      let index = bits_of sections in
      let cmd = cmd_of sections in
      let at : At index 0 (index ++ []) = rw append-nil (At-start index) in
      let e : 0 + length index ≡ length index = omega arith in
      let e' : 0 + length cmd ≡ length cmd = omega arith in
      rw (
        plain,
        read_section_metas-of (length sections) chunk_len chunk.len_small chunk.some_sections cmd
            (omega (arith, chunk.head_small)) chunk.cmd_small sections 0 0 0 [] at (omega arith),
        e,
        e',
        ==_self (length index),
        ==_self (length cmd),
      )

  module _ (flags : ℕ) (small : flags < 2 ^ 16) where
    packed : List ℕ
    packed = payload_of (parts_of chunk_len flags table sections)

    after_data : List ℕ
    after_data = bits_of sections ++ cmd_of sections

    index-At : At packed 36 (index_of table ++ (data_of table ++ after_data))
    unfolding packed after_data body
    index-At = body-At (parts_of chunk_len flags table sections) (parts_of-IsParts flags small)

    data-At : At packed (36 + length (index_of table)) (data_of table ++ after_data)
    data-At =
        At-step (36 + length (index_of table)) (index_of table) (data_of table ++ after_data)
          index-At refl

    lut_at : ℕ
    lut_at = 36 + length (index_of table) + length (data_of table)

    lut-At : At packed lut_at after_data
    unfolding lut_at
    lut-At = At-step lut_at (data_of table) after_data data-At refl

    bits-At : At packed (lut_at + 0) (bits_of sections ++ cmd_of sections)
    unfolding after_data
    bits-At = At-step (lut_at + 0) [] after_data lut-At refl

    cmd-At : At packed (lut_at + 0 + length (bits_of sections)) (cmd_of sections ++ [])
    cmd-At = rw append-nil (
        At-step (lut_at + 0 + length (bits_of sections)) (bits_of sections) (cmd_of sections)
          bits-At refl)

    no_lut :
        chunk_huffman_enabled flags ≡ false
        → read_huff_lut (chunk_huffman_enabled flags) [] ≡ ok none
    unfolding read_huff_lut
    no_lut plain = rw plain

    -- The decoder on the packed bytes.
    decompress_chunk_into-packed :
        (scratch_rows : List (List ℕ)) (out : List ℕ)
        → bit_and flags 0xfffc ≡ 0
        → chunk_huffman_enabled flags ≡ false
        → All IsRow scratch_rows
        → length out ≡ chunk_len
        → decompress_chunk_into scratch_rows packed out ≡ ok (output_of (map row_of table) sections)
    unfolding decompress_chunk_into packed header_of slice lut_at
    decompress_chunk_into-packed scratch_rows out known plain rows size =
        let p = parts_of chunk_len flags table sections in
        let parts = parts_of-IsParts flags small in
        let few : length (index_of table) ≤ max_table_id =
          omega (arith, length-index_of, chunk.few_entries) in
        let cmd_end : lut_at + 0 + length (bits_of sections) + length (cmd_of sections)
            ≡ length packed =
          omega (arith, cmd-At.fits, length-append (cmd_of sections) []) in
        let cuts =
          section_start_partition (length sections) chunk_len (omega (arith, chunk.len_small))
            chunk.some_sections in
        let whole =
          length-output_of (map row_of table) (length sections) chunk_len sections 0 chunk.filled in
        let at_cmds : At (cmd_of sections) 0 (cmd_of sections ++ []) =
          rw append-nil (At-start (cmd_of sections)) in
        rw
          (
            read_header_fields-payload_of p parts known,
            check_header-payload_of p parts few chunk.some_sections,
          )
          (rw (
            get_range-At (36 + length (index_of table)) (index_of table)
                (data_of table ++ after_data) index-At refl,
            ==_self (length (index_of table)),
            size,
            ==_self chunk_len,
            get_range-At lut_at (data_of table) after_data data-At refl,
            get_range-At (lut_at + 0) [] after_data lut-At refl,
            no_lut plain,
            get_range-At (lut_at + 0 + length (bits_of sections)) (bits_of sections)
                (cmd_of sections) bits-At refl,
            get_range-At (length packed) (cmd_of sections) [] cmd-At cmd_end,
            prepare_rows-cycle table scratch_rows chunk.entries rows
                (omega (arith, chunk.head_small)),
            read_section_index-metas_of flags plain,
            decode_sections-of (length sections) chunk_len (omega (arith, chunk.len_small))
                chunk.some_sections (map row_of table)
                (omega (arith, length-map table row_of, chunk.few_entries)) (row_of-IsRow table)
                chunk.cmd_small sections 0 0 [] [] out chunk.filled at_cmds (omega arith)
                (sym cuts.0) size,
            drop_past (length (output_of (map row_of table) sections)) out
                (omega (arith, whole, cuts.0, cuts.1, size)),
            append-nil,
          ))

  -- A table of at most 4094 entries of 1 to 255 bytes, one more than the format
  -- allows, and the commands of at least one section that
  -- fill the sections of the chunk exactly, all within the sizes of the format: packed as a plain chunk
  -- and marked as the last of its stream or not, they are decoded to the concatenation of what the
  -- sections' commands expand to over the repeated entries, whatever the scratch and `out` held before.
  pub decompress_chunk_into-finalize_plain :
      (enabled : Bool) (scratch_rows : List (List ℕ)) (out : List ℕ)
      → All IsRow scratch_rows
      → length out ≡ chunk_len
      → (finalize_plain chunk_len
            (length sections)
            table
            (map (λ cmds. length (stream cmds)) sections)
            (cmd_of sections)
          >>= (λ payload. set_chunk_final_stream_flag payload enabled)
          >>= (λ payload. decompress_chunk_into scratch_rows payload out))
        ≡ ok (output_of (map row_of table) sections)
  unfolding packed payload_of sizes body
  decompress_chunk_into-finalize_plain enabled scratch_rows out rows size =
      let p = parts_of chunk_len 0 table sections in
      let room : 28 ≤ length (sizes p (body p)) = omega (arith, length-sizes p (body p)) in
      let small : with_final 0 enabled < 2 ^ 16 = ground arith in
      rw
        (
          finalize_plain-payload_of,
          (read_chunk_flags-set_chunk_final_stream_flag 0 (sizes p (body p)) enabled (omega arith)
              room).0,
        )
        (decompress_chunk_into-packed (with_final 0 enabled) small scratch_rows out
          (final_known enabled).0 (final_known enabled).1 rows size)
