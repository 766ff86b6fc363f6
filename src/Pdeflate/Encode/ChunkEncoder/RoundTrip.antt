-- ===== src/Pdeflate/Encode/ChunkEncoder/RoundTrip.antt =====
-- A chunk is encoded over its table, flagged and decoded again.
use cozip.Base.{
  ℕ, zero, suc, ◌+◌, ◌*◌, ◌%◌, ◌^◌, ◌≤◌, ◌<◌, ◌≡◌, refl, sym, ap, ◌∙◌, List, [], ◌∷◌, map, Bool,
  false, min, length, length-append, length-map, length-drop, subst, drop, get_or, All, arith,
}
use cozip.Base.Groups.{groups, length-groups}
use cozip.Base.Le.{IsByte, IsBytes}
use cozip.Base.Results.{ok, ◌>>=◌}
use cozip.Base.Returns.{Returns, Returns->>=}
use cozip.Pdeflate.Chunk.{finalize_plain, set_chunk_final_stream_flag}
use cozip.Pdeflate.Chunk.Decode.{decompress_chunk_into}
use cozip.Pdeflate.Chunk.RoundTrip.{
  IsChunk, parts_of, finalize_plain-payload_of, decompress_chunk_into-finalize_plain,
}
use cozip.Pdeflate.Chunk.Layout.{payload_of}
use cozip.Pdeflate.Chunk.Sections.{bits_of, output_of, IsSections}
use cozip.Pdeflate.Command.{max_cmd_len}
use cozip.Pdeflate.Command.Stream.{Command, stream, IsRow}
use cozip.Pdeflate.Encode.{
  PdeflateOptions, EncodeScratch, rebuild_repeat_table, rebuild_prefix_index,
}
use cozip.Pdeflate.Encode.ChunkEncoder.{encode_sections, finalize_chunk_plain}
use cozip.Pdeflate.Encode.ChunkEncoder.Sections.{Encoded, encode_sections-Encoded}
use cozip.Pdeflate.Encode.EncodeSection.Sound.{IsScratch}
use cozip.Pdeflate.Encode.Rebuild.{rebuild_repeat_table-cycle}
use cozip.Pdeflate.Encode.Rebuild.Index.{IsClean, IsEmptyAt, Ids, rebuild_prefix_index-Kept}
use cozip.Pdeflate.Encode.Rebuild.Named.{Indexed}
use cozip.Pdeflate.Encode.Search.Sound.{IsSearch}
use cozip.Pdeflate.Section.{section_start}
use cozip.Pdeflate.Section.Bounds.{section_start_partition}
use cozip.Pdeflate.Section.Repeat.{cycle, length-cycle}
use cozip.Pdeflate.Table.RoundTrip.{IsEntry, data_of}
use cozip.Pdeflate.Table.Rows.{row_of}

-- A chunk, its table and options as the encoder may be given them: a table of at most 4094 entries of 1
-- to 255 bytes, the Huffman layout off, less than 2 ^ 27 bytes to encode in at most 65535 sections, and references of at least 3
-- bytes that a row of the scratch has room for.
pub record IsInput (options : PdeflateOptions) (table : List (List ℕ)) (chunk : List ℕ)
    : Type 0 where
  pub entries : All IsEntry table
  pub entry_bytes : All IsBytes table
  pub few_entries : length table ≤ 0x0ffe
  pub plain_layout : options.huffman_encode_enabled ≡ false
  pub chunk_bytes : IsBytes chunk
  pub chunk_small : length chunk < 2 ^ 27
  pub some_sections : 0 < options.section_count
  pub few_sections : options.section_count < 2 ^ 16
  pub min_pos : 3 ≤ options.min_ref_len
  pub max_min : 4 ≤ options.max_ref_len
  pub min_fits : options.min_ref_len ≤ min (min options.max_ref_len max_cmd_len) 64

get_or-IsByte : (xs : List ℕ) (i : ℕ) → IsBytes xs → IsByte (get_or xs i 0)
get_or-IsByte [] i h = omega arith
get_or-IsByte (x ∷ xs) zero h = h.0
get_or-IsByte (x ∷ xs) (suc i) h = get_or-IsByte xs i h.1

cycle-IsBytes : (entry : List ℕ) (i n : ℕ) → IsBytes entry → IsBytes (cycle entry i n)
unfolding cycle
cycle-IsBytes entry i zero h = tt
cycle-IsBytes entry i (suc n) h =
    (get_or-IsByte entry (i % length entry) h, cycle-IsBytes entry (i + 1) n h)

row_bytes :
    (width : ℕ) (table : List (List ℕ))
    → All IsBytes table
    → All IsBytes (map (λ entry. cycle entry 0 width) table)
row_bytes width [] h = tt
row_bytes width (entry ∷ table) h = (cycle-IsBytes entry 0 width h.0, row_bytes width table h.1)

row_sizes :
    (width : ℕ) (table : List (List ℕ))
    → All (λ row. length row ≡ width) (map (λ entry. cycle entry 0 width) table)
row_sizes width [] = tt
row_sizes width (entry ∷ table) = (length-cycle entry 0 width, row_sizes width table)

length-data_of :
    (table : List (List ℕ)) → All IsEntry table → length (data_of table) ≤ 255 * length table
unfolding data_of
length-data_of [] h = omega arith
length-data_of (entry ∷ table) h =
    omega (arith, h.0.1, length-append entry (data_of table), length-data_of table h.1)

length-bits_of : (sections : List (List Command)) → length (bits_of sections) ≤ 5 * length sections
unfolding bits_of
length-bits_of [] = omega arith
length-bits_of (cmds ∷ sections) =
    let v = length (stream cmds) * 8 in
    omega (
      arith,
      (length-groups 4 v).1,
      length-append (groups 4 v) (bits_of sections),
      length-bits_of sections,
    )

module _ {options : PdeflateOptions} {table : List (List ℕ)} {chunk : List ℕ}
    (input : IsInput options table chunk) where
  row_width : ℕ
  row_width = min (min options.max_ref_len max_cmd_len) 64

  search_of :
      (s : EncodeScratch)
      → s.repeat_table ≡ map (λ entry. cycle entry 0 row_width) table
      → (src : List ℕ) → IsBytes src
      → IsSearch table s.repeat_table src options.min_ref_len
          (min options.max_ref_len max_cmd_len)
          row_width
  unfolding row_width
  search_of s rows src bytes = record {
    row_sizes = rw rows (row_sizes row_width table);
    row_bytes = rw rows (row_bytes row_width table input.entry_bytes);
    row_count = rw rows (length-map table (λ entry. cycle entry 0 row_width));
    src_bytes = bytes;
    width_is = refl;
    width_min = omega (arith, input.max_min);
    min_pos = input.min_pos;
    min_fits = input.min_fits;
  }

  chunk_of :
      {cmd lens : List ℕ} (encoded : Encoded table options.section_count chunk 0 [] [] cmd lens)
      → IsChunk (length chunk) table encoded.sections
  chunk_of encoded =
      let number : length encoded.sections ≡ options.section_count =
        omega (arith, encoded.number) in
      record {
        entries = input.entries;
        few_entries = input.few_entries;
        some_sections = omega (arith, input.some_sections);
        few_sections = omega (arith, input.few_sections);
        len_small = omega (arith, input.chunk_small);
        head_small = omega (
          arith,
          input.few_entries,
          input.few_sections,
          length-data_of table input.entries,
          length-bits_of encoded.sections,
        );
        cmd_small = omega (
          arith,
          input.chunk_small,
          encoded.size,
          ap length (encoded.output),
          length-drop (section_start 0 options.section_count (length chunk)) chunk,
        );
        filled =
            subst (λ n. IsSections (map row_of table) n (length chunk) 0 encoded.sections)
              (sym number) encoded.filled;
      }

  -- What the sections expand to is the chunk.
  whole_output :
      {cmd lens : List ℕ} (encoded : Encoded table options.section_count chunk 0 [] [] cmd lens)
      → output_of (map row_of table) encoded.sections ≡ chunk
  whole_output encoded =
      let cuts =
        section_start_partition options.section_count (length chunk)
          (omega (arith, input.chunk_small)) input.some_sections in
      encoded.output ∙ ap (λ n. drop n chunk) cuts.0

  plain_result :
      {cmd lens : List ℕ} (encoded : Encoded table options.section_count chunk 0 [] [] cmd lens)
      → finalize_plain (length chunk) options.section_count table lens cmd
        ≡ ok (payload_of (parts_of (length chunk) 0 table encoded.sections))
  plain_result encoded =
      let number : options.section_count ≡ length encoded.sections =
        omega (arith, encoded.number) in
      rw (encoded.lens_are, encoded.cmd_is, number) (finalize_plain-payload_of (chunk_of encoded))

  decoded :
      {cmd lens : List ℕ} (encoded : Encoded table options.section_count chunk 0 [] [] cmd lens)
      (enabled : Bool) (scratch_rows : List (List ℕ)) (out : List ℕ)
      → All IsRow scratch_rows
      → length out ≡ length chunk
      → (set_chunk_final_stream_flag
            (payload_of (parts_of (length chunk) 0 table encoded.sections))
            enabled
          >>= λ p. decompress_chunk_into scratch_rows p out)
        ≡ ok chunk
  decoded encoded enabled scratch_rows out rows size =
      let whole =
        decompress_chunk_into-finalize_plain (chunk_of encoded) enabled scratch_rows out rows
          size in
      rw (finalize_plain-payload_of (chunk_of encoded)) at whole ∙ ap ok (whole_output encoded)

  rebuilt-IsScratch :
      (s : EncodeScratch)
      → s.repeat_table ≡ map (λ entry. cycle entry 0 row_width) table
      → Ids (length table) s
      → IsScratch s table options row_width
  rebuilt-IsScratch s rows ids = record {
    rows = rows;
    ids = rw (rows, length-map table (λ entry. cycle entry 0 row_width)) ids;
    few_entries = input.few_entries;
  }

rebuild_repeat_table-IsClean :
    (s : EncodeScratch) (table : List (List ℕ)) (width : ℕ)
    → IsClean s
    → IsClean (rebuild_repeat_table s table width)
unfolding rebuild_repeat_table IsClean IsEmptyAt
rebuild_repeat_table-IsClean s table width clean = clean

-- The plain layout, with matches that the CPU searches: for a table of at most 4094 entries of 1 to 255
-- bytes, one more than the format allows, a chunk of less than 2 ^ 27 bytes in 1 to 65535 sections,
-- options with `huffman_encode_enabled` false, `max_ref_len` at least 4 and `min_ref_len` from 3 to 64
-- and not above `max_ref_len`, and a scratch as any earlier chunk leaves it, `finalize_chunk_from_table`
-- (here `finalize_chunk_plain`) returns a payload without an error or a read out of range, and leaves a
-- scratch that is fit for the next chunk. Whether or not the payload is marked as the last of its
-- stream, `decompress_chunk_into` writes the chunk back from it, whatever the decoder's scratch rows of
-- 270 bytes and `out`, which has the chunk's length, held before.
pub decompress_chunk_into-finalize_chunk_plain :
    {options : PdeflateOptions} {table : List (List ℕ)} {chunk : List ℕ} (s : EncodeScratch)
    (enabled : Bool) (scratch_rows : List (List ℕ)) (out : List ℕ)
    → IsInput options table chunk
    → IsClean s
    → All IsRow scratch_rows
    → length out ≡ length chunk
    → Returns (finalize_chunk_plain s options chunk table) (λ (payload, s').
      ((set_chunk_final_stream_flag payload enabled >>= λ p.
      decompress_chunk_into scratch_rows p out)
        ≡ ok chunk)
      × IsClean s')
unfolding finalize_chunk_plain row_width
decompress_chunk_into-finalize_chunk_plain {options} {table} {chunk} s enabled scratch_rows out
      input clean rows size =
    let Q : List ℕ × EncodeScratch → Type 0 = λ (payload, s').
      ((set_chunk_final_stream_flag payload enabled >>= λ p.
      decompress_chunk_into scratch_rows p out)
        ≡ ok chunk)
      × IsClean s' in
    let width = row_width input in
    let s₁ = rebuild_repeat_table s table width in
    Returns->>=
      (λ s'.
        (IsClean s' × Ids (length table) s' × (s'.repeat_table ≡ s₁.repeat_table))
        × Indexed table s')
      Q (rebuild_prefix_index s₁ table) _
      (rebuild_prefix_index-Kept s₁ table (rebuild_repeat_table-IsClean s table width clean)
        input.entries)
      (λ s' (kept, indexed).
        let repeated : s'.repeat_table ≡ map (λ entry. cycle entry 0 width) table =
          kept.2
          ∙ rebuild_repeat_table-cycle s table width input.entries (omega (arith, input.max_min)) in
        Returns->>= (λ (cmd, lens). Encoded table options.section_count chunk 0 [] [] cmd lens) Q
          (encode_sections options.section_count s' table options chunk 0 [] []) _
          (encode_sections-Encoded chunk (rebuilt-IsScratch input s' repeated kept.1)
            (search_of input s' repeated) input.chunk_bytes input.chunk_small input.some_sections
            options.section_count 0 [] [] (omega arith))
          (λ (cmd, lens) encoded.
            rw (plain_result input encoded)
              (decoded input encoded enabled scratch_rows out rows size, kept.0)))
