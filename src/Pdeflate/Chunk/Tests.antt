-- ===== src/Pdeflate/Chunk/Tests.antt =====
-- Chunks, tables and flags at concrete inputs.
use cozip.Base.{ℕ, ◌≡◌, refl, List, [], ◌∷◌, map, arith, true, length, replicate, All}
use cozip.Base.Groups.{groups}
use cozip.Base.Le.{to_le_bytes}
use cozip.Base.Results.{ok, ◌>>=◌}
use cozip.Pdeflate.Chunk.{
  chunk_huffman_enabled, chunk_final_stream_enabled, finalize_plain, read_chunk_flags,
  set_chunk_final_stream_flag,
}
use cozip.Pdeflate.Chunk.Decode.{decompress_chunk_into}
use cozip.Pdeflate.Chunk.Flags.{flagged, read_chunk_flags-set_chunk_final_stream_flag}
use cozip.Pdeflate.Chunk.RoundTrip.{IsChunk, decompress_chunk_into-finalize_plain}
use cozip.Pdeflate.Chunk.Sections.{cmd_of, bits_of, output_of, IsSections}
use cozip.Pdeflate.Command.{max_cmd_len}
use cozip.Pdeflate.Command.Stream.{
  Command, literal, reference, stream, command_bytes, expand, expand_all,
}
use cozip.Pdeflate.Command.Header.{cmd_header}
use cozip.Pdeflate.Section.{section_start}
use cozip.Pdeflate.Section.Repeat.{cycle}
use cozip.Pdeflate.Table.{materialize_table_entries, prepare_rows, serialize_table_entries}
use cozip.Pdeflate.Table.RoundTrip.{
  IsEntry, data_of, index_of, materialize_table_entries-serialize_table_entries,
}
use cozip.Pdeflate.Table.Rows.{row_of, prepare_rows-cycle}

abbrev table : List (List ℕ)
table = (1 ∷ 2 ∷ []) ∷ (3 ∷ 4 ∷ 5 ∷ []) ∷ []

table_entries : All IsEntry table
table_entries = ((omega arith, omega arith), ((omega arith, omega arith), tt))

materialize_table_entries-serialize_table_entries_example :
    (serialize_table_entries table >>= λ (index, bytes). materialize_table_entries index bytes)
    ≡ ok table
unfolding data_of
materialize_table_entries-serialize_table_entries_example =
    materialize_table_entries-serialize_table_entries table table_entries (omega arith)

abbrev old_rows : List (List ℕ)
old_rows = replicate max_cmd_len 9 ∷ []

prepare_rows-cycle_example :
    prepare_rows (index_of table) (data_of table) old_rows ≡ ok (map row_of table)
unfolding data_of
prepare_rows-cycle_example =
    prepare_rows-cycle table old_rows table_entries (refl, tt) (omega arith)

read_chunk_flags-set_chunk_final_stream_flag_example :
    (set_chunk_final_stream_flag (flagged 1 (replicate 28 7)) true
      ≡ ok (flagged 3 (replicate 28 7)))
    × ((set_chunk_final_stream_flag (flagged 1 (replicate 28 7)) true >>= read_chunk_flags) ≡ ok 3)
    × (chunk_final_stream_enabled 3 ≡ true)
    × (chunk_huffman_enabled 3 ≡ chunk_huffman_enabled 1)
read_chunk_flags-set_chunk_final_stream_flag_example =
    read_chunk_flags-set_chunk_final_stream_flag 1 (replicate 28 7) true (omega arith) (omega arith)

-- Two sections of four bytes, the second a reference to the table's second entry.
abbrev sections : List (List Command)
sections = (literal (1 ∷ 2 ∷ 3 ∷ 4 ∷ []) ∷ []) ∷ (reference 1 4 ∷ []) ∷ []

is_chunk : IsChunk 8 table sections
unfolding data_of bits_of cmd_of IsSections stream command_bytes cmd_header to_le_bytes groups
    section_start row_of cycle expand_all expand
is_chunk = record {
  entries = table_entries;
  few_entries = omega arith;
  some_sections = omega arith;
  few_sections = omega arith;
  len_small = omega arith;
  head_small = omega arith;
  cmd_small = omega arith;
  filled = (
    ((omega arith, omega arith), tt),
    refl,
    (((omega arith, omega arith, omega arith), tt), refl, refl),
  );
}

decompress_chunk_into-finalize_plain_example :
    (finalize_plain 8 2 table (map (λ cmds. length (stream cmds)) sections) (cmd_of sections)
      >>= (λ payload. set_chunk_final_stream_flag payload true)
      >>= (λ payload. decompress_chunk_into old_rows payload (replicate 8 0)))
    ≡ ok (output_of (map row_of table) sections)
decompress_chunk_into-finalize_plain_example =
    decompress_chunk_into-finalize_plain is_chunk true old_rows (replicate 8 0) (refl, tt) refl

chunk_output : output_of (map row_of table) sections ≡ 1 ∷ 2 ∷ 3 ∷ 4 ∷ 3 ∷ 4 ∷ 5 ∷ 3 ∷ []
unfolding output_of expand_all expand row_of cycle
chunk_output = refl
