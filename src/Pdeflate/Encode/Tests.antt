-- ===== src/Pdeflate/Encode/Tests.antt =====
-- The encoder on a small chunk.
use cozip.Base.{ℕ, ◌+◌, ◌≡◌, refl, List, [], ◌∷◌, map, arith, true, false, length, replicate, All}
use cozip.Base.Le.{IsBytes, from_le_bytes}
use cozip.Base.Results.{ok, err, ◌>>=◌}
use cozip.Base.Returns.{Returns}
use cozip.Pdeflate.Chunk.{set_chunk_final_stream_flag}
use cozip.Pdeflate.Chunk.Decode.{decompress_chunk_into}
use cozip.Pdeflate.Command.{max_cmd_len}
use cozip.Pdeflate.Encode.{PdeflateOptions, EncodeScratch, new_scratch, rebuild_prefix_index, index}
use cozip.Pdeflate.Encode.ChunkEncoder.{finalize_chunk_plain}
use cozip.Pdeflate.Encode.ChunkEncoder.RoundTrip.{
  IsInput, decompress_chunk_into-finalize_chunk_plain,
}
use cozip.Pdeflate.Encode.EncodeSection.{encode_section_into}
use cozip.Pdeflate.Encode.EncodeSection.Sound.{Appended, IsScratch, encode_section_into-Appended}
use cozip.Pdeflate.Encode.Prefix.{
  fast_prefix_len, word_loop, byte_loop, first_diff_byte_in_u64, trailing_zeros,
}
use cozip.Pdeflate.Encode.Prefix.Common.{fast_prefix_len-common}
use cozip.Pdeflate.Encode.Prefix.Word.{common}
use cozip.Pdeflate.Encode.Rebuild.Index.{
  IsClean, Ids, new_scratch-IsClean, rebuild_prefix_index-Kept,
}
use cozip.Pdeflate.Encode.Rebuild.Named.{Indexed}
use cozip.Pdeflate.Encode.Search.{
  find_best_match, may_match, prefix_key, prefix3_hit, select_candidates, best_loop,
  probe_candidate, row_at, prefilter, rejected_at,
}
use cozip.Pdeflate.Encode.Search.BestMatch.{find_best_match-IsBest}
use cozip.Pdeflate.Encode.Search.Sound.{IsSearch, IsBest}
use cozip.Pdeflate.Error.{panicked}
use cozip.Pdeflate.Section.Repeat.{cycle}
use cozip.Pdeflate.Table.RoundTrip.{IsEntry}

abbrev options : PdeflateOptions
options = record {
  section_count = 2;
  min_ref_len = 3;
  max_ref_len = 8;
  match_probe_limit = 4;
  huffman_encode_enabled = false;
}

abbrev table : List (List ℕ)
table = (1 ∷ 2 ∷ []) ∷ (3 ∷ 4 ∷ 5 ∷ []) ∷ []

abbrev chunk : List ℕ
chunk = 9 ∷ 1 ∷ 2 ∷ 1 ∷ 2 ∷ 1 ∷ 7 ∷ 3 ∷ 4 ∷ 5 ∷ 3 ∷ 4 ∷ []

chunk-IsBytes : IsBytes chunk
chunk-IsBytes = omega arith

table_entries : All IsEntry table
table_entries = ((omega arith, omega arith), ((omega arith, omega arith), tt))

table_bytes : All IsBytes table
table_bytes =
    ((omega arith, (omega arith, tt)), ((omega arith, (omega arith, (omega arith, tt))), tt))

input : IsInput options table chunk
input = record {
  entries = table_entries;
  entry_bytes = table_bytes;
  few_entries = omega arith;
  plain_layout = refl;
  chunk_bytes = chunk-IsBytes;
  chunk_small = omega arith;
  some_sections = omega arith;
  few_sections = omega arith;
  min_pos = omega arith;
  max_min = omega arith;
  min_fits = omega arith;
}

decompress_chunk_into-finalize_chunk_plain_example :
    Returns (finalize_chunk_plain new_scratch options chunk table) (λ (payload, s').
      ((set_chunk_final_stream_flag payload true >>= λ p.
      decompress_chunk_into (replicate max_cmd_len 9 ∷ []) p (replicate 12 0))
        ≡ ok chunk)
      × IsClean s')
decompress_chunk_into-finalize_chunk_plain_example =
    decompress_chunk_into-finalize_chunk_plain new_scratch true (replicate max_cmd_len 9 ∷ [])
      (replicate 12 0) input new_scratch-IsClean (refl, tt) refl

-- A scratch for the table, with the entries under their first two bytes.
abbrev scratch : EncodeScratch
scratch = record {
  repeat_table = map (λ entry. cycle entry 0 8) table;
  by_prefix2 = λ k2. 0 ∷ 1 ∷ [];
  has_prefix2 = λ k2. 1;
  prefix3_masks = λ k2 word. 0;
  touched_prefix2 = [];
}

scratch-IsScratch : IsScratch scratch table options 8
scratch-IsScratch = record {
  rows = refl;
  ids = λ k2. (omega arith, (omega arith, tt));
  few_entries = omega arith;
}

scratch-IsSearch : IsSearch table (map (λ entry. cycle entry 0 8) table) chunk 3 8 8
unfolding cycle
scratch-IsSearch = record {
  row_sizes = (refl, (refl, tt));
  row_bytes = omega arith;
  row_count = refl;
  src_bytes = chunk-IsBytes;
  width_is = refl;
  width_min = omega arith;
  min_pos = omega arith;
  min_fits = omega arith;
}

encode_section_into-Appended_example :
    Returns
      (encode_section_into scratch table options chunk (7 ∷ []))
      (λ (dst', cmd_len). Appended table (7 ∷ []) chunk dst' × (1 + cmd_len ≡ length dst'))
encode_section_into-Appended_example =
    encode_section_into-Appended scratch-IsScratch scratch-IsSearch (7 ∷ [])

find_best_match-IsBest_example :
    Returns (find_best_match scratch table options chunk 1 8) (IsBest scratch-IsSearch 1)
find_best_match-IsBest_example =
    find_best_match-IsBest scratch options scratch-IsSearch 1
      (λ k2. (omega arith, (omega arith, tt)))

rebuild_prefix_index-Kept_example : Returns (rebuild_prefix_index new_scratch table) (λ s'.
    (IsClean s' × Ids 2 s' × (s'.repeat_table ≡ new_scratch.repeat_table)) × Indexed table s')
rebuild_prefix_index-Kept_example =
    rebuild_prefix_index-Kept new_scratch table new_scratch-IsClean table_entries

abbrev left : List ℕ
left = 1 ∷ 2 ∷ 3 ∷ 4 ∷ 5 ∷ 6 ∷ 7 ∷ 8 ∷ 9 ∷ []

abbrev right : List ℕ
right = 1 ∷ 2 ∷ 3 ∷ 4 ∷ 5 ∷ 9 ∷ 7 ∷ 8 ∷ 9 ∷ []

fast_prefix_len-common_example : fast_prefix_len left right 20 ≡ common 20 left right
fast_prefix_len-common_example = fast_prefix_len-common left right 20 (omega arith) (omega arith)

prefix_of_five : fast_prefix_len left right 20 ≡ 5
unfolding fast_prefix_len word_loop byte_loop first_diff_byte_in_u64 trailing_zeros from_le_bytes
prefix_of_five = refl

-- With a maximal reference of 3 the rows have three bytes, and an entry of four bytes makes the search
-- read a fourth.
abbrev narrow : EncodeScratch
narrow = record scratch {
  repeat_table = (1 ∷ 2 ∷ 3 ∷ []) ∷ [];
  by_prefix2 = λ k2. 0 ∷ [];
  prefix3_masks = λ k2 word. 8;
}

narrow_row_panics :
    find_best_match narrow
      ((1 ∷ 2 ∷ 3 ∷ 4 ∷ []) ∷ [])
      (record {
        section_count = 1;
        min_ref_len = 3;
        max_ref_len = 3;
        match_probe_limit = 4;
        huffman_encode_enabled = false;
      })
      (1 ∷ 2 ∷ 3 ∷ 4 ∷ [])
      0
      3
    ≡ err panicked
unfolding find_best_match may_match prefix_key prefix3_hit select_candidates best_loop
    probe_candidate row_at prefilter rejected_at index
narrow_row_panics = refl
