-- ===== src/Pdeflate/Encode/ChunkEncoder.antt =====
-- The encoder of a chunk from its table: `finalize_chunk_from_table` of
-- cozip_pdeflate/src/pdeflate/mod.rs on the CPU path with the plain layout.
pub mod Sections
pub mod RoundTrip
use cozip.Base.{ℕ, zero, suc, ◌+◌, List, [], ◌∷◌, ◌++◌, min, length}
use cozip.Base.Results.{ok, ◌>>=◌, try_from}
use cozip.Pdeflate.Chunk.{finalize_plain}
use cozip.Pdeflate.Chunk.Decode.{slice}
use cozip.Pdeflate.Command.{max_cmd_len}
use cozip.Pdeflate.Encode.{
  PdeflateOptions, EncodeScratch, rebuild_repeat_table, rebuild_prefix_index,
}
use cozip.Pdeflate.Encode.EncodeSection.{encode_section_into}
use cozip.Pdeflate.Error.{Result, numeric_overflow}
use cozip.Pdeflate.Section.{section_start}

-- `for sec in 0..section_count`, with `n` sections left: the commands so far and their lengths.
unfoldable pub encode_sections :
    ℕ
    → EncodeScratch
    → List (List ℕ)
    → PdeflateOptions
    → List ℕ
    → ℕ
    → List ℕ
    → List ℕ
    → Result (List ℕ × List ℕ)
encode_sections zero s table options chunk sec section_cmd section_cmd_lens =
    ok (section_cmd, section_cmd_lens)
encode_sections (suc n) s table options chunk sec section_cmd section_cmd_lens = do
  let s0 = section_start sec options.section_count (length chunk)
  let s1 = section_start (sec + 1) options.section_count (length chunk)
  src ← slice chunk s0 s1
  (section_cmd', cmd_len) ← encode_section_into s table options src section_cmd
  len_u32 ← try_from 32 cmd_len numeric_overflow
  encode_sections n s table options chunk (sec + 1) section_cmd'
      (section_cmd_lens ++ (len_u32 ∷ []))

-- `finalize_chunk_from_table` where it writes the plain layout only, as it does with
-- `huffman_encode_enabled` false, and searches the matches itself, without packed ones from the GPU and
-- without an override of the table: the payload, and the scratch that is left.
unfoldable pub finalize_chunk_plain :
    EncodeScratch → PdeflateOptions → List ℕ → List (List ℕ) → Result (List ℕ × EncodeScratch)
finalize_chunk_plain s options chunk table = do
  let max_ref_len = min (min options.max_ref_len max_cmd_len) 64
  s' ← rebuild_prefix_index (rebuild_repeat_table s table max_ref_len) table
  (section_cmd, section_cmd_lens) ←
      encode_sections options.section_count s' table options chunk 0 [] []
  payload ← finalize_plain (length chunk) options.section_count table section_cmd_lens section_cmd
  ok (payload, s')
