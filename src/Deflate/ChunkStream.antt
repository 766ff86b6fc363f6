-- ===== src/Deflate/ChunkStream.antt =====
-- The writing side of the streaming encoder of cozip_deflate/src/lib.rs: the ready chunks are taken
-- in the order of their indices, led to the next byte, written, and entered in the chunk index. What
-- the writer sees of the shared state when it takes a chunk is part of the sequence that it works
-- on; the statistics, the waits and the messages to the other threads are left out.
pub mod Entry
pub mod Stream
pub mod Walk
pub mod Parsed
mod Tests
use cozip.Base.{
  ℕ, zero, suc, ◌+◌, ◌-◌, Bool, List, [], ◌∷◌, ◌++◌, Option, none, some, not, ltb, ◌==◌, ◌&&◌,
  if◌then◌else◌,
}
use cozip.Base.Results.{ok, ◌>>=◌, ok_or, checked_add, try_from}
use cozip.Deflate.BitWriter.{
  DeflateBitWriter, write_bits_from_slice, write_chunk_bits_with_final_override,
  append_empty_stored_block_non_final, append_deflate_chunk_as_block_sequence_with_layout,
}
use cozip.Deflate.Error.{Result, data_too_large}
use cozip.Deflate.Index.{DeflateChunkIndexEntry}
use cozip.Deflate.Layout.{DeflateStreamLayout}

pub data ChunkBackend : Type 0 where
  cpu : ChunkBackend
  gpu_assisted : ChunkBackend

pub record ChunkMember : Type 0 where
  pub index : ℕ
  pub backend : ChunkBackend
  pub raw_len : ℕ
  pub layout : Option DeflateStreamLayout
  pub compressed : List ℕ

pub record StreamReadyChunk : Type 0 where
  pub chunk : ChunkMember
  pub layout : DeflateStreamLayout
  pub prepared_non_final_end_bit : Option ℕ

-- A ready chunk, and what the writer reads of `closed` and `total_tasks` when it takes it.
pub record Taken : Type 0 where
  pub ready : StreamReadyChunk
  pub reached_eof : Bool
  pub total_task_count : ℕ

unfoldable pub is_final_chunk : Taken → ℕ → Bool
is_final_chunk taken next_write_index =
    taken.reached_eof && next_write_index + 1 == taken.total_task_count

-- The empty stored block in front of a chunk, and its bits.
unfoldable pub write_connector : DeflateBitWriter → ℕ → Result (DeflateBitWriter × ℕ)
write_connector w next_write_index =
    let connected = (do
      w' ← append_empty_stored_block_non_final w
      ok (w', w'.total_bits - w.total_bits)) in
    if ltb 0 next_write_index && not (w.used == 0) then connected else ok (w, 0)

-- The chunk itself; the option is `prepared_non_final_end_bit`.
unfoldable pub write_chunk :
    DeflateBitWriter → StreamReadyChunk → Bool → Option ℕ → Result DeflateBitWriter
write_chunk w ready final (some non_final_end_bit) =
    if final
    then write_chunk_bits_with_final_override w ready.chunk.compressed ready.layout 1
    else write_bits_from_slice w ready.chunk.compressed 0 non_final_end_bit
write_chunk w ready final none =
    append_deflate_chunk_as_block_sequence_with_layout w ready.chunk.compressed ready.layout
      (if final then 1 else 0)

unfoldable pub write_ready_chunk :
    DeflateBitWriter
    → ℕ
    → StreamReadyChunk
    → Bool
    → Result (DeflateBitWriter × DeflateChunkIndexEntry)
write_ready_chunk w next_write_index ready final = do
  let chunk_start_bit = w.total_bits
  (w', connector_bits) ← write_connector w next_write_index
  w'' ← write_chunk w' ready final ready.prepared_non_final_end_bit
  rel ← ok_or (checked_add connector_bits ready.layout.final_header_bit) data_too_large
  comp_bit_len ← try_from 32 (w''.total_bits - chunk_start_bit) data_too_large
  final_header_rel_bit ← try_from 32 rel data_too_large
  ok (
    w'',
    record {
      comp_bit_off = chunk_start_bit;
      comp_bit_len = comp_bit_len;
      final_header_rel_bit = final_header_rel_bit;
      raw_len = ready.chunk.raw_len;
    },
  )

-- The chunks that are left, `next_write_index` and `chunk_index_entries`.
unfoldable pub write_chunks :
    List Taken
    → ℕ
    → DeflateBitWriter
    → List DeflateChunkIndexEntry
    → Result (DeflateBitWriter × List DeflateChunkIndexEntry)
write_chunks [] next_write_index w entries = ok (w, entries)
write_chunks (taken ∷ rest) next_write_index w entries = do
  (w', entry) ←
      write_ready_chunk w next_write_index taken.ready (is_final_chunk taken next_write_index)
  write_chunks rest (next_write_index + 1) w' (entries ++ (entry ∷ []))
