-- ===== src/Deflate/ChunkStream/Tests.antt =====
-- Two chunks that are written as one stream.
use cozip.Base.{ℕ, ◌≡◌, refl, true, List, [], ◌∷◌, none, length, arith}
use cozip.Base.Results.{ok}
use cozip.Base.Returns.{Returns}
use cozip.Deflate.BitWriter.{new_writer, finish}
use cozip.Deflate.ChunkBits.Represents.{Represents}
use cozip.Deflate.ChunkStream.{cpu, Taken, is_final_chunk, write_chunks}
use cozip.Deflate.ChunkStream.Parsed.{IsCpuChunk, IsInOrder, last_header, write_chunks-parsed}
use cozip.Deflate.ChunkStream.Stream.{stream_bits, Tiles, write_chunks-Represents}
use cozip.Deflate.Index.Ordered.{IsOrdered}
use cozip.Deflate.Layout.{parse_deflate_stream_layout}
use cozip.Deflate.Samples.{empty_fixed, empty_fixed_layout, fixed_text, fixed_text_layout}

abbrev taken_chunk : ℕ → List ℕ → ℕ → ℕ → Taken
taken_chunk index compressed end_bit raw_len = record {
  ready = record {
    chunk = record {
      index = index;
      backend = cpu;
      raw_len = raw_len;
      layout = none;
      compressed = compressed;
    };
    layout = record { final_header_bit = 0; end_bit = end_bit };
    prepared_non_final_end_bit = none;
  };
  reached_eof = true;
  total_task_count = 2;
}

abbrev two_chunks : List Taken
two_chunks = taken_chunk 0 fixed_text 54 12 ∷ taken_chunk 1 empty_fixed 10 0 ∷ []

fixed_text_chunk : IsCpuChunk (taken_chunk 0 fixed_text 54 12)
fixed_text_chunk = record {
  taken_chunk = (
    record {
      bytes = (
        omega arith,
        (
          omega arith,
          (omega arith, (omega arith, (omega arith, (omega arith, (omega arith, tt))))),
        ),
      );
      in_order = omega arith;
      inside = omega arith;
      prepared = tt;
    },
    omega arith,
    omega arith,
  );
  unprepared = refl;
  parsed = fixed_text_layout;
}

empty_fixed_chunk : IsCpuChunk (taken_chunk 1 empty_fixed 10 0)
empty_fixed_chunk = record {
  taken_chunk = (
    record {
      bytes = (omega arith, (omega arith, tt));
      in_order = omega arith;
      inside = omega arith;
      prepared = tt;
    },
    omega arith,
    omega arith,
  );
  unprepared = refl;
  parsed = empty_fixed_layout;
}

two_chunks-IsInOrder : IsInOrder 0 two_chunks
unfolding IsInOrder is_final_chunk
two_chunks-IsInOrder = (refl, refl)

write_chunks-parsed_example :
    Returns (write_chunks two_chunks 0 (new_writer []) []) (λ (w, entries).
      parse_deflate_stream_layout (finish w).inner
      ≡ ok (record { final_header_bit = last_header entries; end_bit = w.total_bits }))
write_chunks-parsed_example =
    write_chunks-parsed two_chunks (fixed_text_chunk, (empty_fixed_chunk, tt)) two_chunks-IsInOrder
      (omega arith)

write_chunks-Represents_example :
    Returns (write_chunks two_chunks 0 (new_writer []) []) (λ (w, entries).
      Represents (finish w).inner (stream_bits [] 0 two_chunks)
      × (w.total_bits ≡ length (stream_bits [] 0 two_chunks))
      × Tiles 0 entries (length (stream_bits [] 0 two_chunks))
      × IsOrdered 0 entries)
write_chunks-Represents_example =
    write_chunks-Represents two_chunks
      (fixed_text_chunk.taken_chunk, (empty_fixed_chunk.taken_chunk, tt)) (omega arith)
