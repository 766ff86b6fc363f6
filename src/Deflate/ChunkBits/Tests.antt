-- ===== src/Deflate/ChunkBits/Tests.antt =====
-- Runs of the parser of Deflate blocks on concrete streams, and the joining of two of them.
use cozip.Base.{ℕ, ◌*◌, ◌/◌, ◌%◌, ◌≤◌, ◌<◌, ◌≡◌, ◌++◌, length, arith}
use cozip.Base.Bits.Digit.{zero-digit}
use cozip.Base.Results.{ok}
use cozip.Base.Returns.{Returns}
use cozip.Deflate.BitCursor.Bit.{bit}
use cozip.Deflate.ChunkBits.{prepare_chunk_bits_for_non_final_stream}
use cozip.Deflate.ChunkBits.Join.{parse_deflate_stream_layout-join}
use cozip.Deflate.Error.{Answers}
use cozip.Deflate.Layout.{parse_deflate_stream_layout}
use cozip.Deflate.Layout.Safe.{parse_deflate_stream_layout-Answers}
use cozip.Deflate.Layout.Walk.{shifted}
use cozip.Deflate.Samples.{
  empty_fixed, empty_fixed_layout, fixed_text, fixed_text_layout, dynamic_text,
}

empty_fixed_clean : (i : ℕ) → 10 ≤ i → i < 16 → bit empty_fixed i ≡ 0
unfolding bit
empty_fixed_clean i h k = let e : i / 8 ≡ 1 = omega arith in rw e (zero-digit (i % 8))

parse_deflate_stream_layout-join_example :
    Returns
      (prepare_chunk_bits_for_non_final_stream empty_fixed
        (record { final_header_bit = 0; end_bit = 10 }))
      (λ r.
        (r.1 ≡ 8 * length r.0)
        × (parse_deflate_stream_layout (r.0 ++ fixed_text)
            ≡ ok (shifted (8 * length r.0) (record { final_header_bit = 0; end_bit = 54 }))))
parse_deflate_stream_layout-join_example =
    parse_deflate_stream_layout-join empty_fixed fixed_text
      (record { final_header_bit = 0; end_bit = 10 })
      (record { final_header_bit = 0; end_bit = 54 }) (omega arith) empty_fixed_layout
      fixed_text_layout empty_fixed_clean

parse_deflate_stream_layout-Answers_example :
    Answers
      (λ layout.
        (layout.final_header_bit < layout.end_bit) × (layout.end_bit ≤ 8 * length dynamic_text))
      (parse_deflate_stream_layout dynamic_text)
parse_deflate_stream_layout-Answers_example =
    parse_deflate_stream_layout-Answers dynamic_text (omega arith)
