-- ===== src/Deflate/Samples.antt =====
-- Deflate streams that the tests are run on, and what the parser finds in them.
use cozip.Base.{ℕ, ◌≡◌, refl, List, [], ◌∷◌}
use cozip.Base.Results.{ok}
use cozip.Deflate.BitCursor.{◌>>=◌, read_bit, read_bits, align_to_byte, skip_bits}
use cozip.Deflate.HuffmanDecoder.{
  build_huffman_decoder, count_lengths, sum_counts, offsets_loop, place_symbols,
}
use cozip.Deflate.HuffmanSymbol.{decode_huffman_symbol, decode_symbol_loop}
use cozip.Deflate.Layout.{
  parse_deflate_stream_layout, parse_blocks, read_block, read_block_body, fixed_huffman_trees,
  parse_huffman_block_payload, payload_loop, skip_match, skip_extra, skip_stored_block,
  read_dynamic_huffman_trees, read_codelen_lengths, read_lengths, code_length_run, last,
}

-- The empty text with the fixed codes: three bits of header, and seven of the end.
abbrev pub empty_fixed : List ℕ
empty_fixed = 0x03 ∷ 0x00 ∷ []

-- The empty text in a stored block.
abbrev pub empty_stored : List ℕ
empty_stored = 0x01 ∷ 0x00 ∷ 0x00 ∷ 0xff ∷ 0xff ∷ []

pub empty_stored_layout :
    parse_deflate_stream_layout empty_stored ≡ ok (record { final_header_bit = 0; end_bit = 40 })
unfolding parse_deflate_stream_layout parse_blocks read_block read_block_body skip_stored_block
    ◌>>=◌ read_bit read_bits align_to_byte skip_bits
empty_stored_layout = refl

pub empty_fixed_layout :
    parse_deflate_stream_layout empty_fixed ≡ ok (record { final_header_bit = 0; end_bit = 10 })
unfolding parse_deflate_stream_layout parse_blocks read_block read_block_body skip_stored_block
    ◌>>=◌ read_bit read_bits align_to_byte skip_bits fixed_huffman_trees build_huffman_decoder
    count_lengths sum_counts offsets_loop place_symbols parse_huffman_block_payload payload_loop
    decode_huffman_symbol decode_symbol_loop
empty_fixed_layout = refl

-- A text with repetitions, in a block with the fixed codes and in one with its own.
abbrev pub fixed_text : List ℕ
fixed_text = 75 ∷ 76 ∷ 74 ∷ 78 ∷ 132 ∷ 33 ∷ 0 ∷ []

abbrev pub dynamic_text : List ℕ
dynamic_text =
    173 ∷ 140 ∷ 193 ∷ 13 ∷ 2 ∷ 81 ∷ 16 ∷ 66 ∷ 91 ∷ 249 ∷ 173 ∷ 17 ∷ 37 ∷ 145 ∷ 195 ∷ 66 ∷ 162 ∷ 244
    ∷ 31 ∷ 113 ∷ 107 ∷ 240 ∷ 48 ∷ 153 ∷ 7 ∷ 12 ∷ 211 ∷ 23 ∷ 207 ∷ 3 ∷ 61 ∷ 159 ∷ 77 ∷ 124 ∷ 58 ∷ 121
    ∷ 13 ∷ 225 ∷ 231 ∷ 205 ∷ 239 ∷ 113 ∷ 255 ∷ 115 ∷ 34 ∷ 130 ∷ 73 ∷ 156 ∷ 50 ∷ 3 ∷ 209 ∷ 129 ∷ 111
    ∷ 151 ∷ 180 ∷ 24 ∷ 55 ∷ 166 ∷ 186 ∷ 164 ∷ 232 ∷ 196 ∷ 174 ∷ 101 ∷ 214 ∷ 6 ∷ 13 ∷ 91 ∷ 83 ∷ 5
    ∷ 182 ∷ 86 ∷ 77 ∷ 189 ∷ 79 ∷ 133 ∷ 252 ∷ 139 ∷ 179 ∷ 122 ∷ 21 ∷ 172 ∷ 31 ∷ 194 ∷ 146 ∷ 150 ∷ 85
    ∷ 157 ∷ 169 ∷ 126 ∷ 1 ∷ []

pub fixed_text_layout :
    parse_deflate_stream_layout fixed_text ≡ ok (record { final_header_bit = 0; end_bit = 54 })
unfolding parse_deflate_stream_layout parse_blocks read_block read_block_body skip_stored_block
    ◌>>=◌ read_bit read_bits align_to_byte skip_bits fixed_huffman_trees build_huffman_decoder
    count_lengths sum_counts offsets_loop place_symbols parse_huffman_block_payload payload_loop
    decode_huffman_symbol decode_symbol_loop skip_match skip_extra read_dynamic_huffman_trees
    read_codelen_lengths read_lengths code_length_run last
fixed_text_layout = refl

pub dynamic_text_layout :
    parse_deflate_stream_layout dynamic_text ≡ ok (record { final_header_bit = 0; end_bit = 721 })
unfolding parse_deflate_stream_layout parse_blocks read_block read_block_body skip_stored_block
    ◌>>=◌ read_bit read_bits align_to_byte skip_bits fixed_huffman_trees build_huffman_decoder
    count_lengths sum_counts offsets_loop place_symbols parse_huffman_block_payload payload_loop
    decode_huffman_symbol decode_symbol_loop skip_match skip_extra read_dynamic_huffman_trees
    read_codelen_lengths read_lengths code_length_run last
dynamic_text_layout = refl
