-- ===== src/Deflate/Layout/Local.antt =====
-- A block of a Deflate stream is read from its own bits only.
use cozip.Base.{ℕ, zero, suc, List, [], ◌∷◌}
use cozip.Base.Results.{usize_bound}
use cozip.Deflate.BitCursor.Local.{Local, local_rules, Local-read_bits, Local-bind}
use cozip.Deflate.HuffmanDecoder.{HuffmanDecoder}
use cozip.Deflate.HuffmanSymbol.{decode_huffman_symbol}
use cozip.Deflate.HuffmanSymbol.Local.{Local-decode_huffman_symbol}
use cozip.Deflate.Layout.{
  read_codelen_lengths, code_length_run, read_lengths, read_dynamic_huffman_trees, skip_extra,
  skip_match, payload_loop, parse_huffman_block_payload, skip_stored_block, read_block_body,
  read_block,
}

pub Local-read_codelen_lengths :
    (order lengths : List ℕ) → Local (read_codelen_lengths order lengths)
unfolding read_codelen_lengths
Local-read_codelen_lengths [] lengths = search local_rules
Local-read_codelen_lengths (symbol ∷ order) lengths =
    search (local_rules, Local-read_bits, Local-read_codelen_lengths order)

pub Local-code_length_run : (sym : ℕ) (lengths : List ℕ) → Local (code_length_run sym lengths)
unfolding code_length_run
Local-code_length_run sym lengths = search (local_rules, Local-read_bits) depth 9

pub Local-read_lengths :
    (n : ℕ) (decoder : HuffmanDecoder) (total : ℕ) (lengths : List ℕ)
    → Local (read_lengths n decoder total lengths)
unfolding read_lengths
Local-read_lengths zero decoder total lengths = search local_rules
Local-read_lengths (suc n) decoder total lengths = search (
  local_rules,
  Local-decode_huffman_symbol,
  Local-code_length_run,
  Local-read_lengths n decoder total,
)

pub Local-read_dynamic_huffman_trees : Local read_dynamic_huffman_trees
unfolding read_dynamic_huffman_trees
Local-read_dynamic_huffman_trees =
    search (local_rules, Local-read_bits, Local-read_codelen_lengths, Local-read_lengths) depth 14

pub Local-skip_extra : (bits : ℕ) → Local (skip_extra bits)
unfolding skip_extra
Local-skip_extra bits = search (local_rules, Local-read_bits)

pub Local-skip_match :
    (sym : ℕ) (dist_decoder : HuffmanDecoder) → Local (skip_match sym dist_decoder)
unfolding skip_match
Local-skip_match sym dist_decoder =
    search (local_rules, Local-skip_extra, Local-decode_huffman_symbol) depth 9

Local-payload_loop :
    (n : ℕ) (litlen_decoder dist_decoder : HuffmanDecoder)
    → Local (payload_loop n litlen_decoder dist_decoder)
unfolding payload_loop
Local-payload_loop zero litlen_decoder dist_decoder = search local_rules
Local-payload_loop (suc n) litlen_decoder dist_decoder =
    let next = Local-payload_loop n litlen_decoder dist_decoder in
    Local-bind (decode_huffman_symbol litlen_decoder) _ (Local-decode_huffman_symbol litlen_decoder)
      (λ sym. search (local_rules, Local-skip_match))

pub Local-parse_huffman_block_payload :
    (litlen_decoder dist_decoder : HuffmanDecoder)
    → Local (parse_huffman_block_payload litlen_decoder dist_decoder)
unfolding parse_huffman_block_payload
Local-parse_huffman_block_payload = Local-payload_loop usize_bound

Local-skip_stored_block : Local skip_stored_block
unfolding skip_stored_block
Local-skip_stored_block = search (local_rules, Local-read_bits)

pub Local-read_block_body : Local read_block_body
unfolding read_block_body
Local-read_block_body =
    search
      (
        local_rules, Local-read_bits, Local-skip_stored_block, Local-parse_huffman_block_payload,
        Local-read_dynamic_huffman_trees,
      )
      depth 9

pub Local-read_block : Local read_block
unfolding read_block
Local-read_block = search (local_rules, Local-read_block_body)
