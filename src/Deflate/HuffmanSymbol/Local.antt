-- ===== src/Deflate/HuffmanSymbol/Local.antt =====
-- Decoding a symbol depends on the bits of its code only, and takes one at least.
use cozip.Base.{ℕ, zero, suc}
use cozip.Deflate.BitCursor.{read_bit}
use cozip.Deflate.BitCursor.Local.{
  Local, local_rules, Local-read_bit, Forward, Forward-read_bit, Forward-bind, Forward-bind_lift,
  Forward-lift_err,
}
use cozip.Deflate.Error.{invalid_frame}
use cozip.Deflate.HuffmanDecoder.{HuffmanDecoder}
use cozip.Deflate.HuffmanSymbol.{decode_symbol_loop, decode_huffman_symbol}

Local-decode_symbol_loop :
    (n : ℕ) (decoder : HuffmanDecoder) (len code first idx : ℕ)
    → Local (decode_symbol_loop n decoder len code first idx)
unfolding decode_symbol_loop
Local-decode_symbol_loop zero decoder len code first idx = search local_rules
Local-decode_symbol_loop (suc n) decoder len code first idx =
    search (local_rules, Local-decode_symbol_loop n)

pub Local-decode_huffman_symbol : (decoder : HuffmanDecoder) → Local (decode_huffman_symbol decoder)
unfolding decode_huffman_symbol
Local-decode_huffman_symbol decoder = search (local_rules, Local-decode_symbol_loop)

Forward-decode_symbol_loop :
    (n : ℕ) (decoder : HuffmanDecoder) (len code first idx : ℕ)
    → Forward (decode_symbol_loop n decoder len code first idx)
unfolding decode_symbol_loop
Forward-decode_symbol_loop zero decoder len code first idx =
    Forward-lift_err (invalid_frame "failed to decode huffman symbol")
Forward-decode_symbol_loop (suc n) decoder len code first idx =
    Forward-bind read_bit _ Forward-read_bit Local-read_bit
      (λ b. search (local_rules, Local-decode_symbol_loop n))

pub Forward-decode_huffman_symbol :
    (decoder : HuffmanDecoder) → Forward (decode_huffman_symbol decoder)
unfolding decode_huffman_symbol
Forward-decode_huffman_symbol decoder =
    Forward-bind_lift _ _ (λ _ _. Forward-decode_symbol_loop decoder.max_bits decoder 1 0 0 0)
