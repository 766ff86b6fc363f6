-- ===== src/Deflate/Layout.antt =====
-- Where the blocks of a Deflate stream end: `parse_deflate_stream_layout` of
-- cozip_deflate/src/lib.rs and the readers that it is made of.
pub mod Local
pub mod Lengths
pub mod Safe
pub mod Walk
use cozip.Base.{
  ℕ, zero, suc, ◌+◌, ◌-◌, ◌*◌, ◌%◌, ◌^◌, List, [], ◌∷◌, ◌++◌, Bool, not, bit_xor, ltb, leb, ◌==◌,
  ◌&&◌, if◌then◌else◌, get_elem?, get_or, set, take, drop, replicate, length, Option, none, some,
}
use cozip.Base.Results.{ok, err, ok_or, fail_if, try_from, checked_add, usize_bound}
use cozip.Base.Results
use cozip.Deflate.BitCursor.{
  Read, pure, lift, ◌>>=◌, ◌>>◌, read_bit, read_bits, align_to_byte, skip_bits, index,
  saturating_mul,
}
use cozip.Deflate.Error.{Error, Result, invalid_frame, data_too_large, stuck}
use cozip.Deflate.HuffmanDecoder.{HuffmanDecoder, build_huffman_decoder}
use cozip.Deflate.HuffmanSymbol.{decode_huffman_symbol}

abbrev pub length_extra_bits : List ℕ
length_extra_bits =
    0 ∷ 0 ∷ 0 ∷ 0 ∷ 0 ∷ 0 ∷ 0 ∷ 0 ∷ 1 ∷ 1 ∷ 1 ∷ 1 ∷ 2 ∷ 2 ∷ 2 ∷ 2 ∷ 3 ∷ 3 ∷ 3 ∷ 3 ∷ 4 ∷ 4 ∷ 4 ∷ 4
    ∷ 5 ∷ 5 ∷ 5 ∷ 5 ∷ 0 ∷ []

abbrev pub dist_extra_bits : List ℕ
dist_extra_bits =
    0 ∷ 0 ∷ 0 ∷ 0 ∷ 1 ∷ 1 ∷ 2 ∷ 2 ∷ 3 ∷ 3 ∷ 4 ∷ 4 ∷ 5 ∷ 5 ∷ 6 ∷ 6 ∷ 7 ∷ 7 ∷ 8 ∷ 8 ∷ 9 ∷ 9 ∷ 10 ∷ 10
    ∷ 11 ∷ 11 ∷ 12 ∷ 12 ∷ 13 ∷ 13 ∷ []

abbrev pub codelen_order : List ℕ
codelen_order =
    16 ∷ 17 ∷ 18 ∷ 0 ∷ 8 ∷ 7 ∷ 9 ∷ 6 ∷ 10 ∷ 5 ∷ 11 ∷ 4 ∷ 12 ∷ 3 ∷ 13 ∷ 2 ∷ 14 ∷ 1 ∷ 15 ∷ []

pub record DeflateStreamLayout : Type 0 where
  pub final_header_bit : ℕ
  pub end_bit : ℕ

unfoldable pub fixed_huffman_trees : Result (HuffmanDecoder × HuffmanDecoder)
fixed_huffman_trees =
    Results.◌>>=◌
      (build_huffman_decoder
        (replicate 144 8 ++ (replicate 112 9 ++ (replicate 24 7 ++ replicate 8 8))))
      (λ litlen. Results.◌>>=◌ (build_huffman_decoder (replicate 32 5)) (λ dist. ok (litlen, dist)))

-- The code lengths of the code lengths, written where `order` says.
unfoldable pub read_codelen_lengths : List ℕ → List ℕ → Read (List ℕ)
read_codelen_lengths [] lengths = pure lengths
read_codelen_lengths (symbol ∷ order) lengths = do
  bits ← read_bits 3
  len ← lift (try_from 8 bits data_too_large)
  read_codelen_lengths order (set lengths symbol len)

unfoldable pub last : List ℕ → Option ℕ
last [] = none
last (x ∷ []) = some x
last (x ∷ y ∷ xs) = last (y ∷ xs)

-- What one symbol of the code-length alphabet adds to the lengths.
unfoldable pub code_length_run : ℕ → List ℕ → Read (List ℕ)
code_length_run sym lengths =
    let previous = (do
      prev ← lift (ok_or (last lengths) (invalid_frame "repeat code without previous length"))
      extra ← read_bits 2
      pure (lengths ++ replicate (extra + 3) prev)) in
    let short_zeros = (do extra ← read_bits 3; pure (lengths ++ replicate (extra + 3) 0)) in
    let long_zeros = (do extra ← read_bits 7; pure (lengths ++ replicate (extra + 11) 0)) in
    if leb sym 15
    then pure (lengths ++ (sym ∷ []))
    else if sym == 16
    then previous
    else if sym == 17
    then short_zeros
    else if sym == 18
    then long_zeros
    else lift (err (invalid_frame "invalid code-length alphabet symbol"))

-- A round adds a length at least, so `total` rounds and the last test are enough.
unfoldable pub read_lengths : ℕ → HuffmanDecoder → ℕ → List ℕ → Read (List ℕ)
read_lengths zero decoder total lengths = lift (err stuck)
read_lengths (suc n) decoder total lengths =
    let more = (do
      sym ← decode_huffman_symbol decoder
      lengths' ← code_length_run sym lengths
      lift (
          fail_if (ltb total (length lengths'))
            (invalid_frame "dynamic huffman length run overflow"))
      read_lengths n decoder total lengths') in
    if ltb (length lengths) total then more else pure lengths

unfoldable pub read_dynamic_huffman_trees : Read (HuffmanDecoder × HuffmanDecoder)
read_dynamic_huffman_trees = do
  hlit_bits ← read_bits 5
  hdist_bits ← read_bits 5
  hclen_bits ← read_bits 4
  let hlit = hlit_bits + 257
  let hdist = hdist_bits + 1
  let hclen = hclen_bits + 4
  codelen_lengths ← read_codelen_lengths (take hclen codelen_order) (replicate 19 0)
  codelen_decoder ← lift (build_huffman_decoder codelen_lengths)
  total ← lift (ok_or (checked_add hlit hdist) data_too_large)
  lengths ← read_lengths (total + 1) codelen_decoder total []
  litlen_decoder ← lift (build_huffman_decoder (take hlit lengths))
  dist_decoder ← lift (build_huffman_decoder (drop hlit lengths))
  pure (litlen_decoder, dist_decoder)

unfoldable pub skip_extra : ℕ → Read (Unit {0})
skip_extra bits =
    let present = (do _ ← read_bits bits; pure tt) in if ltb 0 bits then present else pure tt

-- A length symbol: its extra bits, and the distance behind it.
unfoldable pub skip_match : ℕ → HuffmanDecoder → Read (Unit {0})
skip_match sym dist_decoder = do
  lift (fail_if (not (leb 257 sym && leb sym 285)) (invalid_frame "invalid literal/length symbol"))
  extra_len ← lift (index length_extra_bits (sym - 257))
  skip_extra extra_len
  dist_sym ← decode_huffman_symbol dist_decoder
  lift (fail_if (leb 30 dist_sym) (invalid_frame "invalid distance symbol"))
  extra_dist ← lift (index dist_extra_bits dist_sym)
  skip_extra extra_dist

-- Every round reads a bit at least, and a usize counts the bits.
unfoldable pub payload_loop : ℕ → HuffmanDecoder → HuffmanDecoder → Read (Unit {0})
payload_loop zero litlen_decoder dist_decoder = lift (err stuck)
payload_loop (suc n) litlen_decoder dist_decoder = do
  sym ← decode_huffman_symbol litlen_decoder
  let next = payload_loop n litlen_decoder dist_decoder
  let after_match = do skip_match sym dist_decoder; next
  if ltb sym 256 then next else if sym == 256 then pure tt else after_match

unfoldable pub parse_huffman_block_payload : HuffmanDecoder → HuffmanDecoder → Read (Unit {0})
parse_huffman_block_payload = payload_loop usize_bound

unfoldable pub skip_stored_block : Read (Unit {0})
skip_stored_block = do
  align_to_byte
  len ← read_bits 16
  nlen ← read_bits 16
  lift (fail_if (not (bit_xor len 0xffff == nlen)) (invalid_frame "stored block LEN/NLEN mismatch"))
  skip_bits (saturating_mul len 8)

-- What follows the bit that says whether the block is the last one.
unfoldable pub read_block_body : Read (Unit {0})
read_block_body = do
  btype_bits ← read_bits 2
  let btype = btype_bits % 2 ^ 8
  let fixed = do trees ← lift fixed_huffman_trees; parse_huffman_block_payload trees.0 trees.1
  let dynamic = do trees ← read_dynamic_huffman_trees; parse_huffman_block_payload trees.0 trees.1
  if btype == 0
      then skip_stored_block
      else if btype == 1
      then fixed
      else if btype == 2
      then dynamic
      else lift (err (invalid_frame "invalid block type"))

unfoldable pub read_block : Read ℕ
read_block = do bfinal ← read_bit; read_block_body; pure bfinal

-- The rounds that are left, and the position of the next block.
unfoldable pub parse_blocks : ℕ → List ℕ → ℕ → Result DeflateStreamLayout
parse_blocks zero stream bit_pos = err stuck
parse_blocks (suc n) stream bit_pos = Results.◌>>=◌ (read_block stream bit_pos) (λ r.
    let next = parse_blocks n stream r.1 in
    if r.0 == 1 then ok (record { final_header_bit = bit_pos; end_bit = r.1 }) else next)

unfoldable pub parse_deflate_stream_layout : List ℕ → Result DeflateStreamLayout
parse_deflate_stream_layout stream =
    Results.◌>>=◌ (fail_if (length stream == 0) (invalid_frame "empty deflate chunk"))
      (λ _. parse_blocks usize_bound stream 0)
