-- ===== src/Deflate/HuffmanDecoder.antt =====
-- The canonical Huffman decoder of cozip_deflate/src/lib.rs: `build_huffman_decoder`.
pub mod Built
use cozip.Base.{
  ℕ, zero, suc, ◌+◌, ◌-◌, ◌*◌, ◌%◌, ◌^◌, List, [], ◌∷◌, min, max, bit_or, ltb, leb, ◌==◌, ◌&&◌,
  if◌then◌else◌, get_elem?, get_or, set, drop, replicate, length,
}
use cozip.Base.Results.{ok, err, ok_or, fail_if, try_from, ◌>>=◌, ◌>>◌}
use cozip.Deflate.BitCursor.{saturating_add}
use cozip.Deflate.Error.{Error, Result, invalid_frame, data_too_large}

abbrev pub deflate_max_huff_bits : ℕ
deflate_max_huff_bits = 15

pub record HuffmanDecoder : Type 0 where
  pub counts : List ℕ
  pub symbols : List ℕ
  pub max_bits : ℕ

-- How many codes have each length; a length that passes the test is a place of the 16 counts.
unfoldable pub count_lengths : List ℕ → List ℕ → Result (List ℕ)
count_lengths [] counts = ok counts
count_lengths (len ∷ lengths) counts = do
  fail_if (ltb deflate_max_huff_bits len)
      (invalid_frame "invalid huffman code length in deflate stream")
  count_lengths lengths
      (if ltb 0 len then set counts len (min (get_or counts len 0 + 1) 0xffff) else counts)

unfoldable pub sum_counts : List ℕ → ℕ → ℕ
sum_counts [] acc = acc
sum_counts (count ∷ counts) acc = sum_counts counts (saturating_add acc count)

-- The rounds that are left, and the next length.
unfoldable pub offsets_loop : ℕ → ℕ → List ℕ → List ℕ → List ℕ
offsets_loop zero bits counts offsets = offsets
offsets_loop (suc n) bits counts offsets =
    offsets_loop n (bits + 1) counts
      (set offsets (bits + 1) (saturating_add (get_or offsets bits 0) (get_or counts bits 0)))

-- The lengths of the symbols from `symbol` on; the result is the table and the longest length.
unfoldable pub place_symbols : List ℕ → ℕ → ℕ → List ℕ → List ℕ → Result (List ℕ × ℕ)
place_symbols [] symbol max_bits offsets symbols = ok (symbols, max_bits)
place_symbols (len ∷ lengths) symbol max_bits offsets symbols =
    let skipped = place_symbols lengths (symbol + 1) max_bits offsets symbols in
    let slot = get_or offsets len 0 in
    let placed = (do
      fail_if (leb (length symbols) slot) (invalid_frame "huffman symbol table overflow")
      value ← try_from 16 symbol data_too_large
      place_symbols lengths (symbol + 1) (max max_bits len)
          (set offsets len (saturating_add slot 1)) (set symbols slot value)) in
    if len == 0 then skipped else placed

unfoldable pub build_huffman_decoder : List ℕ → Result HuffmanDecoder
build_huffman_decoder lengths = do
  counts ← count_lengths lengths (replicate 16 0)
  let total_symbols = sum_counts (drop 1 counts) 0
  let offsets = offsets_loop 14 1 counts (replicate 16 0)
  (symbols, max_bits) ← place_symbols lengths 0 0 offsets (replicate total_symbols 0)
  ok (record { counts = counts; symbols = symbols; max_bits = max_bits })
