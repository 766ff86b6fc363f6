-- ===== src/Pdeflate/Huffman/Reader.antt =====
-- `BitReaderLsb` and the decoding of a section by the lookup table (`peek_bits_padded`, `consume`,
-- `decode_huffman_symbols_with_lut` of cozip_pdeflate/src/pdeflate/mod.rs).
use cozip.Base.{
  ℕ, zero, suc, ◌+◌, ◌-◌, ◌*◌, ◌/◌, ◌%◌, ◌^◌, List, [], ◌∷◌, ◌++◌, bit_and, bit_or, ltb, leb, ◌==◌,
  not, if◌then◌else◌, length, get_or, get_elem?,
}
use cozip.Base.Results.{ok, err, ◌>>=◌, ◌>>◌, fail_if, ok_or, checked_mul, try_from}
use cozip.Pdeflate.Error.{Result, invalid_stream, numeric_overflow, stuck}
use cozip.Pdeflate.Huffman.{HuffmanLut, HuffmanLutEntry, invalid, symbol, subtable}

pub record BitReaderLsb : Type 0 where
  pub src : List ℕ
  pub bit_len : ℕ
  pub bit_cursor : ℕ

unfoldable pub new_reader : List ℕ → ℕ → Result BitReaderLsb
new_reader src bit_len = do
  max_bits ← ok_or (checked_mul (length src) 8) numeric_overflow
  fail_if (ltb max_bits bit_len) (invalid_stream "huffman bit_len exceeds input buffer")
  ok (record { src = src; bit_len = bit_len; bit_cursor = 0 })

-- `saturating_sub` is the subtraction of ℕ.
unfoldable pub remaining_bits : BitReaderLsb → ℕ
remaining_bits r = r.bit_len - r.bit_cursor

unfoldable pub consume : BitReaderLsb → ℕ → Result BitReaderLsb
unfolding remaining_bits
consume r bit_len = do
  fail_if (ltb (remaining_bits r) bit_len) (invalid_stream "huffman code exceeds remaining bits")
  ok (record r { bit_cursor = r.bit_cursor + bit_len })

-- `for i in 0..bit_len`: `n` rounds are left, and the loop breaks at the end of the bits. The byte
-- is in range by the check of `new_reader`.
unfoldable pub peek_loop : ℕ → ℕ → BitReaderLsb → ℕ → ℕ
peek_loop zero i r out = out
peek_loop (suc n) i r out =
    let pos = r.bit_cursor + i in
    let bit = bit_and (get_or r.src (pos / 8) 0 / 2 ^ bit_and pos 7) 1 in
    let more = peek_loop n (i + 1) r (bit_or out (bit * 2 ^ i % 2 ^ 32)) in
    if leb r.bit_len pos then out else more

unfoldable pub peek_bits_padded : BitReaderLsb → ℕ → ℕ
peek_bits_padded r bit_len = peek_loop bit_len 0 r 0

-- One round: the entry that the next bits lead to, read and consumed.
unfoldable pub emit_symbol : BitReaderLsb → ℕ → ℕ → Result (BitReaderLsb × ℕ)
emit_symbol r s bit_len = do
  r' ← consume r bit_len
  byte ← try_from 8 s numeric_overflow
  ok (r', byte)

unfoldable pub decode_sub_entry : BitReaderLsb → HuffmanLutEntry → Result (BitReaderLsb × ℕ)
decode_sub_entry r (symbol s bit_len) = emit_symbol r s bit_len
decode_sub_entry r _ = err (invalid_stream "huffman lut subtable entry is not terminal symbol")

unfoldable pub decode_root_entry :
    HuffmanLut → BitReaderLsb → HuffmanLutEntry → Result (BitReaderLsb × ℕ)
decode_root_entry lut r (symbol s bit_len) = emit_symbol r s bit_len
decode_root_entry lut r (subtable offset sub_bits) = do
  let full = peek_bits_padded r (lut.root_bits + sub_bits)
  let sub_idx = bit_and (full / 2 ^ lut.root_bits) (2 ^ sub_bits - 1)
  entry ←
      ok_or (get_elem? lut.subtables (offset + sub_idx))
        (invalid_stream "huffman lut subtable index out of bounds")
  decode_sub_entry r entry
decode_root_entry lut r invalid = err (invalid_stream "huffman lut decode hit invalid root entry")

unfoldable pub decode_symbol : HuffmanLut → BitReaderLsb → Result (BitReaderLsb × ℕ)
decode_symbol lut r = do
  let root_idx = bit_and (peek_bits_padded r lut.root_bits) (2 ^ lut.root_bits - 1)
  entry ←
      ok_or (get_elem? lut.root root_idx) (invalid_stream "huffman lut root index out of bounds")
  decode_root_entry lut r entry

-- `while reader.remaining_bits() > 0`. A round takes a bit at least unless an entry says 0 bits,
-- with which the loop of the source would not end.
unfoldable pub decode_lut_loop : ℕ → HuffmanLut → BitReaderLsb → List ℕ → Result (List ℕ)
unfolding remaining_bits
decode_lut_loop zero lut r out = if remaining_bits r == 0 then ok out else err stuck
decode_lut_loop (suc rounds) lut r out =
    let round =
      decode_symbol lut r >>= λ (r', byte). decode_lut_loop rounds lut r' (out ++ (byte ∷ [])) in
    if remaining_bits r == 0 then ok out else round

unfoldable pub decode_huffman_symbols_with_lut : List ℕ → ℕ → HuffmanLut → Result (List ℕ)
decode_huffman_symbols_with_lut bitstream bit_len lut = do
  r ← new_reader bitstream bit_len
  decode_lut_loop bit_len lut r []

unfoldable pub decode_section_bitstream_to_huffman_symbols_with_lut :
    List ℕ → ℕ → HuffmanLut → Result (List ℕ)
decode_section_bitstream_to_huffman_symbols_with_lut section_bits section_bit_len huff_lut = do
  fail_if (not ((section_bit_len + 7) / 8 == length section_bits))
      (invalid_stream "section bitstream length mismatch")
  decode_huffman_symbols_with_lut section_bits section_bit_len huff_lut

-- The identity, as in the source.
unfoldable pub huffman_symbols_to_logical_commands : List ℕ → List ℕ
huffman_symbols_to_logical_commands symbols = symbols
