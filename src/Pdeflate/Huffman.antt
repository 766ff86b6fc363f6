-- ===== src/Pdeflate/Huffman.antt =====
-- The Huffman lookup table of a chunk: its types, its packed entries and its serial form
-- (`HuffmanLut`, `pack_huffman_lut_entry` to `deserialize_huffman_lut` of
-- cozip_pdeflate/src/pdeflate/mod.rs).
mod Tests
pub mod Reader
pub mod Entry
pub mod LutRoundTrip
use cozip.Base.{
  ℕ, zero, suc, ◌+◌, ◌*◌, ◌/◌, ◌^◌, List, [], ◌∷◌, ◌++◌, bit_and, bit_or, ◌%◌, ltb, leb, ◌==◌, not,
  ◌||◌, if◌then◌else◌, length,
}
use cozip.Base.Results.{
  ok, err, ◌>>=◌, ◌>>◌, fail_if, ok_or, checked_add, checked_mul, checked_shl_one, try_from,
}
use cozip.Pdeflate.Cursor.{read_u8, read_u16_le, read_u32_le, write_u8, write_u16_le, write_u32_le}
use cozip.Pdeflate.Error.{Result, invalid_stream, numeric_overflow}

pub data HuffmanLutEntry : Type 0 where
  invalid : HuffmanLutEntry
  symbol : ℕ → ℕ → HuffmanLutEntry
  subtable : ℕ → ℕ → HuffmanLutEntry

pub record HuffmanLut : Type 0 where
  pub symbol_count : ℕ
  pub root_bits : ℕ
  pub max_code_bits : ℕ
  pub root : List HuffmanLutEntry
  pub subtables : List HuffmanLutEntry

abbrev pub huff_lut_header_size : ℕ
huff_lut_header_size = 12

-- `symbol s bits` and `subtable offset bits`; `<<` drops what leaves the 32 bits.
unfoldable pub pack_huffman_lut_entry : HuffmanLutEntry → Result ℕ
pack_huffman_lut_entry invalid = ok 0
pack_huffman_lut_entry (symbol s bit_len) =
    ok (bit_or (bit_or 1 (bit_len * 2 ^ 2 % 2 ^ 32)) (s * 2 ^ 10 % 2 ^ 32))
pack_huffman_lut_entry (subtable offset sub_bits) =
    ok (bit_or (bit_or 2 (sub_bits * 2 ^ 2 % 2 ^ 32)) (offset * 2 ^ 10 % 2 ^ 32))

unfoldable pub unpack_huffman_lut_entry : ℕ → Result HuffmanLutEntry
unpack_huffman_lut_entry packed =
    let kind = bit_and packed 0x3 in
    let bits = bit_and (packed / 2 ^ 2) 0xff in
    if kind == 0
    then ok invalid
    else if kind == 1
    then ok (symbol (bit_and (packed / 2 ^ 10) 0xffff) bits)
    else if kind == 2
    then ok (subtable (packed / 2 ^ 10) bits)
    else err (invalid_stream "huffman lut entry kind invalid")

unfoldable pub write_entries : List ℕ → List HuffmanLutEntry → Result (List ℕ)
write_entries out [] = ok out
write_entries out (entry ∷ entries) = do
  packed ← pack_huffman_lut_entry entry
  write_entries (write_u32_le out packed) entries

unfoldable pub serialize_huffman_lut : HuffmanLut → Result (List ℕ)
serialize_huffman_lut lut = do
  symbol_count ← try_from 16 lut.symbol_count numeric_overflow
  let out₁ = write_u16_le [] symbol_count
  let out₂ = write_u8 (write_u8 out₁ lut.root_bits) lut.max_code_bits
  root_len ← try_from 32 (length lut.root) numeric_overflow
  sub_len ← try_from 32 (length lut.subtables) numeric_overflow
  let out₃ = write_u32_le (write_u32_le out₂ root_len) sub_len
  out₄ ← write_entries out₃ lut.root
  write_entries out₄ lut.subtables

-- `n` entries from the cursor on.
unfoldable pub read_entries :
    ℕ → List ℕ → ℕ → List HuffmanLutEntry → Result (List HuffmanLutEntry × ℕ)
read_entries zero src cursor entries = ok (entries, cursor)
read_entries (suc n) src cursor entries = do
  (packed, cursor') ← read_u32_le src cursor
  entry ← unpack_huffman_lut_entry packed
  read_entries n src cursor' (entries ++ (entry ∷ []))

-- What the entries of the two tables are held to.
unfoldable pub check_root_entry : ℕ → ℕ → ℕ → ℕ → HuffmanLutEntry → Result (Unit {0})
check_root_entry symbol_count root_bits max_code_bits sub_len invalid = ok tt
check_root_entry symbol_count root_bits max_code_bits sub_len (symbol s bit_len) = do
  fail_if (bit_len == 0 || ltb root_bits bit_len)
      (invalid_stream "huffman lut root symbol bit_len invalid")
  fail_if (leb symbol_count s) (invalid_stream "huffman lut root symbol out of range")
check_root_entry symbol_count root_bits max_code_bits sub_len (subtable offset sub_bits) = do
  fail_if (sub_bits == 0) (invalid_stream "huffman lut subtable bit width is zero")
  total_bits ← try_from 8 (root_bits + sub_bits) numeric_overflow
  fail_if (ltb max_code_bits total_bits) (invalid_stream "huffman lut subtable exceeds max bits")
  span ← ok_or (checked_shl_one sub_bits) numeric_overflow
  end ← ok_or (checked_add offset span) numeric_overflow
  fail_if (ltb sub_len end) (invalid_stream "huffman lut subtable range out of bounds")

unfoldable pub check_sub_entry : ℕ → ℕ → ℕ → HuffmanLutEntry → Result (Unit {0})
check_sub_entry symbol_count root_bits max_code_bits invalid =
    err (invalid_stream "huffman lut subtable has invalid hole")
check_sub_entry symbol_count root_bits max_code_bits (symbol s bit_len) = do
  fail_if (leb bit_len root_bits || ltb max_code_bits bit_len)
      (invalid_stream "huffman lut subtable symbol bit_len invalid")
  fail_if (leb symbol_count s) (invalid_stream "huffman lut subtable symbol out of range")
check_sub_entry symbol_count root_bits max_code_bits (subtable offset sub_bits) =
    err (invalid_stream "huffman lut subtable entry is not terminal symbol")

unfoldable pub check_entries :
    (HuffmanLutEntry → Result (Unit {0})) → List HuffmanLutEntry → Result (Unit {0})
check_entries check [] = ok tt
check_entries check (entry ∷ entries) = check entry >> check_entries check entries

unfoldable pub deserialize_huffman_lut : List ℕ → Result HuffmanLut
deserialize_huffman_lut src = do
  fail_if (ltb (length src) huff_lut_header_size) (invalid_stream "huffman lut header truncated")
  (symbol_count, c₁) ← read_u16_le src 0
  fail_if (symbol_count == 0) (invalid_stream "huffman lut symbol_count is zero")
  (root_bits, c₂) ← read_u8 src c₁
  (max_code_bits, c₃) ← read_u8 src c₂
  fail_if (root_bits == 0 || (ltb max_code_bits root_bits || ltb 31 max_code_bits))
      (invalid_stream "huffman lut bit width is invalid")
  (root_len, c₄) ← read_u32_le src c₃
  (sub_len, c₅) ← read_u32_le src c₄
  expected_root_len ← ok_or (checked_shl_one root_bits) numeric_overflow
  fail_if (not (root_len == expected_root_len)) (invalid_stream "huffman lut root length mismatch")
  total_entry_count ← ok_or (checked_add root_len sub_len) numeric_overflow
  entry_bytes ← ok_or (checked_mul total_entry_count 4) numeric_overflow
  expected_bytes ← ok_or (checked_add huff_lut_header_size entry_bytes) numeric_overflow
  fail_if (not (length src == expected_bytes))
      (invalid_stream "huffman lut payload length mismatch")
  (root, c₆) ← read_entries root_len src c₅ []
  (subtables, c₇) ← read_entries sub_len src c₆ []
  fail_if (not (c₇ == length src)) (invalid_stream "trailing bytes in huffman lut payload")
  check_entries (check_root_entry symbol_count root_bits max_code_bits sub_len) root
  check_entries (check_sub_entry symbol_count root_bits max_code_bits) subtables
  ok (record {
    symbol_count = symbol_count;
    root_bits = root_bits;
    max_code_bits = max_code_bits;
    root = root;
    subtables = subtables;
  })
