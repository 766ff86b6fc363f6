-- ===== src/Pdeflate/Huffman/Entry.antt =====
-- Packed entries of the lookup table: ranges, round trip, and the checks on a valid entry.
use cozip.Base.{
  ℕ, ◌+◌, ◌*◌, ◌/◌, ◌%◌, ◌^◌, ◌≤◌, ◌<◌, ◌≡◌, refl, ◌∙◌, List, [], ◌∷◌, arith, bit_and, bit_or, ltb,
  leb, ◌==◌, ◌||◌, false, length, All, ge→ltb, lt→ltb,
}
use cozip.Base.Bits.{bit_and_mask, bit_or_fields_rev}
use cozip.Base.Results.{ok, try_from-ok, checked_add-ok}
use cozip.Pdeflate.Error.{Result, numeric_overflow}
use cozip.Pdeflate.Huffman.{
  HuffmanLut, HuffmanLutEntry, invalid, symbol, subtable, pack_huffman_lut_entry,
  unpack_huffman_lut_entry, check_root_entry, check_sub_entry, check_entries,
}

-- The packed form in plain arithmetic: two bits of kind, eight of width, and the value above.
unfoldable pub packed : HuffmanLutEntry → ℕ
packed invalid = 0
packed (symbol s bit_len) = 1 + bit_len * 4 + s * 1024
packed (subtable offset sub_bits) = 2 + sub_bits * 4 + offset * 1024

-- The fields fit their bits.
abbrev pub IsPackable : HuffmanLutEntry → Type 0
IsPackable invalid = Unit
IsPackable (symbol s bit_len) = (s < 2 ^ 16) × (bit_len < 2 ^ 8)
IsPackable (subtable offset sub_bits) = (offset < 2 ^ 22) × (sub_bits < 2 ^ 8)

join_fields :
    (kind bits value : ℕ)
    → kind < 4
    → bits < 2 ^ 8
    → value < 2 ^ 22
    → bit_or (bit_or kind (bits * 2 ^ 2 % 2 ^ 32)) (value * 2 ^ 10 % 2 ^ 32)
      ≡ kind + bits * 4 + value * 1024
join_fields kind bits value hk hb hv =
    let low : bits * 2 ^ 2 % 2 ^ 32 ≡ bits * 2 ^ 2 = omega arith in
    let high : value * 2 ^ 10 % 2 ^ 32 ≡ value * 2 ^ 10 = omega arith in
    rw (low, high, bit_or_fields_rev 2 bits kind hk)
      (bit_or_fields_rev 10 value (kind + bits * 2 ^ 2) (omega arith))

pub pack_huffman_lut_entry-packed :
    (entry : HuffmanLutEntry)
    → IsPackable entry
    → (pack_huffman_lut_entry entry ≡ ok (packed entry)) × (packed entry < 2 ^ 32)
unfolding pack_huffman_lut_entry packed
pack_huffman_lut_entry-packed invalid h = (refl, omega arith)
pack_huffman_lut_entry-packed (symbol s bit_len) h =
    (rw (join_fields 1 bit_len s (omega arith) h.1 (omega arith)), omega arith)
pack_huffman_lut_entry-packed (subtable offset sub_bits) h =
    (rw (join_fields 2 sub_bits offset (omega arith) h.1 h.0), omega arith)

pub unpack_huffman_lut_entry-packed :
    (entry : HuffmanLutEntry)
    → IsPackable entry
    → unpack_huffman_lut_entry (packed entry) ≡ ok entry
unfolding unpack_huffman_lut_entry packed
unpack_huffman_lut_entry-packed invalid h = refl
unpack_huffman_lut_entry-packed (symbol s bit_len) h =
    let w : ℕ = 1 + bit_len * 4 + s * 1024 in
    let kind : bit_and w 0x3 ≡ 1 = bit_and_mask 2 w ∙ omega arith in
    let bits : bit_and (w / 2 ^ 2) 0xff ≡ bit_len = bit_and_mask 8 (w / 2 ^ 2) ∙ omega arith in
    let value : bit_and (w / 2 ^ 10) 0xffff ≡ s = bit_and_mask 16 (w / 2 ^ 10) ∙ omega arith in
    rw (kind, bits, value)
unpack_huffman_lut_entry-packed (subtable offset sub_bits) h =
    let w : ℕ = 2 + sub_bits * 4 + offset * 1024 in
    let kind : bit_and w 0x3 ≡ 2 = bit_and_mask 2 w ∙ omega arith in
    let bits : bit_and (w / 2 ^ 2) 0xff ≡ sub_bits = bit_and_mask 8 (w / 2 ^ 2) ∙ omega arith in
    let value : w / 2 ^ 10 ≡ offset = omega arith in rw (kind, bits, value)

-- A root entry and an entry of the subtables as the decoder may meet them.
abbrev pub IsRootEntry : HuffmanLut → HuffmanLutEntry → Type 0
IsRootEntry lut invalid = Unit
IsRootEntry lut (symbol s bit_len) =
    (s < lut.symbol_count) × (0 < bit_len) × (bit_len ≤ lut.root_bits)
IsRootEntry lut (subtable offset sub_bits) =
    (0 < sub_bits)
    × (lut.root_bits + sub_bits ≤ lut.max_code_bits)
    × (offset + 2 ^ sub_bits ≤ length lut.subtables)

abbrev pub IsSubEntry : HuffmanLut → HuffmanLutEntry → Type 0
IsSubEntry lut invalid = ⊥
IsSubEntry lut (symbol s bit_len) =
    (s < lut.symbol_count) × (lut.root_bits < bit_len) × (bit_len ≤ lut.max_code_bits)
IsSubEntry lut (subtable offset sub_bits) = ⊥

pub record IsLut (lut : HuffmanLut) : Type 0 where
  pub some_symbols : 0 < lut.symbol_count
  pub few_symbols : lut.symbol_count < 2 ^ 16
  pub root_pos : 0 < lut.root_bits
  pub root-le : lut.root_bits ≤ lut.max_code_bits
  pub max-le : lut.max_code_bits ≤ 31
  pub root_size : length lut.root ≡ 2 ^ lut.root_bits
  pub sub_size : length lut.subtables < 2 ^ 22
  pub root_entries : All (IsRootEntry lut) lut.root
  pub sub_entries : All (IsSubEntry lut) lut.subtables

module _ {lut : HuffmanLut} (valid : IsLut lut) where
  pub IsRootEntry-IsPackable : (entry : HuffmanLutEntry) → IsRootEntry lut entry → IsPackable entry
  IsRootEntry-IsPackable invalid h = tt
  IsRootEntry-IsPackable (symbol s bit_len) h =
      (omega (arith, valid.few_symbols), omega (arith, valid.root-le, valid.max-le))
  IsRootEntry-IsPackable (subtable offset sub_bits) h =
      (omega (arith, h.2, valid.sub_size), omega (arith, valid.max-le))

  pub IsSubEntry-IsPackable : (entry : HuffmanLutEntry) → IsSubEntry lut entry → IsPackable entry
  IsSubEntry-IsPackable invalid h = absurd h
  IsSubEntry-IsPackable (symbol s bit_len) h =
      (omega (arith, valid.few_symbols), omega (arith, valid.max-le))
  IsSubEntry-IsPackable (subtable offset sub_bits) h = absurd h

  pub check_root_entry-ok :
      (entry : HuffmanLutEntry)
      → IsRootEntry lut entry
      → check_root_entry lut.symbol_count lut.root_bits lut.max_code_bits
          (length lut.subtables)
          entry
        ≡ ok tt
  unfolding check_root_entry
  check_root_entry-ok invalid h = refl
  check_root_entry-ok (symbol s bit_len) h =
      let t1 : (bit_len == 0 || ltb lut.root_bits bit_len) ≡ false = ground arith in
      let t2 : leb lut.symbol_count s ≡ false = ground arith in rw (t1, t2)
  check_root_entry-ok (subtable offset sub_bits) h =
      let t1 : (sub_bits == 0) ≡ false = ground arith in
      rw (
        t1,
        try_from-ok 8 (lut.root_bits + sub_bits) numeric_overflow (omega (arith, valid.max-le)),
        ge→ltb lut.max_code_bits (lut.root_bits + sub_bits) h.1,
        lt→ltb sub_bits 64 (omega (arith, valid.max-le)),
        checked_add-ok offset (2 ^ sub_bits) numeric_overflow (omega (arith, h.2, valid.sub_size)),
        ge→ltb (length lut.subtables) (offset + 2 ^ sub_bits) h.2,
      )

  pub check_sub_entry-ok :
      (entry : HuffmanLutEntry)
      → IsSubEntry lut entry
      → check_sub_entry lut.symbol_count lut.root_bits lut.max_code_bits entry ≡ ok tt
  unfolding check_sub_entry
  check_sub_entry-ok invalid h = absurd h
  check_sub_entry-ok (symbol s bit_len) h =
      let t1 : (leb bit_len lut.root_bits || ltb lut.max_code_bits bit_len) ≡ false =
        ground arith in
      let t2 : leb lut.symbol_count s ≡ false = ground arith in rw (t1, t2)
  check_sub_entry-ok (subtable offset sub_bits) h = absurd h

pub check_entries-ok :
    (check : HuffmanLutEntry → Result (Unit {0})) (P : HuffmanLutEntry → Type 0)
    (entries : List HuffmanLutEntry)
    → ((entry : HuffmanLutEntry) → P entry → check entry ≡ ok tt)
    → All P entries
    → check_entries check entries ≡ ok tt
unfolding check_entries
check_entries-ok check P [] each all = refl
check_entries-ok check P (entry ∷ entries) each all =
    rw (each entry all.0, check_entries-ok check P entries each all.1)
