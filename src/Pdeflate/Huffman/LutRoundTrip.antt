-- ===== src/Pdeflate/Huffman/LutRoundTrip.antt =====
-- A valid lookup table survives `serialize_huffman_lut` and `deserialize_huffman_lut`.
use cozip.Base.{
  ℕ, ◌+◌, ◌*◌, ◌^◌, ◌≤◌, ◌<◌, ◌≡◌, refl, List, [], ◌∷◌, ◌++◌, append_assoc, append-nil, arith, ltb,
  ◌==◌, ==_self, ◌||◌, false, some, length, length-append, All, ge→ltb, lt→ltb,
}
use native.Mathlib.Nat.{pow-le-pow_right}
use cozip.Base.At.{At, At-start, At-step}
use cozip.Base.Le.{to_le_bytes, length-to_le_bytes}
use cozip.Base.Results.{ok, ◌>>=◌, try_from-ok, usize_bound, checked_shl_one}
use cozip.Pdeflate.Cursor.{write_u8, write_u16_le, write_u32_le}
use cozip.Pdeflate.Cursor.Laws.{read_u8-At, read_u16_le-At, read_u32_le-At, At-step_le}
use cozip.Pdeflate.Error.{numeric_overflow}
use cozip.Pdeflate.Huffman.{
  HuffmanLut, HuffmanLutEntry, write_entries, read_entries, serialize_huffman_lut,
  deserialize_huffman_lut, check_root_entry, check_sub_entry,
}
use cozip.Pdeflate.Huffman.Entry.{
  packed, IsPackable, IsLut, IsRootEntry, IsSubEntry, pack_huffman_lut_entry-packed,
  unpack_huffman_lut_entry-packed, IsRootEntry-IsPackable, IsSubEntry-IsPackable,
  check_root_entry-ok, check_sub_entry-ok, check_entries-ok,
}

-- The serial form of the entries.
entry_bytes : List HuffmanLutEntry → List ℕ
entry_bytes [] = []
entry_bytes (entry ∷ entries) = to_le_bytes 4 (packed entry) ++ entry_bytes entries

length-entry_bytes :
    (entries : List HuffmanLutEntry) → length (entry_bytes entries) ≡ 4 * length entries
unfolding entry_bytes
length-entry_bytes [] = refl
length-entry_bytes (entry ∷ entries) = omega (
  arith,
  length-append (to_le_bytes 4 (packed entry)) (entry_bytes entries),
  length-to_le_bytes 4 (packed entry),
  length-entry_bytes entries,
)

write_entries-entry_bytes :
    (out : List ℕ) (entries : List HuffmanLutEntry)
    → All IsPackable entries
    → write_entries out entries ≡ ok (out ++ entry_bytes entries)
unfolding write_entries entry_bytes write_u32_le
write_entries-entry_bytes out [] h = rw append-nil
write_entries-entry_bytes out (entry ∷ entries) h = rw (
  (pack_huffman_lut_entry-packed entry h.0).0,
  write_entries-entry_bytes (out ++ to_le_bytes 4 (packed entry)) entries h.1,
  append_assoc,
)

read_entries-entry_bytes :
    {src : List ℕ} (c c' : ℕ) (acc entries : List HuffmanLutEntry) (rest : List ℕ)
    → length src < usize_bound
    → All IsPackable entries
    → At src c (entry_bytes entries ++ rest)
    → c + 4 * length entries ≡ c'
    → read_entries (length entries) src c acc ≡ ok (acc ++ entries, c')
unfolding read_entries entry_bytes
read_entries-entry_bytes c c' acc [] rest small h at e =
    let e' : c ≡ c' = omega arith in rw (append-nil, e')
read_entries-entry_bytes {src} c c' acc (entry ∷ entries) rest small h at e =
    let at' : At src c (to_le_bytes 4 (packed entry) ++ (entry_bytes entries ++ rest)) =
      rw append_assoc at at in
    let behind = At-step_le 4 (c + 4) (packed entry) (entry_bytes entries ++ rest) at' refl in
    rw (
      read_u32_le-At small (packed entry) (entry_bytes entries ++ rest)
          (pack_huffman_lut_entry-packed entry h.0).1 at',
      unpack_huffman_lut_entry-packed entry h.0,
      read_entries-entry_bytes (c + 4) c' (acc ++ (entry ∷ [])) entries rest small h.1 behind
          (omega arith),
      append_assoc,
    )

All-map :
    (P Q : HuffmanLutEntry → Type 0) (entries : List HuffmanLutEntry)
    → ((entry : HuffmanLutEntry) → P entry → Q entry)
    → All P entries
    → All Q entries
All-map P Q [] f all = tt
All-map P Q (entry ∷ entries) f all = (f entry all.0, All-map P Q entries f all.1)

-- The serial form of a table.
lut_bytes : HuffmanLut → List ℕ
lut_bytes lut =
    to_le_bytes 2 lut.symbol_count
    ++ (lut.root_bits
        ∷ lut.max_code_bits
        ∷ (to_le_bytes 4 (length lut.root)
            ++ (to_le_bytes 4 (length lut.subtables)
                ++ (entry_bytes lut.root ++ entry_bytes lut.subtables))))

module _ {lut : HuffmanLut} (valid : IsLut lut) where
  root-IsPackable : All IsPackable lut.root
  root-IsPackable =
      All-map (IsRootEntry lut) IsPackable lut.root (IsRootEntry-IsPackable valid)
        valid.root_entries

  sub-IsPackable : All IsPackable lut.subtables
  sub-IsPackable =
      All-map (IsSubEntry lut) IsPackable lut.subtables (IsSubEntry-IsPackable valid)
        valid.sub_entries

  serialize_huffman_lut-lut_bytes :
      length lut.root < 2 ^ 32 → serialize_huffman_lut lut ≡ ok (lut_bytes lut)
  unfolding serialize_huffman_lut lut_bytes write_u8 write_u16_le write_u32_le
  serialize_huffman_lut-lut_bytes small =
      rw
        (
          try_from-ok 16 lut.symbol_count numeric_overflow valid.few_symbols,
          try_from-ok 32 (length lut.root) numeric_overflow small,
          try_from-ok 32 (length lut.subtables) numeric_overflow (omega (arith, valid.sub_size)),
          write_entries-entry_bytes
              ((((([] ++ to_le_bytes 2 lut.symbol_count) ++ (lut.root_bits ∷ []))
                    ++ (lut.max_code_bits ∷ []))
                  ++ to_le_bytes 4 (length lut.root))
                ++ to_le_bytes 4 (length lut.subtables))
              lut.root root-IsPackable,
          write_entries-entry_bytes
              (((((([] ++ to_le_bytes 2 lut.symbol_count) ++ (lut.root_bits ∷ []))
                      ++ (lut.max_code_bits ∷ []))
                    ++ to_le_bytes 4 (length lut.root))
                  ++ to_le_bytes 4 (length lut.subtables))
                ++ entry_bytes lut.root)
              lut.subtables sub-IsPackable,
        )
        (simp append_assoc)

  root_small : length lut.root ≤ 2 ^ 31
  root_small =
      let bits : lut.root_bits ≤ 31 = omega (arith, valid.root-le, valid.max-le) in
      let two : 0 < 2 = omega arith in
      let most : 2 ^ lut.root_bits ≤ 2 ^ 31 = pow-le-pow_right two bits in
      omega (arith, valid.root_size)

  after_sizes : List ℕ
  after_sizes = entry_bytes lut.root ++ entry_bytes lut.subtables

  after_root_len : List ℕ
  after_root_len = to_le_bytes 4 (length lut.subtables) ++ after_sizes

  after_bits : List ℕ
  after_bits = to_le_bytes 4 (length lut.root) ++ after_root_len

  length-lut_bytes : length (lut_bytes lut) ≡ 12 + (length lut.root + length lut.subtables) * 4
  unfolding lut_bytes after_bits after_root_len after_sizes
  length-lut_bytes = omega (
    arith,
    length-append (to_le_bytes 2 lut.symbol_count)
        (lut.root_bits ∷ (lut.max_code_bits ∷ after_bits)),
    length-append (to_le_bytes 4 (length lut.root)) after_root_len,
    length-append (to_le_bytes 4 (length lut.subtables)) after_sizes,
    length-append (entry_bytes lut.root) (entry_bytes lut.subtables),
    length-to_le_bytes 2 lut.symbol_count,
    length-to_le_bytes 4 (length lut.root),
    length-to_le_bytes 4 (length lut.subtables),
    length-entry_bytes lut.root,
    length-entry_bytes lut.subtables,
  )

  count-At :
      At
        (lut_bytes lut)
        0
        (to_le_bytes 2 lut.symbol_count ++ (lut.root_bits ∷ (lut.max_code_bits ∷ after_bits)))
  unfolding lut_bytes after_bits after_root_len after_sizes
  count-At = At-start (lut_bytes lut)

  bits-At : At (lut_bytes lut) 2 (lut.root_bits ∷ (lut.max_code_bits ∷ after_bits))
  bits-At =
      At-step_le 2 2 lut.symbol_count (lut.root_bits ∷ (lut.max_code_bits ∷ after_bits)) count-At
        refl

  max-At : At (lut_bytes lut) 3 (lut.max_code_bits ∷ after_bits)
  max-At = At-step 3 (lut.root_bits ∷ []) (lut.max_code_bits ∷ after_bits) bits-At refl

  root_len-At : At (lut_bytes lut) 4 after_bits
  root_len-At = At-step 4 (lut.max_code_bits ∷ []) after_bits max-At refl

  sub_len-At : At (lut_bytes lut) 8 after_root_len
  unfolding after_bits
  sub_len-At = At-step_le 4 8 (length lut.root) after_root_len root_len-At refl

  root-At : At (lut_bytes lut) 12 after_sizes
  unfolding after_root_len
  root-At = At-step_le 4 12 (length lut.subtables) after_sizes sub_len-At refl

  sub-At : At (lut_bytes lut) (12 + 4 * length lut.root) (entry_bytes lut.subtables ++ [])
  unfolding after_sizes
  sub-At = rw append-nil (
      At-step (12 + 4 * length lut.root) (entry_bytes lut.root) (entry_bytes lut.subtables) root-At
        (omega (arith, length-entry_bytes lut.root)))

  root_len_checked : checked_shl_one lut.root_bits ≡ some (length lut.root)
  root_len_checked =
      rw (lt→ltb lut.root_bits 64 (omega (arith, valid.root-le, valid.max-le)), valid.root_size)

  deserialize_huffman_lut-lut_bytes : deserialize_huffman_lut (lut_bytes lut) ≡ ok lut
  unfolding deserialize_huffman_lut after_bits after_root_len after_sizes
  deserialize_huffman_lut-lut_bytes =
      let src : List ℕ = lut_bytes lut in
      let small : length src < usize_bound =
        omega (arith, length-lut_bytes, root_small, valid.sub_size) in
      let n = length lut.root in
      let k = length lut.subtables in
      let some_symbols : (lut.symbol_count == 0) ≡ false = ground (arith, valid.some_symbols) in
      let widths : (lut.root_bits == 0
            || (ltb lut.max_code_bits lut.root_bits || ltb 31 lut.max_code_bits))
          ≡ false =
        ground (arith, valid.root_pos, valid.root-le, valid.max-le) in
      let all : length src ≡ 12 + (n + k) * 4 = length-lut_bytes in
      let total : 12 + 4 * n + 4 * k ≡ 12 + (n + k) * 4 = omega arith in
      rw (
        ge→ltb (length src) 12 (omega arith),
        read_u16_le-At small lut.symbol_count (lut.root_bits ∷ (lut.max_code_bits ∷ after_bits))
            valid.few_symbols count-At,
        some_symbols,
        read_u8-At small lut.root_bits (lut.max_code_bits ∷ after_bits) bits-At,
        read_u8-At small lut.max_code_bits after_bits max-At,
        widths,
        read_u32_le-At small n after_root_len (omega (arith, root_small)) root_len-At,
        read_u32_le-At small k after_sizes (omega (arith, valid.sub_size)) sub_len-At,
        root_len_checked,
        ==_self n,
        lt→ltb (n + k) usize_bound (omega (arith, root_small, valid.sub_size)),
        lt→ltb ((n + k) * 4) usize_bound (omega arith),
        lt→ltb (12 + (n + k) * 4) usize_bound (omega arith),
        all,
        ==_self (12 + (n + k) * 4),
        read_entries-entry_bytes 12 (12 + 4 * n) [] lut.root (entry_bytes lut.subtables) small
            root-IsPackable root-At refl,
        read_entries-entry_bytes (12 + 4 * n) (12 + 4 * n + 4 * k) [] lut.subtables [] small
            sub-IsPackable sub-At refl,
        total,
        ==_self (12 + (n + k) * 4),
        check_entries-ok (check_root_entry lut.symbol_count lut.root_bits lut.max_code_bits k)
            (IsRootEntry lut) lut.root (check_root_entry-ok valid) valid.root_entries,
        check_entries-ok (check_sub_entry lut.symbol_count lut.root_bits lut.max_code_bits)
            (IsSubEntry lut) lut.subtables (check_sub_entry-ok valid) valid.sub_entries,
      )

  -- A valid table within the size limits is written by `serialize_huffman_lut` without an error,
  -- and `deserialize_huffman_lut` reads what was written back as the same table.
  pub deserialize_huffman_lut-serialize_huffman_lut :
      (serialize_huffman_lut lut >>= deserialize_huffman_lut) ≡ ok lut
  deserialize_huffman_lut-serialize_huffman_lut =
      rw (serialize_huffman_lut-lut_bytes (omega (arith, root_small)))
        deserialize_huffman_lut-lut_bytes
