-- ===== src/Pdeflate/Chunk/Layout.antt =====
-- The bytes of a plain chunk, and what the decoder reads from its header.
use cozip.Base.{
  subst, ℕ, ◌+◌, ◌^◌, ◌≤◌, ◌<◌, ◌≡◌, refl, List, [], ◌++◌, append_assoc, arith, false, bit_and,
  ◌==◌, ge→ltb, le→leb, length, length-append, list_eq_self,
}
use cozip.Base.At.{At, At-start, At-step}
use cozip.Base.Le.{to_le_bytes, length-to_le_bytes}
use cozip.Base.Results.{ok, try_from-ok, checked_add-ok, usize_bound}
use cozip.Pdeflate.Chunk.{
  chunk_magic, chunk_header_size, chunk_huffman_enabled, max_table_id, pack_chunk_payload_cpu,
}
use cozip.Pdeflate.Chunk.Decode.{ChunkHeader, read_header_fields, check_header}
use cozip.Pdeflate.Cursor.{write_u16_le, write_u32_le}
use cozip.Pdeflate.Cursor.Laws.{read_exact-At, read_u16_le-At, read_u32_le-At, At-step_le}
use cozip.Pdeflate.Error.{Result, numeric_overflow}

-- What `pack_chunk_payload_cpu` is given.
pub record Parts : Type 0 where
  pub chunk_len : ℕ
  pub flags : ℕ
  pub table_count : ℕ
  pub section_count : ℕ
  pub table_index : List ℕ
  pub table_data : List ℕ
  pub huff_lut : List ℕ
  pub section_index : List ℕ
  pub section_cmd : List ℕ

abbrev pub pack_parts : Parts → Result (List ℕ)
pack_parts p =
    pack_chunk_payload_cpu p.chunk_len p.flags p.table_count p.section_count p.table_index
      p.table_data p.huff_lut p.section_index p.section_cmd

abbrev pub data_offset : Parts → ℕ
data_offset p = chunk_header_size + length p.table_index

abbrev pub lut_offset : Parts → ℕ
lut_offset p = data_offset p + length p.table_data

abbrev pub index_offset : Parts → ℕ
index_offset p = lut_offset p + length p.huff_lut

abbrev pub cmd_offset : Parts → ℕ
cmd_offset p = index_offset p + length p.section_index

-- The bytes behind the header.
unfoldable pub body : Parts → List ℕ
body p = p.table_index ++ (p.table_data ++ (p.huff_lut ++ (p.section_index ++ p.section_cmd)))

-- The fields of the header behind the flags.
unfoldable pub sizes : Parts → List ℕ → List ℕ
sizes p rest =
    to_le_bytes 4 p.chunk_len
    ++ (to_le_bytes 2 p.table_count
        ++ (to_le_bytes 2 p.section_count
            ++ (to_le_bytes 4 chunk_header_size
                ++ (to_le_bytes 4 (data_offset p)
                    ++ (to_le_bytes 4 (lut_offset p)
                        ++ (to_le_bytes 4 (index_offset p)
                            ++ (to_le_bytes 4 (cmd_offset p) ++ rest)))))))

unfoldable pub payload_of : Parts → List ℕ
payload_of p = chunk_magic ++ (to_le_bytes 2 0 ++ (to_le_bytes 2 p.flags ++ sizes p (body p)))

pub length-sizes : (p : Parts) (rest : List ℕ) → length (sizes p rest) ≡ 28 + length rest
unfolding sizes
length-sizes p rest = simp (length-append, length-to_le_bytes) (omega arith)

-- The fields fit their bytes.
pub record IsParts (p : Parts) : Type 0 where
  pub chunk_len_small : p.chunk_len < 2 ^ 32
  pub flags_small : p.flags < 2 ^ 16
  pub table_count_small : p.table_count < 2 ^ 16
  pub section_count_small : p.section_count < 2 ^ 16
  pub offset_small : cmd_offset p < 2 ^ 32
  pub cmd_small : length p.section_cmd < 2 ^ 29

module _ (p : Parts) (parts : IsParts p) where
  pub pack_chunk_payload_cpu-payload_of : pack_parts p ≡ ok (payload_of p)
  unfolding pack_chunk_payload_cpu payload_of sizes body write_u16_le write_u32_le
  pack_chunk_payload_cpu-payload_of =
      let last : cmd_offset p < 2 ^ 32 = parts.offset_small in
      let cmd = parts.cmd_small in
      rw
        (
          checked_add-ok chunk_header_size (length p.table_index) numeric_overflow (omega arith),
          checked_add-ok (data_offset p) (length p.table_data) numeric_overflow (omega arith),
          checked_add-ok (lut_offset p) (length p.huff_lut) numeric_overflow (omega arith),
          checked_add-ok (index_offset p) (length p.section_index) numeric_overflow (omega arith),
          checked_add-ok (cmd_offset p) (length p.section_cmd) numeric_overflow (omega arith),
          try_from-ok 32 p.chunk_len numeric_overflow parts.chunk_len_small,
          try_from-ok 16 p.table_count numeric_overflow parts.table_count_small,
          try_from-ok 16 p.section_count numeric_overflow parts.section_count_small,
          try_from-ok 32 (data_offset p) numeric_overflow (omega arith),
          try_from-ok 32 (lut_offset p) numeric_overflow (omega arith),
          try_from-ok 32 (index_offset p) numeric_overflow (omega arith),
          try_from-ok 32 (cmd_offset p) numeric_overflow (omega arith),
        )
        (simp (length-append, length-to_le_bytes, append_assoc))

-- The header as the decoder returns it.
unfoldable pub header_of : Parts → ChunkHeader
header_of p = record {
  huffman_enabled = chunk_huffman_enabled p.flags;
  chunk_uncompressed_len = p.chunk_len;
  table_count = p.table_count;
  section_count = p.section_count;
  table_index_offset = chunk_header_size;
  table_data_offset = data_offset p;
  huff_lut_offset = lut_offset p;
  section_index_offset = index_offset p;
  section_bitstream_offset = cmd_offset p;
}

module _ (p : Parts) (parts : IsParts p) where
  pub length-payload_of : length (payload_of p) ≡ cmd_offset p + length p.section_cmd
  unfolding payload_of sizes body
  length-payload_of = simp (length-append, length-to_le_bytes) (omega arith)

  pub payload_small : length (payload_of p) < usize_bound
  payload_small = omega (arith, length-payload_of, parts.offset_small, parts.cmd_small)

  pub body-At : At (payload_of p) 36 (body p)
  unfolding payload_of sizes
  body-At =
      let front = chunk_magic ++ (to_le_bytes 2 0 ++ (to_le_bytes 2 p.flags ++ sizes p [])) in
      let size : length front ≡ 36 = simp (length-append, length-to_le_bytes) in
      let split : payload_of p ≡ front ++ body p = simp append_assoc in
      let all : At (payload_of p) 0 (front ++ body p) =
        subst (At (payload_of p) 0) split (At-start (payload_of p)) in
      At-step 36 front (body p) all (omega (arith, size))

  pub read_header_fields-payload_of :
      bit_and p.flags 0xfffc ≡ 0 → read_header_fields (payload_of p) ≡ ok (header_of p)
  unfolding read_header_fields payload_of sizes header_of
  read_header_fields-payload_of known =
      let src = payload_of p in
      let small : length src < usize_bound = payload_small in
      let last : cmd_offset p < 2 ^ 32 = parts.offset_small in
      let t₁₀ = to_le_bytes 4 (cmd_offset p) ++ body p in
      let t₉ = to_le_bytes 4 (index_offset p) ++ t₁₀ in
      let t₈ = to_le_bytes 4 (lut_offset p) ++ t₉ in
      let t₇ = to_le_bytes 4 (data_offset p) ++ t₈ in
      let t₆ = to_le_bytes 4 chunk_header_size ++ t₇ in
      let t₅ = to_le_bytes 2 p.section_count ++ t₆ in
      let t₄ = to_le_bytes 2 p.table_count ++ t₅ in
      let t₃ = to_le_bytes 4 p.chunk_len ++ t₄ in
      let t₂ = to_le_bytes 2 p.flags ++ t₃ in
      let t₁ = to_le_bytes 2 0 ++ t₂ in
      let a₀ : At src 0 (chunk_magic ++ t₁) = At-start src in
      let a₁ : At src 4 t₁ = At-step 4 chunk_magic t₁ a₀ refl in
      let a₂ : At src 6 t₂ = At-step_le 2 6 0 t₂ a₁ refl in
      let a₃ : At src 8 t₃ = At-step_le 2 8 p.flags t₃ a₂ refl in
      let a₄ : At src 12 t₄ = At-step_le 4 12 p.chunk_len t₄ a₃ refl in
      let a₅ : At src 14 t₅ = At-step_le 2 14 p.table_count t₅ a₄ refl in
      let a₆ : At src 16 t₆ = At-step_le 2 16 p.section_count t₆ a₅ refl in
      let a₇ : At src 20 t₇ = At-step_le 4 20 chunk_header_size t₇ a₆ refl in
      let a₈ : At src 24 t₈ = At-step_le 4 24 (data_offset p) t₈ a₇ refl in
      let a₉ : At src 28 t₉ = At-step_le 4 28 (lut_offset p) t₉ a₈ refl in
      let a₁₀ : At src 32 t₁₀ = At-step_le 4 32 (index_offset p) t₁₀ a₉ refl in
      rw (
        ge→ltb (length src) chunk_header_size (omega (arith, length-payload_of)),
        read_exact-At small 4 chunk_magic t₁ refl a₀,
        list_eq_self chunk_magic,
        read_u16_le-At small 0 t₂ (omega arith) a₁,
        read_u16_le-At small p.flags t₃ parts.flags_small a₂,
        known,
        read_u32_le-At small p.chunk_len t₄ parts.chunk_len_small a₃,
        read_u16_le-At small p.table_count t₅ parts.table_count_small a₄,
        read_u16_le-At small p.section_count t₆ parts.section_count_small a₅,
        read_u32_le-At small chunk_header_size t₇ (omega arith) a₆,
        read_u32_le-At small (data_offset p) t₈ (omega arith) a₇,
        read_u32_le-At small (lut_offset p) t₉ (omega arith) a₈,
        read_u32_le-At small (index_offset p) t₁₀ (omega arith) a₉,
        read_u32_le-At small (cmd_offset p) (body p) (omega arith) a₁₀,
      )

  pub check_header-payload_of :
      p.table_count ≤ max_table_id
      → 0 < p.section_count
      → check_header (header_of p) (length (payload_of p)) ≡ ok tt
  unfolding check_header header_of
  check_header-payload_of few some_sections =
      let nonzero : (p.section_count == 0) ≡ false = ground arith in
      rw (
        ge→ltb max_table_id p.table_count few,
        nonzero,
        le→leb chunk_header_size (data_offset p) (omega arith),
        le→leb (data_offset p) (lut_offset p) (omega arith),
        le→leb (lut_offset p) (index_offset p) (omega arith),
        le→leb (index_offset p) (cmd_offset p) (omega arith),
        le→leb (cmd_offset p) (length (payload_of p)) (omega (arith, length-payload_of)),
      )
