-- ===== src/Deflate/Index.antt =====
-- `DeflateChunkIndex` of cozip_deflate/src/lib.rs and its byte form, CZDI version 1.
-- `crc32fast::hash` is the argument `hash`.
pub mod Entries
pub mod RoundTrip
pub mod Ordered
use cozip.Base.{
  ℕ, zero, suc, ◌+◌, ◌-◌, ◌^◌, List, [], ◌∷◌, ◌++◌, not, bit_and, bit_or, ltb, ◌==◌, ◌&&◌,
  if◌then◌else◌, length, take, drop, get_or, list_eq,
}
use cozip.Base.At.{get_range}
use cozip.Base.Le.{to_le_bytes, from_le_bytes}
use cozip.Base.Results.{ok, ◌>>=◌, ◌>>◌, fail_if, ok_or, checked_add, try_from}
use cozip.Deflate.Error.{Result, invalid_frame, data_too_large}
use cozip.Deflate.Leb128.{append_uleb128_u64, read_uleb128_u64}

abbrev pub czdi_magic : List ℕ
czdi_magic = 0x43 ∷ 0x5a ∷ 0x44 ∷ 0x49 ∷ []

abbrev pub czdi_version_v1 : ℕ
czdi_version_v1 = 1

abbrev pub czdi_flag_indexed_deflate : ℕ
czdi_flag_indexed_deflate = 1

abbrev pub czdi_flag_table_varint : ℕ
czdi_flag_table_varint = 2

pub record DeflateChunkIndexEntry : Type 0 where
  pub comp_bit_off : ℕ
  pub comp_bit_len : ℕ
  pub final_header_rel_bit : ℕ
  pub raw_len : ℕ

pub record DeflateChunkIndex : Type 0 where
  pub chunk_size : ℕ
  pub chunk_count : ℕ
  pub uncompressed_size : ℕ
  pub compressed_size : ℕ
  pub entries : List DeflateChunkIndexEntry

-- The numbers of one entry, behind the table so far.
unfoldable pub append_entry : List ℕ → ℕ → DeflateChunkIndexEntry → List ℕ
append_entry table delta entry =
    append_uleb128_u64
      (append_uleb128_u64 (append_uleb128_u64 (append_uleb128_u64 table delta) entry.comp_bit_len)
        entry.final_header_rel_bit)
      entry.raw_len

-- The loop over the entries: `idx` of the next one, the offset of the last one, and the table.
unfoldable pub encode_entries : List DeflateChunkIndexEntry → ℕ → ℕ → List ℕ → Result (List ℕ)
encode_entries [] idx prev_off table = ok table
encode_entries (entry ∷ entries) idx prev_off table = do
  fail_if (ltb 0 idx && ltb entry.comp_bit_off prev_off)
      (invalid_frame "chunk offsets are not monotonic")
  let delta = if idx == 0 then entry.comp_bit_off else entry.comp_bit_off - prev_off
  encode_entries entries (idx + 1) entry.comp_bit_off (append_entry table delta entry)

unfoldable pub encode_czdi_v1 : (List ℕ → ℕ) → DeflateChunkIndex → Result (List ℕ)
encode_czdi_v1 hash index = do
  fail_if (not (index.chunk_count == length index.entries))
      (invalid_frame "chunk_count and entries length mismatch")
  table ← encode_entries index.entries 0 0 []
  table_len ← try_from 32 (length table) data_too_large
  ok (
      czdi_magic
      ++ (czdi_version_v1
          ∷ bit_or czdi_flag_indexed_deflate czdi_flag_table_varint
          ∷ (to_le_bytes 2 0
              ++ (to_le_bytes 4 index.chunk_size
                  ++ (to_le_bytes 4 index.chunk_count
                      ++ (to_le_bytes 8 index.uncompressed_size
                          ++ (to_le_bytes 8 index.compressed_size
                              ++ (to_le_bytes 4 table_len
                                  ++ (to_le_bytes 4 (hash table) ++ table)))))))))

abbrev header_len : ℕ
header_len = 40

-- `from_le_bytes(bytes[a..b].try_into()?)`, inside a header that is there.
abbrev field : List ℕ → ℕ → ℕ → ℕ
field bytes a b = from_le_bytes (take (b - a) (drop a bytes))

-- The loop over the `n` entries that are left.
unfoldable pub decode_entries :
    ℕ → List ℕ → ℕ → ℕ → ℕ → List DeflateChunkIndexEntry → Result (List DeflateChunkIndexEntry × ℕ)
decode_entries zero table idx pos prev_off entries = ok (entries, pos)
decode_entries (suc n) table idx pos prev_off entries = do
  (delta, p₁) ← read_uleb128_u64 table pos
  (comp_bit_len_u64, p₂) ← read_uleb128_u64 table p₁
  (final_header_rel_bit_u64, p₃) ← read_uleb128_u64 table p₂
  (raw_len_u64, p₄) ← read_uleb128_u64 table p₃
  comp_bit_off ← if idx == 0 then ok delta else ok_or (checked_add prev_off delta) data_too_large
  comp_bit_len ← try_from 32 comp_bit_len_u64 data_too_large
  final_header_rel_bit ← try_from 32 final_header_rel_bit_u64 data_too_large
  raw_len ← try_from 32 raw_len_u64 data_too_large
  let entry : DeflateChunkIndexEntry = record {
    comp_bit_off = comp_bit_off;
    comp_bit_len = comp_bit_len;
    final_header_rel_bit = final_header_rel_bit;
    raw_len = raw_len;
  }
  decode_entries n table (idx + 1) p₄ comp_bit_off (entries ++ (entry ∷ []))

unfoldable pub decode_czdi_v1 : (List ℕ → ℕ) → List ℕ → Result DeflateChunkIndex
decode_czdi_v1 hash bytes = do
  fail_if (ltb (length bytes) header_len) (invalid_frame "czdi header truncated")
  fail_if (not (list_eq (take 4 bytes) czdi_magic)) (invalid_frame "czdi magic mismatch")
  fail_if (not (get_or bytes 4 0 == czdi_version_v1)) (invalid_frame "unsupported czdi version")
  fail_if (bit_and (get_or bytes 5 0) czdi_flag_table_varint == 0)
      (invalid_frame "unsupported czdi table encoding")
  let chunk_count = field bytes 12 16
  table_end ← ok_or (checked_add header_len (field bytes 32 36)) data_too_large
  table ← ok_or (get_range bytes header_len table_end) (invalid_frame "czdi table truncated")
  fail_if (not (hash table == field bytes 36 40)) (invalid_frame "czdi table crc mismatch")
  (entries, pos) ← decode_entries chunk_count table 0 0 0 []
  fail_if (not (pos == length table)) (invalid_frame "czdi table has trailing bytes")
  ok (record {
    chunk_size = field bytes 8 12;
    chunk_count = chunk_count;
    uncompressed_size = field bytes 16 24;
    compressed_size = field bytes 24 32;
    entries = entries;
  })
