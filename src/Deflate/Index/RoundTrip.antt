-- ===== src/Deflate/Index/RoundTrip.antt =====
-- The byte form of a chunk index is read back.
use cozip.Base.{
  ℕ, ◌+◌, ◌*◌, ◌^◌, ◌≤◌, ◌<◌, ◌≡◌, refl, sym, List, [], append-nil, arith, length, true, ◌==◌, some,
  list_eq, take, get_or, ge→ltb, ==_self, list_eq_self,
}
use cozip.Base.At.{At-start, get_range, get_range-At}
use cozip.Base.Le.{to_le_bytes, from_le_bytes-to_le_bytes}
use cozip.Base.Results.{ok, try_from-ok, checked_add-ok}
use cozip.Base.Returns.{Returns}
use cozip.Deflate.Error.{data_too_large}
use cozip.Deflate.Index.{
  DeflateChunkIndex, encode_czdi_v1, decode_czdi_v1, decode_entries, field, czdi_magic,
}
use cozip.Deflate.Index.Entries.{
  IsSorted, table_bytes, length-table_bytes, encode_entries-table_bytes, decode_entries-table_bytes,
}

-- An index whose numbers fit their types, whose offsets never go back, and whose table is sure to
-- be shorter than 2 ^ 32 bytes.
pub record IsIndex (index : DeflateChunkIndex) : Type 0 where
  pub chunk_size-fits : index.chunk_size < 2 ^ 32
  pub uncompressed_size-fits : index.uncompressed_size < 2 ^ 64
  pub compressed_size-fits : index.compressed_size < 2 ^ 64
  pub counted : index.chunk_count ≡ length index.entries
  pub few : 40 * index.chunk_count < 2 ^ 32
  pub sorted : IsSorted 0 index.entries

-- What the decoder does with bytes whose parts are known.
decode_czdi_v1-parts :
    (hash : List ℕ → ℕ) (bytes : List ℕ) (index : DeflateChunkIndex) (table : List ℕ)
    → 40 ≤ length bytes
    → length table < 2 ^ 32
    → list_eq (take 4 bytes) czdi_magic ≡ true
    → get_or bytes 4 0 ≡ 1
    → get_or bytes 5 0 ≡ 3
    → field bytes 8 12 ≡ index.chunk_size
    → field bytes 12 16 ≡ index.chunk_count
    → field bytes 16 24 ≡ index.uncompressed_size
    → field bytes 24 32 ≡ index.compressed_size
    → field bytes 32 36 ≡ length table
    → field bytes 36 40 ≡ hash table
    → get_range bytes 40 (40 + length table) ≡ some table
    → decode_entries index.chunk_count table 0 0 0 [] ≡ ok (index.entries, length table)
    → decode_czdi_v1 hash bytes ≡ ok index
unfolding decode_czdi_v1
decode_czdi_v1-parts hash bytes index table long short magic version flags size count uncompressed
      compressed len crc range entries =
    rw (
      ge→ltb (length bytes) 40 long,
      magic,
      version,
      flags,
      len,
      checked_add-ok 40 (length table) data_too_large (omega arith),
      range,
      crc,
      ==_self (hash table),
      size,
      count,
      uncompressed,
      compressed,
      entries,
      ==_self (length table),
    )

-- An index that fits its types is written, and what was written is read back as the same index.
-- The offsets of its chunks do not go back, and it has less than 2 ^ 32 / 40 chunks. The checksum
-- of the table is any function into the 32-bit numbers.
pub decode_czdi_v1-encode_czdi_v1 :
    (hash : List ℕ → ℕ) (index : DeflateChunkIndex)
    → ((bytes : List ℕ) → hash bytes < 2 ^ 32)
    → IsIndex index
    → Returns (encode_czdi_v1 hash index) (λ bytes. decode_czdi_v1 hash bytes ≡ ok index)
unfolding encode_czdi_v1 to_le_bytes
decode_czdi_v1-encode_czdi_v1 hash index hash-fits h =
    let table = table_bytes 0 index.entries in
    let short : length table < 2 ^ 32 =
      omega (arith, length-table_bytes 0 index.entries, h.few, h.counted) in
    let counted : (index.chunk_count == length index.entries) ≡ true = ground (arith, h.counted) in
    let encoded = encode_entries-table_bytes index.entries 0 0 [] (omega arith) h.sorted in
    let read =
      decode_entries-table_bytes index.entries [] 0 0 0 (omega arith) h.sorted (At-start table) in
    rw (counted, encoded, try_from-ok 32 (length table) data_too_large short)
      (decode_czdi_v1-parts hash _ index table (omega arith) short (list_eq_self czdi_magic) refl
        refl (from_le_bytes-to_le_bytes 4 index.chunk_size h.chunk_size-fits)
        (from_le_bytes-to_le_bytes 4 index.chunk_count (omega (arith, h.few)))
        (from_le_bytes-to_le_bytes 8 index.uncompressed_size h.uncompressed_size-fits)
        (from_le_bytes-to_le_bytes 8 index.compressed_size h.compressed_size-fits)
        (from_le_bytes-to_le_bytes 4 (length table) short)
        (from_le_bytes-to_le_bytes 4 (hash table) (hash-fits table))
        (get_range-At (40 + length table) table []
          (record { suffix = sym (append-nil table); fits = rw append-nil (omega arith) }) refl)
        (rw h.counted read))
