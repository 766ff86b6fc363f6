-- ===== src/Deflate/Tests.antt =====
-- Runs of the Deflate model on concrete inputs.
use cozip.Base.{ℕ, ◌+◌, ◌%◌, ◌^◌, ◌<◌, ◌≤◌, ◌≡◌, refl, arith, length, List, [], ◌∷◌, ◌++◌}
use cozip.Base.Results.{ok, err}
use cozip.Base.Returns.{Returns}
use cozip.Deflate.Error.{invalid_frame}
use cozip.Deflate.Index.{
  DeflateChunkIndex, encode_czdi_v1, decode_czdi_v1, czdi_magic, encode_entries, append_entry,
}
use cozip.Deflate.Index.Entries.{IsSorted}
use cozip.Base.Le.{to_le_bytes}
use cozip.Deflate.Index.Ordered.{IsOrdered, decode_czdi_v1-IsOrdered}
use cozip.Deflate.Index.RoundTrip.{IsIndex, decode_czdi_v1-encode_czdi_v1}
use cozip.Deflate.Leb128.{append_uleb128_u64, read_uleb128_u64}
use cozip.Deflate.Leb128.RoundTrip.{read_uleb128_u64-append_uleb128_u64}

uleb128_300 : append_uleb128_u64 (7 ∷ []) 300 ≡ 7 ∷ 0xac ∷ 0x02 ∷ []
unfolding append_uleb128_u64
uleb128_300 = refl

read_uleb128_u64-append_uleb128_u64_example :
    (read_uleb128_u64 (append_uleb128_u64 (7 ∷ []) 300 ++ (9 ∷ [])) 1
      ≡ ok (300, length (append_uleb128_u64 (7 ∷ []) 300)))
    × (1 + 1 ≤ length (append_uleb128_u64 (7 ∷ []) 300))
    × (length (append_uleb128_u64 (7 ∷ []) 300) ≤ 1 + 10)
unfolding append_uleb128_u64
read_uleb128_u64-append_uleb128_u64_example =
    read_uleb128_u64-append_uleb128_u64 (7 ∷ []) 300 (9 ∷ []) (omega arith)

-- Two chunks, and the sum of the bytes in place of the checksum.
abbrev sum_mod : List ℕ → ℕ
sum_mod [] = 0
sum_mod (b ∷ bs) = (b + sum_mod bs) % 2 ^ 32

sum_mod-fits : (bytes : List ℕ) → sum_mod bytes < 2 ^ 32
sum_mod-fits [] = omega arith
sum_mod-fits (b ∷ bs) = omega arith

abbrev two_chunks : DeflateChunkIndex
two_chunks = record {
  chunk_size = 1000;
  chunk_count = 2;
  uncompressed_size = 1500;
  compressed_size = 400;
  entries =
      record { comp_bit_off = 0; comp_bit_len = 2100; final_header_rel_bit = 5; raw_len = 1000 }
      ∷ record { comp_bit_off = 2100; comp_bit_len = 900; final_header_rel_bit = 0; raw_len = 500 }
      ∷ [];
}

two_chunks-IsIndex : IsIndex two_chunks
unfolding IsSorted
two_chunks-IsIndex = record {
  chunk_size-fits = omega arith;
  uncompressed_size-fits = omega arith;
  compressed_size-fits = omega arith;
  counted = refl;
  few = omega arith;
  sorted = (
    omega arith,
    omega arith,
    omega arith,
    omega arith,
    omega arith,
    (omega arith, omega arith, omega arith, omega arith, omega arith, tt),
  );
}

decode_czdi_v1-encode_czdi_v1_example :
    Returns
      (encode_czdi_v1 sum_mod two_chunks)
      (λ bytes. decode_czdi_v1 sum_mod bytes ≡ ok two_chunks)
decode_czdi_v1-encode_czdi_v1_example =
    decode_czdi_v1-encode_czdi_v1 sum_mod two_chunks sum_mod-fits two_chunks-IsIndex

truncated_header : decode_czdi_v1 sum_mod czdi_magic ≡ err (invalid_frame "czdi header truncated")
unfolding decode_czdi_v1
truncated_header = refl

abbrev two_chunks_bytes : List ℕ
two_chunks_bytes =
    67 ∷ 90 ∷ 68 ∷ 73 ∷ 1 ∷ 3 ∷ 0 ∷ 0 ∷ 232 ∷ 3 ∷ 0 ∷ 0 ∷ 2 ∷ 0 ∷ 0 ∷ 0 ∷ 220 ∷ 5 ∷ 0 ∷ 0 ∷ 0 ∷ 0
    ∷ 0 ∷ 0 ∷ 144 ∷ 1 ∷ 0 ∷ 0 ∷ 0 ∷ 0 ∷ 0 ∷ 0 ∷ 13 ∷ 0 ∷ 0 ∷ 0 ∷ 254 ∷ 3 ∷ 0 ∷ 0 ∷ 0 ∷ 180 ∷ 16 ∷ 5
    ∷ 232 ∷ 7 ∷ 180 ∷ 16 ∷ 132 ∷ 7 ∷ 0 ∷ 244 ∷ 3 ∷ []

two_chunks_encoded : encode_czdi_v1 sum_mod two_chunks ≡ ok two_chunks_bytes
unfolding encode_czdi_v1 encode_entries append_entry append_uleb128_u64 to_le_bytes
two_chunks_encoded = refl

two_chunks_decoded : decode_czdi_v1 sum_mod two_chunks_bytes ≡ ok two_chunks
unfolding encode_czdi_v1 encode_entries append_entry append_uleb128_u64 to_le_bytes
two_chunks_decoded =
    decode_czdi_v1-encode_czdi_v1 sum_mod two_chunks sum_mod-fits two_chunks-IsIndex

decode_czdi_v1-IsOrdered_example : (2 ≡ length two_chunks.entries) × IsOrdered 0 two_chunks.entries
decode_czdi_v1-IsOrdered_example =
    decode_czdi_v1-IsOrdered sum_mod two_chunks_bytes two_chunks two_chunks_decoded
