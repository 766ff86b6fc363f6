-- ===== src/Deflate/Index/Ordered.antt =====
-- What a success of `decode_czdi_v1` says of the index, whatever the bytes were.
use cozip.Base.{
  ℕ, zero, suc, ◌+◌, ◌^◌, ◌≤◌, ◌<◌, ◌≡◌, refl, List, [], ◌∷◌, ◌++◌, append_assoc, append-nil, arith,
  length, ltb, bit_and, get_or, take, list_eq, ◌==◌, if◌then◌else◌, not, ap, sym, ◌∙◌,
}
use cozip.Base.At.{get_range}
use cozip.Base.Ensures.{Ensures, Ensures->>=, Ensures_weaker, Ensures-ok}
use cozip.Base.Results.{ok, ok_or, checked_add, try_from, fail_if}
use cozip.Deflate.Error.{data_too_large, invalid_frame}
use cozip.Deflate.Leb128.{read_uleb128_u64}
use cozip.Deflate.Index.{
  DeflateChunkIndexEntry, DeflateChunkIndex, decode_entries, decode_czdi_v1, header_len, czdi_magic,
  czdi_version_v1, czdi_flag_table_varint, field,
}

-- Offsets that never go back behind `prev_off`, and lengths that fit a u32.
unfoldable pub IsOrdered : ℕ → List DeflateChunkIndexEntry → Type 0
IsOrdered prev_off [] = Unit
IsOrdered prev_off (entry ∷ entries) =
    (prev_off ≤ entry.comp_bit_off)
    × (entry.comp_bit_len < 2 ^ 32)
    × (entry.final_header_rel_bit < 2 ^ 32)
    × (entry.raw_len < 2 ^ 32)
    × IsOrdered entry.comp_bit_off entries

try_from-lt : (v w : ℕ) → try_from 32 v data_too_large ≡ ok w → w < 2 ^ 32
try_from-lt v w h = ground arith

offset_grows :
    (idx prev_off delta off : ℕ)
    → (idx ≡ 0 → prev_off ≡ 0)
    → (if idx == 0 then ok delta else ok_or (checked_add prev_off delta) data_too_large) ≡ ok off
    → prev_off ≤ off
offset_grows idx prev_off delta off first h = ground (arith, first)

-- The entries that the loop read are behind those it had, as many as it was asked for.
Read : ℕ → ℕ → List DeflateChunkIndexEntry → List DeflateChunkIndexEntry × ℕ → Type 0
Read n prev_off done r =
    (entries : List DeflateChunkIndexEntry) × (r.0 ≡ done ++ entries)
    × (length entries ≡ n)
    × IsOrdered prev_off entries

decode_entries-Read :
    (n : ℕ) (table : List ℕ) (idx pos prev_off : ℕ) (done : List DeflateChunkIndexEntry)
    → (idx ≡ 0 → prev_off ≡ 0)
    → Ensures (decode_entries n table idx pos prev_off done) (Read n prev_off done)
unfolding decode_entries Read IsOrdered
decode_entries-Read zero table idx pos prev_off done first = ([], sym (append-nil done), refl, tt)
decode_entries-Read (suc n) table idx pos prev_off done first =
    let Q = Read (suc n) prev_off done in
    Ensures->>= Q (read_uleb128_u64 table pos) _ (λ (delta, p₁) _.
      Ensures->>= Q (read_uleb128_u64 table p₁) _ (λ (len_u64, p₂) _.
        Ensures->>= Q (read_uleb128_u64 table p₂) _ (λ (rel_u64, p₃) _.
          Ensures->>= Q (read_uleb128_u64 table p₃) _ (λ (raw_u64, p₄) _.
            Ensures->>= Q
              (if idx == 0 then ok delta else ok_or (checked_add prev_off delta) data_too_large) _
              (λ off e₁. Ensures->>= Q (try_from 32 len_u64 data_too_large) _ (λ len e₂.
                Ensures->>= Q (try_from 32 rel_u64 data_too_large) _ (λ rel e₃.
                  Ensures->>= Q (try_from 32 raw_u64 data_too_large) _ (λ raw e₄.
                    let entry : DeflateChunkIndexEntry = record {
                      comp_bit_off = off;
                      comp_bit_len = len;
                      final_header_rel_bit = rel;
                      raw_len = raw;
                    } in
                    let done' = done ++ (entry ∷ []) in
                    Ensures_weaker (Read n off done') Q
                      (decode_entries n table (idx + 1) p₄ off done')
                      (decode_entries-Read n table (idx + 1) p₄ off done' (omega arith))
                      (λ r (entries, e, size, ordered). (
                        entry ∷ entries,
                        e ∙ append_assoc done (entry ∷ []) entries,
                        ap suc size,
                        (
                          offset_grows idx prev_off delta off first e₁,
                          try_from-lt len_u64 len e₂,
                          try_from-lt rel_u64 rel e₃,
                          try_from-lt raw_u64 raw e₄,
                          ordered,
                        ),
                      ))))))))))

-- What holds of every index that is read.
Counted : DeflateChunkIndex → Type 0
Counted index = (index.chunk_count ≡ length index.entries) × IsOrdered 0 index.entries

decode_czdi_v1-Counted :
    (hash : List ℕ → ℕ) (bytes : List ℕ) → Ensures (decode_czdi_v1 hash bytes) Counted
unfolding decode_czdi_v1 Counted Read
decode_czdi_v1-Counted hash bytes =
    Ensures->>= Counted
      (fail_if (ltb (length bytes) header_len) (invalid_frame "czdi header truncated")) _
      (λ _ _.
        Ensures->>= Counted
          (fail_if (not (list_eq (take 4 bytes) czdi_magic)) (invalid_frame "czdi magic mismatch"))
          _
          (λ _ _.
            Ensures->>= Counted
              (fail_if (not (get_or bytes 4 0 == czdi_version_v1))
                (invalid_frame "unsupported czdi version"))
              _
              (λ _ _.
                Ensures->>= Counted
                  (fail_if (bit_and (get_or bytes 5 0) czdi_flag_table_varint == 0)
                    (invalid_frame "unsupported czdi table encoding"))
                  _
                  (λ _ _.
                    Ensures->>= Counted
                      (ok_or (checked_add header_len (field bytes 32 36)) data_too_large) _
                      (λ table_end _.
                        Ensures->>= Counted
                          (ok_or (get_range bytes header_len table_end)
                            (invalid_frame "czdi table truncated"))
                          _
                          (λ table _.
                            Ensures->>= Counted
                              (fail_if (not (hash table == field bytes 36 40))
                                (invalid_frame "czdi table crc mismatch"))
                              _
                              (λ _ _.
                                Ensures->>= Counted
                                  (decode_entries (field bytes 12 16) table 0 0 0 []) _
                                  (λ (entries, pos) e.
                                    Ensures->>= Counted
                                      (fail_if (not (pos == length table))
                                        (invalid_frame "czdi table has trailing bytes"))
                                      _
                                      (λ _ _.
                                        let (read, same, size, ordered) =
                                          Ensures-ok (Read (field bytes 12 16) 0 []) _
                                            (entries, pos)
                                            (decode_entries-Read (field bytes 12 16) table 0 0 0 []
                                              (omega arith))
                                            e in
                                        rw same (sym size, ordered))))))))))

-- Whatever the bytes are, an index that `decode_czdi_v1` accepts has as many entries as it says,
-- their offsets never go back, and their lengths and header positions fit a u32.
pub decode_czdi_v1-IsOrdered :
    (hash : List ℕ → ℕ) (bytes : List ℕ) (index : DeflateChunkIndex)
    → decode_czdi_v1 hash bytes ≡ ok index
    → (index.chunk_count ≡ length index.entries) × IsOrdered 0 index.entries
unfolding Counted
decode_czdi_v1-IsOrdered hash bytes index e =
    Ensures-ok Counted (decode_czdi_v1 hash bytes) index (decode_czdi_v1-Counted hash bytes) e
