-- ===== src/Pdeflate/Chunk/Flags.antt =====
-- The flag that marks a stream's last chunk, set and read.
use cozip.Base.{
  ℕ, zero, suc, ◌+◌, ◌%◌, ◌^◌, ◌≤◌, ◌<◌, ◌≡◌, refl, List, ◌++◌, arith, Bool, true, false, bit_and,
  bit_or, ge→ltb, length, list_eq_self, if◌then◌else◌,
}
use cozip.Base.Le.{to_le_bytes, from_le_bytes, from_le_bytes-to_le_bytes}
use cozip.Base.Results.{ok, ◌>>=◌}
use cozip.Pdeflate.Chunk.{
  chunk_magic, chunk_header_size, chunk_huffman_enabled, chunk_final_stream_enabled,
  read_chunk_flags, set_chunk_final_stream_flag,
}

-- A chunk with the flags `flags`; `rest` is what stands behind them.
abbrev pub flagged : ℕ → List ℕ → List ℕ
flagged flags rest = chunk_magic ++ (to_le_bytes 2 0 ++ (to_le_bytes 2 flags ++ rest))

-- The flags with the last-chunk bit as asked and the Huffman bit kept.
abbrev pub with_final : ℕ → Bool → ℕ
with_final flags enabled = flags % 2 + (if enabled then 2 else 0)

below_four : (P : ℕ → Type 0) → P 0 → P 1 → P 2 → P 3 → (flags : ℕ) → flags < 4 → P flags
below_four P p₀ p₁ p₂ p₃ zero h = p₀
below_four P p₀ p₁ p₂ p₃ (suc zero) h = p₁
below_four P p₀ p₁ p₂ p₃ (suc (suc zero)) h = p₂
below_four P p₀ p₁ p₂ p₃ (suc (suc (suc zero))) h = p₃
below_four P p₀ p₁ p₂ p₃ (suc (suc (suc (suc flags)))) h = absurd (omega arith)

set_bit : (flags : ℕ) → flags < 4 → bit_or flags 2 ≡ flags % 2 + 2
set_bit = below_four (λ flags. bit_or flags 2 ≡ flags % 2 + 2) refl refl refl refl

clear_bit : (flags : ℕ) → flags < 4 → bit_and flags 0xfffd ≡ flags % 2 + 0
clear_bit = below_four (λ flags. bit_and flags 0xfffd ≡ flags % 2 + 0) refl refl refl refl

new_flags :
    (flags : ℕ) (enabled : Bool)
    → flags < 4
    → (if enabled then bit_or flags 2 else bit_and flags 0xfffd) ≡ with_final flags enabled
new_flags flags true h = set_bit flags h
new_flags flags false h = clear_bit flags h

final_kept :
    (flags : ℕ) (enabled : Bool)
    → flags < 4
    → chunk_final_stream_enabled (with_final flags enabled) ≡ enabled
unfolding chunk_final_stream_enabled
final_kept flags true h =
    below_four (λ f. chunk_final_stream_enabled (with_final f true) ≡ true) refl refl refl refl
      flags h
final_kept flags false h =
    below_four (λ f. chunk_final_stream_enabled (with_final f false) ≡ false) refl refl refl refl
      flags h

huffman_kept :
    (flags : ℕ) (enabled : Bool)
    → flags < 4
    → chunk_huffman_enabled (with_final flags enabled) ≡ chunk_huffman_enabled flags
unfolding chunk_huffman_enabled
huffman_kept flags true h =
    below_four (λ f. chunk_huffman_enabled (with_final f true) ≡ chunk_huffman_enabled f) refl refl
      refl refl flags h
huffman_kept flags false h =
    below_four (λ f. chunk_huffman_enabled (with_final f false) ≡ chunk_huffman_enabled f) refl refl
      refl refl flags h

read_chunk_flags-flagged :
    (flags : ℕ) (rest : List ℕ) → flags < 2 ^ 16 → read_chunk_flags (flagged flags rest) ≡ ok flags
unfolding read_chunk_flags to_le_bytes
read_chunk_flags-flagged flags rest h =
    let back : from_le_bytes (to_le_bytes 2 flags) ≡ flags = from_le_bytes-to_le_bytes 2 flags h in
    rw (ge→ltb (length (flagged flags rest)) 8 (omega arith)) (rw back)

set_chunk_final_stream_flag-flagged :
    (flags : ℕ) (rest : List ℕ) (enabled : Bool)
    → flags < 4
    → 28 ≤ length rest
    → set_chunk_final_stream_flag (flagged flags rest) enabled
      ≡ ok (flagged (with_final flags enabled) rest)
unfolding set_chunk_final_stream_flag to_le_bytes from_le_bytes
set_chunk_final_stream_flag-flagged flags rest enabled h room =
    let new : (if enabled then bit_or flags 2 else bit_and flags 0xfffd)
        ≡ with_final flags enabled =
      new_flags flags enabled h in
    rw (
      ge→ltb (length (flagged flags rest)) chunk_header_size (omega arith),
      list_eq_self chunk_magic,
      read_chunk_flags-flagged flags rest (omega arith),
      new,
    )

-- On a chunk with a full header and flags of the two known kinds, `set_chunk_final_stream_flag` does
-- not fail, and it changes nothing but the flags; the flags read afterwards have the last-chunk bit as
-- asked, and the Huffman bit as it was.
pub read_chunk_flags-set_chunk_final_stream_flag :
    (flags : ℕ) (rest : List ℕ) (enabled : Bool)
    → flags < 4
    → 28 ≤ length rest
    → (set_chunk_final_stream_flag (flagged flags rest) enabled
        ≡ ok (flagged (with_final flags enabled) rest))
      × ((set_chunk_final_stream_flag (flagged flags rest) enabled >>= read_chunk_flags)
          ≡ ok (with_final flags enabled))
      × (chunk_final_stream_enabled (with_final flags enabled) ≡ enabled)
      × (chunk_huffman_enabled (with_final flags enabled) ≡ chunk_huffman_enabled flags)
read_chunk_flags-set_chunk_final_stream_flag flags rest enabled h room =
    let small : with_final flags enabled < 2 ^ 16 = ground arith in
    (
      set_chunk_final_stream_flag-flagged flags rest enabled h room,
      rw (set_chunk_final_stream_flag-flagged flags rest enabled h room)
          (read_chunk_flags-flagged (with_final flags enabled) rest small),
      final_kept flags enabled h,
      huffman_kept flags enabled h,
    )
