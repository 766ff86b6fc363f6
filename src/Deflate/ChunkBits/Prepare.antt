-- ===== src/Deflate/ChunkBits/Prepare.antt =====
-- What `prepare_chunk_bits_for_non_final_stream` makes of a chunk, as bits.
use cozip.Base.{
  ℕ, zero, suc, ◌+◌, ◌*◌, ◌/◌, ◌%◌, ◌^◌, ◌≤◌, ◌<◌, ◌≡◌, refl, sym, List, [], ◌++◌, append-nil,
  length, get_or, set, take, leb, ge→ltb, ◌==◌, if◌then◌else◌, arith, length-set, length-take,
  Bool-cases, inl, inr, bit_and, bit_xor, false,
}
use cozip.Base.Bits.Digit.{digit, digit-bit_and, digit-bit_xor, digit-pow}
use cozip.Base.Returns.{Returns}
use cozip.Deflate.BitCursor.Bit.{bit, bits_of, length-bits_of, get_or-bits_of}
use cozip.Deflate.ChunkBits.{prepare_chunk_bits_for_non_final_stream}
use cozip.Deflate.ChunkBits.Append.{Holds, stored_block, append_empty_stored_block-Holds}
use cozip.Deflate.ChunkBits.Represents.{bit-take, Represents, get_or-set, bit-set, index-get_or}
use cozip.Deflate.Layout.{DeflateStreamLayout}

all_ones : (j : ℕ) → j < 8 → digit 0xff j ≡ 1
all_ones zero h = refl
all_ones (suc zero) h = refl
all_ones (suc (suc zero)) h = refl
all_ones (suc (suc (suc zero))) h = refl
all_ones (suc (suc (suc (suc zero)))) h = refl
all_ones (suc (suc (suc (suc (suc zero))))) h = refl
all_ones (suc (suc (suc (suc (suc (suc zero)))))) h = refl
all_ones (suc (suc (suc (suc (suc (suc (suc zero))))))) h = refl
all_ones (suc (suc (suc (suc (suc (suc (suc (suc j)))))))) h = absurd (omega arith)

-- `byte & !(1 << k)`
digit-clear :
    (byte k j : ℕ)
    → j < 8
    → digit (bit_and byte (bit_xor (2 ^ k) 0xff)) j ≡ (if j == k then 0 else digit byte j)
digit-clear byte k j h =
    rw
      (
        digit-bit_and byte (bit_xor (2 ^ k) 0xff) j,
        digit-bit_xor (2 ^ k) 0xff j,
        digit-pow k j,
        all_ones j h,
      )
      (ground arith)

module _ (chunk : List ℕ) (layout : DeflateStreamLayout) where
  abbrev pub IsMarkable : Type 0
  IsMarkable = (layout.final_header_bit < layout.end_bit) × (layout.end_bit ≤ 8 * length chunk)

  -- The chunk's bits, the last block marked as not the last.
  unfoldable pub marked : List ℕ
  marked = set (bits_of chunk 0 layout.end_bit) layout.final_header_bit 0

  -- The bits behind it, up to a whole byte.
  unfoldable pub connector : List ℕ
  connector = if layout.end_bit % 8 == 0 then [] else stored_block layout.end_bit

  cleared : List ℕ
  cleared =
      let kept = take ((layout.end_bit + 7) / 8) chunk in
      let k = layout.final_header_bit / 8 in
      set kept k (bit_and (get_or kept k 0) (bit_xor (2 ^ (layout.final_header_bit % 8)) 0xff))

  cleared-Represents :
      layout.final_header_bit < layout.end_bit
      → layout.end_bit ≤ 8 * length chunk
      → ((i : ℕ) → layout.end_bit ≤ i → i < 8 * length chunk → bit chunk i ≡ 0)
      → Represents cleared marked
  unfolding cleared marked
  cleared-Represents hf he clean =
      let req = (layout.end_bit + 7) / 8 in
      let kept = take req chunk in
      let f = layout.final_header_bit in
      let byte = get_or kept (f / 8) 0 in
      let v = bit_and byte (bit_xor (2 ^ (f % 8)) 0xff) in
      let bits = bits_of chunk 0 layout.end_bit in
      let size : length kept ≡ req = omega (arith, length-take req chunk) in
      record {
        size = omega (
          arith,
          size,
          length-set kept (f / 8) v,
          length-set bits f 0,
          length-bits_of chunk 0 layout.end_bit,
        );
        same = λ i.
            let there : i / 8 ≡ f / 8 → digit byte (i % 8) ≡ bit kept i = λ e. unfold bit in rw e in
            let from : 0 + i ≡ i = omega arith in
            let cut = bit-take req chunk i in
            let old = rw from at (get_or-bits_of chunk 0 layout.end_bit i) in
            rw
              (
                bit-set kept (f / 8) v i (omega arith),
                digit-clear byte (f % 8) (i % 8) (omega arith),
                get_or-set bits f 0 i 0 (omega (arith, length-bits_of chunk 0 layout.end_bit)),
              )
              (ground (arith, there, cut, old, clean i));
      }

  pub marked_size : length marked ≡ layout.end_bit
  unfolding marked
  marked_size = omega (
    arith,
    length-set (bits_of chunk 0 layout.end_bit) layout.final_header_bit 0,
    length-bits_of chunk 0 layout.end_bit,
  )

  -- The chunk with its last block marked as not the last and, where it does not end with a byte,
  -- the empty stored block behind it.
  pub prepare_chunk_bits-Holds :
      layout.final_header_bit < layout.end_bit
      → layout.end_bit ≤ 8 * length chunk
      → ((i : ℕ) → layout.end_bit ≤ i → i < 8 * length chunk → bit chunk i ≡ 0)
      → Returns (prepare_chunk_bits_for_non_final_stream chunk layout) (Holds (marked ++ connector))
  unfolding prepare_chunk_bits_for_non_final_stream connector cleared
  prepare_chunk_bits-Holds hf he clean =
      let req = (layout.end_bit + 7) / 8 in
      let kept = take req chunk in
      let some_bits : (layout.end_bit == 0) ≡ false = ground arith in
      let in_order : leb layout.end_bit layout.final_header_bit ≡ false = ground arith in
      let enough = ge→ltb (length chunk) req (omega arith) in
      let there =
        index-get_or kept (layout.final_header_bit / 8) 0 (omega (arith, length-take req chunk)) in
      let held : Holds marked (cleared, layout.end_bit) =
        (sym marked_size, cleared-Represents hf he clean) in
      rw (some_bits, in_order, enough, there)
        (elim (Bool-cases (layout.end_bit % 8 == 0)) [
          | inl whole ↦ rw (whole, append-nil) held
          | inr part ↦
              let joined = append_empty_stored_block-Holds (cleared, layout.end_bit) marked held in
              rw part (rw marked_size at joined)
        ])
