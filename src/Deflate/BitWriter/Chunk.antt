-- ===== src/Deflate/BitWriter/Chunk.antt =====
-- A chunk that is written with its final bit overridden, the empty stored block between two chunks,
-- and the end of a stream, as operations on the sequence of bits.
use cozip.Base.{
  ℕ, zero, suc, ◌+◌, ◌-◌, ◌*◌, ◌≤◌, ◌<◌, ◌≡◌, refl, ap, List, [], ◌∷◌, ◌++◌, append_assoc,
  append-nil, length, set, ltb, leb, ◌==◌, if◌then◌else◌, arith, bit_and, Bool, true, false,
  Bool-cases, inl, inr, sym, replicate,
}
use cozip.Base.Bits.{bit_and_mask}
use cozip.Base.Le.{IsBytes}
use cozip.Base.Results.{ok}
use cozip.Base.Returns.{Returns, Returns->>=, Returns-if, Returns_weaker}
use cozip.Deflate.BitCursor.Bit.{bit, bit_at-bit, bits_of}
use cozip.Deflate.BitWriter.{
  DeflateBitWriter, write_bit, write_bits_from_slice, write_chunk_bits_with_final_override,
  write_pad_loop, append_empty_stored_block_non_final,
  append_deflate_chunk_as_block_sequence_with_layout,
}
use cozip.Deflate.BitWriter.Loop.{nothing_copied, write_bits_from_slice-Returns}
use cozip.Deflate.BitWriter.Writes.{Writes, write_bit-Writes, write_byte_bits-Writes}
use cozip.Deflate.ChunkBits.Append.{stored_block, pad_count, assembled, length-snoc}
use cozip.Deflate.Layout.{DeflateStreamLayout}

-- The bits of a chunk with its last block's final bit set to a value.
abbrev pub overridden : List ℕ → DeflateStreamLayout → ℕ → List ℕ
overridden chunk layout final = set (bits_of chunk 0 layout.end_bit) layout.final_header_bit final

set-bits_of :
    (src : List ℕ) (pos n k final : ℕ)
    → k < n
    → bits_of src pos k ++ (final ∷ bits_of src (pos + k + 1) (n - (k + 1)))
      ≡ set (bits_of src pos n) k final
unfolding bits_of
set-bits_of src pos zero k final h = absurd (omega arith)
set-bits_of src pos (suc n) zero final h =
    let e : pos + 0 + 1 ≡ pos + 1 = omega arith in
    let f : suc n - (0 + 1) ≡ n = omega arith in rw (e, f)
set-bits_of src pos (suc n) (suc k) final h =
    let e : pos + suc k + 1 ≡ pos + 1 + k + 1 = omega arith in
    let f : suc n - (suc k + 1) ≡ n - (k + 1) = omega arith in
    rw (e, f)
      (ap (λ (l : List ℕ). bit src pos ∷ l) (set-bits_of src (pos + 1) n k final (omega arith)))

set-same :
    (src : List ℕ) (pos n k : ℕ) → set (bits_of src pos n) k (bit src (pos + k)) ≡ bits_of src pos n
unfolding bits_of
set-same src pos zero k = refl
set-same src pos (suc n) zero = let e : pos + 0 ≡ pos = omega arith in rw e
set-same src pos (suc n) (suc k) =
    let e : pos + suc k ≡ pos + 1 + k = omega arith in rw (e, set-same src (pos + 1) n k)

-- Bits that are copied, if there are any.
copied_if :
    (w : DeflateBitWriter) (bits src : List ℕ) (pos count : ℕ) (test : Bool)
    → Writes w bits
    → IsBytes src
    → pos + count ≤ 8 * length src
    → (test ≡ false → count ≡ 0)
    → Returns
        (if test then write_bits_from_slice w src pos count else ok w)
        (λ v. Writes v (bits ++ bits_of src pos count))
copied_if w bits src pos count true r bytes room none =
    write_bits_from_slice-Returns w bits src pos count r bytes room
copied_if w bits src pos count false r bytes room none =
    nothing_copied w bits src pos count r (none refl)

module _ (w : DeflateBitWriter) (bits chunk : List ℕ) (layout : DeflateStreamLayout) (final : ℕ)
    (r : Writes w bits) (bytes : IsBytes chunk)
    (in_order : layout.final_header_bit < layout.end_bit)
    (inside : layout.end_bit ≤ 8 * length chunk) (flag : final < 2) where
  abbrev Done : DeflateBitWriter → Type 0
  Done v = Writes v (bits ++ overridden chunk layout final)

  unchanged :
      (bit chunk layout.final_header_bit == final) ≡ true
      → bit chunk (0 + layout.final_header_bit) ≡ final
  unchanged same =
      let k = layout.final_header_bit in
      let e : 0 + k ≡ k = omega arith in rw e (ground (arith, same))

  pieces :
      (((bits ++ bits_of chunk 0 layout.final_header_bit) ++ (final ∷ []))
        ++ bits_of chunk
            (layout.final_header_bit + 1)
            (layout.end_bit - (layout.final_header_bit + 1)))
      ≡ bits ++ overridden chunk layout final
  pieces =
      let k = layout.final_header_bit in
      let n = layout.end_bit in
      let tail = bits_of chunk (k + 1) (n - (k + 1)) in
      let e : 0 + k + 1 ≡ k + 1 = omega arith in
      let whole = rw e at (set-bits_of chunk 0 n k final in_order) in
      rw (
        append_assoc (bits ++ bits_of chunk 0 k) (final ∷ []) tail,
        append_assoc bits (bits_of chunk 0 k) (final ∷ tail),
        whole,
      )

  pub write_chunk_bits_with_final_override-Returns :
      Returns (write_chunk_bits_with_final_override w chunk layout final) Done
  unfolding write_chunk_bits_with_final_override
  write_chunk_bits_with_final_override-Returns =
      let k = layout.final_header_bit in
      let n = layout.end_bit in
      let some_bits : (n == 0) ≡ false = ground arith in
      let ordered : leb n k ≡ false = ground arith in
      let e : bit_and final 1 ≡ final = omega (arith, bit_and_mask 1 final) in
      rw (some_bits, ordered, bit_at-bit chunk k (omega arith), e)
        (Returns-if Done (bit chunk k == final) _ _
          (λ same.
            let kept : overridden chunk layout final ≡ bits_of chunk 0 n =
              rw (sym (unchanged same)) (set-same chunk 0 n k) in
            Returns_weaker _ Done _
              (write_bits_from_slice-Returns w bits chunk 0 n r bytes (omega arith))
              (λ v r'. rw (sym kept) at r'))
          (λ _.
            Returns->>= (λ v. Writes v (bits ++ bits_of chunk 0 k)) Done _ _
              (copied_if w bits chunk 0 k (ltb 0 k) r bytes (omega arith) (λ h. ground (arith, h)))
              (λ w₁ r₁.
                let r₂ = write_bit-Writes w₁ _ r₁ final flag in
                Returns_weaker _ Done _
                  (copied_if (write_bit w₁ final) _ chunk (k + 1) (n - (k + 1)) (ltb (k + 1) n) r₂
                    bytes (omega arith) (λ h. ground (arith, h)))
                  (λ v r₃. rw (pieces) at r₃))))

  pub append_deflate_chunk_with_layout-Returns :
      Returns (append_deflate_chunk_as_block_sequence_with_layout w chunk layout final) Done
  unfolding append_deflate_chunk_as_block_sequence_with_layout
  append_deflate_chunk_with_layout-Returns =
      let some_bits : (layout.end_bit == 0) ≡ false = ground arith in
      let ordered : leb layout.end_bit layout.final_header_bit ≡ false = ground arith in
      rw (some_bits, ordered) write_chunk_bits_with_final_override-Returns

-- The zero bits up to the next byte.
write_pad_loop-Returns :
    (n : ℕ) (w : DeflateBitWriter) (bits : List ℕ)
    → Writes w bits
    → pad_count (length bits) < n
    → Returns (write_pad_loop n w) (λ v. Writes v (bits ++ replicate (pad_count (length bits)) 0))
unfolding write_pad_loop
write_pad_loop-Returns zero w bits r enough = absurd (omega arith)
write_pad_loop-Returns (suc n) w bits r enough = elim (Bool-cases (w.used == 0)) [
  | inl done ↦
      let none : pad_count (length bits) ≡ 0 = ground (arith, done, r.size) in
      rw (done, none, append-nil) r
  | inr more ↦
      let bits' = bits ++ (0 ∷ []) in
      let left : List ℕ = replicate (pad_count (length bits')) 0 in
      let e : pad_count (length bits) ≡ suc (pad_count (length bits')) =
        ground (arith, more, r.size, r.small, length-snoc bits 0) in
      rw (more, e, sym (append_assoc bits (0 ∷ []) left))
        (write_pad_loop-Returns n (write_bit w 0) bits' (write_bit-Writes w bits r 0 (omega arith))
          (omega arith))
]

pub append_empty_stored_block-Returns :
    (w : DeflateBitWriter) (bits : List ℕ)
    → Writes w bits
    → Returns
        (append_empty_stored_block_non_final w)
        (λ v. Writes v (bits ++ stored_block (length bits)))
unfolding append_empty_stored_block_non_final stored_block
append_empty_stored_block-Returns w bits r =
    let l₁ : List ℕ = bits ++ (0 ∷ []) in
    let l₂ = l₁ ++ (0 ∷ []) in
    let l₃ = l₂ ++ (0 ∷ []) in
    let pad : List ℕ = replicate (pad_count (length bits + 3)) 0 in
    let count : pad_count (length l₃) ≡ pad_count (length bits + 3) =
      omega (arith, length-snoc bits 0, length-snoc l₁ 0, length-snoc l₂ 0) in
    let r₁ = write_bit-Writes w bits r 0 (omega arith) in
    let r₂ = write_bit-Writes _ l₁ r₁ 0 (omega arith) in
    let r₃ = write_bit-Writes _ l₂ r₂ 0 (omega arith) in
    Returns->>= (λ v. Writes v (l₃ ++ pad)) _ (write_pad_loop 8 _) _
      (rw count at (write_pad_loop-Returns 8 _ l₃ r₃ (omega arith)))
      (λ v r₄.
        let r₅ = write_byte_bits-Writes v _ r₄ 0x00 (omega arith) in
        let r₆ = write_byte_bits-Writes _ _ r₅ 0x00 (omega arith) in
        let r₇ = write_byte_bits-Writes _ _ r₆ 0xff (omega arith) in
        rw (assembled bits pad) at (write_byte_bits-Writes _ _ r₇ 0xff (omega arith)))
