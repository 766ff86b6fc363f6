-- ===== src/Deflate/ChunkBits/Connector.antt =====
-- The parser steps over the empty stored block that leads from a chunk to the next byte.
use cozip.Base.{
  ℕ, zero, suc, ◌+◌, ◌-◌, ◌*◌, ◌/◌, ◌≤◌, ◌<◌, ◌≡◌, refl, sym, ◌∙◌, List, ◌++◌, append_assoc, length,
  length-append, length-replicate, get_or, replicate, arith,
}
use cozip.Base.Results.{ok}
use cozip.Deflate.BitCursor.{◌>>=◌, align_to_byte, read_bit, read_bits}
use cozip.Deflate.BitCursor.Bit.{bit}
use cozip.Deflate.BitCursor.Local.{IsShort, read_bit-bit}
use cozip.Deflate.BitCursor.Value.{read_bits_zeros, read_bits_ones, skip_bits_none}
use cozip.Deflate.ChunkBits.Append.{stored_block, pad_count}
use cozip.Deflate.ChunkBits.Represents.{get_or-append}
use cozip.Deflate.Layout.{read_block, read_block_body, skip_stored_block}

module _ {ℓ} {A : Type ℓ} where
  get_or-replicate : (n : ℕ) (x : A) (i : ℕ) (d : A) → i < n → get_or (replicate n x) i d ≡ x
  get_or-replicate zero x i d h = absurd (omega arith)
  get_or-replicate (suc n) x zero d h = refl
  get_or-replicate (suc n) x (suc i) d h = get_or-replicate n x i d (omega arith)

replicate-append : (n m x : ℕ) → replicate n x ++ replicate m x ≡ replicate (n + m) x
replicate-append zero m x = let e : 0 + m ≡ m = omega arith in rw e
replicate-append (suc n) m x =
    let e : suc n + m ≡ suc (n + m) = omega arith in rw (e, replicate-append n m x)

-- The bits of an empty stored block: zeros up to the last sixteen, which are ones.
stored_flat : (n : ℕ) → stored_block n ≡ replicate (19 + pad_count (n + 3)) 0 ++ replicate 16 1
unfolding stored_block
stored_flat n =
    let p = pad_count (n + 3) in
    let e : 3 + (p + 16) ≡ 19 + p = omega arith in
    rw (
      sym e,
      sym (replicate-append 3 (p + 16) 0),
      sym (replicate-append p 16 0),
      append_assoc {A = ℕ} (replicate p 0) (replicate 16 0) (replicate 16 1),
    )

pub stored_size : (n : ℕ) → length (stored_block n) ≡ 35 + pad_count (n + 3)
stored_size n = rw (stored_flat n) (
    omega (
      arith,
      length-append (replicate {A = ℕ} (19 + pad_count (n + 3)) 0) (replicate 16 1),
      length-replicate {A = ℕ} (19 + pad_count (n + 3)) 0,
    ))

module _ (n j : ℕ) where
  stored_zeros : j < 19 + pad_count (n + 3) → get_or (stored_block n) j 0 ≡ 0
  stored_zeros h =
      let k = 19 + pad_count (n + 3) in
      rw (stored_flat n) (
        ground (
          arith,
          get_or-append {A = ℕ} (replicate k 0) (replicate 16 1) j 0,
          get_or-replicate {A = ℕ} k 0 j 0,
          length-replicate {A = ℕ} k 0,
        ))

  stored_ones :
      19 + pad_count (n + 3) ≤ j → j < 35 + pad_count (n + 3) → get_or (stored_block n) j 0 ≡ 1
  stored_ones h below =
      let k = 19 + pad_count (n + 3) in
      rw (stored_flat n) (
        ground (
          arith,
          get_or-append {A = ℕ} (replicate k 0) (replicate 16 1) j 0,
          get_or-replicate {A = ℕ} 16 1 (j - k) 0,
          length-replicate {A = ℕ} k 0,
        ))

-- Where the bits of an empty stored block stand, the parser steps over them.
module _ (stream : List ℕ) (short : IsShort stream) (e : ℕ) where
  pub read_block-stored :
      e + length (stored_block e) ≤ 8 * length stream
      → ((j : ℕ) → j < length (stored_block e) → bit stream (e + j) ≡ get_or (stored_block e) j 0)
      → read_block stream e ≡ ok (0, e + length (stored_block e))
  unfolding read_block read_block_body skip_stored_block ◌>>=◌ align_to_byte
  read_block-stored room all =
      let p = pad_count (e + 3) in
      let size = stored_size e in
      let zeros : (j : ℕ) → j < 19 + p → bit stream (e + j) ≡ 0 =
        λ j h. all j (omega arith) ∙ stored_zeros e j h in
      let ones : (j : ℕ) → 19 + p ≤ j → j < 35 + p → bit stream (e + j) ≡ 1 =
        λ j h k. all j (omega arith) ∙ stored_ones e j h k in
      let here : e + 0 ≡ e = omega arith in
      let head : read_bit stream e ≡ ok (0, e + 1) =
        rw (read_bit-bit stream e short (omega arith), rw here at (zeros 0 (omega arith))) in
      let kind : read_bits 2 stream (e + 1) ≡ ok (0, e + 1 + 2) =
        read_bits_zeros stream short 2 (e + 1) (omega arith) (λ j h.
          let f : e + 1 + j ≡ e + (j + 1) = omega arith in rw f (zeros (j + 1) (omega arith))) in
      let aligned : (e + 1 + 2 + 7) / 8 * 8 ≡ e + (3 + p) = omega arith in
      let len : read_bits 16 stream (e + (3 + p)) ≡ ok (0, e + (3 + p) + 16) =
        read_bits_zeros stream short 16 (e + (3 + p)) (omega arith) (λ j h.
          let f : e + (3 + p) + j ≡ e + (3 + p + j) = omega arith in
          rw f (zeros (3 + p + j) (omega arith))) in
      let nlen : read_bits 16 stream (e + (3 + p) + 16) ≡ ok (0xffff, e + (3 + p) + 16 + 16) =
        read_bits_ones stream short 16 (e + (3 + p) + 16) (omega arith) (omega arith) (λ j h.
          let f : e + (3 + p) + 16 + j ≡ e + (19 + p + j) = omega arith in
          rw f (ones (19 + p + j) (omega arith) (omega arith))) in
      let behind : e + (3 + p) + 16 + 16 ≡ e + (35 + p) = omega arith in
      rw (
        head,
        kind,
        aligned,
        len,
        nlen,
        size,
        behind,
        skip_bits_none stream short (e + (35 + p)) (omega arith),
      )
