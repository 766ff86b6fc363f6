-- ===== src/Deflate/ChunkStream/Entry.antt =====
-- One chunk of the stream: the bits that are written for it, and its entry in the chunk index.
use cozip.Base.{
  ℕ, ◌+◌, ◌-◌, ◌*◌, ◌%◌, ◌^◌, ◌≤◌, ◌<◌, ◌≡◌, refl, List, [], ◌++◌, append_assoc, append-nil, length,
  length-append, length-set, ltb, ◌==◌, ◌&&◌, not, if◌then◌else◌, arith, Bool, true, false,
  Bool-cases, inl, inr, ◌∙◌, Option, none, some,
}
use cozip.Base.Le.{IsBytes}
use cozip.Base.Results.{usize_bound, try_from-ok, checked_add-ok}
use cozip.Base.Returns.{Returns, Returns->>=}
use cozip.Deflate.BitCursor.Bit.{bits_of, length-bits_of}
use cozip.Deflate.BitWriter.{DeflateBitWriter}
use cozip.Deflate.BitWriter.Chunk.{
  overridden, write_chunk_bits_with_final_override-Returns,
  append_deflate_chunk_with_layout-Returns, append_empty_stored_block-Returns,
}
use cozip.Deflate.BitWriter.Loop.{write_bits_from_slice-Returns}
use cozip.Deflate.BitWriter.Writes.{Writes}
use cozip.Deflate.ChunkBits.Append.{stored_block}
use cozip.Deflate.ChunkBits.Connector.{stored_size}
use cozip.Deflate.ChunkStream.{StreamReadyChunk, write_connector, write_chunk, write_ready_chunk}
use cozip.Deflate.Error.{data_too_large}
use cozip.Deflate.Index.{DeflateChunkIndexEntry}
use cozip.Deflate.Layout.{DeflateStreamLayout}

-- The bits between a stream and a chunk that is not its first one.
unfoldable pub front : List ℕ → ℕ → List ℕ
front bits next_write_index =
    if ltb 0 next_write_index && not (length bits % 8 == 0) then stored_block (length bits) else []

pub length-front :
    (bits : List ℕ) (next_write_index : ℕ) → length (front bits next_write_index) ≤ 42
unfolding front
length-front bits next_write_index = ground (arith, stored_size (length bits))

-- The bits of a chunk; the option is `prepared_non_final_end_bit`.
unfoldable pub body : StreamReadyChunk → Bool → Option ℕ → List ℕ
body ready final (some non_final_end_bit) =
    if final
    then overridden ready.chunk.compressed ready.layout 1
    else bits_of ready.chunk.compressed 0 non_final_end_bit
body ready final none = overridden ready.chunk.compressed ready.layout (if final then 1 else 0)

-- The bits that a prepared chunk asks for are there.
abbrev pub IsPrepared : List ℕ → Option ℕ → Type 0
IsPrepared bytes none = Unit
IsPrepared bytes (some n) = n ≤ 8 * length bytes

-- A ready chunk whose layout lies inside its bytes.
pub record IsReady (ready : StreamReadyChunk) : Type 0 where
  pub bytes : IsBytes ready.chunk.compressed
  pub in_order : ready.layout.final_header_bit < ready.layout.end_bit
  pub inside : ready.layout.end_bit ≤ 8 * length ready.chunk.compressed
  pub prepared : IsPrepared ready.chunk.compressed ready.prepared_non_final_end_bit

pub length-overridden :
    (chunk : List ℕ) (layout : DeflateStreamLayout) (final : ℕ)
    → length (overridden chunk layout final) ≡ layout.end_bit
length-overridden chunk layout final =
    length-set (bits_of chunk 0 layout.end_bit) layout.final_header_bit final
    ∙ length-bits_of chunk 0 layout.end_bit

module _ (ready : StreamReadyChunk) (final : Bool) (valid : IsReady ready) where
  pub length-body :
      (prepared : Option ℕ)
      → IsPrepared ready.chunk.compressed prepared
      → length (body ready final prepared) ≤ 8 * length ready.chunk.compressed
  unfolding body
  length-body none p = omega (
    arith,
    valid.inside,
    length-overridden ready.chunk.compressed ready.layout (if final then 1 else 0),
  )
  length-body (some n) p = ground (
    arith,
    valid.inside,
    length-overridden ready.chunk.compressed ready.layout 1,
    length-bits_of ready.chunk.compressed 0 n,
  )

write_chunk-Returns :
    (ready : StreamReadyChunk) (valid : IsReady ready) (w : DeflateBitWriter) (bits : List ℕ)
    (final : Bool) (prepared : Option ℕ)
    → Writes w bits
    → IsPrepared ready.chunk.compressed prepared
    → Returns
        (write_chunk w ready final prepared)
        (λ v. Writes v (bits ++ body ready final prepared))
unfolding write_chunk body
write_chunk-Returns ready valid w bits final none r p =
    append_deflate_chunk_with_layout-Returns w bits ready.chunk.compressed ready.layout _ r
      valid.bytes valid.in_order valid.inside (ground arith)
write_chunk-Returns ready valid w bits true (some n) r p =
    write_chunk_bits_with_final_override-Returns w bits ready.chunk.compressed ready.layout 1 r
      valid.bytes valid.in_order valid.inside (omega arith)
write_chunk-Returns ready valid w bits false (some n) r p =
    write_bits_from_slice-Returns w bits ready.chunk.compressed 0 n r valid.bytes (omega (arith, p))

-- A writer behind the bits that lead to a chunk, and their number.
abbrev Connected : List ℕ → ℕ → DeflateBitWriter × ℕ → Type 0
Connected bits next_write_index r =
    Writes r.0 (bits ++ front bits next_write_index) × (r.1 ≡ length (front bits next_write_index))

front_of_used :
    (w : DeflateBitWriter) (bits : List ℕ) (next_write_index : ℕ)
    → Writes w bits
    → front bits next_write_index
      ≡ (if ltb 0 next_write_index && not (w.used == 0) then stored_block (length bits) else [])
unfolding front
front_of_used w bits next r =
    let e : length bits % 8 ≡ w.used = omega (arith, r.size, r.small) in rw e

write_connector-Returns :
    (w : DeflateBitWriter) (bits : List ℕ) (next_write_index : ℕ)
    → Writes w bits
    → length bits + 42 < usize_bound
    → Returns (write_connector w next_write_index) (Connected bits next_write_index)
unfolding write_connector
write_connector-Returns w bits next r room =
    let e = front_of_used w bits next r in
    let block = stored_block (length bits) in
    elim (Bool-cases (ltb 0 next && not (w.used == 0))) [
      | inl needed ↦ rw needed (
          Returns->>= (λ v. Writes v (bits ++ block)) _ _ _
            (append_empty_stored_block-Returns w bits r)
            (λ v h. rw (rw needed at e) (
              h,
              omega (arith, h.total, r.total, length-append bits block, stored_size (length bits)),
            )))
      | inr joined ↦ rw joined (rw (rw joined at e, append-nil) (r, refl))
    ]

-- The index entry of a chunk that is written behind some bits.
abbrev pub entry_of : List ℕ → ℕ → StreamReadyChunk → Bool → DeflateChunkIndexEntry
entry_of bits next_write_index ready final =
    let connected = front bits next_write_index in
    record {
      comp_bit_off = length bits;
      comp_bit_len = length (connected ++ body ready final ready.prepared_non_final_end_bit);
      final_header_rel_bit = length connected + ready.layout.final_header_bit;
      raw_len = ready.chunk.raw_len;
    }

-- The bits behind which the next chunk is written.
abbrev pub bits_behind : List ℕ → ℕ → StreamReadyChunk → Bool → List ℕ
bits_behind bits next_write_index ready final =
    bits ++ (front bits next_write_index ++ body ready final ready.prepared_non_final_end_bit)

-- A ready chunk is written behind the bits of a writer without a failure: the writer then stands for
-- these bits, the empty stored block where the chunk does not begin a byte, and the chunk's bits. The
-- index entry has the place and the number of the new bits, and the place of the chunk's last block
-- header among them. A chunk has fewer than 2 ^ 32 bits with the stored block, and the stream fewer
-- than 2 ^ 64.
pub write_ready_chunk-Returns :
    (w : DeflateBitWriter) (bits : List ℕ) (next_write_index : ℕ) (ready : StreamReadyChunk)
    (final : Bool)
    → Writes w bits
    → IsReady ready
    → 8 * length ready.chunk.compressed + 42 < 2 ^ 32
    → length bits + 2 ^ 32 < usize_bound
    → Returns (write_ready_chunk w next_write_index ready final) (λ (v, entry).
      Writes v (bits_behind bits next_write_index ready final)
      × (entry ≡ entry_of bits next_write_index ready final))
unfolding write_ready_chunk
write_ready_chunk-Returns w bits next ready final r valid small room =
    let connected = front bits next in
    let short = length-front bits next in
    let prepared = ready.prepared_non_final_end_bit in
    let whole = length-append connected (body ready final prepared) in
    Returns->>= (Connected bits next) _ _ _ (write_connector-Returns w bits next r (omega arith))
      (λ (w', n) (r', e).
        Returns->>= (λ v. Writes v ((bits ++ connected) ++ body ready final prepared)) _ _ _
          (write_chunk-Returns ready valid w' _ final prepared r' valid.prepared)
          (λ v r''.
            let written = rw (append_assoc bits connected (body ready final prepared)) at r'' in
            let size = length-append bits (connected ++ body ready final prepared) in
            let len : v.total_bits - w.total_bits
                ≡ length (connected ++ body ready final prepared) =
              omega (
                arith,
                written.total,
                r.total,
                size,
                whole,
                length-body ready final valid prepared valid.prepared,
              ) in
            let start : w.total_bits ≡ length bits = omega (arith, r.total) in
            rw
              (
                e,
                checked_add-ok (length connected) ready.layout.final_header_bit data_too_large
                    (omega (arith, valid.in_order, valid.inside)),
                len,
                try_from-ok 32 (length (connected ++ body ready final prepared)) data_too_large
                    (omega (arith, whole, length-body ready final valid prepared valid.prepared)),
                try_from-ok 32 (length connected + ready.layout.final_header_bit) data_too_large
                    (omega (arith, valid.in_order, valid.inside)),
                start,
              )
              (written, refl)))
