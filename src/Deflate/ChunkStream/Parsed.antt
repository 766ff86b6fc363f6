-- ===== src/Deflate/ChunkStream/Parsed.antt =====
-- The stream that is written for chunks of the CPU encoder is one Deflate stream: the parser goes
-- through all chunks and finds the last block of the last one.
use cozip.Base.{
  ℕ, ◌+◌, ◌-◌, ◌*◌, ◌%◌, ◌^◌, ◌≤◌, ◌<◌, ◌≡◌, refl, ap, List, [], ◌∷◌, ◌++◌, length, length-append,
  get_or, if◌then◌else◌, arith, Bool, true, false, ◌∙◌, All, none,
}
use cozip.Base.Results.{ok, usize_bound}
use cozip.Base.Returns.{Returns, Returns_weaker}
use cozip.Deflate.BitCursor.Local.{IsShort}
use cozip.Deflate.BitWriter.{new_writer, finish}
use cozip.Deflate.BitWriter.Chunk.{overridden}
use cozip.Deflate.ChunkBits.Join.{parse_of_blocks}
use cozip.Deflate.ChunkBits.Represents.{get_or-append}
use cozip.Deflate.ChunkStream.{Taken, is_final_chunk, write_chunks}
use cozip.Deflate.ChunkStream.Entry.{front, body, length-overridden}
use cozip.Deflate.ChunkStream.Stream.{
  behind, stream_bits, stream_entries, IsTaken, Written, stream_length, write_chunks-Returns,
}
use cozip.Deflate.Index.{DeflateChunkIndexEntry}
use cozip.Deflate.ChunkStream.Walk.{
  HasBits, Begins, Begins-parts, front_round, rounds, rounds_ended, chunk_walked, chunk_ended,
}
use cozip.Deflate.BitWriter.Finish.{new_writer-Writes, finish-Represents}
use cozip.Deflate.Layout.{parse_blocks, parse_deflate_stream_layout}
use cozip.Deflate.Layout.Safe.{IsLayout, parse_blocks-Answers}
use cozip.Deflate.Layout.Walk.{shifted}

-- The stream keeps the bits that it has.
stream_keeps :
    (taken : List Taken) (next : ℕ) (bits : List ℕ) (i : ℕ)
    → i < length bits
    → get_or (stream_bits bits next taken) i 0 ≡ get_or bits i 0
unfolding stream_bits
stream_keeps [] next bits i h = refl
stream_keeps (taken ∷ rest) next bits i h =
    let more =
      front bits next
      ++ body taken.ready (is_final_chunk taken next) taken.ready.prepared_non_final_end_bit in
    stream_keeps rest (next + 1) (behind bits next taken) i (omega (arith, length-append bits more))
    ∙ ground (arith, get_or-append bits more i 0)

stream_grows :
    (taken : List Taken) (next : ℕ) (bits : List ℕ)
    → length bits ≤ length (stream_bits bits next taken)
unfolding stream_bits
stream_grows [] next bits = omega arith
stream_grows (taken ∷ rest) next bits =
    let more =
      front bits next
      ++ body taken.ready (is_final_chunk taken next) taken.ready.prepared_non_final_end_bit in
    omega (arith, stream_grows rest (next + 1) (behind bits next taken), length-append bits more)

-- The place of the last block's header, from the last entry of the index.
unfoldable pub last_header : List DeflateChunkIndexEntry → ℕ
last_header [] = 0
last_header (entry ∷ []) = entry.comp_bit_off + entry.final_header_rel_bit
last_header (entry ∷ (next ∷ entries)) = last_header (next ∷ entries)

-- The writer takes the last chunk, and no other one, for the last.
unfoldable pub IsInOrder : ℕ → List Taken → Type 0
IsInOrder next_write_index [] = ⊥
IsInOrder next_write_index (taken ∷ []) = is_final_chunk taken next_write_index ≡ true
IsInOrder next_write_index (taken ∷ (next ∷ rest)) =
    (is_final_chunk taken next_write_index ≡ false) × IsInOrder (next_write_index + 1) (next ∷ rest)

-- A chunk of the CPU encoder, with the layout that the parser finds.
pub record IsCpuChunk (taken : Taken) : Type 0 where
  pub taken_chunk : IsTaken taken
  pub unprepared : taken.ready.prepared_non_final_end_bit ≡ none
  pub parsed : parse_deflate_stream_layout taken.ready.chunk.compressed ≡ ok taken.ready.layout

-- One chunk of the stream.
module _ (stream bits : List ℕ) (next : ℕ) (taken : Taken) (short' : IsShort stream)
    (first : next ≡ 0 → length bits % 8 ≡ 0) (chunk : IsCpuChunk taken)
    (begins : Begins stream (behind bits next taken)) where
  abbrev final : Bool
  final = is_final_chunk taken next

  abbrev start : ℕ
  start = length bits + length (front bits next)

  body_of_cpu :
      body taken.ready final taken.ready.prepared_non_final_end_bit
      ≡ overridden taken.ready.chunk.compressed taken.ready.layout (if final then 1 else 0)
  unfolding body
  body_of_cpu = rw chunk.unprepared

  parts :
      HasBits stream (length bits) (front bits next)
      × HasBits stream start
          (overridden taken.ready.chunk.compressed taken.ready.layout (if final then 1 else 0))
  parts = rw body_of_cpu at (
      Begins-parts stream bits (front bits next)
        (body taken.ready final taken.ready.prepared_non_final_end_bit) begins)

  length-behind : length (behind bits next taken) ≡ start + taken.ready.layout.end_bit
  length-behind =
      let flag : ℕ = if final then 1 else 0 in
      omega (
        arith,
        length-append bits
            (front bits next ++ body taken.ready final taken.ready.prepared_non_final_end_bit),
        length-append (front bits next)
            (body taken.ready final taken.ready.prepared_non_final_end_bit),
        ap (λ (l : List ℕ). length l) body_of_cpu,
        length-overridden taken.ready.chunk.compressed taken.ready.layout flag,
      )

  chunk-IsShort : IsShort taken.ready.chunk.compressed
  chunk-IsShort = omega (arith, chunk.taken_chunk.1)

  walked_over :
      final ≡ false
      → (m : ℕ) → length (behind bits next taken) < length bits + m
      → (m' : ℕ) × (length bits + m ≤ length (behind bits next taken) + m')
        × (parse_blocks m stream (length bits)
            ≡ parse_blocks m' stream (length (behind bits next taken)))
  walked_over more m enough =
      let compressed = taken.ready.chunk.compressed in
      let flag = if final then 1 else 0 in
      let (aligned, c, few, over) = front_round stream bits next short' first parts.0 in
      let (k, few', walk) =
        chunk_walked compressed stream taken.ready.layout flag start chunk-IsShort short'
          chunk.parsed aligned parts.1 (ground (arith, more)) in
      (
        m - c - k,
        omega (arith, length-behind),
        rw length-behind (rounds stream m c k _ _ _ (omega (arith, length-behind)) over walk),
      )

  found_in :
      final ≡ true
      → (m : ℕ) → length (behind bits next taken) < length bits + m
      → parse_blocks m stream (length bits) ≡ ok (shifted start taken.ready.layout)
  found_in last m enough =
      let compressed = taken.ready.chunk.compressed in
      let flag = if final then 1 else 0 in
      let (aligned, c, few, over) = front_round stream bits next short' first parts.0 in
      let (k, few', ended) =
        chunk_ended compressed stream taken.ready.layout flag start chunk-IsShort short'
          chunk.parsed aligned parts.1 (ground (arith, last)) in
      rounds_ended stream m c k _ _ _ (omega (arith, length-behind)) over ended

-- The parser goes through the chunks from their begin on.
parse_blocks-stream :
    (taken : List Taken) (next : ℕ) (stream bits : List ℕ) (m : ℕ)
    → IsShort stream
    → (next ≡ 0 → length bits % 8 ≡ 0)
    → All IsCpuChunk taken
    → IsInOrder next taken
    → Begins stream (stream_bits bits next taken)
    → 8 * length stream < length bits + m
    → parse_blocks m stream (length bits)
      ≡ ok (record {
        final_header_bit = last_header (stream_entries bits next taken);
        end_bit = length (stream_bits bits next taken);
      })
unfolding stream_bits stream_entries IsInOrder last_header
parse_blocks-stream [] next stream bits m short' first chunks order begins enough = absurd order
parse_blocks-stream (taken ∷ []) next stream bits m short' first (chunk, _) order begins enough =
    let found =
      found_in stream bits next taken short' first chunk begins order m (omega (arith, begins.0)) in
    let layout = taken.ready.layout in
    let start = length bits + length (front bits next) in
    let header : layout.final_header_bit + start
        ≡ length bits + (length (front bits next) + layout.final_header_bit) =
      omega arith in
    let end : layout.end_bit + start ≡ length (behind bits next taken) =
      omega (arith, length-behind stream bits next taken short' first chunk begins) in
    found ∙ rw (header, end)
parse_blocks-stream (taken ∷ (taken' ∷ rest)) next stream bits m short' first (chunk, chunks)
      (more, order) begins enough =
    let bits' = behind bits next taken in
    let grows = stream_grows (taken' ∷ rest) (next + 1) bits' in
    let begins' : Begins stream bits' = (
      omega (arith, grows, begins.0),
      λ i h. begins.1 i (omega (arith, grows)) ∙ stream_keeps (taken' ∷ rest) (next + 1) bits' i h,
    ) in
    let (m', few, walk) =
      walked_over stream bits next taken short' first chunk begins' more m
        (omega (arith, begins'.0)) in
    walk
    ∙ parse_blocks-stream (taken' ∷ rest) (next + 1) stream bits' m' short'
        (λ z. absurd (omega arith)) chunks order begins (omega arith)

taken_chunks : (taken : List Taken) → All IsCpuChunk taken → All IsTaken taken
taken_chunks [] chunks = tt
taken_chunks (taken ∷ rest) (chunk, chunks) = (chunk.taken_chunk, taken_chunks rest chunks)

-- Chunks of the CPU encoder that are taken in order, the last one and no other one for the last, are
-- written as one Deflate stream: the parser goes through the bytes of the finished writer without a
-- failure, to the last block of the last chunk, whose header is where the last entry of the index
-- says, and to the end, which is after all bits that the writer has counted. There are fewer than
-- 2 ^ 32 chunks, of fewer than 2 ^ 32 - 42 bits each.
pub write_chunks-parsed :
    (taken : List Taken)
    → All IsCpuChunk taken
    → IsInOrder 0 taken
    → length taken < 2 ^ 32
    → Returns (write_chunks taken 0 (new_writer []) []) (λ (w, entries).
      parse_deflate_stream_layout (finish w).inner
      ≡ ok (record { final_header_bit = last_header entries; end_bit = w.total_bits }))
write_chunks-parsed taken chunks order few =
    let bits = stream_bits [] 0 taken in
    let valid = taken_chunks taken chunks in
    let length_bits = stream_length taken 0 [] valid in
    Returns_weaker (Written [] 0 taken []) _ _
      (write_chunks-Returns taken 0 (new_writer []) [] [] new_writer-Writes valid (omega arith))
      (λ (w, entries) (r, e).
        let stream = (finish w).inner in
        let held = finish-Represents w bits r in
        let header = last_header (stream_entries [] 0 taken) in
        let total : length bits ≡ w.total_bits = omega (arith, r.total, length_bits) in
        let short' : IsShort stream = omega (arith, held.size, length_bits) in
        let blocks =
          parse_blocks-stream taken 0 stream [] usize_bound short' (λ z. refl) chunks order
            (omega (arith, held.size), λ i h. held.same i) (omega (arith, short')) in
        let found : IsLayout stream 0
            (record { final_header_bit = header; end_bit = length bits }) =
          rw blocks at (
            parse_blocks-Answers usize_bound stream 0 short' (omega arith)
              (omega (arith, short'))) in
        let parsed = parse_of_blocks stream _ (omega (arith, found)) blocks in
        rw e
          (parsed ∙ ap (λ (n : ℕ). ok (record { final_header_bit = header; end_bit = n })) total))
