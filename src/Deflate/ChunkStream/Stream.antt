-- ===== src/Deflate/ChunkStream/Stream.antt =====
-- The whole sequence of chunks: the bits of the stream, and the entries of the chunk index.
use cozip.Base.{
  ℕ, ◌+◌, ◌*◌, ◌^◌, ◌≤◌, ◌<◌, ◌≡◌, refl, List, [], ◌∷◌, ◌++◌, append_assoc, append-nil, length,
  length-append, arith, sym, ◌∙◌, All,
}
use cozip.Base.Results.{usize_bound}
use cozip.Base.Returns.{Returns, Returns->>=, Returns_weaker}
use cozip.Deflate.BitWriter.{DeflateBitWriter, new_writer, finish}
use cozip.Deflate.BitWriter.Finish.{new_writer-Writes, finish-Represents}
use cozip.Deflate.BitWriter.Writes.{Writes}
use cozip.Deflate.ChunkBits.Represents.{Represents}
use cozip.Deflate.ChunkStream.{Taken, is_final_chunk, write_chunks}
use cozip.Deflate.ChunkStream.Entry.{
  front, body, length-front, length-body, IsReady, entry_of, bits_behind, write_ready_chunk-Returns,
}
use cozip.Deflate.Index.{DeflateChunkIndexEntry}
use cozip.Deflate.Index.Ordered.{IsOrdered}

-- The bits that the next chunk adds.
abbrev pub behind : List ℕ → ℕ → Taken → List ℕ
behind bits next_write_index taken =
    bits_behind bits next_write_index taken.ready (is_final_chunk taken next_write_index)

-- The bits of the stream, behind some bits.
unfoldable pub stream_bits : List ℕ → ℕ → List Taken → List ℕ
stream_bits bits next_write_index [] = bits
stream_bits bits next_write_index (taken ∷ rest) =
    stream_bits (behind bits next_write_index taken) (next_write_index + 1) rest

unfoldable pub stream_entries : List ℕ → ℕ → List Taken → List DeflateChunkIndexEntry
stream_entries bits next_write_index [] = []
stream_entries bits next_write_index (taken ∷ rest) =
    entry_of bits next_write_index taken.ready (is_final_chunk taken next_write_index)
    ∷ stream_entries (behind bits next_write_index taken) (next_write_index + 1) rest

-- A chunk that fits a u32 of bits.
abbrev pub IsTaken : Taken → Type 0
IsTaken taken =
    IsReady taken.ready
    × (8 * length taken.ready.chunk.compressed + 42 < 2 ^ 32)
    × (taken.ready.chunk.raw_len < 2 ^ 32)

-- The bits that one chunk adds, at most.
added :
    (bits : List ℕ) (next : ℕ) (taken : Taken)
    → IsTaken taken
    → length (behind bits next taken) < length bits + 2 ^ 32
added bits next taken (valid, small, _) =
    let final = is_final_chunk taken next in
    let prepared = taken.ready.prepared_non_final_end_bit in
    let connected = front bits next in
    let chunk = body taken.ready final prepared in
    omega (
      arith,
      length-append bits (connected ++ chunk),
      length-append connected chunk,
      length-front bits next,
      length-body taken.ready final valid prepared valid.prepared,
    )

pub stream_length :
    (taken : List Taken) (next : ℕ) (bits : List ℕ)
    → All IsTaken taken
    → length (stream_bits bits next taken) ≤ length bits + 2 ^ 32 * length taken
unfolding stream_bits
stream_length [] next bits valid = omega arith
stream_length (taken ∷ rest) next bits (valid, others) = omega (
  arith,
  added bits next taken valid,
  stream_length rest (next + 1) (behind bits next taken) others,
)

-- What the writer has made of some chunks.
abbrev pub Written :
    List ℕ
    → ℕ
    → List Taken
    → List DeflateChunkIndexEntry
    → DeflateBitWriter × List DeflateChunkIndexEntry
    → Type 0
Written bits next_write_index taken entries r =
    Writes r.0 (stream_bits bits next_write_index taken)
    × (r.1 ≡ entries ++ stream_entries bits next_write_index taken)

pub write_chunks-Returns :
    (taken : List Taken) (next_write_index : ℕ) (w : DeflateBitWriter) (bits : List ℕ)
    (entries : List DeflateChunkIndexEntry)
    → Writes w bits
    → All IsTaken taken
    → length bits + 2 ^ 32 * length taken < usize_bound
    → Returns
        (write_chunks taken next_write_index w entries)
        (Written bits next_write_index taken entries)
unfolding write_chunks stream_bits stream_entries
write_chunks-Returns [] next w bits entries r valid room = (r, sym (append-nil entries))
write_chunks-Returns (taken ∷ rest) next w bits entries r (valid, others) room =
    let final = is_final_chunk taken next in
    let entry = entry_of bits next taken.ready final in
    let bits' = behind bits next taken in
    Returns->>= (λ r. Writes r.0 bits' × (r.1 ≡ entry)) _ _ _
      (write_ready_chunk-Returns w bits next taken.ready final r valid.0 valid.1 (omega arith))
      (λ (w', entry') (r', e).
        let more =
          write_chunks-Returns rest (next + 1) w' bits' (entries ++ (entry ∷ [])) r' others
            (omega (arith, added bits next taken valid)) in
        rw e (
          Returns_weaker (Written bits' (next + 1) rest (entries ++ (entry ∷ []))) _ _ more
            (λ r (h, f). (h, f ∙ append_assoc entries (entry ∷ []) _))))

-- Entries that lie side by side from a place to another one.
unfoldable pub Tiles : ℕ → List DeflateChunkIndexEntry → ℕ → Type 0
Tiles from [] to = from ≡ to
Tiles from (entry ∷ entries) to =
    (entry.comp_bit_off ≡ from) × Tiles (from + entry.comp_bit_len) entries to

stream_entries-Tiles :
    (taken : List Taken) (next : ℕ) (bits : List ℕ)
    → Tiles (length bits) (stream_entries bits next taken) (length (stream_bits bits next taken))
unfolding stream_entries stream_bits Tiles
stream_entries-Tiles [] next bits = refl
stream_entries-Tiles (taken ∷ rest) next bits =
    let e = length-append bits (
      front bits next
      ++ body taken.ready (is_final_chunk taken next) taken.ready.prepared_non_final_end_bit) in
    (refl, rw e at (stream_entries-Tiles rest (next + 1) (behind bits next taken)))

stream_entries-IsOrdered :
    (taken : List Taken) (next prev_off : ℕ) (bits : List ℕ)
    → prev_off ≤ length bits
    → All IsTaken taken
    → IsOrdered prev_off (stream_entries bits next taken)
unfolding stream_entries IsOrdered
stream_entries-IsOrdered [] next prev_off bits h valid = tt
stream_entries-IsOrdered (taken ∷ rest) next prev_off bits h (valid, others) =
    let final = is_final_chunk taken next in
    let prepared = taken.ready.prepared_non_final_end_bit in
    let size = length-append bits (front bits next ++ body taken.ready final prepared) in
    let ready = valid.0 in
    (
      h,
      omega (arith, size, added bits next taken valid),
      omega (arith, length-front bits next, ready.in_order, ready.inside, valid.1),
      valid.2,
      stream_entries-IsOrdered rest (next + 1) (length bits) (behind bits next taken)
          (omega (arith, size)) others,
    )

-- The chunks that the writer takes are written without a failure, and the finished writer has given
-- away the bits of the stream, filled up to a byte: of each chunk its bits, with the final bit that
-- the writer decided on, behind an empty stored block where the chunk would not begin a byte. The
-- entries of the index lie side by side, from the first bit of the stream to its last, are in order,
-- and their lengths and places fit a u32. Each chunk has fewer than 2 ^ 32 - 42 bits, its layout lies
-- inside it, and there are fewer than 2 ^ 32 chunks.
pub write_chunks-Represents :
    (taken : List Taken)
    → All IsTaken taken
    → length taken < 2 ^ 32
    → Returns (write_chunks taken 0 (new_writer []) []) (λ (w, entries).
      Represents (finish w).inner (stream_bits [] 0 taken)
      × (w.total_bits ≡ length (stream_bits [] 0 taken))
      × Tiles 0 entries (length (stream_bits [] 0 taken))
      × IsOrdered 0 entries)
write_chunks-Represents taken valid few =
    let bits = stream_bits [] 0 taken in
    Returns_weaker (Written [] 0 taken []) _ _
      (write_chunks-Returns taken 0 (new_writer []) [] [] new_writer-Writes valid (omega arith))
      (λ (w, entries) (r, e). (
        finish-Represents w bits r,
        omega (arith, r.total, stream_length taken 0 [] valid),
        rw e (stream_entries-Tiles taken 0 []),
        rw e (stream_entries-IsOrdered taken 0 0 [] (omega arith) valid),
      ))
