-- ===== src/Deflate/ChunkStream/Walk.antt =====
-- How the parser goes over the bits in front of a chunk and over the chunk, in a stream that has them.
use cozip.Base.{
  ℕ, suc, ◌+◌, ◌-◌, ◌*◌, ◌%◌, ◌≤◌, ◌<◌, ◌≡◌, ap, List, ◌++◌, not, length, length-append, length-set,
  get_or, ltb, ◌==◌, ◌&&◌, if◌then◌else◌, arith, Bool-cases, inl, inr, ◌∙◌,
}
use cozip.Base.Results.{ok, usize_bound}
use cozip.Deflate.BitCursor.Bit.{bit, bits_of, length-bits_of, get_or-bits_of}
use cozip.Deflate.BitCursor.Local.{IsShort, Agree}
use cozip.Deflate.BitWriter.Chunk.{overridden}
use cozip.Deflate.ChunkBits.Connector.{read_block-stored, stored_size}
use cozip.Deflate.ChunkBits.Join.{parse_blocks-found, layout_bounds}
use cozip.Deflate.ChunkBits.Represents.{get_or-append, get_or-set}
use cozip.Deflate.ChunkStream.Entry.{front}
use cozip.Deflate.Layout.{DeflateStreamLayout, parse_blocks, parse_deflate_stream_layout}
use cozip.Deflate.Layout.Walk.{shifted, parse_blocks-walked, parse_blocks-ended}

-- `stream` has the bits of a sequence from a place on.
abbrev pub HasBits : List ℕ → ℕ → List ℕ → Type 0
HasBits stream from bits =
    (from + length bits ≤ 8 * length stream)
    × ((i : ℕ) → i < length bits → bit stream (from + i) ≡ get_or bits i 0)

-- At most one round leads over the bits in front of a chunk, to the begin of a byte.
pub front_round :
    (stream bits : List ℕ) (next : ℕ)
    → IsShort stream
    → (next ≡ 0 → length bits % 8 ≡ 0)
    → HasBits stream (length bits) (front bits next)
    → ((length bits + length (front bits next)) % 8 ≡ 0)
      × (c : ℕ) × (c ≤ length (front bits next))
      × ((m : ℕ)
          → parse_blocks (c + m) stream (length bits)
            ≡ parse_blocks m stream (length bits + length (front bits next)))
unfolding parse_blocks front
front_round stream bits next short first (room, same) =
    elim (Bool-cases (ltb 0 next && not (length bits % 8 == 0))) [
      | inl needed ↦
          let block =
            read_block-stored stream short (length bits) (rw needed at room) (rw needed at same) in
          rw needed (
            omega (arith, stored_size (length bits)),
            1,
            omega (arith, stored_size (length bits)),
            λ m. let e : 1 + m ≡ suc m = omega arith in rw (e, block),
          )
      | inr joined ↦ rw joined (
        ground (arith, joined, first),
        0,
        omega arith,
        λ m.
            let e : 0 + m ≡ m = omega arith in
            let f : length bits + 0 ≡ length bits = omega arith in rw (e, f),
      )
    ]

-- A chunk whose bits, with some final bit, stand in a stream.
module _ (chunk stream : List ℕ) (layout : DeflateStreamLayout) (final s : ℕ)
    (short : IsShort chunk) (short' : IsShort stream)
    (parsed : parse_deflate_stream_layout chunk ≡ ok layout) (aligned : s % 8 ≡ 0)
    (there : HasBits stream s (overridden chunk layout final)) where
  bounds : (layout.final_header_bit < layout.end_bit) × (layout.end_bit ≤ 8 * length chunk)
  bounds = layout_bounds chunk layout short parsed

  size : length (overridden chunk layout final) ≡ layout.end_bit
  size =
      length-set (bits_of chunk 0 layout.end_bit) layout.final_header_bit final
      ∙ length-bits_of chunk 0 layout.end_bit

  bit_there :
      (i : ℕ)
      → i < layout.end_bit
      → bit stream (i + s) ≡ (if i == layout.final_header_bit then final else bit chunk i)
  bit_there i h =
      let bits = bits_of chunk 0 layout.end_bit in
      let from : 0 + i ≡ i = omega arith in
      let back : i + s ≡ s + i = omega arith in
      let old = rw from at (get_or-bits_of chunk 0 layout.end_bit i) in
      rw (back, there.1 i (omega (arith, size)))
        (ground (
          arith,
          get_or-set bits layout.final_header_bit final i 0,
          length-bits_of chunk 0 layout.end_bit,
          bounds,
          old,
        ))

  before : Agree chunk stream s 0 layout.final_header_bit
  before i from to = ground (arith, bit_there i (omega (arith, bounds)))

  behind_header : Agree chunk stream s (layout.final_header_bit + 1) layout.end_bit
  behind_header i from to = ground (arith, bit_there i to)

  mark : bit stream (layout.final_header_bit + s) ≡ final
  mark = ground (arith, bit_there layout.final_header_bit bounds.0)

  inside_stream : layout.end_bit + s ≤ 8 * length stream
  inside_stream = omega (arith, size, there.0)

  pub chunk_walked :
      final ≡ 0
      → (k : ℕ) × (k ≤ layout.end_bit)
        × ((m : ℕ) → parse_blocks (k + m) stream s ≡ parse_blocks m stream (s + layout.end_bit))
  chunk_walked clear =
      let (k, few, walk) =
        parse_blocks-walked chunk stream short short' usize_bound 0 s layout aligned inside_stream
          before behind_header (omega arith) (omega arith) (parse_blocks-found chunk layout parsed)
          (mark ∙ clear) in
      let e : 0 + s ≡ s = omega arith in
      let f : layout.end_bit + s ≡ s + layout.end_bit = omega arith in
      (k, omega arith, λ m. rw (e, f) at (walk m))

  pub chunk_ended :
      final ≡ 1
      → (k : ℕ) × (k ≤ layout.end_bit)
        × ((m : ℕ) → parse_blocks (k + m) stream s ≡ ok (shifted s layout))
  chunk_ended set_bit =
      let (k, few, walk) =
        parse_blocks-ended chunk stream short short' usize_bound 0 s layout aligned inside_stream
          before behind_header (omega arith) (omega arith) (parse_blocks-found chunk layout parsed)
          (mark ∙ set_bit) in
      let e : 0 + s ≡ s = omega arith in (k, omega arith, λ m. rw e at (walk m))

-- `stream` begins with a sequence of bits.
abbrev pub Begins : List ℕ → List ℕ → Type 0
Begins stream bits =
    (length bits ≤ 8 * length stream) × ((i : ℕ) → i < length bits → bit stream i ≡ get_or bits i 0)

pub Begins-parts :
    (stream xs ys zs : List ℕ)
    → Begins stream (xs ++ (ys ++ zs))
    → HasBits stream (length xs) ys × HasBits stream (length xs + length ys) zs
Begins-parts stream xs ys zs (room, same) =
    let l = length-append xs (ys ++ zs) in
    let l' = length-append ys zs in
    (
      (
        omega (arith, l, l'),
        λ i h.
            let e : length xs + i - length xs ≡ i = omega arith in
            same (length xs + i) (omega (arith, l, l'))
            ∙ ground
                (arith, e, get_or-append xs (ys ++ zs) (length xs + i) 0, get_or-append ys zs i 0),
      ),
      (
        omega (arith, l, l'),
        λ i h.
            let j = length xs + length ys + i in
            let e : j - length xs ≡ length ys + i = omega arith in
            let f : length ys + i - length ys ≡ i = omega arith in
            same j (omega (arith, l, l'))
            ∙ (get_or-append xs (ys ++ zs) j 0
                ∙ ground (arith, e, f, get_or-append ys zs (length ys + i) 0)),
      ),
    )

-- Two walks, one behind the other.
pub rounds :
    (stream : List ℕ) (m c k from mid to : ℕ)
    → c + k ≤ m
    → ((n : ℕ) → parse_blocks (c + n) stream from ≡ parse_blocks n stream mid)
    → ((n : ℕ) → parse_blocks (k + n) stream mid ≡ parse_blocks n stream to)
    → parse_blocks m stream from ≡ parse_blocks (m - c - k) stream to
rounds stream m c k from mid to h over walk =
    let e : m ≡ c + (k + (m - c - k)) = omega arith in
    ap (λ n. parse_blocks n stream from) e ∙ over (k + (m - c - k)) ∙ walk (m - c - k)

pub rounds_ended :
    (stream : List ℕ) (m c k from mid : ℕ) (layout : DeflateStreamLayout)
    → c + k ≤ m
    → ((n : ℕ) → parse_blocks (c + n) stream from ≡ parse_blocks n stream mid)
    → ((n : ℕ) → parse_blocks (k + n) stream mid ≡ ok layout)
    → parse_blocks m stream from ≡ ok layout
rounds_ended stream m c k from mid layout h over ended =
    let e : m ≡ c + (k + (m - c - k)) = omega arith in
    ap (λ n. parse_blocks n stream from) e ∙ over (k + (m - c - k)) ∙ ended (m - c - k)
