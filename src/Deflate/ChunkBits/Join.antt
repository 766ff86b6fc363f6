-- ===== src/Deflate/ChunkBits/Join.antt =====
-- Chunks that are joined in one stream: the parser goes through the first one, over the empty
-- stored block, and through the second one.
use cozip.Base.{
  ℕ, suc, ◌+◌, ◌-◌, ◌*◌, ◌%◌, ◌≤◌, ◌<◌, ◌≡◌, ◌≢◌, sym, ap, ◌∙◌, List, [], ◌++◌, length,
  length-append, get_or, ltb, lt→ltb, ge→ltb, ◌==◌, if◌then◌else◌, Bool-cases, inl, inr, true,
  false, arith,
}
use cozip.Base.Results.{ok, usize_bound}
use cozip.Base.Returns.{Returns, Returns_weaker}
use cozip.Deflate.BitCursor.Bit.{bit, bits_of, length-bits_of, get_or-bits_of}
use cozip.Deflate.BitCursor.Local.{IsShort, Agree}
use cozip.Deflate.ChunkBits.{prepare_chunk_bits_for_non_final_stream}
use cozip.Deflate.ChunkBits.Append.{Holds, stored_block}
use cozip.Deflate.ChunkBits.Connector.{read_block-stored, stored_size}
use cozip.Deflate.ChunkBits.Prepare.{marked, connector, marked_size, prepare_chunk_bits-Holds}
use cozip.Deflate.ChunkBits.Represents.{bit-append, Represents, get_or-append, get_or-set}
use cozip.Deflate.Layout.{DeflateStreamLayout, parse_blocks, parse_deflate_stream_layout}
use cozip.Deflate.Layout.Safe.{parse_deflate_stream_layout-Answers}
use cozip.Deflate.Layout.Walk.{
  shifted, parse_blocks_enough, parse_blocks-shifted, parse_blocks-walked,
}

pub parse_blocks-found :
    (stream : List ℕ) (layout : DeflateStreamLayout)
    → parse_deflate_stream_layout stream ≡ ok layout
    → parse_blocks usize_bound stream 0 ≡ ok layout
unfolding parse_deflate_stream_layout
parse_blocks-found stream layout e = elim (Bool-cases (length stream == 0)) [
  | inl empty ↦ absurd (cc (rw empty at e))
  | inr some ↦ rw some at e
]

pub parse_of_blocks :
    (stream : List ℕ) (layout : DeflateStreamLayout)
    → 0 < length stream
    → parse_blocks usize_bound stream 0 ≡ ok layout
    → parse_deflate_stream_layout stream ≡ ok layout
unfolding parse_deflate_stream_layout
parse_of_blocks stream layout h e =
    let some : (length stream == 0) ≡ false = ground arith in rw some e

pub layout_bounds :
    (stream : List ℕ) (layout : DeflateStreamLayout)
    → IsShort stream
    → parse_deflate_stream_layout stream ≡ ok layout
    → (layout.final_header_bit < layout.end_bit) × (layout.end_bit ≤ 8 * length stream)
layout_bounds stream layout short e = rw e at (parse_deflate_stream_layout-Answers stream short)

length-connector : (a : List ℕ) (layout : DeflateStreamLayout) → length (connector a layout) ≤ 42
unfolding connector
length-connector a layout = ground (arith, stored_size layout.end_bit)

module _ (a b bytes : List ℕ) (la lb : DeflateStreamLayout) (short : IsShort (bytes ++ b))
    (in_order : la.final_header_bit < la.end_bit)
    (held : Represents bytes (marked a la ++ connector a la)) where
  whole_connector : (la.end_bit % 8 == 0) ≡ true → connector a la ≡ []
  unfolding connector
  whole_connector whole = rw whole

  part_connector : (la.end_bit % 8 == 0) ≡ false → connector a la ≡ stored_block la.end_bit
  unfolding connector
  part_connector part = rw part

  connector_size :
      (length (marked a la ++ connector a la) % 8 ≡ 0)
      × (la.end_bit ≤ length (marked a la ++ connector a la))
  unfolding connector
  connector_size = ground (
    arith,
    length-append (marked a la) (connector a la),
    marked_size a la,
    stored_size la.end_bit,
  )

  bytes_size : 8 * length bytes ≡ length (marked a la ++ connector a la)
  bytes_size = omega (arith, held.size, connector_size)

  -- The bits of the first chunk.
  chunk_bit :
      (i : ℕ)
      → i < la.end_bit
      → bit (bytes ++ b) i ≡ (if i == la.final_header_bit then 0 else bit a i)
  unfolding marked
  chunk_bit i h =
      let bits = bits_of a 0 la.end_bit in
      let from : 0 + i ≡ i = omega arith in
      let old = rw from at (get_or-bits_of a 0 la.end_bit i) in
      let room : i < 8 * length bytes = omega (arith, bytes_size, connector_size) in
      rw
        (
          bit-append bytes b i,
          lt→ltb i (8 * length bytes) room,
          held.same i,
          get_or-append (marked a la) (connector a la) i 0,
        )
        (ground (
          arith,
          marked_size a la,
          get_or-set bits la.final_header_bit 0 i 0,
          length-bits_of a 0 la.end_bit,
          old,
        ))

  stored_bit :
      (la.end_bit % 8 == 0) ≡ false
      → (j : ℕ) → la.end_bit + j < 8 * length bytes
      → j < length (stored_block la.end_bit)
      → bit (bytes ++ b) (la.end_bit + j) ≡ get_or (stored_block la.end_bit) j 0
  stored_bit part j inside h =
      let past : ltb (la.end_bit + j) (length (marked a la)) ≡ false =
        ge→ltb _ _ (omega (arith, marked_size a la)) in
      let back : la.end_bit + j - length (marked a la) ≡ j = omega (arith, marked_size a la) in
      rw (
        bit-append bytes b (la.end_bit + j),
        lt→ltb (la.end_bit + j) (8 * length bytes) inside,
        held.same (la.end_bit + j),
        get_or-append (marked a la) (connector a la) (la.end_bit + j) 0,
        past,
        back,
        part_connector part,
      )

  -- At most one round leads from the end of the first chunk to the second one.
  connector_round :
      (c : ℕ) × (c + la.end_bit ≤ 8 * length bytes)
      × ((m : ℕ)
          → parse_blocks (c + m) (bytes ++ b) la.end_bit
            ≡ parse_blocks m (bytes ++ b) (8 * length bytes))
  unfolding parse_blocks
  connector_round = elim (Bool-cases (la.end_bit % 8 == 0)) [
    | inl whole ↦
        let none = ap (λ (l : List ℕ). length l) (whole_connector whole) in
        let at_end : 8 * length bytes ≡ la.end_bit = omega (
          arith,
          bytes_size,
          marked_size a la,
          length-append (marked a la) (connector a la),
          none,
        ) in
        (0, omega arith, λ m. let e : 0 + m ≡ m = omega arith in rw (e, at_end))
    | inr part ↦
        let some = ap (λ (l : List ℕ). length l) (part_connector part) in
        let behind : la.end_bit + length (stored_block la.end_bit) ≡ 8 * length bytes = omega (
          arith,
          bytes_size,
          marked_size a la,
          length-append (marked a la) (connector a la),
          some,
        ) in
        let block =
          read_block-stored (bytes ++ b) short la.end_bit (omega (arith, length-append bytes b))
            (λ j h. stored_bit part j (omega arith) h) in
        (
          1,
          omega (arith, stored_size la.end_bit),
          λ m. let e : 1 + m ≡ suc m = omega arith in rw (e, block, behind),
        )
  ]

  second_bits : Agree b (bytes ++ b) (8 * length bytes) 0 (8 * length b)
  second_bits i from to =
      let back : i + 8 * length bytes - 8 * length bytes ≡ i = omega arith in
      rw (
        bit-append bytes b (i + 8 * length bytes),
        ge→ltb (i + 8 * length bytes) (8 * length bytes) (omega arith),
        back,
      )

  -- The rounds of the two walks, and those that are left for the second chunk.
  rounds_joined :
      IsShort b
      → (k c : ℕ) → k ≤ la.end_bit
      → ((m : ℕ)
          → parse_blocks (k + m) (bytes ++ b) (0 + 0)
            ≡ parse_blocks m (bytes ++ b) (la.end_bit + 0))
      → c + la.end_bit ≤ 8 * length bytes
      → ((m : ℕ)
          → parse_blocks (c + m) (bytes ++ b) la.end_bit
            ≡ parse_blocks m (bytes ++ b) (8 * length bytes))
      → parse_blocks usize_bound b 0 ≡ ok lb
      → parse_blocks usize_bound (bytes ++ b) 0 ≡ ok (shifted (8 * length bytes) lb)
  rounds_joined short_b k c few walk few' round eb =
      let size = length-append bytes b in
      let m = usize_bound - k - c in
      let enough =
        parse_blocks_enough usize_bound m b 0 short_b (omega arith) (omega arith)
          (omega (arith, size)) in
      let moved =
        parse_blocks-shifted b (bytes ++ b) short_b short m 0 (8 * length bytes) lb (omega arith)
          (omega (arith, size)) second_bits (omega arith) (sym enough ∙ eb) in
      let all : usize_bound ≡ k + (c + m) = omega (arith, size) in
      let end : la.end_bit + 0 ≡ la.end_bit = omega arith in
      let there : 0 + 8 * length bytes ≡ 8 * length bytes = omega arith in
      rw all ((rw end at (walk (c + m))) ∙ round m ∙ (rw there at moved))

  joined_blocks :
      IsShort a
      → IsShort b
      → la.end_bit ≤ 8 * length a
      → parse_blocks usize_bound a 0 ≡ ok la
      → parse_blocks usize_bound b 0 ≡ ok lb
      → parse_blocks usize_bound (bytes ++ b) 0 ≡ ok (shifted (8 * length bytes) lb)
  joined_blocks short_a short_b inside ea eb =
      let stream = bytes ++ b in
      let size = length-append bytes b in
      let room : la.end_bit ≤ 8 * length bytes = omega (arith, bytes_size, connector_size) in
      let same : (i : ℕ) → i < la.end_bit → i ≢ la.final_header_bit → bit stream (i + 0) ≡ bit a i =
        λ i h other.
          let z : i + 0 ≡ i = omega arith in rw z (ground (arith, chunk_bit i h, other)) in
      let header : la.final_header_bit + 0 ≡ la.final_header_bit = omega arith in
      let cleared : bit stream (la.final_header_bit + 0) ≡ 0 =
        rw header (ground (arith, chunk_bit la.final_header_bit in_order)) in
      let (k, few, walk) =
        parse_blocks-walked a stream short_a short usize_bound 0 0 la (omega arith)
          (omega (arith, size)) (λ i from to. same i (omega arith) (λ e. omega arith))
          (λ i from to. same i (omega arith) (λ e. omega arith)) (omega arith) (omega arith) ea
          cleared in
      let (c, few', round) = connector_round in
      rounds_joined short_b k c (omega arith) walk few' round eb

-- Two chunks that `parse_deflate_stream_layout` accepts are joined as the hybrid encoder joins them:
-- the first one, whose bits behind its end are 0, is prepared for the middle of a stream, and the
-- second one follows. `prepare_chunk_bits_for_non_final_stream` does not fail and returns whole
-- bytes. The parser goes through the joined stream, and finds the last block and the end of the
-- second chunk, as many bits further on as the prepared chunk has. All together is shorter than
-- 2 ^ 61 bytes.
pub parse_deflate_stream_layout-join :
    (a b : List ℕ) (la lb : DeflateStreamLayout)
    → 8 * (length a + length b + 6) < usize_bound
    → parse_deflate_stream_layout a ≡ ok la
    → parse_deflate_stream_layout b ≡ ok lb
    → ((i : ℕ) → la.end_bit ≤ i → i < 8 * length a → bit a i ≡ 0)
    → Returns (prepare_chunk_bits_for_non_final_stream a la) (λ r.
      (r.1 ≡ 8 * length r.0)
      × (parse_deflate_stream_layout (r.0 ++ b) ≡ ok (shifted (8 * length r.0) lb)))
parse_deflate_stream_layout-join a b la lb short ea eb clean =
    let (in_order, inside) = layout_bounds a la (omega arith) ea in
    let blocks_a = parse_blocks-found a la ea in
    let blocks_b = parse_blocks-found b lb eb in
    Returns_weaker (Holds (marked a la ++ connector a la)) _
      (prepare_chunk_bits_for_non_final_stream a la)
      (prepare_chunk_bits-Holds a la in_order inside clean)
      (λ (bytes, n) (e, held).
        let size = length-append (marked a la) (connector a la) in
        let short' : IsShort (bytes ++ b) = omega (
          arith,
          held.size,
          size,
          marked_size a la,
          length-connector a la,
          length-append bytes b,
        ) in
        let whole = bytes_size a b bytes la lb short' in_order held in
        (
          omega arith,
          parse_of_blocks (bytes ++ b) _
              (omega (arith, whole, size, marked_size a la, length-append bytes b))
              (joined_blocks a b bytes la lb short' in_order held (omega arith) (omega arith) inside
                blocks_a blocks_b),
        ))
