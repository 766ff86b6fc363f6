-- ===== src/Deflate/Layout/Walk.antt =====
-- How `parse_blocks` goes through a stream that holds the blocks of another one.
use cozip.Base.{
  ℕ, zero, suc, ◌+◌, ◌*◌, ◌%◌, ◌≤◌, ◌<◌, ◌≡◌, sym, ap, ◌∙◌, List, length, ◌==◌, Bool-cases, inl,
  inr, arith,
}
use cozip.Base.Results.{ok, Result-cases, >>=-eq-ok}
use cozip.Deflate.BitCursor.{◌>>=◌, read_bit}
use cozip.Deflate.BitCursor.Bit.{bit}
use cozip.Deflate.BitCursor.Local.{IsShort, Agree, read_bit-bit, read_bit_inside}
use cozip.Deflate.Layout.{read_block, read_block_body, parse_blocks, DeflateStreamLayout}
use cozip.Deflate.Layout.Local.{Local-read_block, Local-read_block_body}
use cozip.Deflate.Layout.Safe.{IsLayout, Forward-read_block, parse_blocks-Answers}

-- The layout of a stream that stands `s` bits further on.
abbrev pub shifted : ℕ → DeflateStreamLayout → DeflateStreamLayout
shifted s layout = record {
  final_header_bit = layout.final_header_bit + s;
  end_bit = layout.end_bit + s;
}

-- More rounds than there are bits left are all the same.
pub parse_blocks_enough :
    (n m : ℕ) (stream : List ℕ) (pos : ℕ)
    → IsShort stream
    → pos ≤ 8 * length stream
    → 8 * length stream < pos + n
    → 8 * length stream < pos + m
    → parse_blocks n stream pos ≡ parse_blocks m stream pos
unfolding parse_blocks
parse_blocks_enough zero m stream pos short h hn hm = absurd (omega arith)
parse_blocks_enough (suc n) zero stream pos short h hn hm = absurd (omega arith)
parse_blocks_enough (suc n) (suc m) stream pos short h hn hm =
    elim (Result-cases (read_block stream pos)) [
      | inl ((bfinal, next), e) ↦
          let on = Forward-read_block.moves stream pos bfinal next short h e in
          let inside = (Local-read_block.moves stream pos bfinal next short h e).inside in
          let same = parse_blocks_enough n m stream next short inside (omega arith) (omega arith) in
          rw (e, same)
      | inr (x, e) ↦ rw e
    ]

module _ (stream stream' : List ℕ) (short : IsShort stream) (short' : IsShort stream') where
  -- A stream whose bits stand in another one, some bytes further, is parsed there the same.
  pub parse_blocks-shifted :
      (n pos s : ℕ) (layout : DeflateStreamLayout)
      → s % 8 ≡ 0
      → 8 * length stream + s ≤ 8 * length stream'
      → Agree stream stream' s 0 (8 * length stream)
      → pos ≤ 8 * length stream
      → parse_blocks n stream pos ≡ ok layout
      → parse_blocks n stream' (pos + s) ≡ ok (shifted s layout)
  unfolding parse_blocks
  parse_blocks-shifted zero pos s layout aligned room agree h e = absurd (cc e)
  parse_blocks-shifted (suc n) pos s layout aligned room agree h e =
      let ((bfinal, next), rest, read) = >>=-eq-ok (read_block stream pos) _ e in
      let moves = Local-read_block.moves stream pos bfinal next short h read in
      let there =
        moves.again stream' s short' aligned (omega (arith, moves.inside))
          (λ i from to. agree i (omega arith) (omega (arith, moves.inside))) in
      rw there (elim (Bool-cases (bfinal == 1)) [
        | inl final ↦
            let same : record { final_header_bit = pos; end_bit = next } ≡ layout =
              cc (rw final at rest) in
            rw final (ap (λ l. ok (shifted s l)) same)
        | inr more ↦
            rw more (
              parse_blocks-shifted n next s layout aligned room agree moves.inside
                (rw more at rest))
      ])

  -- The last block, with another value of the bit that says so.
  last_block :
      (pos b next s final : ℕ)
      → s % 8 ≡ 0
      → next + s ≤ 8 * length stream'
      → Agree stream stream' s (pos + 1) next
      → bit stream' (pos + s) ≡ final
      → pos ≤ 8 * length stream
      → read_block stream pos ≡ ok (b, next)
      → read_block stream' (pos + s) ≡ ok (final, next + s)
  unfolding read_block ◌>>=◌
  last_block pos b next s final aligned room agree mark h e =
      let ((b', mid), rest, read) = >>=-eq-ok (read_bit stream pos) _ e in
      let ((u, next'), fin, body) = >>=-eq-ok (read_block_body stream mid) _ rest in
      let inside = read_bit_inside stream pos (b', mid) short read in
      let same = sym (read_bit-bit stream pos short inside) ∙ read in
      let mid_eq : pos + 1 ≡ mid = ground (arith, same) in
      let next_eq : next' ≡ next = ground (arith, fin) in
      let moves = Local-read_block_body.moves stream mid u next' short (omega arith) body in
      let there =
        moves.again stream' s short' aligned (omega arith)
          (λ i from to. agree i (omega arith) (omega arith)) in
      let head = read_bit-bit stream' (pos + s) short' (omega (arith, moves.forward)) in
      let after : pos + s + 1 ≡ mid + s = omega arith in rw (head, mark, after, there, next_eq)

  -- The way to the last block of a stream that stands in another one: `k` rounds, and the block.
  abbrev ToLast : ℕ → ℕ → DeflateStreamLayout → Type 0
  ToLast pos s layout =
      (k : ℕ) × (k + pos ≤ layout.final_header_bit)
      × ((m : ℕ)
          → parse_blocks (k + m) stream' (pos + s)
            ≡ parse_blocks m stream' (layout.final_header_bit + s))
      × (b : ℕ) × (read_block stream layout.final_header_bit ≡ ok (b, layout.end_bit))

  at_last :
      (pos b next : ℕ) (layout : DeflateStreamLayout)
      → record { final_header_bit = pos; end_bit = next } ≡ layout
      → read_block stream pos ≡ ok (b, next)
      → read_block stream layout.final_header_bit ≡ ok (b, layout.end_bit)
  at_last pos b next layout same read =
      rw (sym (ap (λ l. l.final_header_bit) same), sym (ap (λ l. l.end_bit) same)) read

  to_last :
      (n pos s : ℕ) (layout : DeflateStreamLayout)
      → s % 8 ≡ 0
      → layout.end_bit + s ≤ 8 * length stream'
      → Agree stream stream' s 0 layout.final_header_bit
      → pos ≤ 8 * length stream
      → 8 * length stream < pos + n
      → parse_blocks n stream pos ≡ ok layout
      → ToLast pos s layout
  unfolding parse_blocks
  to_last zero pos s layout aligned room before h enough e = absurd (cc e)
  to_last (suc n) pos s layout aligned room before h enough e =
      let ((bfinal, next), rest, read) = >>=-eq-ok (read_block stream pos) _ e in
      let on = Forward-read_block.moves stream pos bfinal next short h read in
      let moves = Local-read_block.moves stream pos bfinal next short h read in
      elim (Bool-cases (bfinal == 1)) [
        | inl final ↦
            let same : record { final_header_bit = pos; end_bit = next } ≡ layout =
              cc (rw final at rest) in
            let at_header : pos ≡ layout.final_header_bit = ap (λ l. l.final_header_bit) same in
            (
              0,
              omega arith,
              λ m. let z : 0 + m ≡ m = omega arith in rw (z, at_header),
              bfinal,
              at_last pos bfinal next layout same read,
            )
        | inr more ↦
            let rest' : parse_blocks n stream next ≡ ok layout = rw more at rest in
            let found : IsLayout stream next layout =
              rw rest' at (parse_blocks-Answers n stream next short moves.inside (omega arith)) in
            let there =
              moves.again stream' s short' aligned (omega arith)
                (λ i from to. before i (omega arith) (omega arith)) in
            let (k, few, later, b, last) =
              to_last n next s layout aligned room before moves.inside (omega arith) rest' in
            (
              suc k,
              omega arith,
              λ m. let e : suc k + m ≡ suc (k + m) = omega arith in rw (e, there, more) (later m),
              b,
              last,
            )
      ]

  module _ (n pos s : ℕ) (layout : DeflateStreamLayout) (aligned : s % 8 ≡ 0)
      (room : layout.end_bit + s ≤ 8 * length stream')
      (before : Agree stream stream' s 0 layout.final_header_bit)
      (behind : Agree stream stream' s (layout.final_header_bit + 1) layout.end_bit)
      (h : pos ≤ 8 * length stream) (enough : 8 * length stream < pos + n)
      (e : parse_blocks n stream pos ≡ ok layout) where
    last_again :
        (final : ℕ)
        → bit stream' (layout.final_header_bit + s) ≡ final
        → read_block stream' (layout.final_header_bit + s) ≡ ok (final, layout.end_bit + s)
    last_again final mark =
        let (k, few, walk, b, last) = to_last n pos s layout aligned room before h enough e in
        let found : IsLayout stream pos layout =
          rw e at (parse_blocks-Answers n stream pos short h enough) in
        last_block layout.final_header_bit b layout.end_bit s final aligned room behind mark
          (omega arith) last

    -- The blocks of a stream that stands in another one, its last block no longer marked: after `k`
    -- rounds the parser is at their end.
    pub parse_blocks-walked :
        bit stream' (layout.final_header_bit + s) ≡ 0
        → (k : ℕ) × (k + pos ≤ layout.end_bit)
          × ((m : ℕ)
              → parse_blocks (k + m) stream' (pos + s)
                ≡ parse_blocks m stream' (layout.end_bit + s))
    unfolding parse_blocks
    parse_blocks-walked clear =
        let (k, few, walk, b, last) = to_last n pos s layout aligned room before h enough e in
        let found : IsLayout stream pos layout =
          rw e at (parse_blocks-Answers n stream pos short h enough) in
        let block = last_again 0 clear in
        (
          k + 1,
          omega arith,
          λ m. let f : k + 1 + m ≡ k + suc m = omega arith in rw f (walk (suc m) ∙ rw block),
        )

    -- The blocks of a stream that stands in another one, its last block marked: after `k` rounds the
    -- parser has found it.
    pub parse_blocks-ended :
        bit stream' (layout.final_header_bit + s) ≡ 1
        → (k : ℕ) × (k + pos ≤ layout.end_bit)
          × ((m : ℕ) → parse_blocks (k + m) stream' (pos + s) ≡ ok (shifted s layout))
    unfolding parse_blocks
    parse_blocks-ended mark =
        let (k, few, walk, b, last) = to_last n pos s layout aligned room before h enough e in
        let found : IsLayout stream pos layout =
          rw e at (parse_blocks-Answers n stream pos short h enough) in
        let block = last_again 1 mark in
        (
          k + 1,
          omega arith,
          λ m. let f : k + 1 + m ≡ k + suc m = omega arith in rw f (walk (suc m) ∙ rw block),
        )
