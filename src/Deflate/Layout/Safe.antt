-- ===== src/Deflate/Layout/Safe.antt =====
-- `parse_deflate_stream_layout` comes to its end on any bytes and reads nothing out of range.
use cozip.Base.{
  ℕ, zero, suc, ◌+◌, ◌-◌, ◌*◌, ◌%◌, ◌^◌, ◌≤◌, ◌<◌, ◌≡◌, List, [], ◌∷◌, false, length, replicate,
  take, drop, ◌==◌, leb, ltb, not, ◌&&◌, bit_xor, Bool-cases, inl, inr, All, arith,
}
use cozip.Base.Results.{err, ok_or, fail_if, checked_add, usize_bound}
use cozip.Deflate.Error.{
  Answers, Answers->>=, Answers-bind_eq, Answers-weaker, invalid_frame, data_too_large,
}
use cozip.Deflate.BitCursor.{pure, read_bit, align_to_byte, index, saturating_mul}
use cozip.Deflate.BitCursor.Local.{
  IsShort, local_rules, Local-read_bit, Local-align_to_byte, Forward, Forward-bind,
  Forward-read_bit,
}
use cozip.Deflate.BitCursor.Safe.{
  Safe, Any, then_lift, then_read, IsBit, Safe-bind, Safe-lift, Safe-if, Safe-pure, Safe-read_bit,
  Safe-align_to_byte, Safe-skip_bits, Answers-bind_at, Answers-if_at,
}
use cozip.Deflate.HuffmanDecoder.{HuffmanDecoder, build_huffman_decoder}
use cozip.Deflate.HuffmanDecoder.Built.{IsDecoder, build_huffman_decoder-Answers}
use cozip.Deflate.HuffmanSymbol.{decode_huffman_symbol}
use cozip.Deflate.HuffmanSymbol.Local.{Local-decode_huffman_symbol, Forward-decode_huffman_symbol}
use cozip.Deflate.HuffmanSymbol.Safe.{Safe-decode_huffman_symbol, ok_or-Answers, fail_if-Answers}
use cozip.Deflate.Layout.{
  read_codelen_lengths, read_lengths, read_dynamic_huffman_trees, skip_extra, skip_match,
  payload_loop, parse_huffman_block_payload, skip_stored_block, read_block_body, read_block,
  fixed_huffman_trees, parse_blocks, parse_deflate_stream_layout, DeflateStreamLayout,
  length_extra_bits, dist_extra_bits, codelen_order,
}
use cozip.Deflate.Layout.Lengths.{Safe-read_codelen_lengths, Safe-read_lengths}
use cozip.Deflate.Layout.Local.{
  Local-read_codelen_lengths, Local-read_lengths, Local-skip_extra, Local-skip_match,
  Local-read_dynamic_huffman_trees, Local-read_block_body, Local-read_block,
}

abbrev BothDecoders : HuffmanDecoder × HuffmanDecoder → Type 0
BothDecoders trees = IsDecoder trees.0 × IsDecoder trees.1

fixed_huffman_trees-Answers : Answers BothDecoders fixed_huffman_trees
unfolding fixed_huffman_trees
fixed_huffman_trees-Answers =
    Answers->>= IsDecoder BothDecoders (build_huffman_decoder _) _ (build_huffman_decoder-Answers _)
      (λ litlen hl.
        Answers->>= IsDecoder BothDecoders (build_huffman_decoder (replicate 32 5)) _
          (build_huffman_decoder-Answers (replicate 32 5)) (λ dist hd. (hl, hd)))

Safe-read_dynamic_huffman_trees : Safe BothDecoders read_dynamic_huffman_trees
unfolding read_dynamic_huffman_trees
Safe-read_dynamic_huffman_trees =
    let Q = BothDecoders in
    then_read Q 5 _ (omega arith) (λ hlit_bits h₁. then_read Q 5 _ (omega arith) (λ hdist_bits h₂.
      then_read Q 4 _ (omega arith) (λ hclen_bits _.
        let order = take (hclen_bits + 4) codelen_order in
        Safe-bind Any Q (read_codelen_lengths order (replicate 19 0)) _
          (Local-read_codelen_lengths order (replicate 19 0))
          (Safe-read_codelen_lengths order (replicate 19 0))
          (λ codelen_lengths _.
            then_lift IsDecoder Q (build_huffman_decoder codelen_lengths) _
              (build_huffman_decoder-Answers codelen_lengths)
              (λ codelen_decoder built.
                let sum = ok_or (checked_add (hlit_bits + 257) (hdist_bits + 1)) data_too_large in
                then_lift Any Q sum _ (ok_or-Answers _ data_too_large tt) (λ total _.
                  Safe-bind Any Q (read_lengths (total + 1) codelen_decoder total []) _
                    (Local-read_lengths (total + 1) codelen_decoder total [])
                    (Safe-read_lengths (total + 1) codelen_decoder total [] built (omega arith)
                      (omega arith))
                    (λ lengths _.
                      then_lift IsDecoder Q (build_huffman_decoder (take (hlit_bits + 257) lengths))
                        _ (build_huffman_decoder-Answers (take (hlit_bits + 257) lengths))
                        (λ litlen hl.
                          then_lift IsDecoder Q
                            (build_huffman_decoder (drop (hlit_bits + 257) lengths)) _
                            (build_huffman_decoder-Answers (drop (hlit_bits + 257) lengths))
                            (λ dist hd. Safe-pure Q (litlen, dist) (hl, hd))))))))))

index_All-Answers :
    (P : ℕ → Type 0) (xs : List ℕ) (i : ℕ) → All P xs → i < length xs → Answers P (index xs i)
index_All-Answers P [] i all h = absurd (omega arith)
index_All-Answers P (x ∷ xs) zero all h = all.0
index_All-Answers P (x ∷ xs) (suc i) all h = index_All-Answers P xs i all.1 (omega arith)

Safe-skip_extra : (bits : ℕ) → bits ≤ 32 → Safe Any (skip_extra bits)
unfolding skip_extra
Safe-skip_extra bits h =
    Safe-if Any (ltb 0 bits) _ _ (λ _. then_read Any bits _ h (λ _ _. Safe-pure Any tt tt))
      (λ _. Safe-pure Any tt tt)

Safe-skip_match :
    (sym : ℕ) (dist_decoder : HuffmanDecoder)
    → IsDecoder dist_decoder
    → Safe Any (skip_match sym dist_decoder)
unfolding skip_match
Safe-skip_match sym dist_decoder built =
    let test = not (leb 257 sym && leb sym 285) in
    let IsSmall = λ (bits : ℕ). bits ≤ 32 in
    then_lift (λ _. test ≡ false) Any (fail_if test (invalid_frame "invalid literal/length symbol"))
      _ (fail_if-Answers test (invalid_frame "invalid literal/length symbol") tt)
      (λ _ range.
        then_lift IsSmall Any (index length_extra_bits (sym - 257)) _
          (index_All-Answers IsSmall length_extra_bits (sym - 257) (omega arith)
            (ground (arith, range)))
          (λ extra_len few.
            Safe-bind Any Any (skip_extra extra_len) _ (Local-skip_extra extra_len)
              (Safe-skip_extra extra_len few)
              (λ _ _.
                Safe-bind Any Any (decode_huffman_symbol dist_decoder) _
                  (Local-decode_huffman_symbol dist_decoder)
                  (Safe-decode_huffman_symbol dist_decoder built)
                  (λ dist_sym _.
                    let far = leb 30 dist_sym in
                    then_lift (λ _. far ≡ false) Any
                      (fail_if far (invalid_frame "invalid distance symbol")) _
                      (fail_if-Answers far (invalid_frame "invalid distance symbol") tt)
                      (λ _ near.
                        then_lift IsSmall Any (index dist_extra_bits dist_sym) _
                          (index_All-Answers IsSmall dist_extra_bits dist_sym (omega arith)
                            (ground (arith, near)))
                          (λ extra_dist few'. Safe-skip_extra extra_dist few'))))))

-- Every round moves the cursor, so as many rounds as there are bits left are enough.
payload_loop-Answers :
    (n : ℕ) (litlen dist : HuffmanDecoder) (bytes : List ℕ) (pos : ℕ)
    → IsDecoder litlen
    → IsDecoder dist
    → IsShort bytes
    → pos ≤ 8 * length bytes
    → 8 * length bytes < pos + n
    → Answers (λ r. Any r.0) (payload_loop n litlen dist bytes pos)
unfolding payload_loop
payload_loop-Answers zero litlen dist bytes pos hl hd short h enough = absurd (omega arith)
payload_loop-Answers (suc n) litlen dist bytes pos hl hd short h enough =
    Answers-bind_at Any Any (decode_huffman_symbol litlen) _ bytes pos
      ((Safe-decode_huffman_symbol litlen hl).safe bytes pos short h)
      (λ sym mid e _.
        let on = (Forward-decode_huffman_symbol litlen).moves bytes pos sym mid short h e in
        let inside =
          ((Local-decode_huffman_symbol litlen).moves bytes pos sym mid short h e).inside in
        let next = payload_loop-Answers n litlen dist bytes mid hl hd short inside (omega arith) in
        let after =
          Answers-bind_at Any Any (skip_match sym dist) (λ _. payload_loop n litlen dist) bytes mid
            ((Safe-skip_match sym dist hd).safe bytes mid short inside)
            (λ u mid' e' _.
              let moved = (Local-skip_match sym dist).moves bytes mid u mid' short inside e' in
              payload_loop-Answers n litlen dist bytes mid' hl hd short moved.inside
                (omega (arith, moved.forward))) in
        Answers-if_at Any (ltb sym 256) (payload_loop n litlen dist) _ bytes mid next (
          Answers-if_at Any (sym == 256) (pure tt) _ bytes mid
            ((Safe-pure Any tt tt).safe bytes mid short inside) after))

Safe-parse_huffman_block_payload :
    (litlen dist : HuffmanDecoder)
    → IsDecoder litlen
    → IsDecoder dist
    → Safe Any (parse_huffman_block_payload litlen dist)
unfolding parse_huffman_block_payload
Safe-parse_huffman_block_payload litlen dist hl hd = record {
  safe = λ bytes pos short h.
      payload_loop-Answers usize_bound litlen dist bytes pos hl hd short h (omega arith);
}

Safe-skip_stored_block : Safe Any skip_stored_block
unfolding skip_stored_block
Safe-skip_stored_block =
    Safe-bind Any Any align_to_byte _ Local-align_to_byte Safe-align_to_byte (λ _ _.
      then_read Any 16 _ (omega arith) (λ len _. then_read Any 16 _ (omega arith) (λ nlen _.
        let test = not (bit_xor len 0xffff == nlen) in
        then_lift (λ _. test ≡ false) Any
          (fail_if test (invalid_frame "stored block LEN/NLEN mismatch")) _
          (fail_if-Answers test (invalid_frame "stored block LEN/NLEN mismatch") tt)
          (λ _ _. Safe-skip_bits (saturating_mul len 8)))))

Safe-read_block_body : Safe Any read_block_body
unfolding read_block_body
Safe-read_block_body = then_read Any 2 _ (omega arith) (λ bits _.
    Safe-if Any (bits % 2 ^ 8 == 0) _ _ (λ _. Safe-skip_stored_block)
      (λ _.
        Safe-if Any (bits % 2 ^ 8 == 1) _ _
          (λ _.
            then_lift BothDecoders Any fixed_huffman_trees _ fixed_huffman_trees-Answers
              (λ trees built. Safe-parse_huffman_block_payload trees.0 trees.1 built.0 built.1))
          (λ _.
            Safe-if Any (bits % 2 ^ 8 == 2) _ _
              (λ _.
                Safe-bind BothDecoders Any read_dynamic_huffman_trees _
                  Local-read_dynamic_huffman_trees Safe-read_dynamic_huffman_trees
                  (λ trees built. Safe-parse_huffman_block_payload trees.0 trees.1 built.0 built.1))
              (λ _. Safe-lift Any (err (invalid_frame "invalid block type")) tt))))

Safe-read_block : Safe Any read_block
unfolding read_block
Safe-read_block = Safe-bind IsBit Any read_bit _ Local-read_bit Safe-read_bit (λ bfinal _.
    Safe-bind Any Any read_block_body _ Local-read_block_body Safe-read_block_body
      (λ _ _. Safe-pure Any bfinal tt))

pub Forward-read_block : Forward read_block
unfolding read_block
Forward-read_block =
    Forward-bind read_bit _ Forward-read_bit Local-read_bit
      (λ _. search (local_rules, Local-read_block_body))

abbrev pub IsLayout : List ℕ → ℕ → DeflateStreamLayout → Type 0
IsLayout stream from layout =
    (from ≤ layout.final_header_bit)
    × (layout.final_header_bit < layout.end_bit)
    × (layout.end_bit ≤ 8 * length stream)

pub parse_blocks-Answers :
    (n : ℕ) (stream : List ℕ) (pos : ℕ)
    → IsShort stream
    → pos ≤ 8 * length stream
    → 8 * length stream < pos + n
    → Answers (IsLayout stream pos) (parse_blocks n stream pos)
unfolding parse_blocks
parse_blocks-Answers zero stream pos short h enough = absurd (omega arith)
parse_blocks-Answers (suc n) stream pos short h enough =
    Answers-bind_eq (λ _. Unit {0}) (IsLayout stream pos) (read_block stream pos) _
      (Safe-read_block.safe stream pos short h)
      (λ (bfinal, next) e _.
        let on = Forward-read_block.moves stream pos bfinal next short h e in
        let inside = (Local-read_block.moves stream pos bfinal next short h e).inside in
        elim (Bool-cases (bfinal == 1)) [
          | inl final ↦ rw final (omega arith)
          | inr more ↦ rw more (
              Answers-weaker (IsLayout stream next) (IsLayout stream pos)
                (parse_blocks n stream next)
                (parse_blocks-Answers n stream next short inside (omega arith))
                (λ layout found. omega arith))
        ])

-- On any bytes, fewer than 2 ^ 61 of them, `parse_deflate_stream_layout` comes to its end without
-- a read out of range. It returns an error of its own, or the place of the last block's header
-- and, behind it, the place where that block ends, both inside the bytes.
pub parse_deflate_stream_layout-Answers :
    (stream : List ℕ)
    → IsShort stream
    → Answers
        (λ layout.
          (layout.final_header_bit < layout.end_bit) × (layout.end_bit ≤ 8 * length stream))
        (parse_deflate_stream_layout stream)
unfolding parse_deflate_stream_layout
parse_deflate_stream_layout-Answers stream short =
    let Q = λ (layout : DeflateStreamLayout).
      (layout.final_header_bit < layout.end_bit) × (layout.end_bit ≤ 8 * length stream) in
    let test = length stream == 0 in
    Answers->>= (λ _. test ≡ false) Q (fail_if test (invalid_frame "empty deflate chunk")) _
      (fail_if-Answers test (invalid_frame "empty deflate chunk") tt)
      (λ _ _.
        Answers-weaker (IsLayout stream 0) Q (parse_blocks usize_bound stream 0)
          (parse_blocks-Answers usize_bound stream 0 short (omega arith) (omega arith))
          (λ layout found. (found.1, found.2)))
