-- ===== src/Deflate/Layout/Lengths.antt =====
-- Reading the code lengths of a dynamic block does not panic, and comes to its end.
use cozip.Base.{
  ℕ, zero, suc, ◌+◌, ◌≤◌, ◌<◌, ◌≡◌, List, [], ◌∷◌, ◌++◌, false, length, length-append,
  length-replicate, replicate, ◌==◌, leb, ltb, ltb→ge, set, arith,
}
use cozip.Base.Results.{err, ok_or, fail_if, try_from}
use cozip.Deflate.Error.{Answers, invalid_frame, data_too_large}
use cozip.Deflate.BitCursor.Safe.{
  Safe, Any, then_lift, then_read, Safe-bind, Safe-lift, Safe-if, Safe-pure,
}
use cozip.Deflate.HuffmanDecoder.{HuffmanDecoder}
use cozip.Deflate.HuffmanDecoder.Built.{IsDecoder}
use cozip.Deflate.HuffmanSymbol.{decode_huffman_symbol}
use cozip.Deflate.HuffmanSymbol.Local.{Local-decode_huffman_symbol}
use cozip.Deflate.HuffmanSymbol.Safe.{Safe-decode_huffman_symbol, ok_or-Answers, fail_if-Answers}
use cozip.Deflate.Layout.{read_codelen_lengths, last, code_length_run, read_lengths}
use cozip.Deflate.Layout.Local.{Local-code_length_run}

try_from-Answers : (bits n : ℕ) → Answers Any (try_from bits n data_too_large)
try_from-Answers bits n = ground arith

pub Safe-read_codelen_lengths :
    (order lengths : List ℕ) → Safe Any (read_codelen_lengths order lengths)
unfolding read_codelen_lengths
Safe-read_codelen_lengths [] lengths = Safe-pure Any lengths tt
Safe-read_codelen_lengths (symbol ∷ order) lengths = then_read Any 3 _ (omega arith) (λ bits _.
    then_lift Any Any (try_from 8 bits data_too_large) _ (try_from-Answers 8 bits)
      (λ len _. Safe-read_codelen_lengths order (set lengths symbol len)))

abbrev Longer : List ℕ → List ℕ → Type 0
Longer lengths lengths' = length lengths < length lengths'

longer : (lengths : List ℕ) (n x : ℕ) → 0 < n → Longer lengths (lengths ++ replicate n x)
longer lengths n x h = omega (arith, length-append lengths (replicate n x), length-replicate n x)

-- A run adds a length at least.
Safe-code_length_run :
    (sym : ℕ) (lengths : List ℕ) → Safe (Longer lengths) (code_length_run sym lengths)
unfolding code_length_run
Safe-code_length_run sym lengths =
    let Q = Longer lengths in
    Safe-if Q (leb sym 15) _ _
      (λ _. Safe-pure Q _ (omega (arith, length-append lengths (sym ∷ []))))
      (λ _.
        Safe-if Q (sym == 16) _ _
          (λ _.
            then_lift Any Q
              (ok_or (last lengths) (invalid_frame "repeat code without previous length")) _
              (ok_or-Answers (last lengths) (invalid_frame "repeat code without previous length")
                tt)
              (λ prev _.
                then_read Q 2 _ (omega arith)
                  (λ extra _. Safe-pure Q _ (longer lengths (extra + 3) prev (omega arith)))))
          (λ _.
            Safe-if Q (sym == 17) _ _
              (λ _.
                then_read Q 3 _ (omega arith)
                  (λ extra _. Safe-pure Q _ (longer lengths (extra + 3) 0 (omega arith))))
              (λ _.
                Safe-if Q (sym == 18) _ _
                  (λ _.
                    then_read Q 7 _ (omega arith)
                      (λ extra _. Safe-pure Q _ (longer lengths (extra + 11) 0 (omega arith))))
                  (λ _.
                    Safe-lift Q (err (invalid_frame "invalid code-length alphabet symbol")) tt))))

pub Safe-read_lengths :
    (n : ℕ) (decoder : HuffmanDecoder) (total : ℕ) (lengths : List ℕ)
    → IsDecoder decoder
    → total < length lengths + n
    → length lengths ≤ total
    → Safe Any (read_lengths n decoder total lengths)
unfolding read_lengths
Safe-read_lengths zero decoder total lengths built enough h = absurd (omega arith)
Safe-read_lengths (suc n) decoder total lengths built enough h =
    Safe-if Any (ltb (length lengths) total) _ _
      (λ _.
        Safe-bind Any Any (decode_huffman_symbol decoder) _ (Local-decode_huffman_symbol decoder)
          (Safe-decode_huffman_symbol decoder built)
          (λ sym _.
            Safe-bind (Longer lengths) Any (code_length_run sym lengths) _
              (Local-code_length_run sym lengths) (Safe-code_length_run sym lengths)
              (λ lengths' more.
                let over = ltb total (length lengths') in
                then_lift (λ _. over ≡ false) Any
                  (fail_if over (invalid_frame "dynamic huffman length run overflow")) _
                  (fail_if-Answers over (invalid_frame "dynamic huffman length run overflow") tt)
                  (λ _ fits.
                    Safe-read_lengths n decoder total lengths' built (omega arith)
                      (ltb→ge total (length lengths') fits)))))
      (λ _. Safe-pure Any lengths tt)
