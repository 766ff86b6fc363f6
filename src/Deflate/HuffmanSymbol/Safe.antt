-- ===== src/Deflate/HuffmanSymbol/Safe.antt =====
-- Decoding a symbol does not panic, and takes a bit at least.
use cozip.Base.{
  ℕ, zero, suc, ◌+◌, ◌-◌, ◌*◌, ◌%◌, ◌^◌, ◌≤◌, ◌<◌, ◌≡◌, List, [], ◌∷◌, Bool, true, false, refl,
  length, get_elem?, ◌==◌, leb, ltb, ◌&&◌, bit_or, Option, none, some, arith,
}
use cozip.Base.Results.{ok_or, fail_if}
use cozip.Deflate.Error.{Error, Answers, IsProper, invalid_frame}
use cozip.Deflate.BitCursor.{read_bit, lift, index, saturating_add}
use cozip.Deflate.BitCursor.Local.{Local-read_bit, Local-lift}
use cozip.Deflate.BitCursor.Safe.{Safe, Any, IsBit, Safe-bind, Safe-lift, Safe-if, Safe-read_bit}
use cozip.Deflate.HuffmanDecoder.{HuffmanDecoder}
use cozip.Deflate.HuffmanDecoder.Built.{IsDecoder}
use cozip.Deflate.HuffmanSymbol.{decode_symbol_loop, decode_huffman_symbol}

pub ok_or-Answers {ℓ} :
    {A : Type ℓ} (o : Option A) (e : Error) → IsProper e → Answers Any (ok_or o e)
ok_or-Answers none e h = h
ok_or-Answers (some a) e h = tt

pub index-Answers {ℓ} :
    {A : Type ℓ} (xs : List A) (i : ℕ) → i < length xs → Answers Any (index xs i)
index-Answers [] i h = absurd (omega arith)
index-Answers (x ∷ xs) zero h = tt
index-Answers (x ∷ xs) (suc i) h = index-Answers xs i (omega arith)

Safe-decode_symbol_loop :
    (n : ℕ) (decoder : HuffmanDecoder) (len code first idx : ℕ)
    → length decoder.counts ≡ 16
    → len + n ≤ 16
    → Safe Any (decode_symbol_loop n decoder len code first idx)
unfolding decode_symbol_loop
Safe-decode_symbol_loop zero decoder len code first idx size h = Safe-lift Any _ tt
Safe-decode_symbol_loop (suc n) decoder len code first idx size h =
    Safe-bind IsBit Any read_bit _ Local-read_bit Safe-read_bit (λ b _.
      let code' = bit_or code b in
      Safe-bind Any Any (lift (index decoder.counts len)) _ (Local-lift (index decoder.counts len))
        (Safe-lift Any (index decoder.counts len) (index-Answers decoder.counts len (omega arith)))
        (λ count _.
          Safe-if Any (leb first code' && ltb (code' - first) count) _ _
            (λ _. Safe-lift Any _ (
              ok_or-Answers (get_elem? decoder.symbols (saturating_add idx (code' - first)))
                (invalid_frame "huffman symbol lookup out of range") tt))
            (λ _.
              Safe-decode_symbol_loop n decoder (len + 1) (code' * 2 % 2 ^ 32)
                ((first + count) * 2 % 2 ^ 32) (saturating_add idx count) size (omega arith))))

pub fail_if-Answers :
    (test : Bool) (e : Error) → IsProper e → Answers (λ _. test ≡ false) (fail_if test e)
fail_if-Answers true e h = h
fail_if-Answers false e h = refl

pub Safe-decode_huffman_symbol :
    (decoder : HuffmanDecoder) → IsDecoder decoder → Safe Any (decode_huffman_symbol decoder)
unfolding decode_huffman_symbol
Safe-decode_huffman_symbol decoder (size, short) =
    let empty = fail_if (decoder.max_bits == 0) (invalid_frame "empty huffman table") in
    Safe-bind (λ _. decoder.max_bits == 0 ≡ false) Any (lift empty) _ (Local-lift empty)
      (Safe-lift _ empty
        (fail_if-Answers (decoder.max_bits == 0) (invalid_frame "empty huffman table") tt))
      (λ _ _. Safe-decode_symbol_loop decoder.max_bits decoder 1 0 0 0 size (omega arith))
