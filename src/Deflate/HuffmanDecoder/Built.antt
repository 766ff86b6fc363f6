-- ===== src/Deflate/HuffmanDecoder/Built.antt =====
-- What `build_huffman_decoder` returns: 16 counts, and no code longer than 15 bits.
use cozip.Base.{
  ℕ, ◌+◌, ◌^◌, ◌≤◌, ◌≡◌, List, [], ◌∷◌, min, max, ltb, leb, ◌==◌, if◌then◌else◌, Bool-cases, inl,
  inr, ltb→ge, get_or, set, drop, replicate, length, length-set, length-replicate, All, arith,
}
use cozip.Deflate.BitCursor.{saturating_add}
use cozip.Deflate.Error.{Answers, Answers->>=, Answers-weaker}
use cozip.Deflate.HuffmanDecoder.{
  HuffmanDecoder, deflate_max_huff_bits, count_lengths, sum_counts, offsets_loop, place_symbols,
  build_huffman_decoder,
}

abbrev pub IsDecoder : HuffmanDecoder → Type 0
IsDecoder decoder = (length decoder.counts ≡ 16) × (decoder.max_bits ≤ 15)

abbrev IsLengths : List ℕ → Type 0
IsLengths lengths = All (λ len. len ≤ 15) lengths

count_lengths-Answers :
    (lengths counts : List ℕ)
    → length counts ≡ 16
    → Answers (λ counts'. (length counts' ≡ 16) × IsLengths lengths) (count_lengths lengths counts)
unfolding count_lengths
count_lengths-Answers [] counts h = (h, tt)
count_lengths-Answers (len ∷ lengths) counts h = elim (Bool-cases (ltb deflate_max_huff_bits len)) [
  | inl long ↦ rw long tt
  | inr short ↦
      let counted =
        if ltb 0 len then set counts len (min (get_or counts len 0 + 1) 0xffff) else counts in
      let size : length counted ≡ 16 =
        ground (arith, length-set counts len (min (get_or counts len 0 + 1) 0xffff)) in
      rw short (
        Answers-weaker _ _ (count_lengths lengths counted)
          (count_lengths-Answers lengths counted size)
          (λ counts' (size', rest). (size', (ltb→ge 15 len short, rest))))
]

place_symbols-Answers :
    (lengths : List ℕ) (symbol max_bits : ℕ) (offsets symbols : List ℕ)
    → IsLengths lengths
    → max_bits ≤ 15
    → Answers (λ r. r.1 ≤ 15) (place_symbols lengths symbol max_bits offsets symbols)
unfolding place_symbols
place_symbols-Answers [] symbol max_bits offsets symbols all h = h
place_symbols-Answers (len ∷ lengths) symbol max_bits offsets symbols (small, all) h =
    elim (Bool-cases (len == 0)) [
      | inl none ↦
          rw none (place_symbols-Answers lengths (symbol + 1) max_bits offsets symbols all h)
      | inr some ↦ rw some (elim (Bool-cases (leb (length symbols) (get_or offsets len 0))) [
        | inl full ↦ rw full tt
        | inr free ↦ rw free (elim (Bool-cases (ltb symbol (2 ^ 16))) [
          | inl fits ↦ rw fits (
              place_symbols-Answers lengths (symbol + 1) (max max_bits len)
                (set offsets len (saturating_add (get_or offsets len 0) 1))
                (set symbols (get_or offsets len 0) symbol) all (omega arith))
          | inr over ↦ rw over tt
        ])
      ])
    ]

pub build_huffman_decoder-Answers :
    (lengths : List ℕ) → Answers IsDecoder (build_huffman_decoder lengths)
unfolding build_huffman_decoder
build_huffman_decoder-Answers lengths =
    Answers->>= (λ counts. (length counts ≡ 16) × IsLengths lengths) IsDecoder
      (count_lengths lengths (replicate 16 0)) _
      (count_lengths-Answers lengths (replicate 16 0) (length-replicate {A = ℕ} 16 0))
      (λ counts (size, all).
        let offsets = offsets_loop 14 1 counts (replicate 16 0) in
        let symbols = replicate (sum_counts (drop 1 counts) 0) 0 in
        Answers->>= (λ r. r.1 ≤ 15) IsDecoder (place_symbols lengths 0 0 offsets symbols) _
          (place_symbols-Answers lengths 0 0 offsets symbols all (omega arith))
          (λ r small. (size, small)))
