-- ===== src/Pdeflate/Encode/Prefix/Common.antt =====
-- `fast_prefix_len` is the length of the common prefix, and what a common prefix is.
use native.Mathlib.Decide.{dec_lt, dec_le}
use cozip.Base.{
  ℕ, zero, suc, ◌+◌, ◌-◌, ◌≤◌, ◌≡◌, ◌≢◌, refl, ap, List, [], ◌∷◌, bit_xor, leb, ◌==◌, min, length,
  length-drop, take, drop, drop-drop, drop-eq-cons, arith, inl, inr, Bool-cases, false, le→leb,
  lt→ltb, ge→ltb,
}
use cozip.Base.Le.{IsBytes, from_le_bytes}
use cozip.Pdeflate.Encode.Prefix.{byte_loop, word_loop, fast_prefix_len, first_diff_byte_in_u64}
use cozip.Pdeflate.Encode.Prefix.Word.{common, word_differ, word_same}

pub drop-IsBytes : (n : ℕ) (xs : List ℕ) → IsBytes xs → IsBytes (drop n xs)
drop-IsBytes zero xs h = h
drop-IsBytes (suc n) [] h = tt
drop-IsBytes (suc n) (x ∷ xs) h = drop-IsBytes n xs h.1

common_bound :
    (n : ℕ) (xs ys : List ℕ) → common (min (min n (length xs)) (length ys)) xs ys ≡ common n xs ys
unfolding common
common_bound zero xs ys = let e : min (min 0 (length xs)) (length ys) ≡ 0 = omega arith in rw e
common_bound (suc n) [] ys = let e : min (min (suc n) 0) (length ys) ≡ 0 = omega arith in rw e
common_bound (suc n) (x ∷ xs) [] =
    let e : min (min (suc n) (suc (length xs))) 0 ≡ 0 = omega arith in rw e
common_bound (suc n) (x ∷ xs) (y ∷ ys) =
    let e : min (min (suc n) (suc (length xs))) (suc (length ys))
        ≡ suc (min (min n (length xs)) (length ys)) =
      omega arith in
    rw (e, common_bound n xs ys)

pub take-common :
    (n : ℕ) (xs ys : List ℕ)
    → (take (common n xs ys) xs ≡ take (common n xs ys) ys)
      × (common n xs ys ≤ n)
      × (common n xs ys ≤ length xs)
      × (common n xs ys ≤ length ys)
unfolding common
take-common zero xs ys = (refl, omega arith, omega arith, omega arith)
take-common (suc n) [] ys = (refl, omega arith, omega arith, omega arith)
take-common (suc n) (x ∷ xs) [] = (refl, omega arith, omega arith, omega arith)
take-common (suc n) (x ∷ xs) (y ∷ ys) = elim (Bool-cases (x == y)) [
  | inl t ↦
      let rest = take-common n xs ys in
      let e : x ≡ y = ground arith in
      rw t
        (rw (e, rest.0) refl, omega (arith, rest.1), omega (arith, rest.2), omega (arith, rest.3))
  | inr t ↦ rw t (refl, omega arith, omega arith, omega arith)
]

module _ (a b : List ℕ) (limit : ℕ) (in_a : limit ≤ length a) (in_b : limit ≤ length b) where
  byte_loop-common :
      (rounds i : ℕ)
      → i ≤ limit
      → limit ≤ rounds + i
      → byte_loop rounds a b limit i ≡ i + common (limit - i) (drop i a) (drop i b)
  unfolding byte_loop common
  byte_loop-common zero i le enough = let e : limit - i ≡ 0 = omega arith in rw e (omega arith)
  byte_loop-common (suc rounds) i le enough = elim (dec_lt i limit) [
    | yes lt ↦
        let more = byte_loop-common rounds (i + 1) (omega arith) (omega arith) in
        let e : limit - i ≡ suc (limit - (i + 1)) = omega arith in
        rw
          (
            lt→ltb i limit lt,
            e,
            drop-eq-cons i a 0 (omega arith),
            drop-eq-cons i b 0 (omega arith),
            more,
          )
          (ground arith)
    | no ge ↦
        let e : limit - i ≡ 0 = omega arith in rw (ge→ltb i limit (omega arith), e) (omega arith)
  ]

  module _ (bytes_a : IsBytes a) (bytes_b : IsBytes b) where
    word_loop-common :
        (rounds i : ℕ)
        → i ≤ limit
        → limit ≤ rounds + i
        → word_loop rounds a b limit i ≡ i + common (limit - i) (drop i a) (drop i b)
    unfolding word_loop first_diff_byte_in_u64
    word_loop-common zero i le enough = byte_loop-common limit i le (omega arith)
    word_loop-common (suc rounds) i le enough = elim (dec_le (i + 8) limit) [
      | yes full ↦
          let xs = drop i a in
          let ys = drop i b in
          let size = length-drop i a in
          let size' = length-drop i b in
          let hx = drop-IsBytes i a bytes_a in
          let hy = drop-IsBytes i b bytes_b in
          let diff = bit_xor (from_le_bytes (take 8 xs)) (from_le_bytes (take 8 ys)) in
          elim (Bool-cases (diff == 0)) [
            | inl t ↦
                let none : diff ≡ 0 = ground arith in
                let same =
                  word_same 8 xs ys (limit - i) (limit - (i + 8)) hx hy (omega arith) (omega arith)
                    (omega arith) none in
                rw
                  (
                    le→leb (i + 8) limit full,
                    t,
                    word_loop-common rounds (i + 8) full (omega arith),
                    same,
                    drop-drop i 8 (i + 8) a refl,
                    drop-drop i 8 (i + 8) b refl,
                  )
                  (omega arith)
            | inr t ↦
                let some_bit : diff ≢ 0 = ground arith in
                let differ =
                  word_differ 8 0 64 xs ys (limit - i) hx hy (omega arith) (omega arith) refl
                    (omega arith) some_bit in
                rw (le→leb (i + 8) limit full, t) (ap (λ n. i + n) differ)
          ]
      | no short ↦
          let t : leb (i + 8) limit ≡ false = ground arith in
          rw t (byte_loop-common limit i le (omega arith))
    ]

-- For byte strings, `fast_prefix_len` is the number of places from the front, below `max_len` and
-- inside both strings, up to the first that differs: the word-wise comparison and the plain one agree.
pub fast_prefix_len-common :
    (a b : List ℕ) (max_len : ℕ)
    → IsBytes a
    → IsBytes b
    → fast_prefix_len a b max_len ≡ common max_len a b
unfolding fast_prefix_len
fast_prefix_len-common a b max_len bytes_a bytes_b =
    let limit = min (min max_len (length a)) (length b) in
    let e : limit - 0 ≡ limit = omega arith in
    rw
      (
        word_loop-common a b limit (omega arith) (omega arith) bytes_a bytes_b limit 0 (omega arith)
            (omega arith),
        e,
        common_bound max_len a b,
      )
      (omega arith)
