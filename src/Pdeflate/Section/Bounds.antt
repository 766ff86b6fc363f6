-- ===== src/Pdeflate/Section/Bounds.antt =====
-- `section_start` cuts a chunk into consecutive sections.
use native.Mathlib.Nat.{mul-le-mul_left, mul-le-mul_right, div-le_of_le-mul, div-add-mod, mod-lt}
use native.Mathlib.Decide.{dec_le, dec_lt}
use cozip.Base.{ℕ, zero, suc, ◌*◌, ◌/◌, ◌%◌, ◌≤◌, ◌<◌, ◌≡◌, arith}
use cozip.Base.Bits.{bit_and_clear_two}
use cozip.Base.Results.{usize_bound}
use cozip.Pdeflate.Section.{section_start}

div_mono : (a b k : ℕ) → a ≤ b → 0 < k → a / k ≤ b / k
div_mono a b k h hk = elim (dec_le (a / k) (b / k)) [
  | yes p ↦ p
  | no p ↦
      let step : k * suc (b / k) ≤ k * (a / k) = mul-le-mul_left k (omega arith) in
      absurd (omega (arith, step, div-add-mod a k, div-add-mod b k, mod-lt b hk))
]

cut-le : (i count total : ℕ) → i < count → i * total / count ≤ total
cut-le i count total h = div-le_of_le-mul count (mul-le-mul_right total (omega arith))

-- The cut before section `i`, for `i` below the number of sections.
section_start_inner :
    (i count total : ℕ)
    → total < usize_bound
    → i < count
    → section_start i count total ≡ i * total / count / 4 * 4
unfolding section_start
section_start_inner zero count total ht hi =
    let q : 0 * total / count ≤ 0 = div-le_of_le-mul count (omega arith) in ground arith
section_start_inner (suc i) count total ht hi =
    let small : suc i * total / count < usize_bound =
      omega (arith, cut-le (suc i) count total hi) in
    ground (
      arith,
      bit_and_clear_two (suc i * total / count % usize_bound),
      cut-le (suc i) count total hi,
    )

-- From the number of sections on, the cut is the end of the chunk.
pub section_start_end :
    (i count total : ℕ) → 0 < count → count ≤ i → section_start i count total ≡ total
unfolding section_start
section_start_end i count total hc h = ground arith

pub section_start-le_total :
    (i count total : ℕ) → total < usize_bound → 0 < count → section_start i count total ≤ total
section_start-le_total i count total ht hc = elim (dec_lt i count) [
  | yes h ↦ rw (section_start_inner i count total ht h) (omega (arith, cut-le i count total h))
  | no h ↦ rw (section_start_end i count total hc (omega arith)) (omega arith)
]

pub section_start_mono :
    (i j count total : ℕ)
    → total < usize_bound
    → 0 < count
    → i ≤ j
    → section_start i count total ≤ section_start j count total
section_start_mono i j count total ht hc h = elim (dec_lt j count) [
  | yes hj ↦
      let q = div_mono (i * total) (j * total) count (mul-le-mul_right total h) hc in
      rw
        (
          section_start_inner i count total ht (omega arith),
          section_start_inner j count total ht hj,
        )
        (omega arith)
  | no hj ↦
      rw (section_start_end j count total hc (omega arith))
        (section_start-le_total i count total ht hc)
]

-- For a chunk below 2 ^ 64 bytes and at least one section: the cuts begin at 0 and end at the chunk's
-- end, never go back, and every cut before the last is a multiple of 4.
pub section_start_partition :
    (count total : ℕ)
    → total < usize_bound
    → 0 < count
    → (section_start 0 count total ≡ 0)
      × (section_start count count total ≡ total)
      × ((i j : ℕ) → i ≤ j → section_start i count total ≤ section_start j count total)
      × ((i : ℕ) → i < count → section_start i count total % 4 ≡ 0)
section_start_partition count total ht hc = (
  (unfold section_start in ground arith),
  section_start_end count count total hc (omega arith),
  (λ i j h. section_start_mono i j count total ht hc h),
  (λ i h. rw (section_start_inner i count total ht h) (omega arith)),
)
