-- ===== src/Base/Bits.antt =====
-- Bit operations on machine words, read as arithmetic at every width: a mask of low bits is a
-- remainder, and `|` of fields that do not overlap is a sum.
mod Step
pub mod Xor
pub mod Digit
use Step.{bit_or_step, bit_and_step, zero-bit_or}
use Prim.Native.Nat.{ℕ, zero, suc, ◌+◌, ◌-◌, ◌*◌, ◌/◌, ◌%◌, ◌^◌, ◌≤◌, ◌<◌, bit_and, bit_or}
use mathlib.Core.Path.{◌≡◌, refl, ap}
use native.Mathlib.Omega.{arith}
use native.Mathlib.Nat.{pow-suc, one-le-pow, div-div-eq-div-mul, mul_comm}

bit_or-zero_upto : (k a : ℕ) → a ≤ k → bit_or a 0 ≡ a
bit_or-zero_upto k zero h = refl
bit_or-zero_upto zero (suc a) h = absurd (omega arith)
bit_or-zero_upto (suc k) (suc a) h =
    omega (arith, bit_or_step (suc a) 0, bit_or-zero_upto k (suc a / 2) (omega arith))

pub bit_or-zero : (a : ℕ) → bit_or a 0 ≡ a
bit_or-zero a = bit_or-zero_upto a a (omega arith)

bit_and-zero_upto : (k a : ℕ) → a ≤ k → bit_and a 0 ≡ 0
bit_and-zero_upto k zero h = refl
bit_and-zero_upto zero (suc a) h = absurd (omega arith)
bit_and-zero_upto (suc k) (suc a) h =
    omega (arith, bit_and_step (suc a) 0, bit_and-zero_upto k (suc a / 2) (omega arith))

pub bit_and-zero : (a : ℕ) → bit_and a 0 ≡ 0
bit_and-zero a = bit_and-zero_upto a a (omega arith)

pow_double : (q k : ℕ) → q * 2 ^ suc k ≡ 2 * (q * 2 ^ k)
pow_double q k = omega (arith, ap (λ (t : ℕ). q * t) (pow-suc 2 k))

-- `(q << k) | r`, for `r` below `2 ^ k`.
pub bit_or_fields : (k q r : ℕ) → r < 2 ^ k → bit_or (q * 2 ^ k) r ≡ q * 2 ^ k + r
bit_or_fields zero q r h = ground (arith, bit_or-zero q)
bit_or_fields (suc k) q r h =
    let halved = bit_or_fields k q (r / 2) (omega (arith, pow-suc 2 k)) in
    ground (arith, bit_or_step (q * 2 ^ suc k) r, pow_double q k, halved)

-- The same with the operands the other way round, `r | (q << k)`.
pub bit_or_fields_rev : (k q r : ℕ) → r < 2 ^ k → bit_or r (q * 2 ^ k) ≡ r + q * 2 ^ k
bit_or_fields_rev zero q r h =
    let e : r ≡ 0 = omega arith in rw e (omega (arith, zero-bit_or (q * 2 ^ 0)))
bit_or_fields_rev (suc k) q r h =
    let halved = bit_or_fields_rev k q (r / 2) (omega (arith, pow-suc 2 k)) in
    ground (arith, bit_or_step r (q * 2 ^ suc k), pow_double q k, halved)

bit_and_low : (k q r : ℕ) → r < 2 ^ k → bit_and (q * 2 ^ k + r) (2 ^ k - 1) ≡ r
bit_and_low zero q r h = let e : r ≡ 0 = omega arith in ground (arith, bit_and-zero (q + r))
bit_and_low (suc k) q r h =
    let halved = bit_and_low k q (r / 2) (omega (arith, pow-suc 2 k)) in
    ground (
      arith,
      bit_and_step (q * 2 ^ suc k + r) (2 ^ suc k - 1),
      pow_double q k,
      pow-suc 2 k,
      one-le-pow k 2,
      halved,
    )

-- `a & (2 ^ k - 1)`.
pub bit_and_mask : (k a : ℕ) → bit_and a (2 ^ k - 1) ≡ a % 2 ^ k
bit_and_mask k a = ground (arith, one-le-pow k 2, bit_and_low k (a / 2 ^ k) (a % 2 ^ k))

-- `a & (1 << k)`.
pub bit_and_flag : (k a : ℕ) → bit_and a (2 ^ k) ≡ a / 2 ^ k % 2 * 2 ^ k
bit_and_flag zero a = ground (arith, bit_and_mask 1 a)
bit_and_flag (suc k) a = ground (
  arith,
  bit_and_step a (2 ^ suc k),
  pow-suc 2 k,
  bit_and_flag k (a / 2),
  halve,
  pow_double (a / 2 / 2 ^ k % 2) k,
)
  where
    halve : a / 2 / 2 ^ k ≡ a / 2 ^ suc k
    halve = rw (div-div-eq-div-mul, pow-suc, mul_comm (2 ^ k) 2)

-- `a & !3` on 64 bits.
pub bit_and_clear_two : (a : ℕ) → a < 2 ^ 64 → bit_and a (2 ^ 64 - 1 - 3) ≡ a / 4 * 4
bit_and_clear_two a h = omega (
  arith,
  bit_and_step a (2 ^ 64 - 1 - 3),
  bit_and_step (a / 2) (2 ^ 63 - 2),
  bit_and_mask 62 (a / 2 / 2),
)
