-- ===== src/Base/Bits/Digit.antt =====
-- The binary digits of a number, and what the bit operations do to them.
use Prim.Native.Nat.{
  ℕ, zero, suc, ◌+◌, ◌*◌, ◌/◌, ◌%◌, ◌^◌, ◌≤◌, ◌<◌, bit_and, bit_or, bit_xor, min, max,
}
use mathlib.Core.Path.{◌≡◌, refl, sym, ap, ◌∙◌}
use native.Mathlib.Omega.{arith}
use native.Mathlib.Nat.{pow-suc, div-div-eq-div-mul, mul_comm, div-add-mod}
use cozip.Base.Bits.Step.{bit_or_step, bit_and_step, bit_xor_step}
use cozip.Base.Tests.{◌==◌, if◌then◌else◌}

abbrev pub digit : ℕ → ℕ → ℕ
digit x j = x / 2 ^ j % 2

halve : (x j : ℕ) → x / 2 ^ suc j ≡ x / 2 / 2 ^ j
halve x j = rw (div-div-eq-div-mul, pow-suc, mul_comm (2 ^ j) 2)

pub digit-suc : (x j : ℕ) → digit x (suc j) ≡ digit (x / 2) j
digit-suc x j = rw (halve x j)

pub digit-bit_or : (x y j : ℕ) → digit (bit_or x y) j ≡ max (digit x j) (digit y j)
digit-bit_or x y zero = omega (arith, bit_or_step x y)
digit-bit_or x y (suc j) =
    let e : bit_or x y / 2 ≡ bit_or (x / 2) (y / 2) = omega (arith, bit_or_step x y) in
    rw (digit-suc (bit_or x y) j, digit-suc x j, digit-suc y j, e) (digit-bit_or (x / 2) (y / 2) j)

pub digit-bit_and : (x y j : ℕ) → digit (bit_and x y) j ≡ min (digit x j) (digit y j)
digit-bit_and x y zero = omega (arith, bit_and_step x y)
digit-bit_and x y (suc j) =
    let e : bit_and x y / 2 ≡ bit_and (x / 2) (y / 2) = omega (arith, bit_and_step x y) in
    rw (digit-suc (bit_and x y) j, digit-suc x j, digit-suc y j, e)
      (digit-bit_and (x / 2) (y / 2) j)

pub digit-bit_xor : (x y j : ℕ) → digit (bit_xor x y) j ≡ (digit x j + digit y j) % 2
digit-bit_xor x y zero = omega (arith, bit_xor_step x y)
digit-bit_xor x y (suc j) =
    let e : bit_xor x y / 2 ≡ bit_xor (x / 2) (y / 2) = omega (arith, bit_xor_step x y) in
    rw (digit-suc (bit_xor x y) j, digit-suc x j, digit-suc y j, e)
      (digit-bit_xor (x / 2) (y / 2) j)

-- A shift to the right.
pub digit-div : (s x j : ℕ) → digit (x / 2 ^ s) j ≡ digit x (s + j)
digit-div zero x j =
    let e : 0 + j ≡ j = omega arith in let d : x / 2 ^ 0 ≡ x = omega arith in rw (e, d)
digit-div (suc s) x j =
    let e : suc s + j ≡ suc (s + j) = omega arith in
    rw (halve x s, e, digit-suc x (s + j)) (digit-div s (x / 2) j)

double : (x s : ℕ) → x * 2 ^ suc s ≡ x * 2 ^ s * 2
double x s = omega (arith, ap (λ (t : ℕ). x * t) (pow-suc 2 s))

-- A shift to the left: the digits below the shift are 0, and the others stand above it.
pub digit-mul_low : (s x j : ℕ) → j < s → digit (x * 2 ^ s) j ≡ 0
digit-mul_low zero x j h = absurd (omega arith)
digit-mul_low (suc s) x zero h = omega (arith, double x s)
digit-mul_low (suc s) x (suc j) h =
    let e : x * 2 ^ suc s / 2 ≡ x * 2 ^ s = omega (arith, double x s) in
    rw (digit-suc (x * 2 ^ suc s) j, e) (digit-mul_low s x j (omega arith))

pub digit-mul : (s x j : ℕ) → digit (x * 2 ^ s) (s + j) ≡ digit x j
digit-mul zero x j =
    let e : 0 + j ≡ j = omega arith in let d : x * 2 ^ 0 ≡ x = omega arith in rw (e, d)
digit-mul (suc s) x j =
    let e : x * 2 ^ suc s / 2 ≡ x * 2 ^ s = omega (arith, double x s) in
    let e' : suc s + j ≡ suc (s + j) = omega arith in
    rw (e', digit-suc (x * 2 ^ suc s) (s + j), e) (digit-mul s x j)

pub zero-digit : (j : ℕ) → digit 0 j ≡ 0
zero-digit zero = refl
zero-digit (suc j) = digit-suc 0 j ∙ zero-digit j

-- A number below `2 ^ n` has no digit from `n` on.
pub digit-eq-zero : (n x j : ℕ) → x < 2 ^ n → n ≤ j → digit x j ≡ 0
digit-eq-zero zero x j h le = let e : x ≡ 0 = omega arith in rw e (zero-digit j)
digit-eq-zero (suc n) x zero h le = absurd (omega arith)
digit-eq-zero (suc n) x (suc j) h le =
    rw (digit-suc x j) (digit-eq-zero n (x / 2) j (omega (arith, pow-suc 2 n)) (omega arith))

mod_halves : (n x : ℕ) → (x % 2 ^ suc n % 2 ≡ x % 2) × (x % 2 ^ suc n / 2 ≡ x / 2 % 2 ^ n)
mod_halves n x = omega (
  arith,
  div-add-mod x (2 ^ suc n),
  div-add-mod (x / 2) (2 ^ n),
  halve x n,
  mul_comm (2 ^ suc n) (x / 2 ^ suc n),
  mul_comm (2 ^ n) (x / 2 / 2 ^ n),
  double (x / 2 ^ suc n) n,
  ap (λ (t : ℕ). t * 2 ^ n) (halve x n),
)

pub digit-mod : (n x j : ℕ) → j < n → digit (x % 2 ^ n) j ≡ digit x j
digit-mod zero x j h = absurd (omega arith)
digit-mod (suc n) x zero h = omega (arith, mod_halves n x)
digit-mod (suc n) x (suc j) h =
    rw (digit-suc (x % 2 ^ suc n) j, digit-suc x j, (mod_halves n x).1)
      (digit-mod n (x / 2) j (omega arith))

pub digits-eq :
    (n x y : ℕ) → x < 2 ^ n → y < 2 ^ n → ((j : ℕ) → j < n → digit x j ≡ digit y j) → x ≡ y
digits-eq zero x y hx hy same = omega arith
digits-eq (suc n) x y hx hy same =
    let halves =
      digits-eq n (x / 2) (y / 2) (omega (arith, pow-suc 2 n)) (omega (arith, pow-suc 2 n))
        (λ j h. sym (digit-suc x j) ∙ same (suc j) (omega arith) ∙ digit-suc y j) in
    omega (arith, halves, same 0 (omega arith))

-- The digits of a flag.
pub digit-pow : (k j : ℕ) → digit (2 ^ k) j ≡ (if j == k then 1 else 0)
digit-pow zero zero = refl
digit-pow zero (suc j) =
    rw (digit-eq-zero 1 (2 ^ 0) (suc j) (omega arith) (omega arith)) (ground arith)
digit-pow (suc k) zero = ground (arith, pow-suc 2 k)
digit-pow (suc k) (suc j) =
    let e : 2 ^ suc k / 2 ≡ 2 ^ k = omega (arith, pow-suc 2 k) in
    rw (digit-suc (2 ^ suc k) j, e, digit-pow k j) (ground arith)

pub bit_or-lt : (n x y : ℕ) → x < 2 ^ n → y < 2 ^ n → bit_or x y < 2 ^ n
bit_or-lt zero x y hx hy =
    let e : x ≡ 0 = omega arith in let f : y ≡ 0 = omega arith in rw (e, f) (omega arith)
bit_or-lt (suc n) x y hx hy =
    let halves =
      bit_or-lt n (x / 2) (y / 2) (omega (arith, pow-suc 2 n)) (omega (arith, pow-suc 2 n)) in
    omega (arith, halves, bit_or_step x y, pow-suc 2 n)
