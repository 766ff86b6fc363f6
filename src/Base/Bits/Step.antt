-- ===== src/Base/Bits/Step.antt =====
-- The law for the lowest digit of `|` and `&`, from the recursion on digits that the native
-- operations stand for.
use Prim.Native.Nat.{
  ℕ, zero, suc, ◌+◌, ◌*◌, ◌/◌, ◌%◌, ◌≤◌, ◌<◌, min, max, bit_and, bit_or, bit_xor, digits, differ,
  bit_and-bitwise, bit_or-bitwise, bit_xor-bitwise,
}
use mathlib.Core.Path.{◌≡◌, refl}
use native.Mathlib.Omega.{arith}

-- One recursion serves both operations: `f` joins two digits and `g` reads a lone second operand.
module _ (g : ℕ → ℕ) (f : ℕ → ℕ → ℕ) where
  -- More fuel than the first operand asks for changes nothing.
  digits_enough : (a b n m : ℕ) → a ≤ n → a ≤ m → digits g f n a b ≡ digits g f m a b
  digits_enough zero b zero zero p q = refl
  digits_enough zero b (suc n) zero p q = refl
  digits_enough zero b zero (suc m) p q = refl
  digits_enough zero b (suc n) (suc m) p q = refl
  digits_enough (suc a) b zero m p q = absurd (omega arith)
  digits_enough (suc a) b (suc n) zero p q = absurd (omega arith)
  digits_enough (suc a) b (suc n) (suc m) p q =
      let halves = digits_enough (suc a / 2) (b / 2) n m (omega arith) (omega arith) in
      omega (arith, halves)

  -- An operation that is this recursion: the law for one digit of a first operand above 0.
  digits_step :
      (op : ℕ → ℕ → ℕ)
      → ((a b : ℕ) → op a b ≡ digits g f a a b)
      → (a b : ℕ) → op (suc a) b ≡ op (suc a / 2) (b / 2) * 2 + f (suc a % 2) (b % 2)
  digits_step op bitwise a b =
      let below = digits_enough (suc a / 2) (b / 2) a (suc a / 2) (omega arith) (omega arith) in
      omega (arith, below, bitwise (suc a / 2) (b / 2), bitwise (suc a) b)

pub zero-bit_or : (b : ℕ) → bit_or 0 b ≡ b
zero-bit_or = bit_or-bitwise 0

pub bit_or_step : (x y : ℕ) → bit_or x y ≡ bit_or (x / 2) (y / 2) * 2 + max (x % 2) (y % 2)
bit_or_step zero y = omega (arith, zero-bit_or y, zero-bit_or (y / 2))
bit_or_step (suc x) y = digits_step (λ digit. digit) max bit_or bit_or-bitwise x y

pub bit_and_step : (x y : ℕ) → bit_and x y ≡ bit_and (x / 2) (y / 2) * 2 + min (x % 2) (y % 2)
bit_and_step zero y = omega (arith, bit_and-bitwise 0 y, bit_and-bitwise 0 (y / 2))
bit_and_step (suc x) y = digits_step (λ digit. zero) min bit_and bit_and-bitwise x y

differ_mod : (x y : ℕ) → x < 2 → y < 2 → differ x y ≡ (x + y) % 2
differ_mod zero y h k = omega arith
differ_mod (suc zero) zero h k = refl
differ_mod (suc zero) (suc zero) h k = refl
differ_mod (suc zero) (suc (suc y)) h k = absurd (omega arith)
differ_mod (suc (suc x)) y h k = absurd (omega arith)

-- The law of `^` for the lowest digit, the digits added modulo 2.
pub bit_xor_step : (x y : ℕ) → bit_xor x y ≡ bit_xor (x / 2) (y / 2) * 2 + (x % 2 + y % 2) % 2
bit_xor_step zero y = omega (arith, bit_xor-bitwise 0 y, bit_xor-bitwise 0 (y / 2))
bit_xor_step (suc x) y =
    let digit = differ_mod (suc x % 2) (y % 2) (omega arith) (omega arith) in
    omega (arith, digits_step (λ digit. digit) differ bit_xor bit_xor-bitwise x y, digit)
