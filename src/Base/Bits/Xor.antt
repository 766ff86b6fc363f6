-- ===== src/Base/Bits/Xor.antt =====
-- Exclusive or of machine words, as it tells equal words and equal low bits.
use Prim.Native.Nat.{ℕ, zero, suc, ◌+◌, ◌*◌, ◌/◌, ◌%◌, ◌^◌, ◌≤◌, ◌<◌, bit_xor}
use mathlib.Core.Path.{◌≡◌, refl, ap, ◌∙◌}
use mathlib.Core.Logic.{◌≢◌}
use native.Mathlib.Omega.{arith}
use native.Mathlib.Nat.{pow-suc, pow-succ', mul_assoc}
use cozip.Base.Bits.Step.{bit_xor_step}

pub pow_double : (k n : ℕ) → 2 ^ suc k * n ≡ 2 * (2 ^ k * n)
pow_double k n = ap (λ (t : ℕ). t * n) (pow-succ' 2 k) ∙ mul_assoc 2 (2 ^ k) n

pub bit_xor_fields :
    (k q r q' r' : ℕ)
    → r < 2 ^ k
    → r' < 2 ^ k
    → bit_xor (r + 2 ^ k * q) (r' + 2 ^ k * q') ≡ bit_xor r r' + 2 ^ k * bit_xor q q'
bit_xor_fields zero q r q' r' h h' =
    let r₀ : r ≡ 0 = omega arith in
    let r₁ : r' ≡ 0 = omega arith in
    let p : 0 + 2 ^ 0 * q ≡ q = omega arith in
    let p' : 0 + 2 ^ 0 * q' ≡ q' = omega arith in rw (r₀, r₁, p, p') (omega arith)
bit_xor_fields (suc k) q r q' r' h h' =
    let halves =
      bit_xor_fields k q (r / 2) q' (r' / 2) (omega (arith, pow-suc 2 k))
        (omega (arith, pow-suc 2 k)) in
    let double : 2 ^ suc k * q ≡ 2 * (2 ^ k * q) = pow_double k q in
    let double' : 2 ^ suc k * q' ≡ 2 * (2 ^ k * q') = pow_double k q' in
    let out : 2 ^ suc k * bit_xor q q' ≡ 2 * (2 ^ k * bit_xor q q') = pow_double k (bit_xor q q') in
    let half : (r + 2 ^ suc k * q) / 2 ≡ r / 2 + 2 ^ k * q = omega arith in
    let half' : (r' + 2 ^ suc k * q') / 2 ≡ r' / 2 + 2 ^ k * q' = omega arith in
    let parity : ((r + 2 ^ suc k * q) % 2 + (r' + 2 ^ suc k * q') % 2) % 2 ≡ (r % 2 + r' % 2) % 2 =
      omega arith in
    rw (bit_xor_step (r + 2 ^ suc k * q) (r' + 2 ^ suc k * q'), half, half', parity, halves)
      (omega (arith, out, bit_xor_step r r'))

pub bit_xor-lt : (k x y : ℕ) → x < 2 ^ k → y < 2 ^ k → bit_xor x y < 2 ^ k
bit_xor-lt zero x y h h' =
    let e : x ≡ 0 = omega arith in let e' : y ≡ 0 = omega arith in rw (e, e') (omega arith)
bit_xor-lt (suc k) x y h h' = omega (
  arith,
  bit_xor_step x y,
  pow-suc 2 k,
  bit_xor-lt k (x / 2) (y / 2) (omega (arith, pow-suc 2 k)) (omega (arith, pow-suc 2 k)),
)

pub bit_xor-eq : (k x y : ℕ) → x < 2 ^ k → y < 2 ^ k → bit_xor x y ≡ 0 → x ≡ y
bit_xor-eq zero x y h h' e = omega arith
bit_xor-eq (suc k) x y h h' e =
    let step = bit_xor_step x y in
    let halves =
      bit_xor-eq k (x / 2) (y / 2) (omega (arith, pow-suc 2 k)) (omega (arith, pow-suc 2 k))
        (omega arith) in
    omega arith

bit_xor_self_upto : (k x : ℕ) → x ≤ k → bit_xor x x ≡ 0
bit_xor_self_upto k zero h = refl
bit_xor_self_upto zero (suc x) h = absurd (omega arith)
bit_xor_self_upto (suc k) (suc x) h =
    omega (arith, bit_xor_step (suc x) (suc x), bit_xor_self_upto k (suc x / 2) (omega arith))

pub bit_xor_self : (x : ℕ) → bit_xor x x ≡ 0
bit_xor_self x = bit_xor_self_upto x x (omega arith)

pub bit_xor-pos : (x y : ℕ) → 0 < bit_xor x y → x ≢ y
bit_xor-pos x y h e =
    let z : bit_xor y y ≡ 0 = bit_xor_self y in let h' : 0 < bit_xor y y = rw e at h in omega arith
