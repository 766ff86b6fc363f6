-- ===== src/Base/Results.antt =====
-- Rust's `Result` with `?` as bind, and the checked conversions and additions that return it.
use Prim.Native.Nat.{ℕ, ◌+◌, ◌*◌, ◌^◌, ◌<◌}
use mathlib.Core.Path.{◌≡◌, refl}
use mathlib.Core.Bool.{Bool, true, false}
use mathlib.Core.Logic.{◌⊎◌, inl, inr}
use mathlib.Core.Option.{Option, none, some}
use native.Mathlib.Omega.{arith}
use cozip.Base.Tests.{ltb, lt→ltb, if◌then◌else◌}

pub data Result {ℓ κ} (E : Type ℓ) (A : Type κ) : Type (ℓ ⊔ κ) where
  ok : A → Result E A
  err : E → Result E A

infixl 5 ◌>>=◌ ◌>>◌
abbrev pub ◌>>=◌ {ℓ κ μ} :
    {E : Type ℓ} {A : Type κ} {B : Type μ} → Result E A → (A → Result E B) → Result E B
ok a >>= f = f a
err e >>= f = err e

abbrev pub ◌>>◌ {ℓ κ} : {E : Type ℓ} {B : Type κ} → Result E (Unit {0}) → Result E B → Result E B
m >> k = m >>= λ _. k

-- `if test { return Err(e) }`
abbrev pub fail_if {ℓ} : {E : Type ℓ} → Bool → E → Result E (Unit {0})
fail_if true e = err e
fail_if false e = ok tt

abbrev pub ok_or {ℓ κ} : {E : Type ℓ} {A : Type κ} → Option A → E → Result E A
ok_or none e = err e
ok_or (some a) e = ok a

-- `usize` has 64 bits.
abbrev pub usize_bound : ℕ
usize_bound = 2 ^ 64

abbrev pub checked_add : ℕ → ℕ → Option ℕ
checked_add a b = if ltb (a + b) usize_bound then some (a + b) else none

abbrev pub checked_mul : ℕ → ℕ → Option ℕ
checked_mul a b = if ltb (a * b) usize_bound then some (a * b) else none

-- `1usize.checked_shl(bits)`
abbrev pub checked_shl_one : ℕ → Option ℕ
checked_shl_one bits = if ltb bits 64 then some (2 ^ bits) else none

-- `uN::try_from(n)` for an unsigned type of `bits` bits.
abbrev pub try_from {ℓ} : {E : Type ℓ} → ℕ → ℕ → E → Result E ℕ
try_from bits n e = if ltb n (2 ^ bits) then ok n else err e

module _ {ℓ} {E : Type ℓ} where
  pub try_from-ok : (bits n : ℕ) (e : E) → n < 2 ^ bits → try_from bits n e ≡ ok n
  try_from-ok bits n e h = rw (lt→ltb n (2 ^ bits) h)

  pub checked_add-ok :
      (a b : ℕ) (e : E) → a + b < usize_bound → ok_or (checked_add a b) e ≡ ok (a + b)
  checked_add-ok a b e h = ground arith

module _ {ℓ κ} {E : Type ℓ} {A : Type κ} where
  -- A bind that ends well came through a first step that ended well.
  pub >>=-eq-ok {μ} :
      {B : Type μ} (m : Result E A) (f : A → Result E B) {b : B}
      → (m >>= f) ≡ ok b
      → (a : A) × (f a ≡ ok b) × (m ≡ ok a)
  >>=-eq-ok (err e) f h = cc
  >>=-eq-ok (ok a) f h = (a, h, refl)

  pub Result-cases : (r : Result E A) → ((a : A) × (r ≡ ok a)) ⊎ ((e : E) × (r ≡ err e))
  Result-cases (ok a) = inl (a, refl)
  Result-cases (err e) = inr (e, refl)
