-- ===== src/Deflate/BitCursor/Safe.antt =====
-- Readers that do not panic: on any bytes they return what a predicate says, or a proper error.
use cozip.Base.{
  ℕ, zero, suc, ◌+◌, ◌*◌, ◌^◌, ◌≤◌, ◌<◌, ◌≡◌, ◌%◌, List, Bool, true, false, ltb, ltb→ge, ltb→lt,
  refl, Bool-cases, inl, inr, if◌then◌else◌, length, bit_or, arith,
}
use native.Mathlib.Nat.{pow-le-pow_right}
use native.Mathlib.Numerals.{towards_suc}
use cozip.Base.Bits.{bit_or_fields_rev}
use cozip.Base.Results.{ok, err, usize_bound}
use cozip.Base.Results
use cozip.Deflate.Error.{Result, Answers}
use cozip.Deflate.BitCursor.Bit.{bit-lt}
use cozip.Deflate.BitCursor.Local.{
  IsShort, Local, Local-read_bit, Local-lift, Local-read_bits, read_bit-bit, read_bit_over,
}
use cozip.Deflate.BitCursor.{
  Read, pure, lift, ◌>>=◌, read_bit, read_bits_loop, read_bits, align_to_byte, skip_bits,
}

pub record Safe {ℓ} {A : Type ℓ} (Q : A → Type 0) (p : Read A) : Type ℓ where
  pub safe :
      (bytes : List ℕ) (pos : ℕ)
      → IsShort bytes
      → pos ≤ 8 * length bytes
      → Answers (λ r. Q r.0) (p bytes pos)

abbrev pub Any {ℓ} : {A : Type ℓ} → A → Type 0
Any a = Unit

module _ {ℓ} {A : Type ℓ} where
  pub Safe-pure : (Q : A → Type 0) (a : A) → Q a → Safe Q (pure a)
  unfolding pure
  Safe-pure Q a h = record { safe = λ bytes pos short room. h }

  Answers-lift :
      (Q : A → Type 0) (r : Result A) (pos : ℕ)
      → Answers Q r
      → Answers (λ (x : A × ℕ). Q x.0) (Results.◌>>=◌ r (λ a. ok (a, pos)))
  Answers-lift Q (ok a) pos h = h
  Answers-lift Q (err e) pos h = h

  pub Safe-lift : (Q : A → Type 0) (r : Result A) → Answers Q r → Safe Q (lift r)
  unfolding lift
  Safe-lift Q r h = record { safe = λ bytes pos short room. Answers-lift Q r pos h }

  pub Safe-if :
      (Q : A → Type 0) (b : Bool) (p q : Read A)
      → (b ≡ true → Safe Q p)
      → (b ≡ false → Safe Q q)
      → Safe Q (if b then p else q)
  Safe-if Q true p q hp hq = hp refl
  Safe-if Q false p q hp hq = hq refl

module _ {ℓ κ} {A : Type ℓ} {B : Type κ} where
  Answers-bind :
      (P : A → Type 0) (Q : B → Type 0) (m : Result (A × ℕ)) (f : A → Read B) (bytes : List ℕ)
      → Answers (λ r. P r.0) m
      → ((a : A) (pos : ℕ) → m ≡ ok (a, pos) → P a → Answers (λ r. Q r.0) (f a bytes pos))
      → Answers (λ r. Q r.0) (Results.◌>>=◌ m (λ r. f r.0 bytes r.1))
  Answers-bind P Q (ok (a, pos)) f bytes h k = k a pos refl h
  Answers-bind P Q (err e) f bytes h k = h

  pub Safe-bind :
      (P : A → Type 0) (Q : B → Type 0) (m : Read A) (f : A → Read B)
      → Local m
      → Safe P m
      → ((a : A) → P a → Safe Q (f a))
      → Safe Q (m >>= f)
  unfolding ◌>>=◌
  Safe-bind P Q m f hl hm hf = record {
    safe = λ bytes pos short room.
        Answers-bind P Q (m bytes pos) f bytes (hm.safe bytes pos short room) (λ a mid e h.
          (hf a h).safe bytes mid short (hl.moves bytes pos a mid short room e).inside);
  }

abbrev pub IsBit : ℕ → Type 0
IsBit b = b < 2

pub Safe-read_bit : Safe IsBit read_bit
Safe-read_bit = record {
  safe = λ bytes pos short room. elim (Bool-cases (ltb pos (8 * length bytes))) [
    | inl more ↦ rw (read_bit-bit bytes pos short (ltb→lt _ _ more)) (bit-lt bytes pos)
    | inr over ↦ rw (read_bit_over bytes pos short (ltb→ge _ _ over)) tt
  ];
}

pub pow_next : (s : ℕ) → 2 ^ (s + 1) ≡ 2 * 2 ^ s
pow_next s = simp towards_suc (omega arith)

-- A bit that is joined to the number in front of it.
pub joined :
    (s value b : ℕ)
    → s + 1 ≤ 32
    → value < 2 ^ s
    → b < 2
    → (bit_or value (b * 2 ^ s % 2 ^ 32) ≡ value + b * 2 ^ s) × (value + b * 2 ^ s < 2 ^ (s + 1))
joined s value zero h small two = ground (arith, bit_or_fields_rev s 0 value, pow_next s)
joined s value (suc zero) h small two =
    let bound : 2 ^ (s + 1) ≤ 2 ^ 32 = pow-le-pow_right (omega arith) h in
    ground (arith, bit_or_fields_rev s 1 value, pow_next s)
joined s value (suc (suc b)) h small two = absurd (omega arith)

Safe-read_bits_loop :
    (n s value : ℕ)
    → s + n ≤ 32
    → value < 2 ^ s
    → Safe (λ r. r < 2 ^ (s + n)) (read_bits_loop n s value)
unfolding read_bits_loop
Safe-read_bits_loop zero s value fits small =
    let e : s + 0 ≡ s = omega arith in Safe-pure (λ r. r < 2 ^ (s + 0)) value (rw e small)
Safe-read_bits_loop (suc n) s value fits small =
    let Q = λ (r : ℕ). r < 2 ^ (s + suc n) in
    let e : s + suc n ≡ s + 1 + n = omega arith in
    Safe-bind IsBit Q read_bit _ Local-read_bit Safe-read_bit (λ b h.
      let (same, fits') = joined s value b (omega arith) small h in
      rw e (
        Safe-read_bits_loop n (s + 1) (bit_or value (b * 2 ^ s % 2 ^ 32)) (omega arith)
          (rw same fits')))

pub Safe-read_bits : (bits : ℕ) → bits ≤ 32 → Safe (λ r. r < 2 ^ bits) (read_bits bits)
unfolding read_bits
Safe-read_bits bits h =
    let e : 0 + bits ≡ bits = omega arith in
    rw e at (Safe-read_bits_loop bits 0 0 (omega arith) (omega arith))

pub Safe-skip_bits : (bits : ℕ) → Safe Any (skip_bits bits)
unfolding skip_bits
Safe-skip_bits bits = record { safe = λ bytes pos short room. ground arith }

pub Safe-align_to_byte : Safe Any align_to_byte
unfolding align_to_byte
Safe-align_to_byte = record { safe = λ bytes pos short room. tt }

-- A block that begins with a lifted step, or with some bits.
pub then_lift {ℓ κ} :
    {A : Type ℓ} {B : Type κ} (P : A → Type 0) (Q : B → Type 0) (r : Result A) (f : A → Read B)
    → Answers P r
    → ((a : A) → P a → Safe Q (f a))
    → Safe Q (lift r >>= f)
then_lift P Q r f h hf = Safe-bind P Q (lift r) f (Local-lift r) (Safe-lift P r h) hf

pub then_read {κ} :
    {B : Type κ} (Q : B → Type 0) (bits : ℕ) (f : ℕ → Read B)
    → bits ≤ 32
    → ((a : ℕ) → a < 2 ^ bits → Safe Q (f a))
    → Safe Q (read_bits bits >>= f)
then_read Q bits f h hf =
    Safe-bind (λ r. r < 2 ^ bits) Q (read_bits bits) f (Local-read_bits bits)
      (Safe-read_bits bits h) hf

-- The rule for one place, where the second part may use where the first one ended.
pub Answers-bind_at {ℓ κ} :
    {A : Type ℓ} {B : Type κ} (P : A → Type 0) (Q : B → Type 0) (m : Read A) (f : A → Read B)
    (bytes : List ℕ) (pos : ℕ)
    → Answers (λ r. P r.0) (m bytes pos)
    → ((a : A) (mid : ℕ) → m bytes pos ≡ ok (a, mid) → P a → Answers (λ r. Q r.0) (f a bytes mid))
    → Answers (λ r. Q r.0) ((m >>= f) bytes pos)
unfolding ◌>>=◌
Answers-bind_at P Q m f bytes pos h k = Answers-bind P Q (m bytes pos) f bytes h k

pub Answers-if_at {ℓ} :
    {A : Type ℓ} (Q : A → Type 0) (b : Bool) (p q : Read A) (bytes : List ℕ) (pos : ℕ)
    → Answers (λ r. Q r.0) (p bytes pos)
    → Answers (λ r. Q r.0) (q bytes pos)
    → Answers (λ r. Q r.0) ((if b then p else q) bytes pos)
Answers-if_at Q true p q bytes pos hp hq = hp
Answers-if_at Q false p q bytes pos hp hq = hq
