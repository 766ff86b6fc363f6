-- ===== src/Deflate/BitCursor/Local.antt =====
-- Readers that depend on nothing but the bits they step over: the same bits, at a place that is
-- moved by whole bytes, are read the same. Such readers only go forward, and stay in the bytes.
use cozip.Base.{
  ℕ, zero, suc, ◌+◌, ◌*◌, ◌%◌, ◌≤◌, ◌<◌, ◌≡◌, refl, sym, ◌∙◌, List, Bool, true, false, ltb, ltb→ge,
  ge→ltb, lt→ltb, Bool-cases, inl, inr, if◌then◌else◌, length, arith,
}
use cozip.Base.Results.{ok, err, usize_bound, >>=-eq-ok}
use cozip.Deflate.Error.{Error, Result, invalid_frame}
use cozip.Deflate.BitCursor.Bit.{bit, bit_at-bit}
use cozip.Deflate.BitCursor.{
  Read, pure, lift, ◌>>=◌, read_bit, read_bits_loop, read_bits, align_to_byte, skip_bits,
  saturating_add, saturating_mul,
}

-- The bits of `bytes` between two places stand in `bytes'` too, `s` bits further.
abbrev pub Agree : List ℕ → List ℕ → ℕ → ℕ → ℕ → Type 0
Agree bytes bytes' s from to = (i : ℕ) → from ≤ i → i < to → bit bytes' (i + s) ≡ bit bytes i

abbrev pub IsShort : List ℕ → Type 0
IsShort bytes = 8 * length bytes < usize_bound

-- What a run from `pos` to `pos'` that returned `a` says.
pub record Moves {ℓ} {A : Type ℓ} (p : Read A) (bytes : List ℕ) (pos : ℕ) (a : A) (pos' : ℕ)
    : Type ℓ where
  pub forward : pos ≤ pos'
  pub inside : pos' ≤ 8 * length bytes
  pub again :
      (bytes' : List ℕ) (s : ℕ)
      → IsShort bytes'
      → s % 8 ≡ 0
      → pos' + s ≤ 8 * length bytes'
      → Agree bytes bytes' s pos pos'
      → p bytes' (pos + s) ≡ ok (a, pos' + s)

pub record Local {ℓ} {A : Type ℓ} (p : Read A) : Type ℓ where
  pub moves :
      (bytes : List ℕ) (pos : ℕ) (a : A) (pos' : ℕ)
      → IsShort bytes
      → pos ≤ 8 * length bytes
      → p bytes pos ≡ ok (a, pos')
      → Moves p bytes pos a pos'

module _ {ℓ} {A : Type ℓ} where
  pub Local-pure : (a : A) → Local (pure a)
  unfolding pure
  Local-pure a = record {
    moves = λ bytes pos b pos' short h e. record {
      forward = ground arith;
      inside = ground arith;
      again = λ bytes' s short' aligned room agree. ground arith;
    };
  }

  pub Local-lift : (r : Result A) → Local (lift r)
  unfolding lift pure
  Local-lift (ok a) = Local-pure a
  Local-lift (err x) = record { moves = λ bytes pos b pos' short h e. absurd (cc e) }

  pub Local-if : (b : Bool) (p q : Read A) → Local p → Local q → Local (if b then p else q)
  Local-if true p q hp hq = hp
  Local-if false p q hp hq = hq

module _ {ℓ κ} {A : Type ℓ} {B : Type κ} where
  pub Local-bind :
      (m : Read A) (f : A → Read B) → Local m → ((a : A) → Local (f a)) → Local (m >>= f)
  unfolding ◌>>=◌
  Local-bind m f hm hf = record {
    moves = λ bytes pos b pos' short h e.
        let ((a, mid), e₂, e₁) = >>=-eq-ok (m bytes pos) (λ r. f r.0 bytes r.1) e in
        let first = hm.moves bytes pos a mid short h e₁ in
        let second = (hf a).moves bytes mid b pos' short first.inside e₂ in
        record {
          forward = omega (arith, first.forward, second.forward);
          inside = second.inside;
          again = λ bytes' s short' aligned room agree.
              rw
                (first.again bytes' s short' aligned (omega (arith, second.forward))
                  (λ i from to. agree i from (omega (arith, second.forward))))
                (second.again bytes' s short' aligned room
                  (λ i from to. agree i (omega (arith, first.forward)) to));
        };
  }

-- Inside the bytes `read_bit` returns the bit under the cursor; at their end it does not return.
pub read_bit-bit :
    (bytes : List ℕ) (pos : ℕ)
    → IsShort bytes
    → pos < 8 * length bytes
    → read_bit bytes pos ≡ ok (bit bytes pos, pos + 1)
unfolding read_bit
read_bit-bit bytes pos short h = rw (
  ge→ltb (saturating_mul (length bytes) 8) (saturating_add pos 1) (omega arith),
  bit_at-bit bytes pos h,
)

pub read_bit_over :
    (bytes : List ℕ) (pos : ℕ)
    → IsShort bytes
    → 8 * length bytes ≤ pos
    → read_bit bytes pos ≡ err (invalid_frame "truncated deflate bitstream in chunk")
unfolding read_bit
read_bit_over bytes pos short h =
    rw (lt→ltb (saturating_mul (length bytes) 8) (saturating_add pos 1) (omega arith))

pub read_bit_inside :
    (bytes : List ℕ) (pos : ℕ) (r : ℕ × ℕ)
    → IsShort bytes
    → read_bit bytes pos ≡ ok r
    → pos < 8 * length bytes
unfolding read_bit
read_bit_inside bytes pos r short e =
    elim (Bool-cases (ltb (saturating_mul (length bytes) 8) (saturating_add pos 1))) [
      | inl out ↦ absurd (cc (rw out at e))
      | inr fits ↦ omega (arith, ltb→ge _ _ fits)
    ]

pub Local-read_bit : Local read_bit
Local-read_bit = record {
  moves = λ bytes pos b pos' short h e.
      let room = read_bit_inside bytes pos (b, pos') short e in
      let same = sym (read_bit-bit bytes pos short room) ∙ e in
      let value : bit bytes pos ≡ b = ground (arith, same) in
      let next : pos + 1 ≡ pos' = ground (arith, same) in
      record {
        forward = omega arith;
        inside = omega arith;
        again = λ bytes' s short' aligned fits agree.
            let there = read_bit-bit bytes' (pos + s) short' (omega arith) in
            rw (there, agree pos (omega arith) (omega arith), value) (ground arith);
      };
}

pub Local-skip_bits : (bits : ℕ) → Local (skip_bits bits)
unfolding skip_bits
Local-skip_bits bits = record {
  moves = λ bytes pos b pos' short h e. record {
    forward = ground arith;
    inside = ground arith;
    again = λ bytes' s short' aligned fits agree. ground arith;
  };
}

pub Local-align_to_byte : Local align_to_byte
unfolding align_to_byte
Local-align_to_byte = record {
  moves = λ bytes pos b pos' short h e. record {
    forward = ground arith;
    inside = ground arith;
    again = λ bytes' s short' aligned fits agree. ground arith;
  };
}

-- Readers that take a bit at least.
pub record Forward {ℓ} {A : Type ℓ} (p : Read A) : Type ℓ where
  pub moves :
      (bytes : List ℕ) (pos : ℕ) (a : A) (pos' : ℕ)
      → IsShort bytes
      → pos ≤ 8 * length bytes
      → p bytes pos ≡ ok (a, pos')
      → pos < pos'

-- An error is no reading.
pub Forward-lift_err {ℓ} : {A : Type ℓ} (x : Error) → Forward (lift {A = A} (err x))
unfolding lift
Forward-lift_err x = record { moves = λ bytes pos b pos' short h e. absurd (cc e) }

pub Forward-read_bit : Forward read_bit
Forward-read_bit = record {
  moves = λ bytes pos b pos' short h e.
      let room = read_bit_inside bytes pos (b, pos') short e in
      let same = sym (read_bit-bit bytes pos short room) ∙ e in ground (arith, same);
}

module _ {ℓ κ} {A : Type ℓ} {B : Type κ} where
  pub Forward-bind :
      (m : Read A) (f : A → Read B)
      → Forward m
      → Local m
      → ((a : A) → Local (f a))
      → Forward (m >>= f)
  unfolding ◌>>=◌
  Forward-bind m f fm hm hf = record {
    moves = λ bytes pos b pos' short h e.
        let ((a, mid), e₂, e₁) = >>=-eq-ok (m bytes pos) (λ r. f r.0 bytes r.1) e in
        let first = fm.moves bytes pos a mid short h e₁ in
        let inside = (hm.moves bytes pos a mid short h e₁).inside in
        let second = (hf a).moves bytes mid b pos' short inside e₂ in
        omega (arith, first, second.forward);
  }

  pub Forward-bind_lift :
      (r : Result A) (f : A → Read B)
      → ((a : A) → r ≡ ok a → Forward (f a))
      → Forward (lift r >>= f)
  unfolding ◌>>=◌
  Forward-bind_lift (ok a) f hf = record { moves = (hf a refl).moves }
  Forward-bind_lift (err x) f hf = record { moves = λ bytes pos b pos' short h e. absurd (cc e) }

pub ruleset local_rules = (
  Local-pure, Local-lift, Local-if, Local-bind, Local-read_bit, Local-skip_bits,
  Local-align_to_byte,
)

Local-read_bits_loop : (n shift value : ℕ) → Local (read_bits_loop n shift value)
unfolding read_bits_loop
Local-read_bits_loop zero shift value = search local_rules
Local-read_bits_loop (suc n) shift value = search (local_rules, Local-read_bits_loop n)

pub Local-read_bits : (bits : ℕ) → Local (read_bits bits)
unfolding read_bits
Local-read_bits bits = Local-read_bits_loop bits 0 0
