-- ===== src/Deflate/BitCursor.antt =====
-- `DeflateBitCursor` of cozip_deflate/src/lib.rs: the bits of a byte slice, lowest bit first. A
-- reader is a function of the bytes and the position, and returns the position behind what it read.
pub mod Bit
pub mod Local
pub mod Safe
pub mod Value
use cozip.Base.{
  ℕ, zero, suc, ◌+◌, ◌-◌, ◌*◌, ◌/◌, ◌%◌, ◌^◌, List, min, bit_and, bit_or, ltb, get_elem?, length,
}
use cozip.Base.Results.{ok, err, ok_or, fail_if, usize_bound}
use cozip.Base.Results
use cozip.Deflate.Error.{Error, Result, invalid_frame, panicked}

abbrev pub Read {ℓ} : Type ℓ → Type ℓ
Read A = List ℕ → ℕ → Result (A × ℕ)

module _ {ℓ} {A : Type ℓ} where
  pub pure : A → Read A
  pure a bytes bit_pos = ok (a, bit_pos)

  pub lift : Result A → Read A
  lift r bytes bit_pos = Results.◌>>=◌ r (λ a. ok (a, bit_pos))

module _ {ℓ κ} {A : Type ℓ} {B : Type κ} where
  infixl 5 ◌>>=◌ ◌>>◌
  unfoldable pub ◌>>=◌ : Read A → (A → Read B) → Read B
  unfolding pure lift
  ◌>>=◌ m f bytes bit_pos = Results.◌>>=◌ (m bytes bit_pos) (λ r. f r.0 bytes r.1)

  abbrev pub ◌>>◌ : Read A → Read B → Read B
  m >> k = m >>= λ _. k

-- `saturating_add` and `saturating_mul` of a usize.
abbrev pub saturating_add : ℕ → ℕ → ℕ
saturating_add a b = min (a + b) (usize_bound - 1)

abbrev pub saturating_mul : ℕ → ℕ → ℕ
saturating_mul a b = min (a * b) (usize_bound - 1)

-- `values[i]`
abbrev pub index {ℓ} : {A : Type ℓ} → List A → ℕ → Result A
index values i = ok_or (get_elem? values i) panicked

unfoldable pub bit_at : List ℕ → ℕ → Result ℕ
bit_at bytes bit_pos =
    Results.◌>>=◌ (index bytes (bit_pos / 8)) (λ byte. ok (bit_and (byte / 2 ^ (bit_pos % 8)) 1))

unfoldable pub total_bits : List ℕ → ℕ
total_bits bytes = saturating_mul (length bytes) 8

unfoldable pub ensure_bits : ℕ → Read (Unit {0})
unfolding total_bits
ensure_bits bits bytes bit_pos =
    Results.◌>>=◌
      (fail_if (ltb (total_bits bytes) (saturating_add bit_pos bits))
        (invalid_frame "truncated deflate bitstream in chunk"))
      (λ u. ok (u, bit_pos))

-- The bit under the cursor, and the step over it.
unfoldable pub take_bit : Read ℕ
unfolding bit_at
take_bit bytes bit_pos = Results.◌>>=◌ (bit_at bytes bit_pos) (λ bit. ok (bit, bit_pos + 1))

unfoldable pub read_bit : Read ℕ
unfolding ensure_bits take_bit ◌>>=◌
read_bit = do ensure_bits 1; take_bit

-- The rounds that are left, the next shift, and the bits so far. `<<` drops what leaves the 32 bits.
unfoldable pub read_bits_loop : ℕ → ℕ → ℕ → Read ℕ
unfolding read_bit
read_bits_loop zero shift value = pure value
read_bits_loop (suc n) shift value = do
  bit ← read_bit
  read_bits_loop n (shift + 1) (bit_or value (bit * 2 ^ shift % 2 ^ 32))

unfoldable pub read_bits : ℕ → Read ℕ
unfolding read_bits_loop
read_bits bits = read_bits_loop bits 0 0

-- `& !7` clears the three low bits.
unfoldable pub align_to_byte : Read (Unit {0})
align_to_byte bytes bit_pos = ok (tt, (bit_pos + 7) / 8 * 8)

-- The step of `bits` that `skip_bits` makes once the bits are known to be there.
unfoldable pub advance : ℕ → Read (Unit {0})
advance bits bytes bit_pos = ok (tt, bit_pos + bits)

unfoldable pub skip_bits : ℕ → Read (Unit {0})
unfolding ensure_bits advance ◌>>=◌
skip_bits bits = do ensure_bits bits; advance bits
