-- ===== src/Deflate/BitCursor/Bit.antt =====
-- A bit of a byte string, as a number.
use cozip.Base.{
  ℕ, zero, suc, ◌+◌, ◌*◌, ◌/◌, ◌%◌, ◌^◌, ◌<◌, ◌≡◌, refl, ap, List, [], ◌∷◌, length,
  get_elem?-get_or, get_or, ltb, if◌then◌else◌, arith,
}
use cozip.Base.Bits.{bit_and_mask}
use cozip.Base.Results.{ok}
use cozip.Deflate.BitCursor.{bit_at}

-- The bit at a place, 0 behind the end.
unfoldable pub bit : List ℕ → ℕ → ℕ
bit bytes i = get_or bytes (i / 8) 0 / 2 ^ (i % 8) % 2

pub bit_at-bit : (bytes : List ℕ) (i : ℕ) → i < 8 * length bytes → bit_at bytes i ≡ ok (bit bytes i)
unfolding bit_at bit
bit_at-bit bytes i h = rw (get_elem?-get_or bytes (i / 8) 0 (omega arith), bit_and_mask 1)

pub bit-lt : (bytes : List ℕ) (i : ℕ) → bit bytes i < 2
unfolding bit
bit-lt bytes i = omega arith

-- `n` bits from a place on.
unfoldable pub bits_of : List ℕ → ℕ → ℕ → List ℕ
bits_of bytes from zero = []
bits_of bytes from (suc n) = bit bytes from ∷ bits_of bytes (from + 1) n

pub length-bits_of : (bytes : List ℕ) (from n : ℕ) → length (bits_of bytes from n) ≡ n
unfolding bits_of
length-bits_of bytes from zero = refl
length-bits_of bytes from (suc n) = ap suc (length-bits_of bytes (from + 1) n)

pub get_or-bits_of :
    (bytes : List ℕ) (from n i : ℕ)
    → get_or (bits_of bytes from n) i 0 ≡ (if ltb i n then bit bytes (from + i) else 0)
unfolding bits_of
get_or-bits_of bytes from zero i = ground arith
get_or-bits_of bytes from (suc n) zero =
    let e : from + 0 ≡ from = omega arith in rw e (ground arith)
get_or-bits_of bytes from (suc n) (suc i) =
    let e : from + suc i ≡ from + 1 + i = omega arith in
    rw e (ground (arith, get_or-bits_of bytes (from + 1) n i))
