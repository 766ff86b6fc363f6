-- ===== src/Deflate/ChunkBits/Append.antt =====
-- The appending functions append bits: to bytes that stand for some bits they return bytes that
-- stand for these and the new ones.
use cozip.Base.{
  ℕ, zero, suc, ◌+◌, ◌-◌, ◌/◌, ◌%◌, ◌^◌, ◌<◌, ◌≡◌, refl, List, [], ◌∷◌, ◌++◌, append_assoc,
  append-nil, length, get_or, set, replicate, ◌==◌, if◌then◌else◌, arith, length-append, length-set,
  Bool-cases, inl, inr, ◌⊎◌, bit_or, bit_and,
}
use cozip.Base.Bits.Digit.{digit, digit-bit_or, digit-pow}
use cozip.Base.Bits.{bit_and_mask}
use cozip.Base.Returns.{Returns, Returns->>=}
use cozip.Deflate.BitCursor.Bit.{bit, bit-lt}
use cozip.Deflate.ChunkBits.{
  Bits, append_bit_to_vec_lsb, append_byte_loop, append_byte_to_vec_lsb, pad_to_byte,
  append_empty_stored_block_non_final_bits,
}
use cozip.Deflate.ChunkBits.Represents.{
  Represents, get_or_past, bit-set, bit-append_zero, index-get_or,
}

bit-cases : (b : ℕ) → b < 2 → (b ≡ 0) ⊎ (b ≡ 1)
bit-cases zero h = inl refl
bit-cases (suc zero) h = inr refl
bit-cases (suc (suc b)) h = absurd (omega arith)

-- Bytes and a number of bits that stand for `bits`.
abbrev pub Holds : List ℕ → Bits → Type 0
Holds bits r = (r.1 ≡ length bits) × Represents r.0 bits

-- The bytes with room for one more bit.
with_room : List ℕ → ℕ → List ℕ
with_room bytes n = if n / 8 == length bytes then bytes ++ (0 ∷ []) else bytes

with_room_size :
    (bytes bits : List ℕ)
    → Represents bytes bits
    → length (with_room bytes (length bits)) ≡ length bits / 8 + 1
unfolding with_room
with_room_size bytes bits r = ground (arith, r.size, length-append bytes (0 ∷ []))

with_room_same : (bytes : List ℕ) (n i : ℕ) → bit (with_room bytes n) i ≡ bit bytes i
unfolding with_room
with_room_same bytes n i = ground (arith, bit-append_zero bytes i)

get_or-snoc :
    (bits : List ℕ) (b i : ℕ)
    → get_or (bits ++ (b ∷ [])) i 0 ≡ (if i == length bits then b else get_or bits i 0)
get_or-snoc [] b zero = refl
get_or-snoc [] b (suc i) = ground arith
get_or-snoc (x ∷ bits) b zero = ground arith
get_or-snoc (x ∷ bits) b (suc i) = ground (arith, get_or-snoc bits b i)

-- The byte that holds the new bit.
marked_same :
    (bytes : List ℕ) (n i : ℕ)
    → n / 8 < length bytes
    → bit (set bytes (n / 8) (bit_or (get_or bytes (n / 8) 0) (2 ^ (n % 8)))) i
      ≡ (if i == n then 1 else bit bytes i)
marked_same bytes n i h =
    let byte = get_or bytes (n / 8) 0 in
    rw
      (
        bit-set bytes (n / 8) (bit_or byte (2 ^ (n % 8))) i h,
        digit-bit_or byte (2 ^ (n % 8)) (i % 8),
        digit-pow (n % 8) (i % 8),
      )
      (ground (arith, same_byte, bit-lt bytes i))
  where
    same_byte : i / 8 ≡ n / 8 → digit (get_or bytes (n / 8) 0) (i % 8) ≡ bit bytes i
    same_byte e = unfold bit in rw e

Represents-zero :
    (bytes bits : List ℕ)
    → Represents bytes bits
    → Represents (with_room bytes (length bits)) (bits ++ (0 ∷ []))
Represents-zero bytes bits r = record {
  size = omega (arith, with_room_size bytes bits r, length-append bits (0 ∷ []));
  same = λ i. ground (
    arith,
    with_room_same bytes (length bits) i,
    r.same i,
    get_or-snoc bits 0 i,
    get_or_past bits i 0,
  );
}

Represents-one :
    (bytes bits : List ℕ)
    → Represents bytes bits
    → Represents
        (set (with_room bytes (length bits)) (length bits / 8) (
          bit_or
            (get_or (with_room bytes (length bits)) (length bits / 8) 0)
            (2 ^ (length bits % 8))))
        (bits ++ (1 ∷ []))
Represents-one bytes bits r =
    let n = length bits in
    let room = with_room bytes n in
    let byte = bit_or (get_or room (n / 8) 0) (2 ^ (n % 8)) in
    let size = with_room_size bytes bits r in
    record {
      size = omega (arith, size, length-set room (n / 8) byte, length-append bits (1 ∷ []));
      same = λ i. ground (
        arith,
        marked_same room n i (omega arith),
        with_room_same bytes n i,
        r.same i,
        get_or-snoc bits 1 i,
      );
    }

append_bit_to_vec_lsb-Represents :
    (bytes bits : List ℕ) (b : ℕ)
    → b < 2
    → Represents bytes bits
    → Returns (append_bit_to_vec_lsb (bytes, length bits) b) (Holds (bits ++ (b ∷ [])))
unfolding append_bit_to_vec_lsb with_room
append_bit_to_vec_lsb-Represents bytes bits b h r = elim (bit-cases b h) [
  | inl clear ↦ rw clear (omega (arith, length-append bits (0 ∷ [])), Represents-zero bytes bits r)
  | inr marked ↦
      rw
        (
          marked,
          index-get_or (with_room bytes (length bits)) (length bits / 8) 0
              (omega (arith, with_room_size bytes bits r)),
        )
        (omega (arith, length-append bits (1 ∷ [])), Represents-one bytes bits r)
]

append_bit_to_vec_lsb-Holds :
    (s : Bits) (bits : List ℕ) (b : ℕ)
    → b < 2
    → Holds bits s
    → Returns (append_bit_to_vec_lsb s b) (Holds (bits ++ (b ∷ [])))
append_bit_to_vec_lsb-Holds (bytes, n) bits b h (e, r) =
    rw e (append_bit_to_vec_lsb-Represents bytes bits b h r)

-- The digits of a number, `n` of them from `shift` on.
unfoldable pub digits_from : ℕ → ℕ → ℕ → List ℕ
digits_from zero value shift = []
digits_from (suc n) value shift = digit value shift ∷ digits_from n value (shift + 1)

append_byte_loop-Holds :
    (n : ℕ) (s : Bits) (bits : List ℕ) (value shift : ℕ)
    → Holds bits s
    → Returns (append_byte_loop n s value shift) (Holds (bits ++ digits_from n value shift))
unfolding append_byte_loop digits_from
append_byte_loop-Holds zero s bits value shift h = rw append-nil h
append_byte_loop-Holds (suc n) s bits value shift h =
    let b = digit value shift in
    let e : bit_and (value / 2 ^ shift) 1 ≡ b = bit_and_mask 1 (value / 2 ^ shift) in
    rw e (
      Returns->>= (Holds (bits ++ (b ∷ []))) (Holds (bits ++ (b ∷ digits_from n value (shift + 1))))
        (append_bit_to_vec_lsb s b) _ (append_bit_to_vec_lsb-Holds s bits b (omega arith) h)
        (λ s' h'.
          rw (append_assoc bits (b ∷ []) (digits_from n value (shift + 1))) at
            (append_byte_loop-Holds n s' (bits ++ (b ∷ [])) value (shift + 1) h')))

append_byte_to_vec_lsb-Holds :
    (s : Bits) (bits : List ℕ) (value : ℕ)
    → Holds bits s
    → Returns (append_byte_to_vec_lsb s value) (Holds (bits ++ digits_from 8 value 0))
unfolding append_byte_to_vec_lsb
append_byte_to_vec_lsb-Holds s bits value h = append_byte_loop-Holds 8 s bits value 0 h

-- The zero bits up to the next byte.
abbrev pub pad_count : ℕ → ℕ
pad_count n = (8 - n % 8) % 8

pad_to_byte-Holds :
    (k : ℕ) (s : Bits) (bits : List ℕ)
    → pad_count (length bits) < k
    → Holds bits s
    → Returns (pad_to_byte k s) (Holds (bits ++ replicate (pad_count (length bits)) 0))
unfolding pad_to_byte
pad_to_byte-Holds zero s bits enough h = absurd (omega arith)
pad_to_byte-Holds (suc k) s bits enough h = elim (Bool-cases (s.1 % 8 == 0)) [
  | inl done ↦
      let none : pad_count (length bits) ≡ 0 = ground (arith, h.0) in rw (done, none, append-nil) h
  | inr more ↦
      let bits' = bits ++ (0 ∷ []) in
      let left : List ℕ = replicate (pad_count (length bits')) 0 in
      let e : pad_count (length bits) ≡ suc (pad_count (length bits')) =
        ground (arith, h.0, length-append bits (0 ∷ [])) in
      rw (more, e)
        (Returns->>= (Holds bits') (Holds (bits ++ (0 ∷ left))) (append_bit_to_vec_lsb s 0) _
          (append_bit_to_vec_lsb-Holds s bits 0 (omega arith) h)
          (λ s' h'.
            rw (append_assoc bits (0 ∷ []) left) at
              (pad_to_byte-Holds k s' bits' (omega arith) h')))
]

-- An empty stored block that is not the last one, at the end of `n` bits, up to a whole byte.
unfoldable pub stored_block : ℕ → List ℕ
unfolding digits_from
stored_block n =
    replicate 3 0 ++ (replicate (pad_count (n + 3)) 0 ++ (replicate 16 0 ++ replicate 16 1))

pub length-snoc : (xs : List ℕ) (x : ℕ) → length (xs ++ (x ∷ [])) ≡ length xs + 1
length-snoc xs x = length-append xs (x ∷ [])

pub assembled :
    (bits pad : List ℕ)
    → ((((((((bits ++ (0 ∷ [])) ++ (0 ∷ [])) ++ (0 ∷ [])) ++ pad) ++ digits_from 8 0x00 0)
            ++ digits_from 8 0x00 0)
          ++ digits_from 8 0xff 0)
        ++ digits_from 8 0xff 0)
      ≡ bits ++ (replicate 3 0 ++ (pad ++ (replicate 16 0 ++ replicate 16 1)))
unfolding digits_from
assembled bits pad = simp append_assoc

pub append_empty_stored_block-Holds :
    (s : Bits) (bits : List ℕ)
    → Holds bits s
    → Returns
        (append_empty_stored_block_non_final_bits s)
        (Holds (bits ++ stored_block (length bits)))
unfolding append_empty_stored_block_non_final_bits stored_block
append_empty_stored_block-Holds s bits h =
    let Q = Holds (bits ++ stored_block (length bits)) in
    let l₁ : List ℕ = bits ++ (0 ∷ []) in
    let l₂ = l₁ ++ (0 ∷ []) in
    let l₃ = l₂ ++ (0 ∷ []) in
    let pad : List ℕ = replicate (pad_count (length bits + 3)) 0 in
    let count : pad_count (length l₃) ≡ pad_count (length bits + 3) =
      omega (arith, length-snoc bits 0, length-snoc l₁ 0, length-snoc l₂ 0) in
    let l₄ = l₃ ++ pad in
    let l₅ = l₄ ++ digits_from 8 0x00 0 in
    let l₆ = l₅ ++ digits_from 8 0x00 0 in
    let l₇ = l₆ ++ digits_from 8 0xff 0 in
    Returns->>= (Holds l₁) Q (append_bit_to_vec_lsb s 0) _
      (append_bit_to_vec_lsb-Holds s bits 0 (omega arith) h)
      (λ b₁ h₁.
        Returns->>= (Holds l₂) Q (append_bit_to_vec_lsb b₁ 0) _
          (append_bit_to_vec_lsb-Holds b₁ l₁ 0 (omega arith) h₁)
          (λ b₂ h₂.
            Returns->>= (Holds l₃) Q (append_bit_to_vec_lsb b₂ 0) _
              (append_bit_to_vec_lsb-Holds b₂ l₂ 0 (omega arith) h₂)
              (λ b₃ h₃.
                Returns->>= (Holds l₄) Q (pad_to_byte 8 b₃) _
                  (rw count at (pad_to_byte-Holds 8 b₃ l₃ (omega arith) h₃))
                  (λ b₄ h₄.
                    Returns->>= (Holds l₅) Q (append_byte_to_vec_lsb b₄ 0x00) _
                      (append_byte_to_vec_lsb-Holds b₄ l₄ 0x00 h₄)
                      (λ b₅ h₅.
                        Returns->>= (Holds l₆) Q (append_byte_to_vec_lsb b₅ 0x00) _
                          (append_byte_to_vec_lsb-Holds b₅ l₅ 0x00 h₅)
                          (λ b₆ h₆.
                            Returns->>= (Holds l₇) Q (append_byte_to_vec_lsb b₆ 0xff) _
                              (append_byte_to_vec_lsb-Holds b₆ l₆ 0xff h₆)
                              (λ b₇ h₇.
                                rw (assembled bits pad) at
                                  (append_byte_to_vec_lsb-Holds b₇ l₇ 0xff h₇))))))))
