-- ===== src/Deflate/ChunkBits/Represents.antt =====
-- Bytes that stand for a sequence of bits, the lowest bit of a byte first and 0 behind the end.
use cozip.Base.{
  ℕ, zero, suc, ◌+◌, ◌-◌, ◌/◌, ◌%◌, ◌≤◌, ◌<◌, ◌≡◌, refl, List, [], ◌∷◌, ◌++◌, length, get_or,
  get_elem?-get_or, ap, set, take, ltb, ◌==◌, if◌then◌else◌, arith, Bool-cases, inl, inr, ltb→ge,
  ◌*◌,
}
use cozip.Base.Bits.Digit.{digit, zero-digit}
use cozip.Base.Results.{ok}
use cozip.Deflate.BitCursor.{index}
use cozip.Deflate.BitCursor.Bit.{bit}

module _ {ℓ} {A : Type ℓ} where
  pub get_or-append :
      (xs ys : List A) (i : ℕ) (d : A)
      → get_or (xs ++ ys) i d
        ≡ (if ltb i (length xs) then get_or xs i d else get_or ys (i - length xs) d)
  get_or-append [] ys i d = ground arith
  get_or-append (x ∷ xs) ys zero d = ground arith
  get_or-append (x ∷ xs) ys (suc i) d = ground (arith, get_or-append xs ys i d)

  pub get_or_past : (xs : List A) (i : ℕ) (d : A) → length xs ≤ i → get_or xs i d ≡ d
  get_or_past [] i d h = refl
  get_or_past (x ∷ xs) zero d h = absurd (omega arith)
  get_or_past (x ∷ xs) (suc i) d h = get_or_past xs i d (omega arith)

  pub get_or-set :
      (xs : List A) (k : ℕ) (v : A) (i : ℕ) (d : A)
      → k < length xs
      → get_or (set xs k v) i d ≡ (if i == k then v else get_or xs i d)
  get_or-set [] k v i d h = absurd (omega arith)
  get_or-set (x ∷ xs) zero v zero d h = ground arith
  get_or-set (x ∷ xs) zero v (suc i) d h = ground arith
  get_or-set (x ∷ xs) (suc k) v zero d h = ground arith
  get_or-set (x ∷ xs) (suc k) v (suc i) d h = ground (arith, get_or-set xs k v i d)

  pub get_or-take :
      (n : ℕ) (xs : List A) (i : ℕ) (d : A)
      → get_or (take n xs) i d ≡ (if ltb i n then get_or xs i d else d)
  get_or-take zero xs i d = ground arith
  get_or-take (suc n) [] i d = ground arith
  get_or-take (suc n) (x ∷ xs) zero d = ground arith
  get_or-take (suc n) (x ∷ xs) (suc i) d = ground (arith, get_or-take n xs i d)

pub record Represents (bytes bits : List ℕ) : Type 0 where
  pub size : length bytes ≡ (length bits + 7) / 8
  pub same : (i : ℕ) → bit bytes i ≡ get_or bits i 0

pub bit-set :
    (bytes : List ℕ) (k v i : ℕ)
    → k < length bytes
    → bit (set bytes k v) i ≡ (if i / 8 == k then digit v (i % 8) else bit bytes i)
unfolding bit
bit-set bytes k v i h = ground (arith, get_or-set bytes k v (i / 8) 0)

-- An empty byte at the end changes no bit.
pub bit-append_zero : (bytes : List ℕ) (i : ℕ) → bit (bytes ++ (0 ∷ [])) i ≡ bit bytes i
unfolding bit
bit-append_zero bytes i = ap (λ x. digit x (i % 8)) (get_or-append_zero bytes (i / 8))
  where
    get_or-append_zero : (xs : List ℕ) (j : ℕ) → get_or (xs ++ (0 ∷ [])) j 0 ≡ get_or xs j 0
    get_or-append_zero [] zero = refl
    get_or-append_zero [] (suc j) = refl
    get_or-append_zero (x ∷ xs) zero = refl
    get_or-append_zero (x ∷ xs) (suc j) = get_or-append_zero xs j

pub bit-append :
    (xs ys : List ℕ) (i : ℕ)
    → bit (xs ++ ys) i ≡ (if ltb i (8 * length xs) then bit xs i else bit ys (i - 8 * length xs))
unfolding bit
bit-append xs ys i =
    rw (get_or-append xs ys (i / 8) 0) (elim (Bool-cases (ltb (i / 8) (length xs))) [
      | inl inside ↦ rw inside (ground (arith, inside))
      | inr outside ↦
          let e : (i - 8 * length xs) / 8 ≡ i / 8 - length xs = omega (arith, ltb→ge _ _ outside) in
          let f : (i - 8 * length xs) % 8 ≡ i % 8 = omega (arith, ltb→ge _ _ outside) in
          rw (outside, e, f) (ground (arith, outside))
    ])

pub bit-take :
    (n : ℕ) (bytes : List ℕ) (i : ℕ)
    → bit (take n bytes) i ≡ (if ltb i (8 * n) then bit bytes i else 0)
unfolding bit
bit-take n bytes i = rw (get_or-take n bytes (i / 8) 0) (elim (Bool-cases (ltb (i / 8) n)) [
  | inl inside ↦ rw inside (ground (arith, inside))
  | inr outside ↦ rw (outside, zero-digit (i % 8)) (ground (arith, outside))
])

pub index-get_or {ℓ} :
    {A : Type ℓ} (xs : List A) (i : ℕ) (d : A) → i < length xs → index xs i ≡ ok (get_or xs i d)
index-get_or xs i d h = rw (get_elem?-get_or xs i d h)
