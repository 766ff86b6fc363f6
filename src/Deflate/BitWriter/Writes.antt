-- ===== src/Deflate/BitWriter/Writes.antt =====
-- What a writer stands for: the sequence of bits that it has been given, the lowest bit of a byte
-- first. The bytes of the inner writer, of the buffer and of the unfinished byte hold them.
use cozip.Base.{
  ℕ, zero, suc, ◌+◌, ◌-◌, ◌*◌, ◌/◌, ◌%◌, ◌^◌, ◌≤◌, ◌<◌, ◌≡◌, refl, ap, min, List, [], ◌∷◌, ◌++◌,
  length, length-append, get_or, ◌==◌, arith, bit_and, bit_or, Bool-cases, inl, inr, sym, ◌∙◌,
}
use native.Mathlib.Nat.{pow-suc, one-le-pow, div-eq_of_lt}
use cozip.Base.Bits.{bit_and_mask}
use cozip.Base.Bits.Digit.{digit, digit-eq-zero}
use cozip.Base.Results.{usize_bound}
use cozip.Deflate.BitCursor.{saturating_add}
use cozip.Deflate.BitCursor.Bit.{bit}
use cozip.Deflate.BitWriter.{DeflateBitWriter, emit_byte, write_bit, write_byte_bits}
use cozip.Deflate.BitWriter.Bytes.{bit-merged, bit-snoc, get_or-digits_from, length-digits_from}
use cozip.Deflate.BitWriter.Emits.{bytes_out, emit_byte-Emits}
use cozip.Deflate.ChunkBits.Append.{digits_from}
use cozip.Deflate.ChunkBits.Represents.{get_or-append, get_or_past, bit-append_zero}

pub record Writes (w : DeflateBitWriter) (bits : List ℕ) : Type 0 where
  pub small : w.used < 8
  pub size : 8 * length (bytes_out w) + w.used ≡ length bits
  pub same : (i : ℕ) → bit (bytes_out w ++ (w.byte ∷ [])) i ≡ get_or bits i 0
  pub total : w.total_bits ≡ min (length bits) (usize_bound - 1)

-- A writer's new state, after it has given away bytes.
pub Writes-update :
    (v : DeflateBitWriter) (bytes bits : List ℕ) (byte used total : ℕ)
    → bytes_out v ≡ bytes
    → used < 8
    → 8 * length bytes + used ≡ length bits
    → ((i : ℕ) → bit (bytes ++ (byte ∷ [])) i ≡ get_or bits i 0)
    → total ≡ min (length bits) (usize_bound - 1)
    → Writes (record v { byte = byte; used = used; total_bits = total }) bits
unfolding bytes_out
Writes-update v bytes bits byte used total e small size same count = record {
  small = small;
  size = ap (λ (b : List ℕ). 8 * length b + used) e ∙ size;
  same = λ i. ap (λ (b : List ℕ). bit (b ++ (byte ∷ [])) i) e ∙ same i;
  total = count;
}

module _ (w : DeflateBitWriter) (bits : List ℕ) (r : Writes w bits) where
  pub clear : (j : ℕ) → w.used ≤ j → j < 8 → digit w.byte j ≡ 0
  clear j above below =
      let n = 8 * length (bytes_out w) in
      let e : n + j - n ≡ j = omega arith in
      ground (
        arith,
        e,
        r.size,
        r.same (n + j),
        bit-snoc (bytes_out w) w.byte (n + j),
        get_or_past bits (n + j) 0,
      )

  -- A new byte above the unfinished one.
  appended :
      (more : List ℕ) (value : ℕ)
      → value < 256
      → ((k : ℕ) → get_or more k 0 ≡ digit value k)
      → (i : ℕ)
      → bit
          ((bytes_out w ++ (bit_or w.byte (value * 2 ^ w.used % 2 ^ 8) ∷ []))
            ++ (value / 2 ^ (8 - w.used) ∷ []))
          i
        ≡ get_or (bits ++ more) i 0
  appended more value v digits i = rw (
    bit-merged w.byte w.used value r.small v clear (bytes_out w) i,
    r.size,
    get_or-append bits more i 0,
    digits (i - length bits),
    r.same i,
  )

  -- A new byte behind whole ones.
  aligned :
      (more : List ℕ) (value : ℕ)
      → w.used ≡ 0
      → value < 256
      → ((k : ℕ) → get_or more k 0 ≡ digit value k)
      → (i : ℕ) → bit ((bytes_out w ++ (value ∷ [])) ++ (w.byte ∷ [])) i ≡ get_or (bits ++ more) i 0
  aligned more value e v digits i =
      let l = length bits in
      let n : 8 * length (bytes_out w) ≡ l = omega (arith, r.size) in
      let n' : 8 * length (bytes_out w ++ (value ∷ [])) ≡ l + 8 =
        omega (arith, r.size, length-append (bytes_out w) (value ∷ [])) in
      rw
        (
          bit-snoc (bytes_out w ++ (value ∷ [])) w.byte i,
          bit-snoc (bytes_out w) value i,
          get_or-append bits more i 0,
          digits (i - l),
          n',
          n,
          sym (r.same i),
          bit-snoc (bytes_out w) w.byte i,
        )
        (ground (arith, n, clear (i - l), clear (i - (l + 8)), digit-eq-zero 8 value (i - l) v))

  -- A byte is given away, and the unfinished one stands as far as before.
  emitted :
      (x byte byte' : ℕ) (more : List ℕ)
      → length more ≡ 8
      → byte' ≡ byte
      → ((i : ℕ) → bit ((bytes_out w ++ (x ∷ [])) ++ (byte ∷ [])) i ≡ get_or (bits ++ more) i 0)
      → Writes
          (record (emit_byte w x) {
            byte = byte';
            total_bits = saturating_add (emit_byte w x).total_bits 8;
          })
          (bits ++ more)
  emitted x byte byte' more len kept same =
      let v = emit_byte w x in
      let e = emit_byte-Emits w x in
      let n = length-append (bytes_out w) (x ∷ []) in
      let n' = length-append bits more in
      Writes-update v (bytes_out w ++ (x ∷ [])) (bits ++ more) byte' v.used
        (saturating_add v.total_bits 8) e.bytes (omega (arith, e.used, r.small))
        (omega (arith, e.used, r.size, n, n', len)) (rw kept same)
        (omega (arith, e.total, r.total, n', len))

  byte_digits :
      (value : ℕ) → value < 256 → (k : ℕ) → get_or (digits_from 8 value 0) k 0 ≡ digit value k
  byte_digits value v k =
      let e : 0 + k ≡ k = omega arith in
      rw (get_or-digits_from 8 value 0 k, e) (ground (arith, digit-eq-zero 8 value k v))

  pub write_byte_bits-Writes :
      (value : ℕ) → value < 256 → Writes (write_byte_bits w value) (bits ++ digits_from 8 value 0)
  unfolding write_byte_bits
  write_byte_bits-Writes value v =
      let more = digits_from 8 value 0 in
      let merged = bit_or w.byte (value * 2 ^ w.used % 2 ^ 8) in
      let byte = value / 2 ^ (8 - w.used) in
      let len = length-digits_from 8 value 0 in
      let digits = byte_digits value v in
      elim (Bool-cases (w.used == 0)) [
        | inl whole ↦
            let same = aligned more value (ground (arith, whole)) v digits in
            rw whole (emitted value w.byte _ more len (emit_byte-Emits w value).byte same)
        | inr unfinished ↦
            rw unfinished (emitted merged byte byte more len refl (appended more value v digits))
      ]

  one_digit : (b : ℕ) → b < 2 → (k : ℕ) → get_or (b ∷ []) k 0 ≡ digit b k
  one_digit b h zero = omega arith
  one_digit b h (suc k) = sym (digit-eq-zero 1 b (suc k) h (omega arith))

  nothing_carried : (b : ℕ) → b < 2 → b / 2 ^ (8 - w.used) ≡ 0
  nothing_carried b h =
      let e : 8 - w.used ≡ suc (7 - w.used) = omega (arith, r.small) in
      rw e (
        div-eq_of_lt
          (omega (arith, pow-suc 2 (7 - w.used), one-le-pow (7 - w.used) 2 (omega arith))))

  -- The unfinished byte with one more bit.
  one_more :
      (b : ℕ)
      → b < 2
      → (i : ℕ)
      → bit ((bytes_out w ++ (bit_or w.byte (b * 2 ^ w.used % 2 ^ 8) ∷ [])) ++ (0 ∷ [])) i
        ≡ get_or (bits ++ (b ∷ [])) i 0
  one_more b h = rw (nothing_carried b h) at (appended (b ∷ []) b (omega arith) (one_digit b h))

  pub write_bit-Writes : (b : ℕ) → b < 2 → Writes (write_bit w b) (bits ++ (b ∷ []))
  unfolding write_bit bytes_out
  write_bit-Writes b h =
      let byte = bit_or w.byte (b * 2 ^ w.used % 2 ^ 8) in
      let total = saturating_add w.total_bits 1 in
      let w' = record w { byte = byte; used = w.used + 1; total_bits = total } in
      let e : bit_and b 1 ≡ b = omega (arith, bit_and_mask 1 b) in
      let n = length-append bits (b ∷ []) in
      let count : total ≡ min (length (bits ++ (b ∷ []))) (usize_bound - 1) =
        omega (arith, r.total, n) in
      let same = one_more b h in
      rw e (elim (Bool-cases (w.used + 1 == 8)) [
        | inl full ↦
            let f = emit_byte-Emits w' byte in
            rw full (
              Writes-update (emit_byte w' byte) (bytes_out w ++ (byte ∷ [])) (bits ++ (b ∷ [])) 0 0
                _ f.bytes (omega arith)
                (ground (arith, full, r.size, n, length-append (bytes_out w) (byte ∷ []))) same
                (f.total ∙ count))
        | inr more ↦ rw more (
            Writes-update w (bytes_out w) (bits ++ (b ∷ [])) byte (w.used + 1) total refl
              (ground (arith, more, r.small)) (omega (arith, r.size, n))
              (λ i. sym (bit-append_zero (bytes_out w ++ (byte ∷ [])) i) ∙ same i) count)
      ])
