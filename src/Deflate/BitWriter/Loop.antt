-- ===== src/Deflate/BitWriter/Loop.antt =====
-- Bits that are copied from a byte string to a writer, in whole bytes where that is possible.
use cozip.Base.{
  ℕ, zero, suc, ◌+◌, ◌-◌, ◌*◌, ◌/◌, ◌%◌, ◌≤◌, ◌≡◌, refl, List, [], ◌∷◌, ◌++◌, append_assoc,
  append-nil, length, length-append, length-take, length-drop, get_or, ltb, leb, ◌==◌, ◌&&◌,
  if◌then◌else◌, arith, true, sym, take, drop,
}
use cozip.Base.Le.{IsBytes}
use cozip.Base.Returns.{Returns, Returns->>=, Returns-if, Returns_weaker}
use cozip.Deflate.BitCursor.{saturating_add, saturating_mul}
use cozip.Deflate.BitCursor.Bit.{bit, bit-lt, bit_at-bit, bits_of, length-bits_of, get_or-bits_of}
use cozip.Deflate.BitWriter.{
  DeflateBitWriter, emit_bytes, write_bit, write_byte_bits, read_unaligned_byte, byte_range,
  write_bulk, write_bits_loop, write_bits_from_slice,
}
use cozip.Deflate.BitWriter.Bytes.{bit-snoc}
use cozip.Deflate.BitWriter.Emits.{bytes_out, emit_bytes-Emits}
use cozip.Deflate.BitWriter.Slice.{
  IsBits8, read_unaligned_byte-Returns, bits_of-append, digits_from-bits_of,
}
use cozip.Deflate.BitWriter.Writes.{
  Writes, Writes-update, clear, write_bit-Writes, write_byte_bits-Writes,
}
use cozip.Deflate.Error.{Result}
use cozip.Deflate.ChunkBits.Represents.{get_or-append, bit-append, bit-take}

get_or-drop_add : (k : ℕ) (xs : List ℕ) (i d : ℕ) → get_or (drop k xs) i d ≡ get_or xs (k + i) d
get_or-drop_add zero xs i d = let e : 0 + i ≡ i = omega arith in rw e
get_or-drop_add (suc k) [] i d = refl
get_or-drop_add (suc k) (x ∷ xs) i d =
    let e : suc k + i ≡ suc (k + i) = omega arith in rw e (get_or-drop_add k xs i d)

pub bit-drop : (k : ℕ) (bytes : List ℕ) (i : ℕ) → bit (drop k bytes) i ≡ bit bytes (8 * k + i)
unfolding bit
bit-drop k bytes i =
    let e : (8 * k + i) / 8 ≡ k + i / 8 = omega arith in
    let f : (8 * k + i) % 8 ≡ i % 8 = omega arith in rw (e, f, get_or-drop_add k bytes (i / 8) 0)

-- Whole bytes that are cut out of a byte string.
pub bit-byte_range :
    (src : List ℕ) (pos n : ℕ)
    → pos % 8 ≡ 0
    → (i : ℕ)
    → bit (take (pos / 8 + n - pos / 8) (drop (pos / 8) src)) i
      ≡ (if ltb i (8 * n) then bit src (pos + i) else 0)
bit-byte_range src pos n aligned i =
    let k = pos / 8 in
    let a : k + n - k ≡ n = omega arith in
    let b : 8 * k ≡ pos = omega (arith, aligned) in
    rw (bit-take (k + n - k) (drop k src) i, bit-drop k src i, a, b)

module _ (src : List ℕ) (w : DeflateBitWriter) (bits : List ℕ) (r : Writes w bits) (pos n : ℕ) where
  abbrev Copied : ℕ → DeflateBitWriter → Type 0
  Copied count v = Writes v (bits ++ bits_of src pos count)

  bulk_same :
      (bytes : List ℕ)
      → w.used ≡ 0
      → length bytes ≡ n
      → ((i : ℕ) → bit bytes i ≡ (if ltb i (8 * n) then bit src (pos + i) else 0))
      → (i : ℕ)
      → bit ((bytes_out w ++ bytes) ++ (w.byte ∷ [])) i
        ≡ get_or (bits ++ bits_of src pos (n * 8)) i 0
  bulk_same bytes start len same i =
      let l = length bits in
      let e : 8 * length (bytes_out w) ≡ l = omega (arith, r.size) in
      let e' : 8 * length (bytes_out w ++ bytes) ≡ l + 8 * n =
        omega (arith, r.size, len, length-append (bytes_out w) bytes) in
      rw
        (
          bit-snoc (bytes_out w ++ bytes) w.byte i,
          bit-append (bytes_out w) bytes i,
          get_or-append bits (bits_of src pos (n * 8)) i 0,
          get_or-bits_of src pos (n * 8) (i - l),
          e',
          e,
          same (i - l),
          sym (r.same i),
          bit-snoc (bytes_out w) w.byte i,
        )
        (ground (arith, e, start, clear w bits r (i - l), clear w bits r (i - (l + 8 * n))))

  write_bulk-Returns :
      w.used ≡ 0
      → pos % 8 ≡ 0
      → pos + n * 8 ≤ 8 * length src
      → Returns (write_bulk w src pos n) (Copied (n * 8))
  unfolding write_bulk byte_range
  write_bulk-Returns start aligned room =
      let k = pos / 8 in
      let bytes : List ℕ = take (k + n - k) (drop k src) in
      let v = emit_bytes w bytes in
      let e = emit_bytes-Emits w bytes in
      let more = bits_of src pos (n * 8) in
      let len : length bytes ≡ n =
        omega (arith, length-take (k + n - k) (drop k src), length-drop k src) in
      let l = length-append bits more in
      let l' = length-bits_of src pos (n * 8) in
      let m = length-append (bytes_out w) bytes in
      let inside : (leb k (k + n) && leb (k + n) (length src)) ≡ true = ground arith in
      rw inside (
        Writes-update v (bytes_out w ++ bytes) (bits ++ more) v.byte v.used
          (saturating_add v.total_bits (saturating_mul n 8)) e.bytes (omega (arith, e.used, start))
          (omega (arith, e.used, start, r.size, l, l', m, len))
          (rw e.byte (bulk_same bytes start len (bit-byte_range src pos n aligned)))
          (omega (arith, e.total, r.total, l, l')))

-- The rest of a copy, after `done` bits of it.
resumed :
    (m : Result DeflateBitWriter) (src bits : List ℕ) (pos done count : ℕ)
    → done ≤ count
    → Returns m
        (λ v. Writes v ((bits ++ bits_of src pos done) ++ bits_of src (pos + done) (count - done)))
    → Returns m (λ v. Writes v (bits ++ bits_of src pos count))
resumed m src bits pos done count h returns =
    let e : done + (count - done) ≡ count = omega arith in
    Returns_weaker _ _ m returns (λ v r.
      rw
        (
          append_assoc bits (bits_of src pos done) (bits_of src (pos + done) (count - done)),
          bits_of-append src pos done (count - done),
          e,
        )
        at r)

pub nothing_copied :
    (w : DeflateBitWriter) (bits src : List ℕ) (pos count : ℕ)
    → Writes w bits
    → count ≡ 0
    → Writes w (bits ++ bits_of src pos count)
unfolding bits_of
nothing_copied w bits src pos count r e = rw (e, append-nil) r

one_copied :
    (w : DeflateBitWriter) (bits src : List ℕ) (pos : ℕ)
    → Writes w bits
    → Writes (write_bit w (bit src pos)) (bits ++ bits_of src pos 1)
unfolding bits_of
one_copied w bits src pos r = write_bit-Writes w bits r (bit src pos) (bit-lt src pos)

byte_copied :
    (w : DeflateBitWriter) (bits src : List ℕ) (pos byte : ℕ)
    → Writes w bits
    → IsBits8 src pos byte
    → Writes (write_byte_bits w byte) (bits ++ bits_of src pos 8)
byte_copied w bits src pos byte r (v, same) =
    let e =
      digits_from-bits_of src pos byte 8 0
        (λ j h. let f : 0 + j ≡ j = omega arith in rw f (same j h)) in
    rw e at (write_byte_bits-Writes w bits r byte v)

write_bits_loop-Returns :
    (n : ℕ) (w : DeflateBitWriter) (bits src : List ℕ) (pos count : ℕ)
    → Writes w bits
    → IsBytes src
    → pos + count ≤ 8 * length src
    → count ≤ n
    → Returns (write_bits_loop n w src pos count) (λ v. Writes v (bits ++ bits_of src pos count))
unfolding write_bits_loop
write_bits_loop-Returns zero w bits src pos count r bytes room enough =
    let e : count ≡ 0 = omega arith in
    let done : (count == 0) ≡ true = ground arith in
    rw done (nothing_copied w bits src pos count r e)
write_bits_loop-Returns (suc n) w bits src pos count r bytes room enough =
    let Q = λ (v : DeflateBitWriter). Writes v (bits ++ bits_of src pos count) in
    let k = count / 8 in
    Returns-if Q (count == 0) _ _
      (λ none. nothing_copied w bits src pos count r (ground (arith, none)))
      (λ some_bits.
        Returns-if Q ((w.used == 0 && pos % 8 == 0) && leb 8 count) _ _
          (λ whole.
            Returns->>= (λ v. Writes v (bits ++ bits_of src pos (k * 8))) Q (write_bulk w src pos k)
              _
              (write_bulk-Returns src w bits r pos k (ground (arith, whole)) (ground (arith, whole))
                (omega arith))
              (λ v h. resumed _ src bits pos (k * 8) count (omega arith) (
                write_bits_loop-Returns n v _ src (pos + k * 8) (count - k * 8) h bytes
                  (omega arith) (ground (arith, whole)))))
          (λ _.
            Returns-if Q (leb 8 count) _ _
              (λ long.
                Returns->>= (IsBits8 src pos) Q (read_unaligned_byte src pos) _
                  (read_unaligned_byte-Returns src pos bytes (ground (arith, long)))
                  (λ byte h. resumed _ src bits pos 8 count (ground (arith, long)) (
                    write_bits_loop-Returns n _ _ src (pos + 8) (count - 8)
                      (byte_copied w bits src pos byte r h) bytes (ground (arith, long))
                      (omega arith))))
              (λ _.
                let one : 1 ≤ count = ground (arith, some_bits) in
                rw (bit_at-bit src pos (omega arith)) (
                  resumed _ src bits pos 1 count one (
                    write_bits_loop-Returns n _ _ src (pos + 1) (count - 1)
                      (one_copied w bits src pos r) bytes (omega arith) (omega arith))))))

-- A writer that stands for some bits and is given a run of bits of a byte string, which lie inside it,
-- does not fail, and then stands for these bits and the run, wherever the run begins in its byte and
-- the writer in its own.
pub write_bits_from_slice-Returns :
    (w : DeflateBitWriter) (bits src : List ℕ) (pos count : ℕ)
    → Writes w bits
    → IsBytes src
    → pos + count ≤ 8 * length src
    → Returns
        (write_bits_from_slice w src pos count)
        (λ v. Writes v (bits ++ bits_of src pos count))
unfolding write_bits_from_slice
write_bits_from_slice-Returns w bits src pos count r bytes room =
    write_bits_loop-Returns count w bits src pos count r bytes room (omega arith)
