-- ===== src/Deflate/BitWriter/Finish.antt =====
-- The begin and the end of a stream: a new writer stands for no bits, and a finished one has given
-- away all its bits, the last byte filled up with zeros.
use cozip.Base.{
  ℕ, ◌-◌, ◌*◌, ◌/◌, ◌%◌, ◌≤◌, ◌<◌, ◌≡◌, refl, ap, List, [], ◌∷◌, ◌++◌, append-nil, length,
  length-append, ltb, arith, Bool-cases, inl, inr, sym, ◌∙◌,
}
use cozip.Base.Bits.Digit.{zero-digit}
use cozip.Deflate.BitCursor.Bit.{bit}
use cozip.Deflate.BitWriter.{DeflateBitWriter, new_writer, flush_out_buf, emit_byte, finish}
use cozip.Deflate.BitWriter.Bytes.{bit-single, bit-snoc}
use cozip.Deflate.BitWriter.Emits.{
  bytes_out, emit_byte-Emits, flush_out_buf-Emits, flush_out_buf-empty,
}
use cozip.Deflate.BitWriter.Writes.{Writes, clear}
use cozip.Deflate.ChunkBits.Represents.{Represents, get_or_past}

pub new_writer-Writes : Writes (new_writer []) []
unfolding new_writer bytes_out
new_writer-Writes = record {
  small = omega arith;
  size = refl;
  same = λ i. ground (arith, bit-single 0 i, zero-digit i);
  total = refl;
}

pub bit_past : (bytes : List ℕ) (i : ℕ) → 8 * length bytes ≤ i → bit bytes i ≡ 0
unfolding bit
bit_past bytes i h = let e = get_or_past bytes (i / 8) 0 (omega arith) in rw (e, zero-digit (i % 8))

-- A flush leaves all bytes with the inner writer.
flushed_inner : (w : DeflateBitWriter) → (flush_out_buf w).inner ≡ bytes_out w
unfolding bytes_out
flushed_inner w =
    let v = flush_out_buf w in
    sym (append-nil v.inner)
    ∙ ap (λ (l : List ℕ). v.inner ++ l) (sym (flush_out_buf-empty w))
    ∙ (flush_out_buf-Emits w).bytes
    ∙ append-nil (bytes_out w)

module _ (w : DeflateBitWriter) (bits : List ℕ) (r : Writes w bits) where
  unfinished-Represents : 0 < w.used → Represents (bytes_out w ++ (w.byte ∷ [])) bits
  unfinished-Represents h = record {
    size = omega (arith, r.size, r.small, length-append (bytes_out w) (w.byte ∷ []));
    same = r.same;
  }

  whole-Represents : w.used ≡ 0 → Represents (bytes_out w) bits
  whole-Represents h = record {
    size = omega (arith, r.size);
    same = λ i.
        rw (sym (r.same i), bit-snoc (bytes_out w) w.byte i)
          (ground (
            arith,
            bit_past (bytes_out w) i,
            clear w bits r (i - 8 * length (bytes_out w)) (omega arith),
          ));
  }

  emitted :
      bytes_out (record (emit_byte w w.byte) { byte = 0; used = 0 }) ≡ bytes_out w ++ (w.byte ∷ [])
  unfolding bytes_out
  emitted = (emit_byte-Emits w w.byte).bytes

  pub finish-Represents : Represents (finish w).inner bits
  unfolding finish
  finish-Represents =
      let padded = record (emit_byte w w.byte) { byte = 0; used = 0 } in
      elim (Bool-cases (ltb 0 w.used)) [
        | inl unfinished ↦
            let e : (flush_out_buf padded).inner ≡ bytes_out w ++ (w.byte ∷ []) =
              flushed_inner padded ∙ emitted in
            rw unfinished (rw (sym e) at (unfinished-Represents (ground (arith, unfinished))))
        | inr whole ↦
            rw whole (rw (sym (flushed_inner w)) at (whole-Represents (ground (arith, whole))))
      ]
