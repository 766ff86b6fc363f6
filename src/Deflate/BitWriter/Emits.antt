-- ===== src/Deflate/BitWriter/Emits.antt =====
-- The bytes that a writer gives away: through the buffer, past it, or with a flush, they come in the
-- order in which they are written.
use cozip.Base.{
  ℕ, ◌+◌, ◌*◌, ◌≡◌, refl, ap, List, [], ◌∷◌, ◌++◌, append_assoc, append-nil, length, ltb, leb, ◌==◌,
  ◌&&◌, if◌then◌else◌, arith, Bool, true, false, Bool-cases, inl, inr, sym, ◌∙◌,
}
use cozip.Deflate.BitWriter.{DeflateBitWriter, flush_out_buf, emit_byte, emit_bytes, buffer_bytes}

-- The whole bytes that the writer has given away or holds in its buffer.
unfoldable pub bytes_out : DeflateBitWriter → List ℕ
bytes_out w = w.inner ++ w.out_buf

-- `v` is `w` with `more` bytes given away.
pub record Emits (w v : DeflateBitWriter) (more : List ℕ) : Type 0 where
  pub bytes : bytes_out v ≡ bytes_out w ++ more
  pub byte : v.byte ≡ w.byte
  pub used : v.used ≡ w.used
  pub total : v.total_bits ≡ w.total_bits

empty_list : (xs : List ℕ) → (length xs == 0) ≡ true → xs ≡ []
empty_list [] h = refl
empty_list (x ∷ xs) h = absurd (ground (arith, h))

pub flush_out_buf-Emits : (w : DeflateBitWriter) → Emits w (flush_out_buf w) []
unfolding flush_out_buf bytes_out
flush_out_buf-Emits w = elim (Bool-cases (length w.out_buf == 0)) [
  | inl nothing ↦
      rw nothing (record { bytes = sym (append-nil _); byte = refl; used = refl; total = refl })
  | inr some_bytes ↦ rw some_bytes (record { bytes = refl; byte = refl; used = refl; total = refl })
]

pub flush_out_buf-empty : (w : DeflateBitWriter) → (flush_out_buf w).out_buf ≡ []
unfolding flush_out_buf
flush_out_buf-empty w = elim (Bool-cases (length w.out_buf == 0)) [
  | inl nothing ↦ rw nothing (empty_list w.out_buf nothing)
  | inr some_bytes ↦ rw some_bytes
]

Emits-trans :
    (w v u : DeflateBitWriter) (xs ys : List ℕ) → Emits w v xs → Emits v u ys → Emits w u (xs ++ ys)
Emits-trans w v u xs ys e f = record {
  bytes = f.bytes ∙ ap (λ (l : List ℕ). l ++ ys) e.bytes ∙ append_assoc (bytes_out w) xs ys;
  byte = f.byte ∙ e.byte;
  used = f.used ∙ e.used;
  total = f.total ∙ e.total;
}

-- A flush, or none.
Emits-flush :
    (w v : DeflateBitWriter) (xs : List ℕ) (test : Bool)
    → Emits w v xs
    → Emits w (if test then flush_out_buf v else v) xs
Emits-flush w v xs false e = e
Emits-flush w v xs true e =
    rw (append-nil xs) at (Emits-trans w v (flush_out_buf v) xs [] e (flush_out_buf-Emits v))

pub emit_byte-Emits : (w : DeflateBitWriter) (byte : ℕ) → Emits w (emit_byte w byte) (byte ∷ [])
unfolding emit_byte bytes_out
emit_byte-Emits w byte =
    let v = record w { out_buf = w.out_buf ++ (byte ∷ []) } in
    Emits-flush w v (byte ∷ []) (leb (32 * 1024) (length v.out_buf)) (record {
      bytes = sym (append_assoc w.inner w.out_buf (byte ∷ []));
      byte = refl;
      used = refl;
      total = refl;
    })

buffer_bytes-Emits : (w : DeflateBitWriter) (bytes : List ℕ) → Emits w (buffer_bytes w bytes) bytes
unfolding buffer_bytes bytes_out
buffer_bytes-Emits w bytes =
    let v = record w { out_buf = w.out_buf ++ bytes } in
    Emits-flush w v bytes (leb (32 * 1024) (length v.out_buf)) (record {
      bytes = sym (append_assoc w.inner w.out_buf bytes);
      byte = refl;
      used = refl;
      total = refl;
    })

-- Bytes that go to the inner writer past an empty buffer.
direct-Emits :
    (w : DeflateBitWriter) (bytes : List ℕ)
    → w.out_buf ≡ []
    → Emits w (record w { inner = w.inner ++ bytes }) bytes
unfolding bytes_out
direct-Emits w bytes e = record {
  bytes = rw e (simp append-nil);
  byte = refl;
  used = refl;
  total = refl;
}

Emits-if :
    (w v u : DeflateBitWriter) (xs : List ℕ) (test : Bool)
    → (test ≡ true → Emits w v xs)
    → (test ≡ false → Emits w u xs)
    → Emits w (if test then v else u) xs
Emits-if w v u xs true h k = h refl
Emits-if w v u xs false h k = k refl

no_bytes-Emits : (w : DeflateBitWriter) (bytes : List ℕ) → bytes ≡ [] → Emits w w bytes
no_bytes-Emits w bytes e =
    rw e (record { bytes = sym (append-nil _); byte = refl; used = refl; total = refl })

flushed-Emits :
    (w v : DeflateBitWriter) (bytes : List ℕ) → Emits (flush_out_buf w) v bytes → Emits w v bytes
flushed-Emits w v bytes = Emits-trans w (flush_out_buf w) v [] bytes (flush_out_buf-Emits w)

pub emit_bytes-Emits : (w : DeflateBitWriter) (bytes : List ℕ) → Emits w (emit_bytes w bytes) bytes
unfolding emit_bytes
emit_bytes-Emits w bytes =
    let flushed = flush_out_buf w in
    let long = leb (16 * 1024) (length bytes) in
    Emits-if w _ _ bytes (length bytes == 0)
      (λ none. no_bytes-Emits w bytes (empty_list bytes none))
      (λ _.
        Emits-if w _ _ bytes (length w.out_buf == 0 && long)
          (λ h. direct-Emits w bytes (empty_list w.out_buf (ground (arith, h))))
          (λ _.
            Emits-if w _ _ bytes (ltb (64 * 1024) (length w.out_buf + length bytes))
              (λ _.
                Emits-if w _ _ bytes long
                  (λ _.
                    flushed-Emits w _ bytes (direct-Emits flushed bytes (flush_out_buf-empty w)))
                  (λ _. flushed-Emits w _ bytes (buffer_bytes-Emits flushed bytes)))
              (λ _. buffer_bytes-Emits w bytes)))
