-- ===== src/Pdeflate/Varint/RoundTrip.antt =====
-- Written varints are read back, at any cursor, whatever follows them.
use mathlib.Core.WellFounded.{Acc}
use native.Mathlib.Nat.{pow-suc}
use cozip.Base.Order.{lt_wf}
use cozip.Base.{
  ℕ, zero, suc, ◌+◌, ◌*◌, ◌/◌, ◌%◌, ◌^◌, ◌≤◌, ◌<◌, ◌≡◌, refl, List, [], ◌∷◌, ◌++◌, append_assoc,
  arith, length, length-append, bit_and, bit_or, false, leb, le→leb, ◌==◌, if◌then◌else◌,
  Bool-cases, inl, inr,
}
use cozip.Base.At.{At, At-step, At-append}
use cozip.Base.Bits.{bit_or_fields_rev}
use cozip.Base.Groups.{
  groups, length-groups, low_seven, top_bit, set_top_bit, split_group, pow_seven,
}
use cozip.Base.Results.{ok, usize_bound}
use cozip.Pdeflate.Cursor.Laws.{read_exact-At}
use cozip.Pdeflate.Varint.{write_varint_loop, write_varint_u32, read_varint_loop, read_varint_u32}

write_varint_loop-groups :
    (k : ℕ) (dst : List ℕ) (v : ℕ) (w : Acc ◌<◌ v)
    → v < 128 ^ suc k
    → write_varint_loop dst v w ≡ dst ++ groups k v
unfolding write_varint_loop groups
write_varint_loop-groups zero dst v (Acc.intro _ smaller) h = ground (arith, low_seven v)
write_varint_loop-groups (suc k) dst v (Acc.intro _ smaller) h =
    let head : List ℕ = (v % 128 + 128) ∷ [] in
    grind (
      arith,
      low_seven v,
      set_top_bit (v % 128),
      λ (w : Acc ◌<◌ (v / 128)). write_varint_loop-groups k (dst ++ head) (v / 128) w (omega arith),
      append_assoc dst head (groups k (v / 128)),
    )

-- A written varint is the groups of the number, behind what was there.
pub write_varint_u32-groups :
    (dst : List ℕ) (v : ℕ) → v < 2 ^ 32 → write_varint_u32 dst v ≡ dst ++ groups 4 v
unfolding write_varint_u32
write_varint_u32-groups dst v h = write_varint_loop-groups 4 dst v (lt_wf.apply v) (omega arith)

module _ {src : List ℕ} (small : length src < usize_bound) where
  -- One round of the reader on the byte `b`.
  read_varint_round :
      (rounds c s value b : ℕ) (rest : List ℕ)
      → At src c (b ∷ rest)
      → s < 35
      → value < 2 ^ s
      → b < 256
      → value + b % 128 * 2 ^ s < 2 ^ 32
      → read_varint_loop (suc rounds) src c s value ≡ (
          if leb b 127
          then ok (value + b % 128 * 2 ^ s, c + 1)
          else read_varint_loop rounds src (c + 1) (s + 7) (value + b % 128 * 2 ^ s))
  unfolding read_varint_loop
  read_varint_round rounds c s value b rest at hs hv hb fits =
      rw (t35, read_exact-At small 1 (b ∷ []) rest refl at, joined, last)
    where
      t35 : leb 35 s ≡ false
      t35 = ground arith

      joined : bit_or value (bit_and b 0x7f * 2 ^ s % 2 ^ 32) ≡ value + b % 128 * 2 ^ s
      joined = rw low_seven (ground (arith, bit_or_fields_rev s (b % 128) value))

      last : (bit_and b 0x80 == 0) ≡ leb b 127
      last = rw top_bit (ground arith)

  last_round :
      (rounds c s value w : ℕ) (rest : List ℕ)
      → At src c (w ∷ rest)
      → s < 35
      → value < 2 ^ s
      → w < 128
      → value + w * 2 ^ s < 2 ^ 32
      → read_varint_loop (suc rounds) src c s value ≡ ok (value + w * 2 ^ s, c + 1)
  last_round rounds c s value w rest at hs hv hw fits =
      let e : w % 128 ≡ w = omega arith in
      rw (read_varint_round rounds c s value w rest at hs hv (omega arith) (rw e fits))
        (rw (e, le→leb w 127 (omega arith)))

  inner_round :
      (rounds c s value g : ℕ) (rest : List ℕ)
      → At src c ((g + 128) ∷ rest)
      → s < 35
      → value < 2 ^ s
      → g < 128
      → value + g * 2 ^ s < 2 ^ 32
      → read_varint_loop (suc rounds) src c s value
        ≡ read_varint_loop rounds src (c + 1) (s + 7) (value + g * 2 ^ s)
  inner_round rounds c s value g rest at hs hv hg fits =
      let e : (g + 128) % 128 ≡ g = omega arith in
      let more : leb (g + 128) 127 ≡ false = ground arith in
      rw (read_varint_round rounds c s value (g + 128) rest at hs hv (omega arith) (rw e fits))
        (rw (e, more))

  read_varint_loop-groups :
      (k rounds c s value w : ℕ) (rest : List ℕ)
      → At src c (groups k w ++ rest)
      → s + 7 * k ≤ 28
      → k < rounds
      → value < 2 ^ s
      → w < 128 ^ suc k
      → value + w * 2 ^ s < 2 ^ 32
      → read_varint_loop rounds src c s value ≡ ok (value + w * 2 ^ s, c + length (groups k w))
  unfolding groups
  read_varint_loop-groups k zero c s value w rest at hs hk hv hw fits = absurd (omega arith)
  read_varint_loop-groups zero (suc rounds) c s value w rest at hs hk hv hw fits =
      last_round rounds c s value w rest at (omega arith) hv (omega arith) fits
  read_varint_loop-groups (suc k) (suc rounds) c s value w rest at hs hk hv hw fits =
      elim (Bool-cases (leb 0x80 w)) [
        | inl big ↦
            let at' : At src c (((w % 128 + 128) ∷ groups k (w / 128)) ++ rest) = rw big at at in
            rw
              (
                big,
                inner_round rounds c s value (w % 128) _ at' (omega arith) hv (omega arith)
                    (omega (arith, split_group w s)),
                read_varint_loop-groups k rounds (c + 1) (s + 7) (value + w % 128 * 2 ^ s) (w / 128)
                    rest
                    (At-step (c + 1) ((w % 128 + 128) ∷ []) (groups k (w / 128) ++ rest) at' refl)
                    (omega arith) (omega arith) (grind (arith, pow_seven s))
                    (omega (arith, pow-suc 128 (suc k))) (omega (arith, split_group w s)),
              )
              (ground (arith, split_group w s))
        | inr low ↦
            let at' : At src c ((w ∷ []) ++ rest) = rw low at at in
            rw (low, last_round rounds c s value w rest at' (omega arith) hv (ground arith) fits)
      ]

-- Reading a written u32 returns it, and leaves the cursor behind it.
pub read_varint_u32-groups :
    {src : List ℕ} {c : ℕ} (v : ℕ) (rest : List ℕ)
    → length src < usize_bound
    → v < 2 ^ 32
    → At src c (groups 4 v ++ rest)
    → read_varint_u32 src c ≡ ok (v, c + length (groups 4 v))
unfolding read_varint_u32
read_varint_u32-groups {src} {c} v rest small h at =
    ground (arith, read_varint_loop-groups small 4 6 c 0 0 v rest at)

-- A u32 that is written behind any bytes, with any bytes after it, is read back from where it was
-- written, and the cursor then stands behind it; it takes one to five bytes. All together is
-- shorter than 2 ^ 64 bytes.
pub read_varint_u32-write_varint_u32 :
    (dst : List ℕ) (v : ℕ) (rest : List ℕ)
    → v < 2 ^ 32
    → length (write_varint_u32 dst v ++ rest) < usize_bound
    → (read_varint_u32 (write_varint_u32 dst v ++ rest) (length dst)
        ≡ ok (v, length (write_varint_u32 dst v)))
      × (length dst + 1 ≤ length (write_varint_u32 dst v))
      × (length (write_varint_u32 dst v) ≤ length dst + 5)
read_varint_u32-write_varint_u32 dst v rest h small =
    let e = write_varint_u32-groups dst v h in
    let whole : (dst ++ groups 4 v) ++ rest ≡ dst ++ (groups 4 v ++ rest) =
      append_assoc dst (groups 4 v) rest in
    let small' : length (dst ++ (groups 4 v ++ rest)) < usize_bound = rw (e, whole) at small in
    let at = At-append dst (groups 4 v ++ rest) in
    let size = length-append dst (groups 4 v) in
    rw (e, whole, read_varint_u32-groups v rest small' h at, size)
      (refl, omega (arith, length-groups 4 v), omega (arith, length-groups 4 v))
