-- ===== src/Deflate/Leb128/RoundTrip.antt =====
-- Written ULEB128 numbers are read back, at any position, whatever follows them.
use mathlib.Core.WellFounded.{Acc}
use native.Mathlib.Nat.{pow-suc}
use cozip.Base.Order.{lt_wf}
use cozip.Base.{
  ℕ, zero, suc, ◌+◌, ◌*◌, ◌/◌, ◌%◌, ◌^◌, ◌≤◌, ◌<◌, ◌≡◌, refl, List, [], ◌∷◌, ◌++◌, append_assoc,
  arith, length, length-append, bit_and, bit_or, min, false, leb, le→leb, ◌==◌, if◌then◌else◌,
  Bool-cases, inl, inr,
}
use cozip.Base.At.{At, At-step, At-append, get_elem?-At}
use cozip.Base.Bits.{bit_or_fields_rev}
use cozip.Base.Groups.{
  groups, length-groups, low_seven, top_bit, set_top_bit, split_group, pow_seven,
}
use cozip.Base.Results.{ok}
use cozip.Deflate.Leb128.{
  append_uleb128_loop, append_uleb128_u64, read_uleb128_loop, read_uleb128_u64,
}

append_uleb128_loop-groups :
    (k : ℕ) (out : List ℕ) (v : ℕ) (w : Acc ◌<◌ v)
    → v < 128 ^ suc k
    → append_uleb128_loop out v w ≡ out ++ groups k v
unfolding append_uleb128_loop groups
append_uleb128_loop-groups zero out v (Acc.intro _ smaller) h = ground (arith, low_seven v)
append_uleb128_loop-groups (suc k) out v (Acc.intro _ smaller) h =
    let head : List ℕ = (v % 128 + 128) ∷ [] in
    grind (
      arith,
      low_seven v,
      set_top_bit (v % 128),
      λ (w : Acc ◌<◌ (v / 128)).
          append_uleb128_loop-groups k (out ++ head) (v / 128) w (omega arith),
      append_assoc out head (groups k (v / 128)),
    )

pub append_uleb128_u64-groups :
    (out : List ℕ) (v : ℕ) → v < 2 ^ 64 → append_uleb128_u64 out v ≡ out ++ groups 9 v
unfolding append_uleb128_u64
append_uleb128_u64-groups out v h = append_uleb128_loop-groups 9 out v (lt_wf.apply v) (omega arith)

module _ {bytes : List ℕ} where
  -- One round of the reader on the byte `b`.
  read_uleb128_round :
      (rounds c s value b : ℕ) (rest : List ℕ)
      → At bytes c (b ∷ rest)
      → s < 64
      → value < 2 ^ s
      → b < 256
      → value + b % 128 * 2 ^ s < 2 ^ 64
      → read_uleb128_loop (suc rounds) bytes c s value ≡ (
          if leb b 127
          then ok (value + b % 128 * 2 ^ s, c + 1)
          else read_uleb128_loop rounds bytes (c + 1) (s + 7) (value + b % 128 * 2 ^ s))
  unfolding read_uleb128_loop
  read_uleb128_round rounds c s value b rest at hs hv hb fits =
      rw (get_elem?-At b rest at, joined, last, further)
    where
      joined : bit_or value (bit_and b 0x7f * 2 ^ s % 2 ^ 64) ≡ value + b % 128 * 2 ^ s
      joined = rw low_seven (ground (arith, bit_or_fields_rev s (b % 128) value))

      last : (bit_and b 0x80 == 0) ≡ leb b 127
      last = rw top_bit (ground arith)

      further : min (s + 7) 0xffffffff ≡ s + 7
      further = omega arith

  last_round :
      (rounds c s value w : ℕ) (rest : List ℕ)
      → At bytes c (w ∷ rest)
      → s < 64
      → value < 2 ^ s
      → w < 128
      → value + w * 2 ^ s < 2 ^ 64
      → read_uleb128_loop (suc rounds) bytes c s value ≡ ok (value + w * 2 ^ s, c + 1)
  last_round rounds c s value w rest at hs hv hw fits =
      let e : w % 128 ≡ w = omega arith in
      rw (read_uleb128_round rounds c s value w rest at hs hv (omega arith) (rw e fits))
        (rw (e, le→leb w 127 (omega arith)))

  inner_round :
      (rounds c s value g : ℕ) (rest : List ℕ)
      → At bytes c ((g + 128) ∷ rest)
      → s < 64
      → value < 2 ^ s
      → g < 128
      → value + g * 2 ^ s < 2 ^ 64
      → read_uleb128_loop (suc rounds) bytes c s value
        ≡ read_uleb128_loop rounds bytes (c + 1) (s + 7) (value + g * 2 ^ s)
  inner_round rounds c s value g rest at hs hv hg fits =
      let e : (g + 128) % 128 ≡ g = omega arith in
      let more : leb (g + 128) 127 ≡ false = ground arith in
      rw (read_uleb128_round rounds c s value (g + 128) rest at hs hv (omega arith) (rw e fits))
        (rw (e, more))

  read_uleb128_loop-groups :
      (k rounds c s value w : ℕ) (rest : List ℕ)
      → At bytes c (groups k w ++ rest)
      → s + 7 * k ≤ 63
      → k < rounds
      → value < 2 ^ s
      → w < 128 ^ suc k
      → value + w * 2 ^ s < 2 ^ 64
      → read_uleb128_loop rounds bytes c s value ≡ ok (value + w * 2 ^ s, c + length (groups k w))
  unfolding groups
  read_uleb128_loop-groups k zero c s value w rest at hs hk hv hw fits = absurd (omega arith)
  read_uleb128_loop-groups zero (suc rounds) c s value w rest at hs hk hv hw fits =
      last_round rounds c s value w rest at (omega arith) hv (omega arith) fits
  read_uleb128_loop-groups (suc k) (suc rounds) c s value w rest at hs hk hv hw fits =
      elim (Bool-cases (leb 0x80 w)) [
        | inl big ↦
            let at' : At bytes c (((w % 128 + 128) ∷ groups k (w / 128)) ++ rest) = rw big at at in
            rw
              (
                big,
                inner_round rounds c s value (w % 128) _ at' (omega arith) hv (omega arith)
                    (omega (arith, split_group w s)),
                read_uleb128_loop-groups k rounds (c + 1) (s + 7) (value + w % 128 * 2 ^ s)
                    (w / 128) rest
                    (At-step (c + 1) ((w % 128 + 128) ∷ []) (groups k (w / 128) ++ rest) at' refl)
                    (omega arith) (omega arith) (grind (arith, pow_seven s))
                    (omega (arith, pow-suc 128 (suc k))) (omega (arith, split_group w s)),
              )
              (ground (arith, split_group w s))
        | inr low ↦
            let at' : At bytes c ((w ∷ []) ++ rest) = rw low at at in
            rw (low, last_round rounds c s value w rest at' (omega arith) hv (ground arith) fits)
      ]

pub read_uleb128_u64-groups :
    {bytes : List ℕ} {c : ℕ} (v : ℕ) (rest : List ℕ)
    → v < 2 ^ 64
    → At bytes c (groups 9 v ++ rest)
    → read_uleb128_u64 bytes c ≡ ok (v, c + length (groups 9 v))
unfolding read_uleb128_u64
read_uleb128_u64-groups {bytes} {c} v rest h at =
    ground (arith, read_uleb128_loop-groups 9 10 c 0 0 v rest at)

-- A u64 that is appended to any bytes, with any bytes after it, is read back from where it was
-- written, and the position then stands behind it; it takes one to ten bytes.
pub read_uleb128_u64-append_uleb128_u64 :
    (out : List ℕ) (v : ℕ) (rest : List ℕ)
    → v < 2 ^ 64
    → (read_uleb128_u64 (append_uleb128_u64 out v ++ rest) (length out)
        ≡ ok (v, length (append_uleb128_u64 out v)))
      × (length out + 1 ≤ length (append_uleb128_u64 out v))
      × (length (append_uleb128_u64 out v) ≤ length out + 10)
read_uleb128_u64-append_uleb128_u64 out v rest h =
    let e = append_uleb128_u64-groups out v h in
    let whole : (out ++ groups 9 v) ++ rest ≡ out ++ (groups 9 v ++ rest) =
      append_assoc out (groups 9 v) rest in
    let at = At-append out (groups 9 v ++ rest) in
    let size = length-append out (groups 9 v) in
    rw (e, whole, read_uleb128_u64-groups v rest h at, size)
      (refl, omega (arith, length-groups 9 v), omega (arith, length-groups 9 v))
