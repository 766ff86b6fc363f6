-- ===== src/Deflate/Leb128.antt =====
-- `append_uleb128_u64` and `read_uleb128_u64` of cozip_deflate/src/lib.rs: seven bits a byte,
-- lowest group first, in at most ten bytes.
pub mod RoundTrip
use mathlib.Core.Logic.{dite}
use mathlib.Core.WellFounded.{Acc}
use native.Mathlib.Decide.{dec_le}
use cozip.Base.{
  ℕ, zero, suc, ◌+◌, ◌*◌, ◌/◌, ◌%◌, ◌^◌, ◌≤◌, ◌<◌, List, [], ◌∷◌, ◌++◌, arith, ◌==◌, get_elem?,
  if◌then◌else◌, bit_and, bit_or, min,
}
use cozip.Base.Order.{lt_wf}
use cozip.Base.Results.{ok, err, ◌>>=◌, ok_or}
use cozip.Deflate.Error.{Result, invalid_frame}

shift_down : (value : ℕ) → 1 ≤ value / 2 ^ 7 → value / 2 ^ 7 < value
shift_down value h = omega arith

-- The loop stops once nothing is left above the group that it writes.
append_uleb128_loop : List ℕ → (value : ℕ) → Acc ◌<◌ value → List ℕ
append_uleb128_loop out value (Acc.intro _ smaller) =
    dite (dec_le 1 (value / 2 ^ 7))
      (λ more.
        append_uleb128_loop (out ++ (bit_or (bit_and value 0x7f) 0x80 ∷ [])) (value / 2 ^ 7)
          (smaller _ (shift_down value more)))
      (λ _. out ++ (bit_and value 0x7f ∷ []))

unfoldable pub append_uleb128_u64 : List ℕ → ℕ → List ℕ
unfolding append_uleb128_loop shift_down lt_wf dec_le
append_uleb128_u64 out value = append_uleb128_loop out value (lt_wf.apply value)

-- `saturating_add` on a u32.
abbrev saturating_add_u32 : ℕ → ℕ → ℕ
saturating_add_u32 a b = min (a + b) 0xffffffff

-- `<<` drops what leaves the 64 bits; the shift is at most 63 in the ten rounds.
unfoldable pub read_uleb128_loop : ℕ → List ℕ → ℕ → ℕ → ℕ → Result (ℕ × ℕ)
read_uleb128_loop zero bytes pos shift value = err (invalid_frame "uleb128 value too large")
read_uleb128_loop (suc rounds) bytes pos shift value = do
  byte ← ok_or (get_elem? bytes pos) (invalid_frame "truncated uleb128")
  let value' = bit_or value (bit_and byte 0x7f * 2 ^ shift % 2 ^ 64)
  let more = read_uleb128_loop rounds bytes (pos + 1) (saturating_add_u32 shift 7) value'
  if bit_and byte 0x80 == 0 then ok (value', pos + 1) else more

unfoldable pub read_uleb128_u64 : List ℕ → ℕ → Result (ℕ × ℕ)
read_uleb128_u64 bytes pos = read_uleb128_loop 10 bytes pos 0 0
