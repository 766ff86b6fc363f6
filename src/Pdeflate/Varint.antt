-- ===== src/Pdeflate/Varint.antt =====
-- `write_varint_u32` and `read_varint_u32` of cozip_pdeflate/src/pdeflate/mod.rs: seven bits a
-- byte, lowest group first, in at most five bytes.
pub mod RoundTrip
use mathlib.Core.Logic.{dite}
use mathlib.Core.WellFounded.{Acc}
use native.Mathlib.Decide.{dec_le}
use cozip.Base.{
  ℕ, zero, suc, ◌+◌, ◌*◌, ◌/◌, ◌%◌, ◌^◌, ◌≤◌, ◌<◌, List, [], ◌∷◌, ◌++◌, arith, leb, ◌==◌, get_or,
  if◌then◌else◌, bit_and, bit_or,
}
use cozip.Base.Order.{lt_wf}
use cozip.Base.Results.{ok, err, ◌>>=◌}
use cozip.Pdeflate.Cursor.{read_exact}
use cozip.Pdeflate.Error.{Result, invalid_stream}

shift_down : (v : ℕ) → 0x80 ≤ v → v / 2 ^ 7 < v
shift_down v h = omega arith

-- The loop stops once `v` has no bit above the low seven.
write_varint_loop : List ℕ → (v : ℕ) → Acc ◌<◌ v → List ℕ
write_varint_loop dst v (Acc.intro _ smaller) =
    dite (dec_le 0x80 v)
      (λ more.
        write_varint_loop (dst ++ (bit_or (bit_and v 0x7f) 0x80 ∷ [])) (v / 2 ^ 7)
          (smaller _ (shift_down v more)))
      (λ _. dst ++ (bit_and v 0x7f ∷ []))

unfoldable pub write_varint_u32 : List ℕ → ℕ → List ℕ
unfolding write_varint_loop shift_down lt_wf dec_le
write_varint_u32 dst v = write_varint_loop dst v (lt_wf.apply v)

-- `shift` is 35 after five rounds, so the sixth always stops; `<<` drops what leaves the 32 bits.
unfoldable pub read_varint_loop : ℕ → List ℕ → ℕ → ℕ → ℕ → Result (ℕ × ℕ)
read_varint_loop zero src cursor shift value = err (invalid_stream "varint overflow")
read_varint_loop (suc rounds) src cursor shift value =
    if leb 35 shift then err (invalid_stream "varint overflow") else do
      (bytes, cursor') ← read_exact src cursor 1
      let b = get_or bytes 0 0
      let value' = bit_or value (bit_and b 0x7f * 2 ^ shift % 2 ^ 32)
      let more = read_varint_loop rounds src cursor' (shift + 7) value'
      if bit_and b 0x80 == 0 then ok (value', cursor') else more

unfoldable pub read_varint_u32 : List ℕ → ℕ → Result (ℕ × ℕ)
read_varint_u32 src cursor = read_varint_loop 6 src cursor 0 0
