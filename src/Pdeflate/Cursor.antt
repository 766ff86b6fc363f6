-- ===== src/Pdeflate/Cursor.antt =====
-- Reading and writing fixed-width integers at a cursor (`read_exact`, `read_*_le`, `write_*_le`
-- of cozip_pdeflate/src/pdeflate/mod.rs). A reader returns the value and the moved cursor, which
-- the source passes as `&mut usize`.
pub mod Laws
use cozip.Base.{ℕ, List, [], ◌∷◌, ◌++◌, get_or}
use cozip.Base.At.{get_range}
use cozip.Base.Le.{to_le_bytes, from_le_bytes}
use cozip.Base.Results.{ok, ◌>>=◌, ok_or, checked_add}
use cozip.Pdeflate.Error.{Result, invalid_stream, numeric_overflow}

unfoldable pub read_exact : List ℕ → ℕ → ℕ → Result (List ℕ × ℕ)
read_exact src cursor len = do
  end ← ok_or (checked_add cursor len) numeric_overflow
  slice ← ok_or (get_range src cursor end) (invalid_stream "unexpected eof")
  ok (slice, end)

unfoldable pub read_u8 : List ℕ → ℕ → Result (ℕ × ℕ)
read_u8 src cursor = do (bytes, cursor') ← read_exact src cursor 1; ok (get_or bytes 0 0, cursor')

unfoldable pub read_u16_le : List ℕ → ℕ → Result (ℕ × ℕ)
read_u16_le src cursor = do
  (bytes, cursor') ← read_exact src cursor 2
  ok (from_le_bytes bytes, cursor')

unfoldable pub read_u32_le : List ℕ → ℕ → Result (ℕ × ℕ)
read_u32_le src cursor = do
  (bytes, cursor') ← read_exact src cursor 4
  ok (from_le_bytes bytes, cursor')

unfoldable pub read_u64_le : List ℕ → ℕ → Result (ℕ × ℕ)
read_u64_le src cursor = do
  (bytes, cursor') ← read_exact src cursor 8
  ok (from_le_bytes bytes, cursor')

unfoldable pub write_u8 : List ℕ → ℕ → List ℕ
write_u8 dst v = dst ++ (v ∷ [])

unfoldable pub write_u16_le : List ℕ → ℕ → List ℕ
write_u16_le dst v = dst ++ to_le_bytes 2 v

unfoldable pub write_u32_le : List ℕ → ℕ → List ℕ
write_u32_le dst v = dst ++ to_le_bytes 4 v

unfoldable pub write_u64_le : List ℕ → ℕ → List ℕ
write_u64_le dst v = dst ++ to_le_bytes 8 v
