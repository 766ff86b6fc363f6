-- ===== src/Pdeflate/Command.antt =====
-- The command stream of a section: `write_cmd_header`, `emit_ref_command` and
-- `emit_literal_command` of cozip_pdeflate/src/pdeflate/mod.rs. A command is a 16-bit word (tag in
-- the low 12 bits, length in the high 4), an extension byte for lengths from 15 on, and for a
-- literal the bytes.
pub mod Header
pub mod Stream
pub mod Emit
use cozip.Base.{
  ℕ, zero, suc, ◌+◌, ◌-◌, ◌*◌, ◌%◌, ◌^◌, List, [], ◌∷◌, ◌++◌, min, bit_and, bit_or, ltb, leb, ◌==◌,
  ◌||◌, if◌then◌else◌, length, take, drop,
}
use cozip.Base.Results.{ok, err, ◌>>=◌, ◌>>◌, fail_if, try_from}
use cozip.Pdeflate.Cursor.{write_u16_le, write_u8}
use cozip.Pdeflate.Error.{Result, invalid_options, numeric_overflow}

abbrev pub literal_tag : ℕ
literal_tag = 0x0fff

abbrev pub max_inline_len : ℕ
max_inline_len = 14

abbrev pub ext_len_base : ℕ
ext_len_base = 15

abbrev pub ext_len_max : ℕ
ext_len_max = 255

abbrev pub max_cmd_len : ℕ
max_cmd_len = ext_len_base + ext_len_max

abbrev pub write_inline : List ℕ → ℕ → ℕ → Result (List ℕ)
write_inline dst tag len = do
  len4 ← try_from 16 len numeric_overflow
  ok (write_u16_le dst (bit_or (len4 * 2 ^ 12 % 2 ^ 16) (bit_and tag 0x0fff)))

abbrev pub write_extended : List ℕ → ℕ → ℕ → Result (List ℕ)
write_extended dst tag len = do
  ext_u8 ← try_from 8 (len - ext_len_base) numeric_overflow
  let cmd = bit_or (0x000f * 2 ^ 12 % 2 ^ 16) (bit_and tag 0x0fff)
  ok (write_u8 (write_u16_le dst cmd) ext_u8)

unfoldable pub write_cmd_header : List ℕ → ℕ → ℕ → Result (List ℕ)
write_cmd_header dst tag len = do
  fail_if (ltb literal_tag tag) (invalid_options "invalid command tag")
  fail_if (len == 0 || ltb max_cmd_len len) (invalid_options "invalid command length")
  if leb len max_inline_len then write_inline dst tag len else write_extended dst tag len

-- `while len > 0`, where every round takes one at least: `len` rounds are enough.
unfoldable pub emit_ref_loop : ℕ → List ℕ → ℕ → ℕ → Result (List ℕ)
emit_ref_loop zero dst id len = ok dst
emit_ref_loop (suc rounds) dst id len =
    let part = min len max_cmd_len in
    let round =
      write_cmd_header dst id part >>= λ dst'. emit_ref_loop rounds dst' id (len - part) in
    if ltb 0 len
    then (if ltb part 3 then err (invalid_options "reference len < 3") else round)
    else ok dst

unfoldable pub emit_ref_command : List ℕ → ℕ → ℕ → Result (List ℕ)
emit_ref_command dst id len =
    if leb literal_tag id
    then err (invalid_options "table id overflow")
    else emit_ref_loop len dst id len

-- `while pos < bytes.len()`: as many rounds as bytes are enough.
unfoldable pub emit_literal_loop : ℕ → List ℕ → List ℕ → ℕ → Result (List ℕ)
emit_literal_loop zero dst bytes pos = ok dst
emit_literal_loop (suc rounds) dst bytes pos =
    let part = min (length bytes - pos) max_cmd_len in
    let round = write_cmd_header dst literal_tag part >>= λ dst'.
    emit_literal_loop rounds (dst' ++ take part (drop pos bytes)) bytes (pos + part) in
    if ltb pos (length bytes) then round else ok dst

unfoldable pub emit_literal_command : List ℕ → List ℕ → Result (List ℕ)
emit_literal_command dst bytes = emit_literal_loop (length bytes) dst bytes 0
