-- ===== src/Pdeflate/Section.antt =====
-- Sections of a chunk: `section_start`, `fill_repeat` and `decode_section` of
-- cozip_pdeflate/src/pdeflate/mod.rs. The profile counters are left out.
pub mod Bounds
pub mod Repeat
pub mod Decode
pub mod RoundTrip
pub mod Shape
use cozip.Base.{
  ℕ, zero, suc, ◌+◌, ◌-◌, ◌*◌, ◌/◌, ◌%◌, ◌^◌, List, [], ◌∷◌, ◌++◌, not, min, bit_and, ltb, leb,
  ◌==◌, ◌||◌, if◌then◌else◌, length, take, drop, replicate, get_or,
}
use cozip.Base.Le.{from_le_bytes}
use cozip.Base.Results.{ok, err, ◌>>=◌, ◌>>◌, fail_if, ok_or, checked_add, usize_bound}
use cozip.Pdeflate.Command.{literal_tag, ext_len_base, max_cmd_len}
use cozip.Pdeflate.Error.{Result, invalid_stream, numeric_overflow}

-- The product is a `u128`, and its quotient goes back to 64 bits. `!3` has all bits but two.
unfoldable pub section_start : ℕ → ℕ → ℕ → ℕ
section_start index section_count total_len =
    if section_count == 0 || total_len == 0
    then 0
    else if index == 0
    then 0
    else if leb section_count index
    then total_len
    else bit_and (index * total_len / section_count % usize_bound) (usize_bound - 1 - 3)

-- The loop that doubles what is filled; `filled` is what stands at the front of `dst`.
unfoldable pub fill_repeat_loop : ℕ → ℕ → List ℕ → List ℕ
fill_repeat_loop zero size filled = filled
fill_repeat_loop (suc rounds) size filled =
    let copy_len = min (length filled) (size - length filled) in
    let more = fill_repeat_loop rounds size (filled ++ take copy_len filled) in
    if ltb (length filled) size then more else filled

-- What `dst` holds afterwards. Every round adds a byte at least, so `length dst` rounds are enough.
unfoldable pub fill_repeat : List ℕ → List ℕ → List ℕ
fill_repeat dst pattern =
    if length dst == 0 || length pattern == 0
    then dst
    else if length pattern == 1
    then replicate (length dst) (get_or pattern 0 0)
    else fill_repeat_loop (length dst) (length dst)
        (take (min (length pattern) (length dst)) pattern)

-- The length of a command, and the cursor behind its header.
unfoldable pub decode_len : List ℕ → ℕ → ℕ → Result (ℕ × ℕ)
decode_len cmd_bytes cmd_cursor len4 =
    let ext =
      fail_if (leb (length cmd_bytes) cmd_cursor) (invalid_stream "missing ext len")
      >> ok (ext_len_base + get_or cmd_bytes cmd_cursor 0, cmd_cursor + 1) in
    if ltb len4 0x0f then ok (len4, cmd_cursor) else ext

-- `copy_nonoverlapping` from the command stream; the cursor behind the bytes, and the bytes.
unfoldable pub decode_literal : List ℕ → ℕ → ℕ → Result (ℕ × List ℕ)
decode_literal cmd_bytes cmd_cursor len = do
  lit_end ← ok_or (checked_add cmd_cursor len) numeric_overflow
  fail_if (ltb (length cmd_bytes) lit_end) (invalid_stream "unexpected eof")
  ok (lit_end, take len (drop cmd_cursor cmd_bytes))

-- `copy_nonoverlapping` from the repeated table entry `tag`.
unfoldable pub decode_reference : List (List ℕ) → ℕ → ℕ → ℕ → Result (ℕ × List ℕ)
decode_reference table_repeat tag cmd_cursor len = do
  fail_if (leb (length table_repeat) tag) (invalid_stream "table id out of range")
  fail_if (ltb len 3) (invalid_stream "reference command with len < 3")
  ok (cmd_cursor, take len (get_or table_repeat tag []))

-- One round of the loop of `decode_section`: the cursor behind the command, and its output.
unfoldable pub decode_command : List ℕ → ℕ → List (List ℕ) → ℕ → ℕ → Result (ℕ × List ℕ)
decode_command cmd_bytes expected_out_len table_repeat cmd_cursor out_cursor = do
  fail_if (ltb (length cmd_bytes) (cmd_cursor + 2)) (invalid_stream "unexpected eof")
  let cmd = from_le_bytes (get_or cmd_bytes cmd_cursor 0 ∷ get_or cmd_bytes (cmd_cursor + 1) 0 ∷ [])
  let tag = bit_and cmd 0x0fff
  let len4 = bit_and (cmd / 2 ^ 12) 0x000f
  (len, cursor) ← decode_len cmd_bytes (cmd_cursor + 2) len4
  fail_if (len == 0) (invalid_stream "zero-length command")
  fail_if (ltb max_cmd_len len) (invalid_stream "command len out of range")
  fail_if (ltb expected_out_len (out_cursor + len)) (invalid_stream "section output overflow")
  if tag == literal_tag
      then decode_literal cmd_bytes cursor len
      else decode_reference table_repeat tag cursor len

-- `out` is the part of the section that is written so far. Every round writes a byte at least, so
-- `expected_out_len` rounds are enough.
unfoldable pub decode_section_loop :
    ℕ → List ℕ → ℕ → List (List ℕ) → ℕ → ℕ → List ℕ → Result (ℕ × List ℕ)
decode_section_loop zero cmd_bytes expected_out_len table_repeat cmd_cursor out_cursor out =
    ok (cmd_cursor, out)
decode_section_loop (suc rounds) cmd_bytes expected_out_len table_repeat cmd_cursor out_cursor out =
    let round =
      decode_command cmd_bytes expected_out_len table_repeat cmd_cursor out_cursor
      >>= λ (cursor, bytes).
          decode_section_loop rounds cmd_bytes expected_out_len table_repeat cursor
            (out_cursor + length bytes) (out ++ bytes) in
    if ltb out_cursor expected_out_len then round else ok (cmd_cursor, out)

-- `out_len` is the length of the slice to fill; the result is what it holds afterwards.
unfoldable pub decode_section : List ℕ → ℕ → List (List ℕ) → ℕ → Result (List ℕ)
decode_section cmd_bytes expected_out_len table_repeat out_len = do
  fail_if (not (out_len == expected_out_len)) (invalid_stream "internal section size mismatch")
  (cursor, out) ←
      decode_section_loop expected_out_len cmd_bytes expected_out_len table_repeat 0 0 []
  fail_if (not (cursor == length cmd_bytes))
      (invalid_stream "trailing bytes in section command stream")
  ok out
