-- ===== src/Pdeflate/Section/Shape.antt =====
-- `decode_section` on any input: what a success says about the output and the input.
use cozip.Base.{
  ℕ, zero, suc, ◌+◌, ◌≤◌, ◌<◌, ◌≡◌, refl, List, [], ◌∷◌, ◌++◌, arith, ltb, ◌==◌, if◌then◌else◌,
  Bool-cases, inl, inr, length, length-append, length-take, length-drop, drop, get_or, All, bit_and,
  ◌/◌, ◌^◌,
}
use cozip.Base.Le.{from_le_bytes}
use cozip.Base.Results.{ok, ◌>>◌, fail_if, >>=-eq-ok}
use cozip.Pdeflate.Command.{literal_tag, max_cmd_len}
use cozip.Pdeflate.Command.Stream.{IsRow}
use cozip.Pdeflate.Error.{Result, invalid_stream}
use cozip.Pdeflate.Section.{
  decode_len, decode_literal, decode_reference, decode_command, decode_section_loop, decode_section,
}
use cozip.Pdeflate.Section.Decode.{get_or-All}

decode_literal_shape :
    (cmd_bytes : List ℕ) (c len c' : ℕ) (bytes : List ℕ)
    → decode_literal cmd_bytes c len ≡ ok (c', bytes)
    → (length bytes ≡ len) × (c' ≡ c + len) × (c' ≤ length cmd_bytes)
unfolding decode_literal
decode_literal_shape cmd_bytes c len c' bytes h =
    ground (arith, length-take len (drop c cmd_bytes), length-drop c cmd_bytes)

decode_reference_shape :
    (table_repeat : List (List ℕ)) (tag c len c' : ℕ) (bytes : List ℕ)
    → All IsRow table_repeat
    → len ≤ max_cmd_len
    → decode_reference table_repeat tag c len ≡ ok (c', bytes)
    → (length bytes ≡ len) × (c' ≡ c)
unfolding decode_reference
decode_reference_shape table_repeat tag c len c' bytes rows hm h =
    ground (arith, length-take len (get_or table_repeat tag []), row)
  where
    row : tag < length table_repeat → length (get_or table_repeat tag []) ≡ max_cmd_len
    row p = get_or-All table_repeat tag p rows

decode_len_cursor :
    (cmd_bytes : List ℕ) (c len4 len c' : ℕ) → decode_len cmd_bytes c len4 ≡ ok (len, c') → c ≤ c'
unfolding decode_len
decode_len_cursor cmd_bytes c len4 len c' h = ground arith

-- What follows the header of a command.
decode_tail : List ℕ → ℕ → List (List ℕ) → ℕ → ℕ → ℕ × ℕ → Result (ℕ × List ℕ)
decode_tail cmd_bytes expected table_repeat tag out_cursor r = do
  fail_if (r.0 == 0) (invalid_stream "zero-length command")
  fail_if (ltb max_cmd_len r.0) (invalid_stream "command len out of range")
  fail_if (ltb expected (out_cursor + r.0)) (invalid_stream "section output overflow")
  if tag == literal_tag
      then decode_literal cmd_bytes r.1 r.0
      else decode_reference table_repeat tag r.1 r.0

decode_tail_shape :
    (cmd_bytes : List ℕ) (expected : ℕ) (table_repeat : List (List ℕ)) (tag out_cursor len c c' : ℕ)
    (bytes : List ℕ)
    → All IsRow table_repeat
    → decode_tail cmd_bytes expected table_repeat tag out_cursor (len, c) ≡ ok (c', bytes)
    → (0 < length bytes) × (out_cursor + length bytes ≤ expected) × (c ≤ c')
unfolding decode_tail
decode_tail_shape cmd_bytes expected table_repeat tag out_cursor len c c' bytes rows h = ground (
  arith,
  decode_literal_shape cmd_bytes c len c' bytes,
  decode_reference_shape table_repeat tag c len c' bytes rows,
)

-- A command that is read has output, which fits the section, and moves the cursor by two bytes at
-- least.
decode_command_shape :
    (cmd_bytes : List ℕ) (expected : ℕ) (table_repeat : List (List ℕ)) (c out_cursor c' : ℕ)
    (bytes : List ℕ)
    → All IsRow table_repeat
    → decode_command cmd_bytes expected table_repeat c out_cursor ≡ ok (c', bytes)
    → (0 < length bytes) × (out_cursor + length bytes ≤ expected) × (c + 2 ≤ c')
unfolding decode_command decode_tail
decode_command_shape cmd_bytes expected table_repeat c out_cursor c' bytes rows h =
    let cmd = from_le_bytes (get_or cmd_bytes c 0 ∷ get_or cmd_bytes (c + 1) 0 ∷ []) in
    let tag = bit_and cmd 0x0fff in
    let len4 = bit_and (cmd / 2 ^ 12) 0x000f in
    elim (Bool-cases (ltb (length cmd_bytes) (c + 2))) [
      | inl short ↦ cc (rw short at h)
      | inr room ↦
          let (r, tail, e) =
            >>=-eq-ok (decode_len cmd_bytes (c + 2) len4)
              (decode_tail cmd_bytes expected table_repeat tag out_cursor) (rw room at h) in
          let shape =
            decode_tail_shape cmd_bytes expected table_repeat tag out_cursor r.0 r.1 c' bytes rows
              tail in
          (
            shape.0,
            shape.1,
            omega (arith, shape.2, decode_len_cursor cmd_bytes (c + 2) len4 r.0 r.1 e),
          )
    ]

decode_section_loop_shape :
    (rounds : ℕ) (cmd_bytes : List ℕ) (expected : ℕ) (table_repeat : List (List ℕ))
    (c out_cursor : ℕ) (out : List ℕ) (c' : ℕ) (out' : List ℕ)
    → All IsRow table_repeat
    → out_cursor ≡ length out
    → out_cursor ≤ expected
    → expected ≤ out_cursor + rounds
    → decode_section_loop rounds cmd_bytes expected table_repeat c out_cursor out ≡ ok (c', out')
    → length out' ≡ expected
unfolding decode_section_loop
decode_section_loop_shape zero cmd_bytes expected table_repeat c out_cursor out c' out' rows ho hl
      hr h =
    ground arith
decode_section_loop_shape (suc rounds) cmd_bytes expected table_repeat c out_cursor out c' out' rows
      ho hl hr h =
    elim (Bool-cases (ltb out_cursor expected)) [
      | inr done ↦ ground (arith, rw done at h)
      | inl more ↦
          let (r, tail, e) =
            >>=-eq-ok (decode_command cmd_bytes expected table_repeat c out_cursor) _
              (rw more at h) in
          let shape =
            decode_command_shape cmd_bytes expected table_repeat c out_cursor r.0 r.1 rows e in
          decode_section_loop_shape rounds cmd_bytes expected table_repeat r.0
            (out_cursor + length r.1) (out ++ r.1) c' out' rows
            (omega (arith, length-append out r.1)) (omega (arith, shape.1)) (omega (arith, shape.0))
            tail
    ]

-- Whatever the command bytes are, over a table of 270-byte rows a success of `decode_section`
-- fills the section exactly: as many bytes as were asked for.
pub length-decode_section :
    (cmd_bytes : List ℕ) (expected : ℕ) (table_repeat : List (List ℕ)) (out_len : ℕ) (out : List ℕ)
    → All IsRow table_repeat
    → decode_section cmd_bytes expected table_repeat out_len ≡ ok out
    → (length out ≡ expected) × (out_len ≡ expected)
unfolding decode_section
length-decode_section cmd_bytes expected table_repeat out_len out rows h =
    elim (Bool-cases (out_len == expected)) [
      | inr bad ↦ cc (rw bad at h)
      | inl same ↦
          let (r, tail, e) =
            >>=-eq-ok (decode_section_loop expected cmd_bytes expected table_repeat 0 0 []) _
              (rw same at h) in
          let size =
            decode_section_loop_shape expected cmd_bytes expected table_repeat 0 0 [] r.0 r.1 rows
              refl (omega arith) (omega arith) e in
          ground (arith, size, tail)
    ]
