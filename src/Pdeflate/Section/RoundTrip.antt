-- ===== src/Pdeflate/Section/RoundTrip.antt =====
-- `decode_section` reads back a command stream: its output is what the commands expand to.
use cozip.Base.{
  ℕ, zero, suc, ◌+◌, ◌≤◌, ◌<◌, ◌≡◌, refl, sym, List, [], ◌∷◌, ◌++◌, append_assoc, append-nil, subst,
  arith, lt→ltb, ge→ltb, length, length-append, length-take, get_or, All, ==_self,
}
use cozip.Base.At.{At, At-start, At-step}
use cozip.Base.Results.{ok, usize_bound}
use cozip.Pdeflate.Command.{literal_tag}
use cozip.Pdeflate.Command.Stream.{
  Command, literal, reference, command_bytes, stream, IsCommand, IsRow, expand, expand_all,
}
use cozip.Pdeflate.Section.{decode_section_loop, decode_section}
use cozip.Pdeflate.Section.Decode.{get_or-All, decode_command-command_bytes}

expand_pos :
    (table_repeat : List (List ℕ)) (cmd : Command)
    → IsCommand (length table_repeat) cmd
    → All IsRow table_repeat
    → 0 < length (expand table_repeat cmd)
unfolding expand
expand_pos table_repeat (literal bytes) valid rows = valid.0
expand_pos table_repeat (reference id len) valid rows =
    rw (length-take len (get_or table_repeat id []), get_or-All table_repeat id valid.0 rows)
      (omega arith)

module _ {cmd_bytes : List ℕ} (small : length cmd_bytes < usize_bound) where
  decode_section_loop-stream :
      (rounds expected : ℕ) (table_repeat : List (List ℕ)) (c out_cursor : ℕ) (out : List ℕ)
      (cmds : List Command) (rest : List ℕ)
      → At cmd_bytes c (stream cmds ++ rest)
      → All (IsCommand (length table_repeat)) cmds
      → length table_repeat ≤ literal_tag
      → All IsRow table_repeat
      → out_cursor + length (expand_all table_repeat cmds) ≡ expected
      → expected ≤ out_cursor + rounds
      → decode_section_loop rounds cmd_bytes expected table_repeat c out_cursor out
        ≡ ok (c + length (stream cmds), out ++ expand_all table_repeat cmds)
  unfolding decode_section_loop stream expand_all
  decode_section_loop-stream zero expected table_repeat c out_cursor out [] rest at valid ht rows he
        hr =
      let e : c + 0 ≡ c = omega arith in rw (e, append-nil)
  decode_section_loop-stream (suc rounds) expected table_repeat c out_cursor out [] rest at valid ht
        rows he hr =
      let e : c + 0 ≡ c = omega arith in
      rw (ge→ltb out_cursor expected (omega arith), e, append-nil)
  decode_section_loop-stream zero expected table_repeat c out_cursor out (cmd ∷ cmds) rest at valid
        ht rows he hr =
      let bytes = expand table_repeat cmd in
      absurd (
        omega (
          arith,
          expand_pos table_repeat cmd valid.0 rows,
          length-append bytes (expand_all table_repeat cmds),
        ))
  decode_section_loop-stream (suc rounds) expected table_repeat c out_cursor out (cmd ∷ cmds) rest
        at valid ht rows he hr =
      let bytes = expand table_repeat cmd in
      let size = length-append bytes (expand_all table_repeat cmds) in
      let some_out = expand_pos table_repeat cmd valid.0 rows in
      let at' : At cmd_bytes c (command_bytes cmd ++ (stream cmds ++ rest)) =
        rw append_assoc at at in
      let behind : At cmd_bytes (c + length (command_bytes cmd)) (stream cmds ++ rest) =
        At-step (c + length (command_bytes cmd)) (command_bytes cmd) (stream cmds ++ rest) at'
          refl in
      let end : c + length (command_bytes cmd) + length (stream cmds)
          ≡ c + length (command_bytes cmd ++ stream cmds) =
        omega (arith, length-append (command_bytes cmd) (stream cmds)) in
      rw (
        lt→ltb out_cursor expected (omega arith),
        decode_command-command_bytes small expected table_repeat c out_cursor cmd
            (stream cmds ++ rest) at' valid.0 ht rows (omega arith),
        decode_section_loop-stream rounds expected table_repeat (c + length (command_bytes cmd))
            (out_cursor + length bytes) (out ++ bytes) cmds rest behind valid.1 ht rows
            (omega arith) (omega arith),
        end,
        append_assoc,
      )

-- `decode_section` on a stream of valid commands fills the section with what they expand to. The
-- table has at most 4095 rows of 270 bytes, and the stream is shorter than 2 ^ 64 bytes.
pub decode_section-stream :
    (table_repeat : List (List ℕ)) (cmds : List Command) (out_len : ℕ)
    → length (stream cmds) < usize_bound
    → length table_repeat ≤ literal_tag
    → All IsRow table_repeat
    → All (IsCommand (length table_repeat)) cmds
    → length (expand_all table_repeat cmds) ≡ out_len
    → decode_section (stream cmds) out_len table_repeat out_len ≡ ok (expand_all table_repeat cmds)
unfolding decode_section
decode_section-stream table_repeat cmds out_len small ht rows valid he =
    let at : At (stream cmds) 0 (stream cmds ++ []) =
      subst (At (stream cmds) 0) (sym (append-nil (stream cmds))) (At-start (stream cmds)) in
    let run =
      decode_section_loop-stream small out_len out_len table_repeat 0 0 [] cmds [] at valid ht rows
        (omega arith) (omega arith) in
    let end : 0 + length (stream cmds) ≡ length (stream cmds) = omega arith in
    rw (==_self out_len, run, end, ==_self (length (stream cmds)))
