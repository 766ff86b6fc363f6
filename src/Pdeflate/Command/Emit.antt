-- ===== src/Pdeflate/Command/Emit.antt =====
-- `emit_literal_command` and `emit_ref_command` write command streams.
use cozip.Base.{
  ℕ, zero, suc, ◌+◌, ◌-◌, ◌≤◌, ◌<◌, ◌≡◌, refl, sym, ap, ◌∙◌, List, ◌++◌, append_assoc, length, take,
  drop, ltb, leb, arith, min, append-nil, take-min-length, drop-min-length, ge→ltb, lt→ltb,
  length-drop, length-take, drop-drop, Bool-cases, true, false, inl, inr,
}
use cozip.Base.Results.{ok}
use cozip.Pdeflate.Command.{
  emit_literal_loop, emit_literal_command, emit_ref_loop, emit_ref_command, literal_tag,
  max_cmd_len,
}
use cozip.Pdeflate.Command.Header.{write_cmd_header-cmd_header, cmd_header}
use cozip.Pdeflate.Command.Stream.{reference, stream, command_bytes, split_literal}

emit_literal_loop-stream :
    (rounds : ℕ) (dst bytes : List ℕ) (pos : ℕ)
    → emit_literal_loop rounds dst bytes pos
      ≡ ok (dst ++ stream (split_literal rounds (drop pos bytes)))
unfolding emit_literal_loop split_literal stream command_bytes
emit_literal_loop-stream zero dst bytes pos = ap ok (sym (append-nil dst))
emit_literal_loop-stream (suc rounds) dst bytes pos =
    let size = length-drop pos bytes in
    elim (Bool-cases (ltb pos (length bytes))) [
      | inl more ↦
          let part = min (length bytes - pos) max_cmd_len in
          let taken : take part (drop pos bytes) ≡ take max_cmd_len (drop pos bytes) =
            rw (← size) (take-min-length max_cmd_len (drop pos bytes)) in
          let left : drop (pos + part) bytes ≡ drop max_cmd_len (drop pos bytes) =
            sym (drop-drop pos part (pos + part) bytes refl)
            ∙ rw (← size) (drop-min-length max_cmd_len (drop pos bytes)) in
          let width : length (take max_cmd_len (drop pos bytes)) ≡ part =
            rw (length-take max_cmd_len (drop pos bytes), size) (omega arith) in
          let t2 : ltb 0 (length (drop pos bytes)) ≡ true = rw size (ground arith) in
          rw
            (
              more,
              t2,
              write_cmd_header-cmd_header dst literal_tag part (omega arith) (ground arith)
                  (omega arith),
              emit_literal_loop-stream rounds,
              taken,
              left,
            )
            (simp (width, append_assoc))
      | inr done ↦
          let t2 : ltb 0 (length (drop pos bytes)) ≡ false = rw size (ground arith) in
          rw (done, t2) (ap ok (sym (append-nil dst)))
    ]

-- A run of literals is cut into literal commands and appended to the section's commands.
pub emit_literal_command-stream :
    (dst bytes : List ℕ)
    → emit_literal_command dst bytes ≡ ok (dst ++ stream (split_literal (length bytes) bytes))
unfolding emit_literal_command
emit_literal_command-stream dst bytes = emit_literal_loop-stream (length bytes) dst bytes 0

emit_ref_loop_done : (rounds : ℕ) (dst : List ℕ) (id : ℕ) → emit_ref_loop rounds dst id 0 ≡ ok dst
unfolding emit_ref_loop
emit_ref_loop_done zero dst id = refl
emit_ref_loop_done (suc rounds) dst id = refl

emit_ref_loop_round :
    (rounds : ℕ) (dst : List ℕ) (id len : ℕ)
    → id < literal_tag
    → 3 ≤ len
    → emit_ref_loop (suc rounds) dst id len
      ≡ emit_ref_loop rounds
          (dst ++ cmd_header id (min len max_cmd_len))
          id
          (len - min len max_cmd_len)
unfolding emit_ref_loop
emit_ref_loop_round rounds dst id len hid h = rw (
  lt→ltb 0 len (omega arith),
  ge→ltb (min len max_cmd_len) 3 (omega arith),
  write_cmd_header-cmd_header dst id (min len max_cmd_len) (omega arith) (omega arith)
      (omega arith),
)

-- A reference that fits one header is appended as one command.
pub emit_ref_command-reference :
    (dst : List ℕ) (id len : ℕ)
    → id < literal_tag
    → 3 ≤ len
    → len ≤ max_cmd_len
    → emit_ref_command dst id len ≡ ok (dst ++ command_bytes (reference id len))
unfolding emit_ref_command command_bytes
emit_ref_command-reference dst id zero hid h hm = absurd (omega arith)
emit_ref_command-reference dst id (suc len) hid h hm =
    let whole : min (suc len) max_cmd_len ≡ suc len = omega arith in
    let none_left : suc len - suc len ≡ 0 = omega arith in
    let t : leb literal_tag id ≡ false = ground arith in
    rw (t, emit_ref_loop_round len dst id (suc len) hid h, whole, none_left)
      (emit_ref_loop_done len (dst ++ cmd_header id (suc len)) id)
