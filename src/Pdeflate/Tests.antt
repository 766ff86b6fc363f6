-- ===== src/Pdeflate/Tests.antt =====
-- Runs of the PDeflate model on concrete inputs, and its theorems at inputs that meet their
-- hypotheses.
use cozip.Base.{ℕ, ◌+◌, ◌%◌, ◌≤◌, ◌<◌, ◌≡◌, refl, List, [], ◌∷◌, ◌++◌, arith, length, replicate}
use cozip.Base.At.{get_range}
use cozip.Base.Le.{to_le_bytes, from_le_bytes}
use cozip.Base.Results.{ok}
use cozip.Pdeflate.Command.{emit_literal_command, emit_ref_command, max_cmd_len}
use cozip.Pdeflate.Command.Emit.{emit_literal_command-stream, emit_ref_command-reference}
use cozip.Pdeflate.Command.Header.{cmd_header}
use cozip.Pdeflate.Command.Stream.{
  Command, expand, literal, reference, stream, expand_all, command_bytes, split_literal,
}
use cozip.Pdeflate.Section.{
  decode_section_loop, decode_command, decode_len, decode_literal, decode_section, section_start,
  fill_repeat,
}
use cozip.Pdeflate.Section.Bounds.{section_start_partition}
use cozip.Pdeflate.Section.Repeat.{fill_repeat-cycle, cycle}
use cozip.Pdeflate.Section.RoundTrip.{decode_section-stream}
use cozip.Pdeflate.Section.Shape.{length-decode_section}
use cozip.Pdeflate.Varint.{write_varint_u32, read_varint_u32}
use cozip.Pdeflate.Varint.RoundTrip.{read_varint_u32-write_varint_u32}

varint_300 : write_varint_u32 (7 ∷ []) 300 ≡ 7 ∷ 0xac ∷ 0x02 ∷ []
unfolding write_varint_u32
varint_300 = refl

read_varint_u32-write_varint_u32_example :
    (read_varint_u32 (write_varint_u32 (7 ∷ []) 300 ++ (9 ∷ [])) 1
      ≡ ok (300, length (write_varint_u32 (7 ∷ []) 300)))
    × (1 + 1 ≤ length (write_varint_u32 (7 ∷ []) 300))
    × (length (write_varint_u32 (7 ∷ []) 300) ≤ 1 + 5)
unfolding write_varint_u32
read_varint_u32-write_varint_u32_example =
    read_varint_u32-write_varint_u32 (7 ∷ []) 300 (9 ∷ []) (omega arith) (omega arith)

-- A table of one row, the repetition of two bytes.
abbrev row : List ℕ
row = replicate max_cmd_len 5

abbrev two_bytes : List ℕ
two_bytes = 1 ∷ 2 ∷ []

abbrev commands : List Command
commands = literal (1 ∷ 2 ∷ []) ∷ reference 0 4 ∷ []

decode_section-stream_example :
    decode_section (stream commands) 6 (row ∷ []) 6 ≡ ok (expand_all (row ∷ []) commands)
unfolding stream command_bytes expand_all expand cmd_header to_le_bytes
decode_section-stream_example =
    decode_section-stream (row ∷ []) commands 6 (omega arith) (omega arith) (refl, tt) (omega arith)
      refl

-- A literal of two bytes fills the section.
length-decode_section_run :
    decode_section (0xff ∷ 0x2f ∷ 1 ∷ 2 ∷ []) 2 (row ∷ []) 2 ≡ ok (1 ∷ 2 ∷ [])
unfolding decode_section decode_section_loop decode_command decode_len decode_literal from_le_bytes
    get_range
length-decode_section_run = refl

length-decode_section_example : (length two_bytes ≡ 2) × (◌≡◌ {A = ℕ} 2 2)
length-decode_section_example =
    length-decode_section (0xff ∷ 0x2f ∷ 1 ∷ 2 ∷ []) 2 (row ∷ []) 2 (1 ∷ 2 ∷ []) (refl, tt)
      length-decode_section_run

section_start_partition_example :
    (section_start 0 7 1000 ≡ 0)
    × (section_start 7 7 1000 ≡ 1000)
    × ((i j : ℕ) → i ≤ j → section_start i 7 1000 ≤ section_start j 7 1000)
    × ((i : ℕ) → i < 7 → section_start i 7 1000 % 4 ≡ 0)
section_start_partition_example = section_start_partition 7 1000 (omega arith) (omega arith)

third_cut : section_start 3 7 1000 ≡ 428
unfolding section_start
third_cut = refl

fill_repeat-cycle_example :
    fill_repeat (0 ∷ 0 ∷ 0 ∷ 0 ∷ 0 ∷ []) (1 ∷ 2 ∷ []) ≡ cycle (1 ∷ 2 ∷ []) 0 5
fill_repeat-cycle_example = fill_repeat-cycle (0 ∷ 0 ∷ 0 ∷ 0 ∷ 0 ∷ []) (1 ∷ 2 ∷ []) (omega arith)

emit_literal_command-stream_example :
    emit_literal_command (9 ∷ []) (1 ∷ 2 ∷ [])
    ≡ ok ((9 ∷ []) ++ stream (split_literal 2 (1 ∷ 2 ∷ [])))
emit_literal_command-stream_example = emit_literal_command-stream (9 ∷ []) (1 ∷ 2 ∷ [])

emit_ref_command-reference_example :
    emit_ref_command (9 ∷ []) 17 40 ≡ ok ((9 ∷ []) ++ command_bytes (reference 17 40))
emit_ref_command-reference_example =
    emit_ref_command-reference (9 ∷ []) 17 40 (omega arith) (omega arith) (omega arith)
