-- ===== src/Pdeflate/Chunk/Sections.antt =====
-- The section index and the sections of a plain chunk, decoded in order.
use cozip.Base.{
  ℕ, ◌+◌, ◌-◌, ◌*◌, ◌/◌, ◌^◌, ◌≤◌, ◌<◌, ◌≡◌, refl, sym, ◌∙◌, List, [], ◌∷◌, ◌++◌, append_assoc,
  append-nil, arith, false, none, bit_and, ==_self, ge→ltb, length, length-append, length-take,
  length-drop, All, take, drop, take-append-drop, take-length-append, drop-drop,
}
use cozip.Base.At.{At, At-step, At-append, get_range-At}
use cozip.Base.Bits.{bit_and_mask}
use cozip.Base.Groups.{groups}
use cozip.Base.Results.{ok, try_from-ok, checked_add-ok, usize_bound}
use cozip.Pdeflate.Chunk.{section_bit_len_to_byte_len}
use cozip.Pdeflate.Chunk.Decode.{
  SectionMeta, read_section_meta, read_section_metas, section_commands, slice, decode_into,
  decode_sections,
}
use cozip.Pdeflate.Command.{literal_tag}
use cozip.Pdeflate.Command.Stream.{Command, stream, IsCommand, IsRow, expand_all}
use cozip.Pdeflate.Error.{numeric_overflow}
use cozip.Pdeflate.Section.{section_start}
use cozip.Pdeflate.Section.Bounds.{section_start-le_total}
use cozip.Pdeflate.Section.RoundTrip.{decode_section-stream}
use cozip.Pdeflate.Varint.RoundTrip.{read_varint_u32-groups}

-- The bytes of the sections, and their index: every entry a length in bits.
unfoldable pub cmd_of : List (List Command) → List ℕ
cmd_of [] = []
cmd_of (cmds ∷ sections) = stream cmds ++ cmd_of sections

unfoldable pub bits_of : List (List Command) → List ℕ
bits_of [] = []
bits_of (cmds ∷ sections) = groups 4 (length (stream cmds) * 8) ++ bits_of sections

-- What the sections expand to.
unfoldable pub output_of : List (List ℕ) → List (List Command) → List ℕ
output_of rows [] = []
output_of rows (cmds ∷ sections) = expand_all rows cmds ++ output_of rows sections

-- The sections from `sec` on of a chunk of `total` bytes: valid commands that fill the section.
unfoldable pub IsSections : List (List ℕ) → ℕ → ℕ → ℕ → List (List Command) → Type 0
IsSections rows count total sec [] = sec ≡ count
IsSections rows count total sec (cmds ∷ sections) =
    All (IsCommand (length rows)) cmds
    × (section_start sec count total + length (expand_all rows cmds)
        ≡ section_start (sec + 1) count total)
    × IsSections rows count total (sec + 1) sections

unfoldable pub metas_of : ℕ → ℕ → ℕ → ℕ → List (List Command) → List SectionMeta
metas_of count total sec c [] = []
metas_of count total sec c (cmds ∷ sections) =
    record {
      bit_len = length (stream cmds) * 8;
      cmd_offset = c;
      cmd_len = length (stream cmds);
      out_offset = section_start sec count total;
      out_len = section_start (sec + 1) count total - section_start sec count total;
    }
    ∷ metas_of count total (sec + 1) (c + length (stream cmds)) sections

pub section_bit_len_to_byte_len-whole : (n : ℕ) → section_bit_len_to_byte_len (n * 8) ≡ ok n
unfolding section_bit_len_to_byte_len
section_bit_len_to_byte_len-whole n =
    let low : bit_and (n * 8) 7 ≡ 0 = bit_and_mask 3 (n * 8) ∙ omega arith in
    let back : n * 8 / 8 ≡ n = omega arith in rw (low, back)

module _ (count total : ℕ) (total_small : total < 2 ^ 32) (some_sections : 0 < count)
    {index : List ℕ} (cmd : List ℕ) (index_small : length index < usize_bound)
    (cmd_small : length cmd < 2 ^ 29) where
  read_section_meta-of :
      (cmds : List Command) (sec idx c : ℕ) (rest : List ℕ)
      → At index idx (groups 4 (length (stream cmds) * 8) ++ rest)
      → c + length (stream cmds) ≤ length cmd
      → read_section_meta false count total index cmd sec idx c
        ≡ ok (
          record {
            bit_len = length (stream cmds) * 8;
            cmd_offset = c;
            cmd_len = length (stream cmds);
            out_offset = section_start sec count total;
            out_len = section_start (sec + 1) count total - section_start sec count total;
          },
          idx + length (groups 4 (length (stream cmds) * 8)),
          c + length (stream cmds),
        )
  unfolding read_section_meta
  read_section_meta-of cmds sec idx c rest at fits =
      let n = length (stream cmds) in
      let s0 = section_start-le_total sec count total (omega arith) some_sections in
      let s1 = section_start-le_total (sec + 1) count total (omega arith) some_sections in
      rw (
        read_varint_u32-groups (n * 8) rest index_small (omega arith) at,
        section_bit_len_to_byte_len-whole n,
        checked_add-ok c n numeric_overflow (omega arith),
        ge→ltb (length cmd) (c + n) fits,
        try_from-ok 32 (n * 8) numeric_overflow (omega arith),
        try_from-ok 32 c numeric_overflow (omega arith),
        try_from-ok 32 n numeric_overflow (omega arith),
        try_from-ok 32 (section_start sec count total) numeric_overflow (omega arith),
        try_from-ok 32 (section_start (sec + 1) count total - section_start sec count total)
            numeric_overflow (omega arith),
      )

  pub read_section_metas-of :
      (sections : List (List Command)) (sec idx c : ℕ) (rest : List ℕ)
      → At index idx (bits_of sections ++ rest)
      → c + length (cmd_of sections) ≤ length cmd
      → read_section_metas (length sections) false count total index cmd sec idx c
        ≡ ok (
          metas_of count total sec c sections,
          idx + length (bits_of sections),
          c + length (cmd_of sections),
        )
  unfolding read_section_metas bits_of cmd_of metas_of
  read_section_metas-of [] sec idx c rest at fits =
      let e : idx + 0 ≡ idx = omega arith in let e' : c + 0 ≡ c = omega arith in rw (e, e')
  read_section_metas-of (cmds ∷ sections) sec idx c rest at fits =
      let n = length (stream cmds) in
      let head = groups 4 (n * 8) in
      let size = length-append (stream cmds) (cmd_of sections) in
      let at' : At index idx (head ++ (bits_of sections ++ rest)) = rw append_assoc at at in
      let behind : At index (idx + length head) (bits_of sections ++ rest) =
        At-step (idx + length head) head (bits_of sections ++ rest) at' refl in
      let e : idx + length head + length (bits_of sections)
          ≡ idx + length (head ++ bits_of sections) =
        omega (arith, length-append head (bits_of sections)) in
      let e' : c + n + length (cmd_of sections) ≡ c + length (stream cmds ++ cmd_of sections) =
        omega arith in
      rw (
        read_section_meta-of cmds sec idx c (bits_of sections ++ rest) at' (omega arith),
        read_section_metas-of sections (sec + 1) (idx + length head) (c + n) rest behind
            (omega arith),
        e,
        e',
      )

IsSections-end :
    (rows : List (List ℕ)) (count total : ℕ) (sections : List (List Command)) (sec : ℕ)
    → IsSections rows count total sec sections
    → sec ≤ count
unfolding IsSections
IsSections-end rows count total [] sec valid = omega arith
IsSections-end rows count total (cmds ∷ sections) sec valid =
    omega (arith, IsSections-end rows count total sections (sec + 1) valid.2)

module _ (count total : ℕ) (total_small : total < usize_bound) (some_sections : 0 < count)
    (rows : List (List ℕ)) (few_rows : length rows ≤ literal_tag) (row_sizes : All IsRow rows)
    {cmd : List ℕ} (cmd_small : length cmd < 2 ^ 29) where
  decode_into-of :
      (cmds : List Command) (sec c : ℕ) (rest done todo : List ℕ)
      → All (IsCommand (length rows)) cmds
      → section_start sec count total + length (expand_all rows cmds)
        ≡ section_start (sec + 1) count total
      → At cmd c (stream cmds ++ rest)
      → length done ≡ section_start sec count total
      → section_start (sec + 1) count total ≤ length (done ++ todo)
      → decode_into none rows cmd
          record {
            bit_len = length (stream cmds) * 8;
            cmd_offset = c;
            cmd_len = length (stream cmds);
            out_offset = section_start sec count total;
            out_len = section_start (sec + 1) count total - section_start sec count total;
          }
          (done ++ todo)
        ≡ ok ((done ++ expand_all rows cmds) ++ drop (length (expand_all rows cmds)) todo)
  unfolding decode_into section_commands slice
  decode_into-of cmds sec c rest done todo valid fills at here room =
      let n = length (stream cmds) in
      let m = length (expand_all rows cmds) in
      let s0 = section_start sec count total in
      let s1 = section_start (sec + 1) count total in
      let out = done ++ todo in
      let in_cmd = at.fits in
      let cmd_size = length-append (stream cmds) rest in
      let out_size = length-append done todo in
      let total_le = section_start-le_total (sec + 1) count total total_small some_sections in
      let len : s1 - s0 ≡ m = omega arith in
      let at_out : At out s0 (take m todo ++ drop m todo) =
        rw (take-append-drop m todo) (rw (sym here) (At-append done todo)) in
      let slice_len : length (take m todo) ≡ m = omega (arith, length-take m todo) in
      let after = At-step (s0 + m) (take m todo) (drop m todo) at_out (omega arith) in
      let front : take s0 out ≡ done = rw (sym here) (take-length-append done todo) in
      rw (
        checked_add-ok c n numeric_overflow (omega arith),
        len,
        checked_add-ok s0 m numeric_overflow (omega arith),
        get_range-At (c + n) (stream cmds) rest at refl,
        section_bit_len_to_byte_len-whole n,
        ==_self n,
        get_range-At (s0 + m) (take m todo) (drop m todo) at_out (omega arith),
        slice_len,
        decode_section-stream rows cmds m (omega arith) few_rows row_sizes valid refl,
        front,
        after.suffix,
        append_assoc,
      )

  pub decode_sections-of :
      (sections : List (List Command)) (sec c : ℕ) (rest done todo : List ℕ)
      → IsSections rows count total sec sections
      → At cmd c (cmd_of sections ++ rest)
      → sec ≤ count
      → length done ≡ section_start sec count total
      → length (done ++ todo) ≡ total
      → decode_sections none rows cmd (metas_of count total sec c sections) (done ++ todo)
        ≡ ok ((done ++ output_of rows sections) ++ drop (length (output_of rows sections)) todo)
  unfolding decode_sections cmd_of metas_of output_of IsSections
  decode_sections-of [] sec c rest done todo valid at le here size = rw append-nil
  decode_sections-of (cmds ∷ sections) sec c rest done todo valid at le here size =
      let bytes = expand_all rows cmds in
      let tail = output_of rows sections in
      let m = length bytes in
      let below : sec + 1 ≤ count = IsSections-end rows count total sections (sec + 1) valid.2 in
      let done_size = length-append done bytes in
      let todo_size = length-append done todo in
      let left = length-drop m todo in
      let next_size = length-append (done ++ bytes) (drop m todo) in
      let total_le = section_start-le_total (sec + 1) count total total_small some_sections in
      let at' : At cmd c (stream cmds ++ (cmd_of sections ++ rest)) = rw append_assoc at at in
      let behind : At cmd (c + length (stream cmds)) (cmd_of sections ++ rest) =
        At-step (c + length (stream cmds)) (stream cmds) (cmd_of sections ++ rest) at' refl in
      rw
        (
          decode_into-of cmds sec c (cmd_of sections ++ rest) done todo valid.0 valid.1 at' here
              (omega arith),
          decode_sections-of sections (sec + 1) (c + length (stream cmds)) rest (done ++ bytes)
              (drop m todo) valid.2 behind (omega arith) (omega arith) (omega arith),
          drop-drop m (length tail) (length (bytes ++ tail)) todo (sym (length-append bytes tail)),
        )
        (simp append_assoc)
