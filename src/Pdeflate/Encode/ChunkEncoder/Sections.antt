-- ===== src/Pdeflate/Encode/ChunkEncoder/Sections.antt =====
-- The sections that the encoder writes are what the chunk layout asks for.
use cozip.Base.{
  ℕ, zero, suc, ◌+◌, ◌-◌, ◌*◌, ◌^◌, ◌≤◌, ◌<◌, ◌≡◌, refl, sym, ap, ◌∙◌, List, [], ◌∷◌, ◌++◌, map,
  append_assoc, append-nil, min, length, length-append, length-map, length-take, length-drop, take,
  drop, drop-drop, drop_past, take-append-drop, All, arith, leb, get_or, Bool-cases, inl, inr,
}
use cozip.Base.At.{At, get_range-At}
use cozip.Base.Le.{IsBytes, to_le_bytes, length-to_le_bytes}
use cozip.Base.Results.{try_from-ok}
use cozip.Base.Returns.{Returns, Returns->>=, Returns_weaker}
use cozip.Pdeflate.Chunk.Decode.{slice}
use cozip.Pdeflate.Chunk.Sections.{cmd_of, output_of, IsSections}
use cozip.Pdeflate.Command.{max_cmd_len, literal_tag, max_inline_len, ext_len_base}
use cozip.Pdeflate.Command.Header.{cmd_header}
use cozip.Pdeflate.Command.Stream.{
  Command, literal, reference, command_bytes, stream, IsCommand, IsRow, expand, expand_all,
}
use cozip.Pdeflate.Encode.{PdeflateOptions, EncodeScratch}
use cozip.Pdeflate.Encode.ChunkEncoder.{encode_sections}
use cozip.Pdeflate.Encode.EncodeSection.{encode_section_into}
use cozip.Pdeflate.Encode.EncodeSection.Sound.{Appended, IsScratch, encode_section_into-Appended}
use cozip.Pdeflate.Encode.Prefix.Common.{drop-IsBytes}
use cozip.Pdeflate.Encode.Search.Sound.{IsSearch}
use cozip.Pdeflate.Error.{numeric_overflow}
use cozip.Pdeflate.Section.{section_start}
use cozip.Pdeflate.Section.Bounds.{section_start_mono, section_start-le_total, section_start_end}
use cozip.Pdeflate.Section.Decode.{get_or-All}
use cozip.Pdeflate.Table.Rows.{row_of, row_of-IsRow}

take-IsBytes : (n : ℕ) (xs : List ℕ) → IsBytes xs → IsBytes (take n xs)
take-IsBytes zero xs h = tt
take-IsBytes (suc n) [] h = tt
take-IsBytes (suc n) (x ∷ xs) h = (h.0, take-IsBytes n xs h.1)

cmd_header-le : (tag len : ℕ) → length (cmd_header tag len) ≤ 3
unfolding cmd_header
cmd_header-le tag len = elim (Bool-cases (leb len max_inline_len)) [
  | inl t ↦ rw t (omega (arith, length-to_le_bytes 2 (len * 4096 + tag)))
  | inr t ↦ rw t (
      omega (
        arith,
        length-append (to_le_bytes 2 (15 * 4096 + tag)) ((len - ext_len_base) ∷ []),
        length-to_le_bytes 2 (15 * 4096 + tag),
      ))
]

-- The commands take at most four times the bytes that they stand for.
command_bytes-le :
    (rows : List (List ℕ)) (cmd : Command)
    → All IsRow rows
    → IsCommand (length rows) cmd
    → length (command_bytes cmd) ≤ 4 * length (expand rows cmd)
unfolding command_bytes expand
command_bytes-le rows (literal bytes) hr h = omega (
  arith,
  h.0,
  length-append (cmd_header literal_tag (length bytes)) bytes,
  cmd_header-le literal_tag (length bytes),
)
command_bytes-le rows (reference id len) hr h = omega (
  arith,
  h.1,
  h.2,
  cmd_header-le id len,
  length-take len (get_or rows id []),
  get_or-All rows id h.0 hr,
)

stream-le :
    (rows : List (List ℕ)) (cmds : List Command)
    → All IsRow rows
    → All (IsCommand (length rows)) cmds
    → length (stream cmds) ≤ 4 * length (expand_all rows cmds)
unfolding stream expand_all
stream-le rows [] hr h = omega arith
stream-le rows (cmd ∷ cmds) hr h = omega (
  arith,
  command_bytes-le rows cmd hr h.0,
  stream-le rows cmds hr h.1,
  length-append (command_bytes cmd) (stream cmds),
  length-append (expand rows cmd) (expand_all rows cmds),
)

-- What the loop over the sections appends, from section `sec` on.
pub record Encoded (table : List (List ℕ)) (count : ℕ) (chunk : List ℕ) (sec : ℕ)
    (cmd lens cmd' lens' : List ℕ) : Type 0 where
  pub sections : List (List Command)
  pub cmd_is : cmd' ≡ cmd ++ cmd_of sections
  pub lens_are : lens' ≡ lens ++ map (λ cmds. length (stream cmds)) sections
  pub filled : IsSections (map row_of table) count (length chunk) sec sections
  pub number : sec + length sections ≡ count
  pub output :
      output_of (map row_of table) sections ≡ drop (section_start sec count (length chunk)) chunk
  pub size : length (cmd_of sections) ≤ 4 * length (output_of (map row_of table) sections)

module _ {s : EncodeScratch} {table : List (List ℕ)} {options : PdeflateOptions} {width : ℕ}
    (chunk : List ℕ) (scratch : IsScratch s table options width)
    (search : (src : List ℕ)
      → IsBytes src
      → IsSearch table s.repeat_table src options.min_ref_len
          (min options.max_ref_len max_cmd_len)
          width)
    (bytes : IsBytes chunk) (small : length chunk < 2 ^ 27)
    (some_sections : 0 < options.section_count) where
  nothing_left :
      (cmd lens : List ℕ)
      → Encoded table options.section_count chunk options.section_count cmd lens cmd lens
  unfolding cmd_of output_of IsSections
  nothing_left cmd lens =
      let end =
        section_start_end options.section_count options.section_count (length chunk) some_sections
          (omega arith) in
      record {
        sections = [];
        cmd_is = sym (append-nil cmd);
        lens_are = sym (append-nil lens);
        filled = refl;
        number = omega arith;
        output = sym (drop_past _ chunk (omega arith));
        size = omega arith;
      }

  pub encode_sections-Encoded :
      (n sec : ℕ) (cmd lens : List ℕ)
      → sec + n ≡ options.section_count
      → Returns
          (encode_sections n s table options chunk sec cmd lens)
          (λ (cmd', lens'). Encoded table options.section_count chunk sec cmd lens cmd' lens')
  unfolding encode_sections slice cmd_of output_of IsSections
  encode_sections-Encoded zero sec cmd lens e =
      let e' : sec ≡ options.section_count = omega arith in rw e' (nothing_left cmd lens)
  encode_sections-Encoded (suc n) sec cmd lens e =
      let count = options.section_count in
      let total = length chunk in
      let s0 = section_start sec count total in
      let s1 = section_start (sec + 1) count total in
      let mono =
        section_start_mono sec (sec + 1) count total (omega arith) some_sections (omega arith) in
      let top = section_start-le_total (sec + 1) count total (omega arith) some_sections in
      let src = take (s1 - s0) (drop s0 chunk) in
      let at : At chunk s0 (src ++ drop (s1 - s0) (drop s0 chunk)) = record {
        suffix = sym (take-append-drop (s1 - s0) (drop s0 chunk));
        fits =
            rw (take-append-drop (s1 - s0) (drop s0 chunk)) (omega (arith, length-drop s0 chunk));
      } in
      let src_size : length src ≡ s1 - s0 =
        omega (arith, length-take (s1 - s0) (drop s0 chunk), length-drop s0 chunk) in
      let src_bytes : IsBytes src =
        take-IsBytes (s1 - s0) (drop s0 chunk) (drop-IsBytes s0 chunk bytes) in
      let P : List ℕ × List ℕ → Type 0 =
        λ (cmd', lens'). Encoded table count chunk sec cmd lens cmd' lens' in
      rw (get_range-At s1 src (drop (s1 - s0) (drop s0 chunk)) at (omega arith)) (
        Returns->>= (λ (cmd', k). Appended table cmd src cmd' × (length cmd + k ≡ length cmd')) P
          (encode_section_into s table options src cmd) _
          (encode_section_into-Appended scratch (search src src_bytes) cmd)
          (λ (cmd', k) (done, grown).
            let fits : k ≡ length (stream done.cmds) =
              omega (arith, ap length done.written, length-append cmd (stream done.cmds)) in
            let valid : All (IsCommand (length (map row_of table))) done.cmds =
              rw (length-map table row_of) done.valid in
            let meant : length (expand_all (map row_of table) done.cmds) ≡ s1 - s0 =
              ap length done.meaning ∙ src_size in
            let cost = stream-le (map row_of table) done.cmds (row_of-IsRow table) valid in
            let split : src ++ drop s1 chunk ≡ drop s0 chunk =
              ap (λ t. src ++ t) (sym (drop-drop s0 (s1 - s0) s1 chunk (omega arith)))
              ∙ take-append-drop (s1 - s0) (drop s0 chunk) in
            rw (try_from-ok 32 k numeric_overflow (omega arith)) (
              Returns_weaker
                (λ (cmd'', lens'').
                  Encoded table count chunk (sec + 1) cmd' (lens ++ (k ∷ [])) cmd'' lens'')
                P (encode_sections n s table options chunk (sec + 1) cmd' (lens ++ (k ∷ [])))
                (encode_sections-Encoded n (sec + 1) cmd' (lens ++ (k ∷ [])) (omega arith))
                (λ (cmd'', lens'') later. record {
                  sections = done.cmds ∷ later.sections;
                  cmd_is = later.cmd_is ∙ rw (done.written, append_assoc) refl;
                  lens_are = later.lens_are ∙ rw (fits, append_assoc) refl;
                  filled = (valid, omega arith, later.filled);
                  number = omega (arith, later.number);
                  output = rw (done.meaning, later.output) split;
                  size = omega (
                    arith,
                    later.size,
                    length-append (stream done.cmds) (cmd_of later.sections),
                    length-append (expand_all (map row_of table) done.cmds)
                        (output_of (map row_of table) later.sections),
                  );
                }))))
