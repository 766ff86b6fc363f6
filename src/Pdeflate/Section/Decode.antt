-- ===== src/Pdeflate/Section/Decode.antt =====
-- One round of `decode_section` on a written command.
use cozip.Base.{
  ℕ, zero, suc, ◌+◌, ◌-◌, ◌*◌, ◌/◌, ◌%◌, ◌^◌, ◌≤◌, ◌<◌, ◌≡◌, refl, ap, ◌∙◌, List, [], ◌∷◌, ◌++◌,
  append_assoc, arith, bit_and, ltb, leb, ge→ltb, ◌==◌, if◌then◌else◌, true, false, Bool-cases, inl,
  inr, length, length-append, length-take, take, get_or, All,
}
use cozip.Base.At.{At, At-step, get_or-At, take-drop-At}
use cozip.Base.Bits.{bit_and_mask}
use cozip.Base.Le.{to_le_bytes, from_le_bytes, length-to_le_bytes}
use cozip.Base.Results.{ok, usize_bound, checked_add-ok}
use cozip.Pdeflate.Command.{literal_tag, max_inline_len, max_cmd_len}
use cozip.Pdeflate.Command.Header.{cmd_header}
use cozip.Pdeflate.Command.Stream.{
  Command, literal, reference, command_bytes, IsCommand, IsRow, expand,
}
use cozip.Pdeflate.Error.{numeric_overflow}
use cozip.Pdeflate.Section.{decode_len, decode_literal, decode_reference, decode_command}

pub get_or-All :
    (rows : List (List ℕ)) (i : ℕ)
    → i < length rows
    → All IsRow rows
    → length (get_or rows i []) ≡ max_cmd_len
get_or-All [] i h all = absurd (omega arith)
get_or-All (row ∷ rows) zero h all = all.0
get_or-All (row ∷ rows) (suc i) h all = get_or-All rows i (omega arith) all.1

module _ {cmd_bytes : List ℕ} (small : length cmd_bytes < usize_bound) where
  word_At :
      (c w : ℕ) (rest : List ℕ)
      → w < 2 ^ 16
      → At cmd_bytes c (to_le_bytes 2 w ++ rest)
      → from_le_bytes (get_or cmd_bytes c 0 ∷ get_or cmd_bytes (c + 1) 0 ∷ []) ≡ w
  unfolding to_le_bytes from_le_bytes
  word_At c w rest h at =
      let first = get_or-At (w % 256) ((w / 256 % 256) ∷ rest) 0 at in
      let next = At-step (c + 1) ((w % 256) ∷ []) ((w / 256 % 256) ∷ rest) at refl in
      omega (arith, first, get_or-At (w / 256 % 256) rest 0 next)

  -- A round on a header word `w` that is followed by `len - 15` where the word says 15.
  decode_command_word :
      (expected : ℕ) (table_repeat : List (List ℕ)) (c out_cursor w tag len c' : ℕ) (rest : List ℕ)
      → At cmd_bytes c (to_le_bytes 2 w ++ rest)
      → w < 2 ^ 16
      → w % 4096 ≡ tag
      → decode_len cmd_bytes (c + 2) (w / 4096) ≡ ok (len, c')
      → 0 < len
      → len ≤ max_cmd_len
      → out_cursor + len ≤ expected
      → decode_command cmd_bytes expected table_repeat c out_cursor ≡ (
          if tag == literal_tag
          then decode_literal cmd_bytes c' len
          else decode_reference table_repeat tag c' len)
  unfolding decode_command
  decode_command_word expected table_repeat c out_cursor w tag len c' rest at hw ht hl h0 hm hf =
      let room : ltb (length cmd_bytes) (c + 2) ≡ false =
        ge→ltb _ _ (unfold to_le_bytes in omega (arith, at.fits)) in
      let masked : bit_and w 0x0fff ≡ tag = bit_and_mask 12 w ∙ ht in
      let len4 : bit_and (w / 2 ^ 12) 0x000f ≡ w / 4096 =
        bit_and_mask 4 (w / 2 ^ 12) ∙ omega arith in
      let t0 : (len == 0) ≡ false = ground arith in
      rw (
        room,
        word_At c w rest hw at,
        masked,
        len4,
        hl,
        t0,
        ge→ltb max_cmd_len len hm,
        ge→ltb expected (out_cursor + len) hf,
      )

  decode_len_ext :
      (c ext : ℕ) (rest : List ℕ)
      → At cmd_bytes c (ext ∷ rest)
      → decode_len cmd_bytes c 15 ≡ ok (15 + ext, c + 1)
  unfolding decode_len
  decode_len_ext c ext rest at =
      let room : leb (length cmd_bytes) c ≡ false = ground (arith, at.fits) in
      rw (room, get_or-At ext rest 0 at)

  -- A round on a written header leads to the literal or the reference behind it.
  decode_command_header :
      (expected : ℕ) (table_repeat : List (List ℕ)) (c out_cursor tag len : ℕ) (rest : List ℕ)
      → At cmd_bytes c (cmd_header tag len ++ rest)
      → tag ≤ literal_tag
      → 0 < len
      → len ≤ max_cmd_len
      → out_cursor + len ≤ expected
      → decode_command cmd_bytes expected table_repeat c out_cursor ≡ (
          if tag == literal_tag
          then decode_literal cmd_bytes (c + length (cmd_header tag len)) len
          else decode_reference table_repeat tag (c + length (cmd_header tag len)) len)
  unfolding cmd_header
  decode_command_header expected table_repeat c out_cursor tag len rest at ht h0 hm hf =
      elim (Bool-cases (leb len max_inline_len)) [
        | inl short ↦
            let at' : At cmd_bytes c (to_le_bytes 2 (len * 4096 + tag) ++ rest) = rw short at at in
            let len4 : (len * 4096 + tag) / 4096 ≡ len = omega arith in
            let t : ltb len 15 ≡ true = ground arith in
            rw (short, length-to_le_bytes 2 (len * 4096 + tag))
              (decode_command_word expected table_repeat c out_cursor (len * 4096 + tag) tag len
                (c + 2) rest at' (ground arith) (omega arith) (unfold decode_len in rw (len4, t)) h0
                hm hf)
        | inr long ↦
            let x = len - 15 in
            let w = 15 * 4096 + tag in
            let at' : At cmd_bytes c (to_le_bytes 2 w ++ (x ∷ rest)) =
              rw append_assoc at (rw long at at) in
            let behind : At cmd_bytes (c + 2) (x ∷ rest) =
              At-step (c + 2) (to_le_bytes 2 w) (x ∷ rest) at'
                (ap (λ t. c + t) (length-to_le_bytes 2 w)) in
            let len4 : w / 4096 ≡ 15 = omega arith in
            let sum : 15 + x ≡ len = ground arith in
            let end : c + 2 + 1 ≡ c + 3 = omega arith in
            let ext = decode_len_ext (c + 2) x rest behind in
            let width : length (to_le_bytes 2 w ++ (x ∷ [])) ≡ 3 =
              length-append (to_le_bytes 2 w) (x ∷ []) ∙ rw (length-to_le_bytes 2 w) in
            rw (long, width)
              (decode_command_word expected table_repeat c out_cursor w tag len (c + 3) (x ∷ rest)
                at' (omega arith) (omega arith) (rw (len4, ext, sum, end)) h0 hm hf)
      ]

  -- A round on a written command.
  pub decode_command-command_bytes :
      (expected : ℕ) (table_repeat : List (List ℕ)) (c out_cursor : ℕ) (cmd : Command)
      (rest : List ℕ)
      → At cmd_bytes c (command_bytes cmd ++ rest)
      → IsCommand (length table_repeat) cmd
      → length table_repeat ≤ literal_tag
      → All IsRow table_repeat
      → out_cursor + length (expand table_repeat cmd) ≤ expected
      → decode_command cmd_bytes expected table_repeat c out_cursor
        ≡ ok (c + length (command_bytes cmd), expand table_repeat cmd)
  unfolding command_bytes expand decode_literal decode_reference
  decode_command-command_bytes expected table_repeat c out_cursor (literal bytes) rest at valid ht
        rows hf =
      let at' : At cmd_bytes c (cmd_header literal_tag (length bytes) ++ (bytes ++ rest)) =
        rw append_assoc at at in
      let header = cmd_header literal_tag (length bytes) in
      let behind : At cmd_bytes (c + length header) (bytes ++ rest) =
        At-step (c + length header) header (bytes ++ rest) at' refl in
      let size = length-append bytes rest in
      let end : c + length header + length bytes ≡ c + length (header ++ bytes) =
        omega (arith, length-append header bytes) in
      rw (
        decode_command_header expected table_repeat c out_cursor literal_tag (length bytes)
            (bytes ++ rest) at' (omega arith) valid.0 valid.1 hf,
        checked_add-ok (c + length header) (length bytes) numeric_overflow
            (omega (arith, behind.fits, size)),
        ge→ltb (length cmd_bytes) (c + length header + length bytes)
            (omega (arith, behind.fits, size)),
        take-drop-At bytes rest behind,
        end,
      )
  decode_command-command_bytes expected table_repeat c out_cursor (reference id len) rest at valid
        ht rows hf =
      let width : length (take len (get_or table_repeat id [])) ≡ len = row_width valid.0 valid.2 in
      let t1 : (id == literal_tag) ≡ false = ground arith in
      let t2 : leb (length table_repeat) id ≡ false = ground arith in
      rw (
        decode_command_header expected table_repeat c out_cursor id len rest at (omega arith)
            (omega arith) valid.2 (rw width at hf),
        t1,
        t2,
        ge→ltb len 3 valid.1,
      )
    where
      row_width :
          id < length table_repeat
          → len ≤ max_cmd_len
          → length (take len (get_or table_repeat id [])) ≡ len
      row_width p q =
          rw (length-take len (get_or table_repeat id []), get_or-All table_repeat id p rows)
            (omega arith)
