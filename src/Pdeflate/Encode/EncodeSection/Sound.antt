-- ===== src/Pdeflate/Encode/EncodeSection/Sound.antt =====
-- What `encode_section_into` appends are commands that expand to the section.
use cozip.Base.{
  ℕ, zero, suc, ◌+◌, ◌-◌, ◌%◌, ◌^◌, ◌≤◌, ◌<◌, ◌≡◌, refl, sym, ap, ◌∙◌, List, [], ◌∷◌, ◌++◌, map,
  append_assoc, append-nil, false, Option, none, some, min, not, ltb, ◌==◌, ◌&&◌, length,
  length-append, take, drop, drop-drop, drop_past, take-append-drop, get_or, All, All-append, arith,
  ltb→lt, ltb→ge,
}
use cozip.Base.Results.{ok}
use cozip.Base.Returns.{Returns, Returns->>=, Returns-if, Returns_weaker}
use cozip.Pdeflate.Command.{max_cmd_len}
use cozip.Pdeflate.Command.Emit.{emit_literal_command-stream, emit_ref_command-reference}
use cozip.Pdeflate.Command.Stream.{
  Command, reference, command_bytes, stream, IsCommand, expand, expand_all, expand_all-append,
  stream-append, split_literal, split_literal-IsCommand, expand_all-split_literal,
}
use cozip.Pdeflate.Encode.{EncodeScratch, PdeflateOptions}
use cozip.Pdeflate.Encode.Search.{find_best_match, prefix_key}
use cozip.Pdeflate.Encode.Search.AnyMatch.{has_any_match-Answers}
use cozip.Pdeflate.Encode.Search.BestMatch.{find_best_match-IsBest}
use cozip.Pdeflate.Encode.Search.Sound.{Answers, IsSearch, IsBest, Found, and_left}
use cozip.Pdeflate.Encode.EncodeSection.{
  should_probe, literal_stops, literal_end, encode_at, encode_section_loop, encode_section_into,
}
use cozip.Pdeflate.Section.Repeat.{cycle, take-cycle}
use cozip.Pdeflate.Table.Rows.{row_of}

-- What is appended to `dst`: commands that expand to `bytes`.
pub record Appended (table : List (List ℕ)) (dst bytes dst' : List ℕ) : Type 0 where
  pub cmds : List Command
  pub written : dst' ≡ dst ++ stream cmds
  pub valid : All (IsCommand (length table)) cmds
  pub meaning : expand_all (map row_of table) cmds ≡ bytes

nothing : {table : List (List ℕ)} (dst : List ℕ) → Appended table dst [] dst
unfolding stream expand_all
nothing dst = record { cmds = []; written = sym (append-nil dst); valid = tt; meaning = refl }

-- One piece after the other.
Appended-join :
    {table : List (List ℕ)} {a b c xs ys zs : List ℕ}
    → Appended table a xs b
    → Appended table b ys c
    → xs ++ ys ≡ zs
    → Appended table a zs c
Appended-join {table} first second e = record {
  cmds = first.cmds ++ second.cmds;
  written =
      second.written
      ∙ rw (first.written, append_assoc, sym (stream-append first.cmds second.cmds)) refl;
  valid = All-append (IsCommand (length table)) first.cmds second.cmds first.valid second.valid;
  meaning =
      expand_all-append (map row_of table) first.cmds second.cmds
      ∙ rw (first.meaning, second.meaning) e;
}

-- The scratch that `rebuild_repeat_table` and `rebuild_prefix_index` leave for a table.
pub record IsScratch (s : EncodeScratch) (table : List (List ℕ)) (options : PdeflateOptions)
    (width : ℕ) : Type 0 where
  pub rows : s.repeat_table ≡ map (λ entry. cycle entry 0 width) table
  pub ids : (k2 : ℕ) → All (λ id. id < length s.repeat_table) (s.by_prefix2 k2)
  pub few_entries : length table ≤ 0x0ffe

get_or-map :
    (f : List ℕ → List ℕ) (table : List (List ℕ)) (id : ℕ)
    → id < length table
    → get_or (map f table) id [] ≡ f (get_or table id [])
get_or-map f [] id h = absurd (omega arith)
get_or-map f (entry ∷ table) zero h = refl
get_or-map f (entry ∷ table) (suc id) h = get_or-map f table id (omega arith)

module _ {s : EncodeScratch} {table : List (List ℕ)} {options : PdeflateOptions}
    {width max_ref_len : ℕ} {src : List ℕ} (scratch : IsScratch s table options width)
    (search : IsSearch table s.repeat_table src options.min_ref_len max_ref_len width) where
  literal_stops-Answers :
      (lit_start pos : ℕ) → Answers (literal_stops s table options max_ref_len src lit_start pos)
  unfolding literal_stops
  literal_stops-Answers lit_start pos =
      Returns-if (λ _. Unit) (ltb (pos + 1) (length src)) _ (ok false)
        (λ _.
          Returns-if (λ _. Unit) (s.has_prefix2 (prefix_key src pos) == 0) (ok false) _ (λ _. tt)
            (λ _.
              Returns-if (λ _. Unit) _ (ok false) _ (λ _. tt)
                (λ _.
                  Returns-if (λ _. Unit) (not (should_probe (pos - lit_start))) (ok false) _
                    (λ _. tt) (λ _. has_any_match-Answers s options search pos scratch.ids))))
        (λ _. tt)

  literal_end_range :
      (rounds lit_start pos : ℕ)
      → lit_start < pos
      → pos ≤ length src
      → Returns
          (literal_end rounds s table options max_ref_len src lit_start pos)
          (λ end. (lit_start < end) × (end ≤ length src))
  unfolding literal_end
  literal_end_range zero lit_start pos lt le = (lt, le)
  literal_end_range (suc rounds) lit_start pos lt le =
      let P : ℕ → Type 0 = λ end. (lit_start < end) × (end ≤ length src) in
      Returns-if P (ltb pos (length src) && ltb (pos - lit_start) max_cmd_len) _ (ok pos)
        (λ t.
          Returns->>= (λ _. Unit) P (literal_stops s table options max_ref_len src lit_start pos) _
            (literal_stops-Answers lit_start pos)
            (λ stop _.
              Returns-if P stop (ok pos) _ (λ _. (lt, le))
                (λ _.
                  let room : pos < length src = ltb→lt _ _ (and_left _ _ t) in
                  literal_end_range rounds lit_start (pos + 1) (omega arith) (omega arith))))
        (λ _. (lt, le))

  -- A reference that the search found.
  reference-Appended :
      (dst : List ℕ) (pos id len : ℕ)
      → pos < length src
      → id < length s.repeat_table
      → options.min_ref_len ≤ len
      → len ≤ width
      → len ≤ min (length src - pos) max_ref_len
      → take len (get_or s.repeat_table id []) ≡ take len (drop pos src)
      → Appended table dst (take len (drop pos src)) (dst ++ command_bytes (reference id len))
  unfolding stream expand_all expand row_of
  reference-Appended dst pos id len here h ge le le' same =
      let entry = get_or table id [] in
      let count = search.row_count in
      let w = search.width_is in
      let wide : len ≤ max_cmd_len = omega arith in
      let in_table : id < length table = omega arith in
      let theirs : take len (get_or (map row_of table) id []) ≡ cycle entry 0 len =
        rw (get_or-map row_of table id in_table) (take-cycle entry 0 len max_cmd_len wide) in
      let ours : take len (get_or s.repeat_table id []) ≡ cycle entry 0 len =
        rw (scratch.rows, get_or-map (λ e. cycle e 0 width) table id in_table)
          (take-cycle entry 0 len width le) in
      record {
        cmds = reference id len ∷ [];
        written = rw append-nil;
        valid = ((in_table, omega (arith, search.min_pos), wide), tt);
        meaning =
            append-nil (take len (get_or (map row_of table) id [])) ∙ (theirs ∙ (sym ours ∙ same));
      }

  encode_at_step :
      (dst : List ℕ) (pos : ℕ) (best_id : Option ℕ) (len : ℕ)
      → pos < length src
      → Found search pos best_id len
      → len ≤ width
      → len ≤ min (length src - pos) max_ref_len
      → Returns (encode_at s table options max_ref_len src dst pos best_id len) (λ (dst', pos').
        (pos < pos')
        × (pos' ≤ length src)
        × Appended table dst (take (pos' - pos) (drop pos src)) dst')
  unfolding encode_at
  encode_at_step dst pos (some id) len here found le le' =
      let count = search.row_count in
      let few = scratch.few_entries in
      let w = search.width_is in
      let three = search.min_pos in
      let fits : id % 2 ^ 16 ≡ id = omega (arith, found.0) in
      let gap : pos + len - pos ≡ len = omega arith in
      rw
        (
          fits,
          emit_ref_command-reference dst id len (omega (arith, found.0)) (omega (arith, found.1))
              (omega arith),
          gap,
        )
        (
          omega (arith, found.1),
          omega arith,
          reference-Appended dst pos id len here found.0 found.1 le le' found.2,
        )
  encode_at_step dst pos none len here found le le' =
      let Q : List ℕ × ℕ → Type 0 = λ (dst', pos').
        (pos < pos')
        × (pos' ≤ length src)
        × Appended table dst (take (pos' - pos) (drop pos src)) dst' in
      Returns->>= (λ end. (pos < end) × (end ≤ length src)) Q
        (literal_end (length src) s table options max_ref_len src pos (pos + 1)) _
        (literal_end_range (length src) pos (pos + 1) (omega arith) (omega arith))
        (λ end range.
          let bytes = take (end - pos) (drop pos src) in
          rw (emit_literal_command-stream dst bytes) (
            range.0,
            range.1,
            record {
              cmds = split_literal (length bytes) bytes;
              written = refl;
              valid = split_literal-IsCommand (length table) (length bytes) bytes;
              meaning =
                  expand_all-split_literal (map row_of table) (length bytes) bytes (omega arith);
            },
          ))

  encode_section_loop-Appended :
      (rounds : ℕ) (dst : List ℕ) (pos : ℕ)
      → pos ≤ length src
      → length src ≤ rounds + pos
      → Returns
          (encode_section_loop rounds s table options max_ref_len src dst pos)
          (λ dst'. Appended table dst (drop pos src) dst')
  unfolding encode_section_loop
  encode_section_loop-Appended zero dst pos le enough =
      rw (drop_past pos src (omega arith)) (nothing dst)
  encode_section_loop-Appended (suc rounds) dst pos le enough =
      let P : List ℕ → Type 0 = λ dst'. Appended table dst (drop pos src) dst' in
      Returns-if P (ltb pos (length src)) _ (ok dst)
        (λ t.
          let here : pos < length src = ltb→lt _ _ t in
          Returns->>= (IsBest search pos) P (find_best_match s table options src pos max_ref_len) _
            (find_best_match-IsBest s options search pos scratch.ids)
            (λ best good.
              Returns->>=
                (λ (dst', pos').
                  (pos < pos')
                  × (pos' ≤ length src)
                  × Appended table dst (take (pos' - pos) (drop pos src)) dst')
                P (encode_at s table options max_ref_len src dst pos best.best_id best.best_len) _
                (encode_at_step dst pos best.best_id best.best_len here good.found good.in_row
                  good.in_src)
                (λ (dst', pos') step.
                  let split : take (pos' - pos) (drop pos src) ++ drop pos' src ≡ drop pos src =
                    ap (λ t. take (pos' - pos) (drop pos src) ++ t)
                      (sym (drop-drop pos (pos' - pos) pos' src (omega arith)))
                    ∙ take-append-drop (pos' - pos) (drop pos src) in
                  Returns_weaker (λ dst''. Appended table dst' (drop pos' src) dst'') P
                    (encode_section_loop rounds s table options max_ref_len src dst' pos')
                    (encode_section_loop-Appended rounds dst' pos' step.1 (omega arith))
                    (λ dst'' later. Appended-join step.2 later split))))
        (λ t. rw (drop_past pos src (ltb→ge _ _ t)) (nothing dst))

-- For a table of at most 4094 entries, a scratch built from it and options with a maximal reference of at least 4 and a minimal
-- one of 3 to the width of a row: `encode_section_into` returns without a read out of range, and what it
-- appends are commands that fit their headers, name entries of the table, and expand over the decoder's
-- rows to the section. The number it returns is the number of bytes appended.
pub encode_section_into-Appended :
    {s : EncodeScratch} {table : List (List ℕ)} {options : PdeflateOptions} {width : ℕ}
    {src : List ℕ}
    → IsScratch s table options width
    → IsSearch table s.repeat_table src options.min_ref_len
        (min options.max_ref_len max_cmd_len)
        width
    → (dst : List ℕ)
    → Returns
        (encode_section_into s table options src dst)
        (λ (dst', cmd_len). Appended table dst src dst' × (length dst + cmd_len ≡ length dst'))
unfolding encode_section_into
encode_section_into-Appended {s} {table} {options} {width} {src} scratch search dst =
    let P : List ℕ × ℕ → Type 0 =
      λ (dst', cmd_len). Appended table dst src dst' × (length dst + cmd_len ≡ length dst') in
    let max_ref_len = min options.max_ref_len max_cmd_len in
    Returns-if P (length src == 0) (ok (dst, 0)) _
      (λ t.
        let empty : src ≡ [] = drop_past 0 src (ground arith) in
        (rw empty (nothing dst), omega arith))
      (λ _.
        Returns->>= (λ dst'. Appended table dst src dst') P
          (encode_section_loop (length src) s table options max_ref_len src dst 0) _
          (encode_section_loop-Appended scratch search (length src) dst 0 (omega arith)
            (omega arith))
          (λ dst' done.
            (done, omega (arith, ap length done.written, length-append dst (stream done.cmds)))))
