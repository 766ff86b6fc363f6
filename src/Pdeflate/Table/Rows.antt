-- ===== src/Pdeflate/Table/Rows.antt =====
-- The rows of the decoder: every entry repeated over 270 bytes, whatever the scratch held before.
use cozip.Base.{
  inl, inr, ℕ, zero, suc, ◌+◌, ◌-◌, ◌<◌, ◌≡◌, refl, List, [], ◌∷◌, ◌++◌, map, append_assoc,
  append-nil, arith, false, ltb, ◌==◌, ==_self, length, length-append, length-map, length-take,
  length-replicate, All, All-append, take, replicate, Bool-cases, ltb→lt, ltb→ge,
}
use cozip.Base.At.{At, At-start, At-step, get_range-At}
use cozip.Base.Results.{ok, checked_add-ok, usize_bound}
use cozip.Pdeflate.Command.{max_cmd_len}
use cozip.Pdeflate.Command.Stream.{IsRow}
use cozip.Pdeflate.Error.{numeric_overflow}
use cozip.Pdeflate.Section.Repeat.{fill_repeat-cycle, cycle, length-cycle}
use cozip.Pdeflate.Table.{table_offsets_loop, resize_rows, fill_rows, prepare_rows}
use cozip.Pdeflate.Table.RoundTrip.{IsEntry, index_of, data_of}

-- The row of an entry.
unfoldable pub row_of : List ℕ → List ℕ
row_of entry = cycle entry 0 max_cmd_len

pub row_of-IsRow : (table : List (List ℕ)) → All IsRow (map row_of table)
unfolding row_of
row_of-IsRow [] = tt
row_of-IsRow (entry ∷ table) = (length-cycle entry 0 max_cmd_len, row_of-IsRow table)

take-All : (n : ℕ) (rows : List (List ℕ)) → All IsRow rows → All IsRow (take n rows)
take-All zero rows h = tt
take-All (suc n) [] h = tt
take-All (suc n) (row ∷ rows) h = (h.0, take-All n rows h.1)

replicate-All : (n : ℕ) → All IsRow (replicate n (replicate max_cmd_len 0))
replicate-All zero = tt
replicate-All (suc n) = (length-replicate {A = ℕ} max_cmd_len 0, replicate-All n)

resize_rows_shape :
    (rows : List (List ℕ)) (n : ℕ)
    → All IsRow rows
    → (length (resize_rows rows n) ≡ n) × All IsRow (resize_rows rows n)
unfolding resize_rows
resize_rows_shape rows n h = elim (Bool-cases (ltb (length rows) n)) [
  | inl t ↦
      let zero_row : List ℕ = replicate max_cmd_len 0 in
      let lt = ltb→lt (length rows) n t in
      let fresh : List (List ℕ) = replicate (n - length rows) (replicate max_cmd_len 0) in
      rw t (
        omega (arith, length-append rows fresh, length-replicate (n - length rows) zero_row),
        All-append IsRow rows fresh h (replicate-All (n - length rows)),
      )
  | inr t ↦
      let ge = ltb→ge (length rows) n t in
      rw t (omega (arith, length-take n rows), take-All n rows h)
]

-- The offsets behind the entries, from `c` on.
unfoldable offsets_of : ℕ → List (List ℕ) → List ℕ
offsets_of c [] = []
offsets_of c (entry ∷ table) = (c + length entry) ∷ offsets_of (c + length entry) table

table_offsets_loop-of :
    (table : List (List ℕ)) (last : ℕ) (offsets : List ℕ)
    → All IsEntry table
    → last + length (data_of table) < usize_bound
    → table_offsets_loop (index_of table) last offsets
      ≡ ok (offsets ++ offsets_of last table, last + length (data_of table))
unfolding table_offsets_loop index_of data_of offsets_of
table_offsets_loop-of [] last offsets h small =
    let e : last + 0 ≡ last = omega arith in rw (append-nil, e)
table_offsets_loop-of (entry ∷ table) last offsets h small =
    let size = length-append entry (data_of table) in
    let some_len : (length entry == 0) ≡ false = ground (arith, h.0.0) in
    let end : last + length entry + length (data_of table)
        ≡ last + length (entry ++ data_of table) =
      omega arith in
    rw (
      some_len,
      checked_add-ok last (length entry) numeric_overflow (omega arith),
      table_offsets_loop-of table (last + length entry) (offsets ++ ((last + length entry) ∷ []))
          h.1 (omega arith),
      append_assoc,
      end,
    )

fill_rows-of :
    {table_data : List ℕ} (table : List (List ℕ)) (c : ℕ) (rows : List (List ℕ)) (rest : List ℕ)
    → All IsEntry table
    → All IsRow rows
    → length rows ≡ length table
    → At table_data c (data_of table ++ rest)
    → fill_rows table_data (c ∷ offsets_of c table) rows ≡ ok (map row_of table)
unfolding fill_rows data_of offsets_of row_of
fill_rows-of [] c rows rest h hr e at = refl
fill_rows-of (entry ∷ table) c [] rest h hr e at = absurd (omega arith)
fill_rows-of {table_data} (entry ∷ table) c (rep ∷ rows) rest h hr e at =
    let tail = data_of table ++ rest in
    let at' : At table_data c (entry ++ tail) = rw append_assoc at at in
    let behind : At table_data (c + length entry) tail =
      At-step (c + length entry) entry tail at' refl in
    let some_len : (length entry == 0) ≡ false = ground (arith, h.0.0) in
    rw (
      get_range-At (c + length entry) entry tail at' refl,
      some_len,
      fill_rows-of table (c + length entry) rows rest h.1 hr.1 (omega arith) behind,
      fill_repeat-cycle rep entry h.0.0,
      hr.0,
    )

-- For entries of 1 to 255 bytes, one more than the format allows, shorter than 2 ^ 64 bytes together, the decoder's row of an entry is
-- the endless repetition of the entry, cut at 270 bytes, in the order of the table. What an earlier
-- chunk left in the scratch rows makes no difference.
pub prepare_rows-cycle :
    (table rows : List (List ℕ))
    → All IsEntry table
    → All IsRow rows
    → length (data_of table) < usize_bound
    → prepare_rows (index_of table) (data_of table) rows ≡ ok (map row_of table)
unfolding prepare_rows index_of
prepare_rows-cycle table rows h hr small =
    let at : At (data_of table) 0 (data_of table ++ []) =
      rw append-nil (At-start (data_of table)) in
    let n : length (map length table) ≡ length table = length-map table length in
    let shape = resize_rows_shape rows (length table) hr in
    let end : 0 + length (data_of table) ≡ length (data_of table) = omega arith in
    rw (
      table_offsets_loop-of table 0 (0 ∷ []) h (omega arith),
      end,
      ==_self (length (data_of table)),
      n,
      fill_rows-of table 0 (resize_rows rows (length table)) [] h shape.1 shape.0 at,
    )
