-- ===== src/Pdeflate/Table.antt =====
-- The pattern table of a chunk as two byte strings, and its rows of repeated entries
-- (`serialize_table_entries`, `materialize_table_entries` and the table part of
-- `decompress_chunk_into` of cozip_pdeflate/src/pdeflate/mod.rs).
pub mod RoundTrip
pub mod Rows
use cozip.Base.{
  ℕ, zero, suc, ◌+◌, ◌-◌, List, [], ◌∷◌, ◌++◌, not, ltb, ◌==◌, if◌then◌else◌, length, take, drop,
  replicate,
}
use cozip.Base.At.{get_range}
use cozip.Base.Results.{ok, err, ◌>>=◌, ◌>>◌, fail_if, ok_or, checked_add, try_from}
use cozip.Pdeflate.Command.{max_cmd_len}
use cozip.Pdeflate.Error.{Result, invalid_stream, numeric_overflow}
use cozip.Pdeflate.Section.{fill_repeat}

unfoldable pub serialize_entries_loop : List (List ℕ) → List ℕ → List ℕ → Result (List ℕ × List ℕ)
serialize_entries_loop [] table_index table_data = ok (table_index, table_data)
serialize_entries_loop (entry ∷ table) table_index table_data = do
  len ← try_from 8 (length entry) numeric_overflow
  serialize_entries_loop table (table_index ++ (len ∷ [])) (table_data ++ entry)

-- The lengths of the entries, and their bytes one after the other.
unfoldable pub serialize_table_entries : List (List ℕ) → Result (List ℕ × List ℕ)
serialize_table_entries table = serialize_entries_loop table [] []

unfoldable pub materialize_loop : List ℕ → List ℕ → ℕ → List (List ℕ) → Result (List (List ℕ) × ℕ)
materialize_loop [] table_data cursor table = ok (table, cursor)
materialize_loop (entry_len ∷ table_index) table_data cursor table =
    let entry = ok_or (checked_add cursor entry_len) numeric_overflow >>= λ end.
    fail_if (ltb (length table_data) end) (invalid_stream "table_index/table_data length mismatch")
    >> materialize_loop table_index table_data end
        (table ++ (take (end - cursor) (drop cursor table_data) ∷ [])) in
    let rest = materialize_loop table_index table_data cursor table in
    if entry_len == 0 then rest else entry

unfoldable pub materialize_table_entries : List ℕ → List ℕ → Result (List (List ℕ))
materialize_table_entries table_index table_data = do
  (table, cursor) ← materialize_loop table_index table_data 0 []
  fail_if (not (cursor == length table_data))
      (invalid_stream "table_index/table_data trailing bytes")
  ok table

-- `scratch.table_offsets`, and the last of them.
unfoldable pub table_offsets_loop : List ℕ → ℕ → List ℕ → Result (List ℕ × ℕ)
table_offsets_loop [] last offsets = ok (offsets, last)
table_offsets_loop (entry_len ∷ table_index) last offsets = do
  fail_if (entry_len == 0) (invalid_stream "table entry len is zero")
  next ← ok_or (checked_add last entry_len) numeric_overflow
  table_offsets_loop table_index next (offsets ++ (next ∷ []))

-- `scratch.table_repeat` at `table_count` rows; a new row holds zeros.
unfoldable pub resize_rows : List (List ℕ) → ℕ → List (List ℕ)
resize_rows rows table_count =
    if ltb (length rows) table_count
    then rows ++ replicate (table_count - length rows) (replicate max_cmd_len 0)
    else take table_count rows

-- `for id in 0..table_count`: the offsets around entry `id`, and the row that it is written to.
unfoldable pub fill_rows : List ℕ → List ℕ → List (List ℕ) → Result (List (List ℕ))
fill_rows table_data (t0 ∷ t1 ∷ offsets) (rep ∷ rows) = do
  entry ← ok_or (get_range table_data t0 t1) (invalid_stream "table entry range invalid")
  fail_if (length entry == 0) (invalid_stream "empty table entry")
  filled ← fill_rows table_data (t1 ∷ offsets) rows
  ok (fill_repeat rep entry ∷ filled)
fill_rows table_data _ _ = ok []

-- The rows that the sections refer to, from what the last call left in the scratch.
unfoldable pub prepare_rows : List ℕ → List ℕ → List (List ℕ) → Result (List (List ℕ))
prepare_rows table_index table_data rows = do
  (offsets, last) ← table_offsets_loop table_index 0 (0 ∷ [])
  fail_if (not (last == length table_data))
      (invalid_stream "sum(table_entry_len) != table_data size")
  fill_rows table_data offsets (resize_rows rows (length table_index))
