-- ===== src/Pdeflate/Table/RoundTrip.antt =====
-- A table survives `serialize_table_entries` and `materialize_table_entries`.
use cozip.Base.{
  ℕ, ◌+◌, ◌-◌, ◌<◌, ◌≡◌, refl, List, [], ◌∷◌, ◌++◌, map, append_assoc, append-nil, arith, false,
  ◌==◌, ==_self, ge→ltb, length, length-append, All,
}
use cozip.Base.At.{At, At-start, At-step, take-drop-At}
use cozip.Base.Results.{ok, ◌>>=◌, try_from-ok, checked_add-ok, usize_bound}
use cozip.Pdeflate.Error.{numeric_overflow}
use cozip.Pdeflate.Table.{
  serialize_entries_loop, serialize_table_entries, materialize_loop, materialize_table_entries,
}

-- An entry that one byte can measure.
abbrev pub IsEntry : List ℕ → Type 0
IsEntry entry = (0 < length entry) × (length entry < 256)

unfoldable pub index_of : List (List ℕ) → List ℕ
index_of table = map length table

unfoldable pub data_of : List (List ℕ) → List ℕ
data_of [] = []
data_of (entry ∷ table) = entry ++ data_of table

serialize_entries_loop-of :
    (table : List (List ℕ)) (table_index table_data : List ℕ)
    → All IsEntry table
    → serialize_entries_loop table table_index table_data
      ≡ ok (table_index ++ index_of table, table_data ++ data_of table)
unfolding serialize_entries_loop index_of data_of
serialize_entries_loop-of [] table_index table_data h = rw (append-nil, append-nil)
serialize_entries_loop-of (entry ∷ table) table_index table_data h = rw (
  try_from-ok 8 (length entry) numeric_overflow (omega (arith, h.0.1)),
  serialize_entries_loop-of table (table_index ++ (length entry ∷ [])) (table_data ++ entry) h.1,
  append_assoc,
  append_assoc,
)

pub serialize_table_entries-of :
    (table : List (List ℕ))
    → All IsEntry table
    → serialize_table_entries table ≡ ok (index_of table, data_of table)
unfolding serialize_table_entries
serialize_table_entries-of table h = serialize_entries_loop-of table [] [] h

module _ {table_data : List ℕ} (small : length table_data < usize_bound) where
  materialize_loop-of :
      (table : List (List ℕ)) (c : ℕ) (acc : List (List ℕ)) (rest : List ℕ)
      → All IsEntry table
      → At table_data c (data_of table ++ rest)
      → materialize_loop (index_of table) table_data c acc
        ≡ ok (acc ++ table, c + length (data_of table))
  unfolding materialize_loop index_of data_of
  materialize_loop-of [] c acc rest h at = let e : c + 0 ≡ c = omega arith in rw (append-nil, e)
  materialize_loop-of (entry ∷ table) c acc rest h at =
      let tail = data_of table ++ rest in
      let at' : At table_data c (entry ++ tail) = rw append_assoc at at in
      let behind : At table_data (c + length entry) tail =
        At-step (c + length entry) entry tail at' refl in
      let fits = behind.fits in
      let some_len : (length entry == 0) ≡ false = ground (arith, h.0.0) in
      let size : c + length entry - c ≡ length entry = omega arith in
      let end : c + length entry + length (data_of table) ≡ c + length (entry ++ data_of table) =
        omega (arith, length-append entry (data_of table)) in
      rw (
        some_len,
        checked_add-ok c (length entry) numeric_overflow (omega arith),
        ge→ltb (length table_data) (c + length entry) (omega arith),
        size,
        take-drop-At entry tail at',
        materialize_loop-of table (c + length entry) (acc ++ (entry ∷ [])) rest h.1 behind,
        append_assoc,
        end,
      )

-- For entries of 1 to 255 bytes, one more than the format allows, shorter than 2 ^ 64 bytes together: `serialize_table_entries` does
-- not fail, and `materialize_table_entries` gives the table back from what it returns.
pub materialize_table_entries-serialize_table_entries :
    (table : List (List ℕ))
    → All IsEntry table
    → length (data_of table) < usize_bound
    → (serialize_table_entries table >>= λ (index, bytes). materialize_table_entries index bytes)
      ≡ ok table
unfolding materialize_table_entries
materialize_table_entries-serialize_table_entries table h small =
    let at : At (data_of table) 0 (data_of table ++ []) =
      rw append-nil (At-start (data_of table)) in
    let end : 0 + length (data_of table) ≡ length (data_of table) = omega arith in
    rw (
      serialize_table_entries-of table h,
      materialize_loop-of small table 0 [] [] h at,
      end,
      ==_self (length (data_of table)),
    )
