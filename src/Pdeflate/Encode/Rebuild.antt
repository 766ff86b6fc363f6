-- ===== src/Pdeflate/Encode/Rebuild.antt =====
-- The scratch that the encoder rebuilds for a table.
pub mod Named
pub mod Index
use cozip.Base.{
  ℕ, zero, suc, ◌+◌, ◌-◌, ◌%◌, ◌≤◌, ◌<◌, ◌≡◌, refl, sym, ap, ◌∙◌, List, [], ◌∷◌, ◌++◌, map, Bool,
  true, false, min, max, ltb, leb, ◌==◌, if◌then◌else◌, length, length-append, length-map,
  length-take, length-replicate, take, replicate, get_or, All, All-append, arith, ltb→lt, ltb→ge,
  inl, inr, Bool-cases,
}
use cozip.Base.Results.{ok, ◌>>=◌}
use cozip.Base.Returns.{Returns, Returns->>=, Returns-if, Returns_weaker}
use cozip.Pdeflate.Encode.{
  EncodeScratch, PdeflateOptions, index, assign, repeat_loop, resize_row, rebuild_row, rebuild_rows,
  rebuild_repeat_table, clear_touched, entry_key, index_entry, index_entries, insert_candidate,
  sort_candidates, sort_touched, rebuild_prefix_index, candidate_before,
}
use cozip.Pdeflate.Encode.EncodeSection.Sound.{IsScratch}
use cozip.Pdeflate.Encode.Search.Sound.{index-Answers, Answers}
use cozip.Pdeflate.Error.{Result}
use cozip.Pdeflate.Section.Repeat.{cycle}
use cozip.Pdeflate.Table.RoundTrip.{IsEntry}

repeat_loop-cycle : (n i : ℕ) (entry : List ℕ) → repeat_loop n i entry ≡ cycle entry i n
unfolding repeat_loop cycle
repeat_loop-cycle zero i entry = refl
repeat_loop-cycle (suc n) i entry = rw (repeat_loop-cycle n (i + 1) entry)

length-resize_row : (rep : List ℕ) (len : ℕ) → length (resize_row rep len) ≡ len
unfolding resize_row
length-resize_row rep len = elim (Bool-cases (ltb (length rep) len)) [
  | inl t ↦
      let fresh : List ℕ = replicate (len - length rep) 0 in
      let lt = ltb→lt _ _ t in
      rw t (omega (arith, length-append rep fresh, length-replicate {A = ℕ} (len - length rep) 0))
  | inr t ↦ let ge = ltb→ge _ _ t in rw t (omega (arith, length-take len rep))
]

rebuild_row-cycle :
    (rep entry : List ℕ) (max_ref_len : ℕ)
    → 0 < length entry
    → 0 < max_ref_len
    → rebuild_row rep entry max_ref_len ≡ cycle entry 0 max_ref_len
unfolding rebuild_row
rebuild_row-cycle rep entry max_ref_len h hw =
    let width : max max_ref_len 1 ≡ max_ref_len = omega arith in
    let some_bytes : (length entry == 0) ≡ false = ground arith in
    elim (Bool-cases (length rep == max_ref_len)) [
      | inl t ↦
          let size : length rep ≡ max_ref_len = ground arith in
          rw (width, t, some_bytes, size) (repeat_loop-cycle max_ref_len 0 entry)
      | inr t ↦
          rw (width, t, some_bytes, length-resize_row rep max_ref_len)
            (repeat_loop-cycle max_ref_len 0 entry)
    ]

rebuild_rows-cycle :
    (rows table : List (List ℕ)) (max_ref_len : ℕ)
    → length rows ≡ length table
    → All IsEntry table
    → 0 < max_ref_len
    → rebuild_rows rows table max_ref_len ≡ map (λ entry. cycle entry 0 max_ref_len) table
unfolding rebuild_rows
rebuild_rows-cycle [] [] max_ref_len e h hw = refl
rebuild_rows-cycle [] (entry ∷ table) max_ref_len e h hw = absurd (omega arith)
rebuild_rows-cycle (rep ∷ rows) [] max_ref_len e h hw = absurd (omega arith)
rebuild_rows-cycle (rep ∷ rows) (entry ∷ table) max_ref_len e h hw = rw (
  rebuild_row-cycle rep entry max_ref_len h.0.0 hw,
  rebuild_rows-cycle rows table max_ref_len (omega arith) h.1 hw,
)

-- The rows, whatever the scratch held before.
pub rebuild_repeat_table-cycle :
    (s : EncodeScratch) (table : List (List ℕ)) (max_ref_len : ℕ)
    → All IsEntry table
    → 0 < max_ref_len
    → (rebuild_repeat_table s table max_ref_len).repeat_table
      ≡ map (λ entry. cycle entry 0 max_ref_len) table
unfolding rebuild_repeat_table
rebuild_repeat_table-cycle s table max_ref_len h hw =
    elim (Bool-cases (ltb (length s.repeat_table) (length table))) [
      | inl t ↦
          let lt = ltb→lt _ _ t in
          let row : List ℕ = replicate (max max_ref_len 1) 0 in
          let fresh : List (List ℕ) = replicate (length table - length s.repeat_table) row in
          rw t (
            rebuild_rows-cycle (s.repeat_table ++ fresh) table max_ref_len
              (omega (
                arith,
                length-append s.repeat_table fresh,
                length-replicate (length table - length s.repeat_table) row,
              ))
              h hw)
      | inr t ↦
          let ge = ltb→ge _ _ t in
          rw t (
            rebuild_rows-cycle (take (length table) s.repeat_table) table max_ref_len
              (omega (arith, length-take (length table) s.repeat_table)) h hw)
    ]
