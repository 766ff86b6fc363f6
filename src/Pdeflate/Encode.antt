-- ===== src/Pdeflate/Encode.antt =====
-- The encoder's scratch: the repeated table entries and the index of their first bytes
-- (`EncodeScratch` of cozip_pdeflate/src/pdeflate/mod.rs). An array of a fixed size is a function of
-- its index.
mod Tests
pub mod Prefix
pub mod Search
pub mod EncodeSection
pub mod Rebuild
pub mod ChunkEncoder
use cozip.Base.{
  ℕ, zero, suc, ◌+◌, ◌-◌, ◌*◌, ◌/◌, ◌%◌, ◌^◌, List, [], ◌∷◌, ◌++◌, min, max, bit_and, bit_or, not,
  ltb, leb, ◌==◌, ◌||◌, ◌&&◌, Bool, if◌then◌else◌, length, take, drop, replicate, get_or, get_elem?,
}
use cozip.Base.Results.{ok, err, ◌>>=◌, ◌>>◌, fail_if, ok_or}
use cozip.Pdeflate.Error.{Result, panicked}

pub record PdeflateOptions : Type 0 where
  pub section_count : ℕ
  pub min_ref_len : ℕ
  pub max_ref_len : ℕ
  pub match_probe_limit : ℕ
  pub huffman_encode_enabled : Bool

pub record EncodeScratch : Type 0 where
  pub repeat_table : List (List ℕ)
  pub by_prefix2 : ℕ → List ℕ
  pub has_prefix2 : ℕ → ℕ
  pub prefix3_masks : ℕ → ℕ → ℕ
  pub touched_prefix2 : List ℕ

unfoldable pub new_scratch : EncodeScratch
new_scratch = record {
  repeat_table = [];
  by_prefix2 = λ k2. [];
  has_prefix2 = λ k2. 0;
  prefix3_masks = λ k2 word. 0;
  touched_prefix2 = [];
}

-- `xs[i]`, which panics out of range.
unfoldable pub index : List ℕ → ℕ → Result ℕ
index xs i = ok_or (get_elem? xs i) panicked

-- `a[i] = v` on an array that is a function.
abbrev pub assign {ℓ} : {A : Type ℓ} → (ℕ → A) → ℕ → A → ℕ → A
assign f i v j = if j == i then v else f j

-- `for i in 0..rep.len() { rep[i] = entry[i % entry.len()] }`, with `n` places left from `i` on.
unfoldable pub repeat_loop : ℕ → ℕ → List ℕ → List ℕ
repeat_loop zero i entry = []
repeat_loop (suc n) i entry = get_or entry (i % length entry) 0 ∷ repeat_loop n (i + 1) entry

-- `Vec::resize` of a row.
unfoldable pub resize_row : List ℕ → ℕ → List ℕ
resize_row rep len =
    if ltb (length rep) len then rep ++ replicate (len - length rep) 0 else take len rep

unfoldable pub rebuild_row : List ℕ → List ℕ → ℕ → List ℕ
rebuild_row rep entry max_ref_len =
    let width = max max_ref_len 1 in
    let rep' = if length rep == width then rep else resize_row rep width in
    if length entry == 0 then replicate (length rep') 0 else repeat_loop (length rep') 0 entry

unfoldable pub rebuild_rows : List (List ℕ) → List (List ℕ) → ℕ → List (List ℕ)
rebuild_rows (rep ∷ rows) (entry ∷ table) max_ref_len =
    rebuild_row rep entry max_ref_len ∷ rebuild_rows rows table max_ref_len
rebuild_rows _ _ max_ref_len = []

unfoldable pub rebuild_repeat_table : EncodeScratch → List (List ℕ) → ℕ → EncodeScratch
rebuild_repeat_table s table max_ref_len =
    let rows =
      if ltb (length s.repeat_table) (length table)
      then s.repeat_table
        ++ replicate (length table - length s.repeat_table) (replicate (max max_ref_len 1) 0)
      else take (length table) s.repeat_table in
    record s { repeat_table = rebuild_rows rows table max_ref_len }

unfoldable pub clear_touched : EncodeScratch → List ℕ → EncodeScratch
clear_touched s [] = record s { touched_prefix2 = [] }
clear_touched s (k2 ∷ touched) =
    clear_touched
      (record s {
        by_prefix2 = assign s.by_prefix2 k2 [];
        has_prefix2 = assign s.has_prefix2 k2 0;
        prefix3_masks = assign s.prefix3_masks k2 (λ word. 0);
      })
      touched

-- The first two bytes of an entry's repetition, and its third byte.
unfoldable pub entry_key : List ℕ → Result (ℕ × ℕ)
entry_key entry = do
  b0 ← index entry 0
  ok (
    b0 * 2 ^ 8 + (if leb 2 (length entry) then get_or entry 1 0 else b0),
    if leb 3 (length entry) then get_or entry 2 0 else b0,
  )

unfoldable pub index_entry : EncodeScratch → ℕ → List ℕ → Result EncodeScratch
index_entry s id entry = do
  (k2, b2) ← entry_key entry
  let fresh = s.has_prefix2 k2 == 0
  let mask = bit_or (s.prefix3_masks k2 (b2 / 2 ^ 6)) (2 ^ bit_and b2 63)
  ok (record s {
    by_prefix2 = assign s.by_prefix2 k2 (s.by_prefix2 k2 ++ (id ∷ []));
    has_prefix2 = if fresh then assign s.has_prefix2 k2 1 else s.has_prefix2;
    prefix3_masks = assign s.prefix3_masks k2 (assign (s.prefix3_masks k2) (b2 / 2 ^ 6) mask);
    touched_prefix2 = if fresh then s.touched_prefix2 ++ (k2 ∷ []) else s.touched_prefix2;
  })

unfoldable pub index_entries : EncodeScratch → ℕ → List (List ℕ) → Result EncodeScratch
index_entries s id [] = ok s
index_entries s id (entry ∷ table) = do s' ← index_entry s id entry; index_entries s' (id + 1) table

-- The order of the candidates: longer entries first, then smaller ids.
unfoldable pub candidate_before : List (List ℕ) → ℕ → ℕ → Bool
candidate_before table a b =
    let la = length (get_or table a []) in
    let lb = length (get_or table b []) in ltb lb la || (la == lb && leb a b)

unfoldable pub insert_candidate : List (List ℕ) → ℕ → List ℕ → List ℕ
insert_candidate table id [] = id ∷ []
insert_candidate table id (other ∷ ids) =
    if candidate_before table id other
    then id ∷ (other ∷ ids)
    else other ∷ insert_candidate table id ids

-- `sort_by` with that order.
unfoldable pub sort_candidates : List (List ℕ) → List ℕ → List ℕ
sort_candidates table [] = []
sort_candidates table (id ∷ ids) = insert_candidate table id (sort_candidates table ids)

unfoldable pub sort_touched : List (List ℕ) → EncodeScratch → List ℕ → EncodeScratch
sort_touched table s [] = s
sort_touched table s (k2 ∷ touched) =
    sort_touched table
      (record s { by_prefix2 = assign s.by_prefix2 k2 (sort_candidates table (s.by_prefix2 k2)) })
      touched

unfoldable pub rebuild_prefix_index : EncodeScratch → List (List ℕ) → Result EncodeScratch
rebuild_prefix_index s table = do
  s' ← index_entries (clear_touched s s.touched_prefix2) 0 table
  ok (sort_touched table s' s'.touched_prefix2)
