-- ===== src/Deflate/Index/Entries.antt =====
-- The table of a chunk index: its bytes, and that both loops over the entries agree with them.
use cozip.Base.{
  ℕ, ◌+◌, ◌-◌, ◌*◌, ◌^◌, ◌≤◌, ◌<◌, ◌≡◌, refl, List, [], ◌∷◌, ◌++◌, append_assoc, append-nil, arith,
  length, length-append, false, ltb, ◌==◌, if◌then◌else◌, ◌&&◌,
}
use cozip.Base.At.{At, At-step}
use cozip.Base.Groups.{groups, length-groups}
use cozip.Base.Results.{Result, ok, ok_or, checked_add, try_from-ok}
use cozip.Deflate.Error.{Error, data_too_large}
use cozip.Deflate.Index.{DeflateChunkIndexEntry, append_entry, encode_entries, decode_entries}
use cozip.Deflate.Leb128.RoundTrip.{append_uleb128_u64-groups, read_uleb128_u64-groups}

-- Entries whose numbers fit their types, with offsets that never go back behind `prev_off`.
unfoldable pub IsSorted : ℕ → List DeflateChunkIndexEntry → Type 0
IsSorted prev_off [] = Unit
IsSorted prev_off (entry ∷ entries) =
    (prev_off ≤ entry.comp_bit_off)
    × (entry.comp_bit_off < 2 ^ 64)
    × (entry.comp_bit_len < 2 ^ 32)
    × (entry.final_header_rel_bit < 2 ^ 32)
    × (entry.raw_len < 2 ^ 32)
    × IsSorted entry.comp_bit_off entries

-- The bytes of an entry in front of `rest`.
unfoldable pub entry_bytes : ℕ → DeflateChunkIndexEntry → List ℕ → List ℕ
entry_bytes delta entry rest =
    groups 9 delta
    ++ (groups 9 entry.comp_bit_len
        ++ (groups 9 entry.final_header_rel_bit ++ (groups 9 entry.raw_len ++ rest)))

unfoldable pub table_bytes : ℕ → List DeflateChunkIndexEntry → List ℕ
table_bytes prev_off [] = []
table_bytes prev_off (entry ∷ entries) =
    entry_bytes (entry.comp_bit_off - prev_off) entry (table_bytes entry.comp_bit_off entries)

append_entry-bytes :
    (table : List ℕ) (delta : ℕ) (entry : DeflateChunkIndexEntry) (rest : List ℕ)
    → delta < 2 ^ 64
    → entry.comp_bit_len < 2 ^ 32
    → entry.final_header_rel_bit < 2 ^ 32
    → entry.raw_len < 2 ^ 32
    → append_entry table delta entry ++ rest ≡ table ++ entry_bytes delta entry rest
unfolding append_entry entry_bytes
append_entry-bytes table delta entry rest h₁ h₂ h₃ h₄ = rw (
  append_uleb128_u64-groups table delta h₁,
  append_uleb128_u64-groups (table ++ groups 9 delta) entry.comp_bit_len (omega arith),
  append_uleb128_u64-groups ((table ++ groups 9 delta) ++ groups 9 entry.comp_bit_len)
      entry.final_header_rel_bit (omega arith),
  append_uleb128_u64-groups
      (((table ++ groups 9 delta) ++ groups 9 entry.comp_bit_len)
        ++ groups 9 entry.final_header_rel_bit)
      entry.raw_len (omega arith),
  append_assoc,
  append_assoc,
  append_assoc,
  append_assoc,
)

length-entry_bytes :
    (delta : ℕ) (entry : DeflateChunkIndexEntry) (rest : List ℕ)
    → length (entry_bytes delta entry rest) ≤ 40 + length rest
unfolding entry_bytes
length-entry_bytes delta entry rest =
    rw (length-append, length-append, length-append, length-append)
      (omega (
        arith,
        length-groups 9 delta,
        length-groups 9 entry.comp_bit_len,
        length-groups 9 entry.final_header_rel_bit,
        length-groups 9 entry.raw_len,
      ))

-- An entry takes at most 40 bytes.
pub length-table_bytes :
    (prev_off : ℕ) (entries : List DeflateChunkIndexEntry)
    → length (table_bytes prev_off entries) ≤ 40 * length entries
unfolding table_bytes
length-table_bytes prev_off [] = omega arith
length-table_bytes prev_off (entry ∷ entries) = omega (
  arith,
  length-table_bytes entry.comp_bit_off entries,
  length-entry_bytes (entry.comp_bit_off - prev_off) entry (table_bytes entry.comp_bit_off entries),
)

pub encode_entries-table_bytes :
    (entries : List DeflateChunkIndexEntry) (idx prev_off : ℕ) (table : List ℕ)
    → (idx ≡ 0 → prev_off ≡ 0)
    → IsSorted prev_off entries
    → encode_entries entries idx prev_off table ≡ ok (table ++ table_bytes prev_off entries)
unfolding encode_entries table_bytes IsSorted
encode_entries-table_bytes [] idx prev_off table first h = rw append-nil
encode_entries-table_bytes (entry ∷ entries) idx prev_off table first (h₁, h₂, h₃, h₄, h₅, h) =
    let guard : (ltb 0 idx && ltb entry.comp_bit_off prev_off) ≡ false = ground arith in
    let d = entry.comp_bit_off - prev_off in
    let delta : (if idx == 0 then entry.comp_bit_off else entry.comp_bit_off - prev_off) ≡ d =
      ground (arith, first) in
    let rest =
      encode_entries-table_bytes entries (idx + 1) entry.comp_bit_off (append_entry table d entry)
        (omega arith) h in
    rw (
      guard,
      delta,
      rest,
      append_entry-bytes table d entry (table_bytes entry.comp_bit_off entries) (omega arith) h₃ h₄
          h₅,
    )

abbrev answer {ℓ} : {A : Type ℓ} → A → Result Error A
answer a = ok a

-- The offset that the reader computes from its difference to the last one.
offset_back :
    (idx prev_off off : ℕ)
    → (idx ≡ 0 → prev_off ≡ 0)
    → prev_off ≤ off
    → off < 2 ^ 64
    → (if idx == 0
        then ok (off - prev_off)
        else ok_or (checked_add prev_off (off - prev_off)) data_too_large)
      ≡ answer off
offset_back idx prev_off off first h fits = ground (arith, first)

-- The reader has the whole table behind it when it is done.
pub decode_entries-table_bytes :
    {table : List ℕ} (entries done : List DeflateChunkIndexEntry) (idx pos prev_off : ℕ)
    → (idx ≡ 0 → prev_off ≡ 0)
    → IsSorted prev_off entries
    → At table pos (table_bytes prev_off entries)
    → decode_entries (length entries) table idx pos prev_off done
      ≡ ok (done ++ entries, length table)
unfolding decode_entries table_bytes entry_bytes IsSorted
decode_entries-table_bytes {table} [] done idx pos prev_off first h at =
    let here : pos ≡ length table = omega (arith, at.fits) in rw (here, append-nil)
decode_entries-table_bytes {table} (entry ∷ entries) done idx pos prev_off first
      (h₁, h₂, h₃, h₄, h₅, h) at =
    let d = entry.comp_bit_off - prev_off in
    let rest = table_bytes entry.comp_bit_off entries in
    let g₁ = groups 9 d in
    let g₂ = groups 9 entry.comp_bit_len in
    let g₃ = groups 9 entry.final_header_rel_bit in
    let g₄ = groups 9 entry.raw_len in
    let at₂ = At-step (pos + length g₁) g₁ (g₂ ++ (g₃ ++ (g₄ ++ rest))) at refl in
    let at₃ = At-step (pos + length g₁ + length g₂) g₂ (g₃ ++ (g₄ ++ rest)) at₂ refl in
    let at₄ = At-step (pos + length g₁ + length g₂ + length g₃) g₃ (g₄ ++ rest) at₃ refl in
    let at₅ = At-step (pos + length g₁ + length g₂ + length g₃ + length g₄) g₄ rest at₄ refl in
    let further =
      decode_entries-table_bytes entries (done ++ (entry ∷ [])) (idx + 1)
        (pos + length g₁ + length g₂ + length g₃ + length g₄) entry.comp_bit_off (omega arith) h
        at₅ in
    rw (
      read_uleb128_u64-groups d (g₂ ++ (g₃ ++ (g₄ ++ rest))) (omega arith) at,
      read_uleb128_u64-groups entry.comp_bit_len (g₃ ++ (g₄ ++ rest)) (omega arith) at₂,
      read_uleb128_u64-groups entry.final_header_rel_bit (g₄ ++ rest) (omega arith) at₃,
      read_uleb128_u64-groups entry.raw_len rest (omega arith) at₄,
      offset_back idx prev_off entry.comp_bit_off first h₁ h₂,
      try_from-ok 32 entry.comp_bit_len data_too_large h₃,
      try_from-ok 32 entry.final_header_rel_bit data_too_large h₄,
      try_from-ok 32 entry.raw_len data_too_large h₅,
      further,
      append_assoc done (entry ∷ []) entries,
    )
