-- ===== src/Pdeflate/Encode/Rebuild/Named.antt =====
-- What the index of the encoder's scratch holds for a table: under the first two bytes the ids of the
-- entries that begin with them, and their third bytes as bits.
use mathlib.Core.List.{Perm}
use mathlib.Core.List.Perm
use cozip.Base.{
  ℕ, ◌+◌, ◌*◌, ◌/◌, ◌%◌, ◌^◌, ◌<◌, ◌≤◌, ==_self, ◌≡◌, refl, sym, ◌∙◌, ap, max, List, [], ◌∷◌, ◌++◌,
  append_assoc, append-nil, ◌==◌, ◌&&◌, leb, Bool, true, false, if◌then◌else◌, length, get_or,
  get_elem?-get_or, All, arith, Bool-cases, inl, inr, bit_and, bit_or,
}
use cozip.Base.Bits.{bit_and_mask}
use cozip.Base.Bits.Digit.{digit, digit-bit_or, digit-pow, zero-digit}
use cozip.Base.Results.{ok}
use cozip.Base.Returns.{Returns, Returns->>=, Returns_weaker}
use cozip.Pdeflate.Encode.{
  EncodeScratch, index, assign, entry_key, index_entry, index_entries, candidate_before,
  insert_candidate, sort_candidates, sort_touched,
}
use cozip.Pdeflate.Table.RoundTrip.{IsEntry}

-- The first two bytes of an entry's endless repetition as a number, and its third byte, a one-byte
-- entry giving its byte and a two-byte entry its first one again.
abbrev pub first_two : List ℕ → ℕ
first_two entry =
    get_or entry 0 0 * 2 ^ 8 + (if leb 2 (length entry) then get_or entry 1 0 else get_or entry 0 0)

abbrev pub third : List ℕ → ℕ
third entry = if leb 3 (length entry) then get_or entry 2 0 else get_or entry 0 0

-- The ids, from `id` on, of the entries that begin with two bytes.
unfoldable pub ids_of : ℕ → ℕ → List (List ℕ) → List ℕ
ids_of k2 id [] = []
ids_of k2 id (entry ∷ table) =
    let rest = ids_of k2 (id + 1) table in if first_two entry == k2 then id ∷ rest else rest

-- Whether an entry begins with two bytes and goes on with a third one.
unfoldable pub goes_on : ℕ → ℕ → List (List ℕ) → ℕ
goes_on k2 b2 [] = 0
goes_on k2 b2 (entry ∷ table) =
    let rest = goes_on k2 b2 table in if first_two entry == k2 && third entry == b2 then 1 else rest

-- The index of a table: a bucket has the ids of its entries once each, its flag says whether there are
-- any, and bit `j` of a word of its mask says whether an entry goes on with the byte `64 * word + j`.
pub record Indexed (table : List (List ℕ)) (s : EncodeScratch) : Type 0 where
  pub buckets : (k2 : ℕ) → Perm (s.by_prefix2 k2) (ids_of k2 0 table)
  pub flags : (k2 : ℕ) → (s.has_prefix2 k2 == 0) ≡ (length (ids_of k2 0 table) == 0)
  pub masks :
      (k2 word j : ℕ)
      → j < 64
      → digit (s.prefix3_masks k2 word) j ≡ goes_on k2 (64 * word + j) table

goes_on-le : (k2 b2 : ℕ) (table : List (List ℕ)) → goes_on k2 b2 table ≤ 1
unfolding goes_on
goes_on-le k2 b2 [] = omega arith
goes_on-le k2 b2 (entry ∷ table) = elim (Bool-cases (first_two entry == k2 && third entry == b2)) [
  | inl t ↦ rw t (omega arith)
  | inr t ↦ rw t (goes_on-le k2 b2 table)
]

entry_key-ok :
    (entry : List ℕ) → 0 < length entry → entry_key entry ≡ ok (first_two entry, third entry)
unfolding entry_key index
entry_key-ok entry h = rw (get_elem?-get_or entry 0 0 h)

-- What some entries, from `id` on, add to an index.
record Adds (id : ℕ) (table : List (List ℕ)) (s s' : EncodeScratch) : Type 0 where
  buckets : (k2 : ℕ) → s'.by_prefix2 k2 ≡ s.by_prefix2 k2 ++ ids_of k2 id table
  flags :
      (k2 : ℕ)
      → (s'.has_prefix2 k2 == 0) ≡ ((s.has_prefix2 k2 == 0) && (length (ids_of k2 id table) == 0))
  masks :
      (k2 word j : ℕ)
      → j < 64
      → digit (s'.prefix3_masks k2 word) j
        ≡ max (digit (s.prefix3_masks k2 word) j) (goes_on k2 (64 * word + j) table)

bucket_at :
    (f : ℕ → List ℕ) (k k2 id : ℕ)
    → assign f k (f k ++ (id ∷ [])) k2 ≡ f k2 ++ (if k == k2 then id ∷ [] else [])
bucket_at f k k2 id = elim (Bool-cases (k2 == k)) [
  | inl t ↦ let e : k ≡ k2 = ground arith in rw (e, ==_self k2)
  | inr t ↦ let f : (k == k2) ≡ false = ground arith in rw (t, f, append-nil)
]

flag_at :
    (has : ℕ → ℕ) (k k2 id : ℕ)
    → ((if has k == 0 then assign has k 1 else has) k2 == 0)
      ≡ ((has k2 == 0) && (length (if k == k2 then id ∷ [] else []) == 0))
flag_at has k k2 id = elim (Bool-cases (k2 == k)) [
  | inl t ↦
      let e : k ≡ k2 = ground arith in
      rw (e, ==_self k2)
        (elim (Bool-cases (has k2 == 0)) [ inl z ↦ rw (z, ==_self k2) | inr z ↦ rw (z, z) ])
  | inr t ↦
      let f : (k == k2) ≡ false = ground arith in
      rw f (elim (Bool-cases (has k == 0)) [
        | inl z ↦ rw (z, t) (ground arith)
        | inr z ↦ rw z (ground arith)
      ])
]

-- A word of a mask with one more third byte.
word_at :
    (m : ℕ → ℕ) (b word j : ℕ)
    → j < 64
    → digit (assign m (b / 2 ^ 6) (bit_or (m (b / 2 ^ 6)) (2 ^ bit_and b 63)) word) j
      ≡ max (digit (m word) j) (if b == 64 * word + j then 1 else 0)
word_at m b word j below =
    let low : bit_and b 63 ≡ b % 64 = bit_and_mask 6 b in
    elim (Bool-cases (word == b / 2 ^ 6)) [
      | inl t ↦
          let e : b / 2 ^ 6 ≡ word = ground arith in
          let same : (j == b % 64) ≡ (b == 64 * word + j) = ground arith in
          rw (
            e,
            ==_self word,
            low,
            digit-bit_or (m word) (2 ^ (b % 64)) j,
            digit-pow (b % 64) j,
            same,
          )
      | inr t ↦ rw t (ground arith)
    ]

mask_at :
    (masks : ℕ → ℕ → ℕ) (k b k2 word j : ℕ)
    → j < 64
    → digit
        (assign masks k
          (assign (masks k) (b / 2 ^ 6) (bit_or (masks k (b / 2 ^ 6)) (2 ^ bit_and b 63)))
          k2
          word)
        j
      ≡ max (digit (masks k2 word) j) (if k == k2 && b == 64 * word + j then 1 else 0)
mask_at masks k b k2 word j below = elim (Bool-cases (k2 == k)) [
  | inl t ↦ let e : k ≡ k2 = ground arith in rw (e, ==_self k2) (word_at (masks k2) b word j below)
  | inr t ↦ let f : (k == k2) ≡ false = ground arith in rw (t, f) (ground arith)
]

index_entry-Adds :
    (s : EncodeScratch) (id : ℕ) (entry : List ℕ)
    → 0 < length entry
    → Returns (index_entry s id entry) (Adds id (entry ∷ []) s)
unfolding index_entry ids_of goes_on
index_entry-Adds s id entry h = rw (entry_key-ok entry h) (record {
  buckets = λ k2. bucket_at s.by_prefix2 (first_two entry) k2 id;
  flags = λ k2. flag_at s.has_prefix2 (first_two entry) k2 id;
  masks =
      λ k2 word j below. mask_at s.prefix3_masks (first_two entry) (third entry) k2 word j below;
})

ids-cons :
    (k2 id : ℕ) (entry : List ℕ) (table : List (List ℕ))
    → ids_of k2 id (entry ∷ []) ++ ids_of k2 (id + 1) table ≡ ids_of k2 id (entry ∷ table)
unfolding ids_of
ids-cons k2 id entry table = elim (Bool-cases (first_two entry == k2)) [
  | inl t ↦ rw t
  | inr t ↦ rw t
]

none-cons :
    (k2 id : ℕ) (entry : List ℕ) (table : List (List ℕ))
    → ((length (ids_of k2 id (entry ∷ [])) == 0) && (length (ids_of k2 (id + 1) table) == 0))
      ≡ (length (ids_of k2 id (entry ∷ table)) == 0)
unfolding ids_of
none-cons k2 id entry table = elim (Bool-cases (first_two entry == k2)) [
  | inl t ↦ rw t (ground arith)
  | inr t ↦ rw t (ground arith)
]

goes_on-cons :
    (k2 b2 : ℕ) (entry : List ℕ) (table : List (List ℕ))
    → max (goes_on k2 b2 (entry ∷ [])) (goes_on k2 b2 table) ≡ goes_on k2 b2 (entry ∷ table)
unfolding goes_on
goes_on-cons k2 b2 entry table = elim (Bool-cases (first_two entry == k2 && third entry == b2)) [
  | inl t ↦ rw t (omega (arith, goes_on-le k2 b2 table))
  | inr t ↦ rw t (omega arith)
]

&&-assoc : (a b c : Bool) → ((a && b) && c) ≡ (a && (b && c))
&&-assoc true b c = refl
&&-assoc false b c = refl

Adds-trans :
    (id : ℕ) (entry : List ℕ) (table : List (List ℕ)) (s s' s'' : EncodeScratch)
    → Adds id (entry ∷ []) s s'
    → Adds (id + 1) table s' s''
    → Adds id (entry ∷ table) s s''
Adds-trans id entry table s s' s'' a b = record {
  buckets = λ k2.
      b.buckets k2
      ∙ ap (λ (l : List ℕ). l ++ ids_of k2 (id + 1) table) (a.buckets k2)
      ∙ append_assoc (s.by_prefix2 k2) (ids_of k2 id (entry ∷ [])) (ids_of k2 (id + 1) table)
      ∙ ap (λ (l : List ℕ). s.by_prefix2 k2 ++ l) (ids-cons k2 id entry table);
  flags = λ k2.
      b.flags k2
      ∙ ap (λ (t : Bool). t && (length (ids_of k2 (id + 1) table) == 0)) (a.flags k2)
      ∙ &&-assoc (s.has_prefix2 k2 == 0) (length (ids_of k2 id (entry ∷ [])) == 0)
          (length (ids_of k2 (id + 1) table) == 0)
      ∙ ap (λ (t : Bool). (s.has_prefix2 k2 == 0) && t) (none-cons k2 id entry table);
  masks = λ k2 word j below. omega (
    arith,
    a.masks k2 word j below,
    b.masks k2 word j below,
    goes_on-cons k2 (64 * word + j) entry table,
  );
}

nothing-Adds : (id : ℕ) (s : EncodeScratch) → Adds id [] s s
unfolding ids_of goes_on
nothing-Adds id s = record {
  buckets = λ k2. sym (append-nil (s.by_prefix2 k2));
  flags = λ k2. ground arith;
  masks = λ k2 word j below. omega arith;
}

index_entries-Adds :
    (table : List (List ℕ)) (s : EncodeScratch) (id : ℕ)
    → All IsEntry table
    → Returns (index_entries s id table) (Adds id table s)
unfolding index_entries
index_entries-Adds [] s id h = nothing-Adds id s
index_entries-Adds (entry ∷ table) s id h =
    Returns->>= (Adds id (entry ∷ []) s) (Adds id (entry ∷ table) s) (index_entry s id entry) _
      (index_entry-Adds s id entry h.0.0)
      (λ s' a.
        Returns_weaker _ _ _ (index_entries-Adds table s' (id + 1) h.1)
          (λ s'' b. Adds-trans id entry table s s' s'' a b))

insert_candidate-Perm :
    (table : List (List ℕ)) (id : ℕ) (ids : List ℕ)
    → Perm (insert_candidate table id ids) (id ∷ ids)
unfolding insert_candidate
insert_candidate-Perm table id [] = Perm.rfl
insert_candidate-Perm table id (other ∷ ids) = elim (Bool-cases (candidate_before table id other)) [
  | inl t ↦ rw t Perm.rfl
  | inr t ↦
      rw t
        (Perm.trans (Perm.cons other (insert_candidate-Perm table id ids)) (Perm.swap id other ids))
]

sort_candidates-Perm : (table : List (List ℕ)) (ids : List ℕ) → Perm (sort_candidates table ids) ids
unfolding sort_candidates
sort_candidates-Perm table [] = Perm.rfl
sort_candidates-Perm table (id ∷ ids) =
    Perm.trans (insert_candidate-Perm table id (sort_candidates table ids))
      (Perm.cons id (sort_candidates-Perm table ids))

sorted_bucket :
    (table : List (List ℕ)) (f : ℕ → List ℕ) (k k2 : ℕ) (ids : List ℕ)
    → Perm (f k2) ids
    → Perm (assign f k (sort_candidates table (f k)) k2) ids
sorted_bucket table f k k2 ids p = elim (Bool-cases (k2 == k)) [
  | inl t ↦
      let e : k ≡ k2 = ground arith in
      rw (e, ==_self k2) (Perm.trans (sort_candidates-Perm table (f k2)) p)
  | inr t ↦ rw t p
]

pub sort_touched-Indexed :
    (rows table : List (List ℕ)) (touched : List ℕ) (s : EncodeScratch)
    → Indexed table s
    → Indexed table (sort_touched rows s touched)
unfolding sort_touched
sort_touched-Indexed rows table [] s h = h
sort_touched-Indexed rows table (k ∷ touched) s h =
    sort_touched-Indexed rows table touched
      (record s { by_prefix2 = assign s.by_prefix2 k (sort_candidates rows (s.by_prefix2 k)) })
      (record {
        buckets = λ k2. sorted_bucket rows s.by_prefix2 k k2 (ids_of k2 0 table) (h.buckets k2);
        flags = h.flags;
        masks = h.masks;
      })

-- An index that was empty has what a table adds to it.
pub index_entries-Indexed :
    (table : List (List ℕ)) (s : EncodeScratch)
    → All IsEntry table
    → ((k2 : ℕ) → s.by_prefix2 k2 ≡ [])
    → ((k2 : ℕ) → s.has_prefix2 k2 ≡ 0)
    → ((k2 word : ℕ) → s.prefix3_masks k2 word ≡ 0)
    → Returns (index_entries s 0 table) (Indexed table)
index_entries-Indexed table s h no_ids no_flag no_mask =
    Returns_weaker (Adds 0 table s) (Indexed table) _ (index_entries-Adds table s 0 h) (λ s' a.
      record {
        buckets = λ k2.
            let e : s'.by_prefix2 k2 ≡ ids_of k2 0 table = rw (no_ids k2) at (a.buckets k2) in
            rw e Perm.rfl;
        flags = λ k2. rw (no_flag k2) at (a.flags k2);
        masks = λ k2 word j below.
            a.masks k2 word j below ∙ rw (no_mask k2 word, zero-digit j) (omega arith);
      })
