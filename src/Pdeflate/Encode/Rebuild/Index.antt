-- ===== src/Pdeflate/Encode/Rebuild/Index.antt =====
-- The index of the encoder's scratch, rebuilt for every chunk: what an earlier chunk left is cleared,
-- and the ids are those of the table.
use cozip.Base.{
  ℕ, ◌+◌, ◌<◌, ◌≡◌, refl, subst, List, [], ◌∷◌, ◌++◌, ◌⊎◌, inl, inr, ◌==◌, if◌then◌else◌, length,
  All, All-append, arith, Bool-cases,
}
use cozip.Base.Returns.{Returns, Returns->>=, Returns-both}
use cozip.Pdeflate.Encode.{
  EncodeScratch, new_scratch, index, assign, clear_touched, entry_key, index_entry, index_entries,
  insert_candidate, sort_candidates, sort_touched, rebuild_prefix_index, candidate_before,
}
use cozip.Pdeflate.Encode.Rebuild.Named.{Indexed, index_entries-Indexed, sort_touched-Indexed}
use cozip.Pdeflate.Encode.Search.Sound.{index-Answers, Answers}
use cozip.Pdeflate.Table.RoundTrip.{IsEntry}

-- The index names ids below `n`.
abbrev pub Ids : ℕ → EncodeScratch → Type 0
Ids n s = (k2 : ℕ) → All (λ id. id < n) (s.by_prefix2 k2)

assign-All :
    (n : ℕ) (f : ℕ → List ℕ) (i : ℕ) (ids : List ℕ)
    → ((k2 : ℕ) → All (λ id. id < n) (f k2))
    → All (λ id. id < n) ids
    → (k2 : ℕ) → All (λ id. id < n) (assign f i ids k2)
assign-All n f i ids h hi k2 = elim (Bool-cases (k2 == i)) [ inl t ↦ rw t hi | inr t ↦ rw t (h k2) ]

insert_candidate-All :
    (n : ℕ) (table : List (List ℕ)) (id : ℕ) (ids : List ℕ)
    → id < n
    → All (λ i. i < n) ids
    → All (λ i. i < n) (insert_candidate table id ids)
unfolding insert_candidate
insert_candidate-All n table id [] h hs = (h, tt)
insert_candidate-All n table id (other ∷ ids) h hs =
    elim (Bool-cases (candidate_before table id other)) [
      | inl t ↦ rw t (h, hs)
      | inr t ↦ rw t (hs.0, insert_candidate-All n table id ids h hs.1)
    ]

sort_candidates-All :
    (n : ℕ) (table : List (List ℕ)) (ids : List ℕ)
    → All (λ i. i < n) ids
    → All (λ i. i < n) (sort_candidates table ids)
unfolding sort_candidates
sort_candidates-All n table [] h = tt
sort_candidates-All n table (id ∷ ids) h =
    insert_candidate-All n table id (sort_candidates table ids) h.0
      (sort_candidates-All n table ids h.1)

Elem : ℕ → List ℕ → Type 0
Elem x [] = ⊥
Elem x (y ∷ ys) = (x ≡ y) ⊎ Elem x ys

Elem-append : (x : ℕ) (xs ys : List ℕ) → Elem x xs → Elem x (xs ++ ys)
unfolding Elem
Elem-append x [] ys h = absurd h
Elem-append x (z ∷ xs) ys (inl e) = inl e
Elem-append x (z ∷ xs) ys (inr h) = inr (Elem-append x xs ys h)

Elem-last : (x : ℕ) (xs : List ℕ) → Elem x (xs ++ (x ∷ []))
unfolding Elem
Elem-last x [] = inl refl
Elem-last x (z ∷ xs) = inr (Elem-last x xs)

-- A bucket that is not among the touched ones is empty, says so, and has no third byte.
unfoldable pub IsEmptyAt : EncodeScratch → ℕ → Type 0
IsEmptyAt s k2 =
    (s.by_prefix2 k2 ≡ []) × (s.has_prefix2 k2 ≡ 0) × ((word : ℕ) → s.prefix3_masks k2 word ≡ 0)

unfoldable pub IsClean : EncodeScratch → Type 0
unfolding Elem
IsClean s = (k2 : ℕ) → Elem k2 s.touched_prefix2 ⊎ IsEmptyAt s k2

pub new_scratch-IsClean : IsClean new_scratch
unfolding new_scratch IsClean IsEmptyAt
new_scratch-IsClean k2 = inr (refl, refl, λ word. refl)

abbrev cleared : EncodeScratch → ℕ → EncodeScratch
cleared s k = record s {
  by_prefix2 = assign s.by_prefix2 k [];
  has_prefix2 = assign s.has_prefix2 k 0;
  prefix3_masks = assign s.prefix3_masks k (λ word. 0);
}

cleared_at :
    (s : EncodeScratch) (k k2 : ℕ) (touched : List ℕ)
    → Elem k2 (k ∷ touched) ⊎ IsEmptyAt s k2
    → Elem k2 touched ⊎ IsEmptyAt (cleared s k) k2
unfolding Elem IsEmptyAt
cleared_at s k k2 touched h = elim (Bool-cases (k2 == k)) [
  | inl t ↦ inr (rw t refl, rw t refl, λ word. rw t refl)
  | inr t ↦ elim h [
    | inl (inl e) ↦ absurd (ground arith)
    | inl (inr m) ↦ inl m
    | inr empty ↦ inr (rw t empty.0, rw t empty.1, λ word. rw t (empty.2 word))
  ]
]

clear_touched-IsEmptyAt :
    (touched : List ℕ) (s : EncodeScratch) (k2 : ℕ)
    → Elem k2 touched ⊎ IsEmptyAt s k2
    → IsEmptyAt (clear_touched s touched) k2
unfolding clear_touched Elem IsEmptyAt
clear_touched-IsEmptyAt [] s k2 (inl h) = absurd h
clear_touched-IsEmptyAt [] s k2 (inr h) = h
clear_touched-IsEmptyAt (k ∷ touched) s k2 h =
    clear_touched-IsEmptyAt touched (cleared s k) k2 (cleared_at s k k2 touched h)

-- A bucket that gets an id is among the touched ones.
clean_step :
    (buckets : ℕ → List ℕ) (has : ℕ → ℕ) (masks : ℕ → ℕ → ℕ) (new : ℕ → ℕ) (touched : List ℕ)
    (k2 : ℕ) (ids : List ℕ)
    → ((k : ℕ)
        → Elem k touched ⊎ ((buckets k ≡ []) × (has k ≡ 0) × ((word : ℕ) → masks k word ≡ 0)))
    → (k : ℕ)
    → Elem k (if has k2 == 0 then touched ++ (k2 ∷ []) else touched)
      ⊎ ((assign buckets k2 ids k ≡ [])
          × ((if has k2 == 0 then assign has k2 1 else has) k ≡ 0)
          × ((word : ℕ) → assign masks k2 new k word ≡ 0))
clean_step buckets has masks new touched k2 ids clean k = elim (Bool-cases (has k2 == 0)) [
  | inl t ↦ elim (Bool-cases (k == k2)) [
    | inl q ↦
        let e : k2 ≡ k = ground arith in
        rw t (inl (subst (λ x. Elem x (touched ++ (k2 ∷ []))) e (Elem-last k2 touched)))
    | inr q ↦ elim (clean k) [
      | inl m ↦ rw t (inl (Elem-append k touched (k2 ∷ []) m))
      | inr empty ↦ rw t (inr (rw q empty.0, rw q empty.1, λ word. rw q (empty.2 word)))
    ]
  ]
  | inr t ↦ elim (Bool-cases (k == k2)) [
    | inl q ↦ elim (clean k2) [
      | inl m ↦ let e : k2 ≡ k = ground arith in rw t (inl (subst (λ x. Elem x touched) e m))
      | inr empty ↦ absurd (ground (arith, empty.1))
    ]
    | inr q ↦ elim (clean k) [
      | inl m ↦ rw t (inl m)
      | inr empty ↦ rw t (inr (rw q empty.0, empty.1, λ word. rw q (empty.2 word)))
    ]
  ]
]

-- What the index is held to while it is built.
abbrev Kept : ℕ → List (List ℕ) → EncodeScratch → Type 0
Kept n rows s = IsClean s × Ids n s × (s.repeat_table ≡ rows)

clear_touched-rows :
    (touched : List ℕ) (s : EncodeScratch) → (clear_touched s touched).repeat_table ≡ s.repeat_table
unfolding clear_touched
clear_touched-rows [] s = refl
clear_touched-rows (k ∷ touched) s = clear_touched-rows touched (cleared s k)

index-Returns-first : (entry : List ℕ) → 0 < length entry → Answers (entry_key entry)
unfolding entry_key
index-Returns-first entry h =
    Returns->>= (λ _. Unit) (λ _. Unit) (index entry 0) _ (index-Answers entry 0 h) (λ b0 _. tt)

index_entry-Kept :
    (n : ℕ) (rows : List (List ℕ)) (s : EncodeScratch) (id : ℕ) (entry : List ℕ)
    → id < n
    → 0 < length entry
    → Kept n rows s
    → Returns (index_entry s id entry) (Kept n rows)
unfolding index_entry IsClean Elem IsEmptyAt
index_entry-Kept n rows s id entry h some_bytes kept =
    Returns->>= (λ _. Unit) (Kept n rows) (entry_key entry) _ (index-Returns-first entry some_bytes)
      (λ (k2, b2) _. (
        clean_step s.by_prefix2 s.has_prefix2 s.prefix3_masks _ s.touched_prefix2 k2
            (s.by_prefix2 k2 ++ (id ∷ [])) kept.0,
        assign-All n s.by_prefix2 k2 (s.by_prefix2 k2 ++ (id ∷ [])) kept.1
            (All-append (λ i. i < n) (s.by_prefix2 k2) (id ∷ []) (kept.1 k2) (h, tt)),
        kept.2,
      ))

index_entries-Kept :
    (n : ℕ) (rows : List (List ℕ)) (table : List (List ℕ)) (s : EncodeScratch) (id : ℕ)
    → All IsEntry table
    → id + length table ≡ n
    → Kept n rows s
    → Returns (index_entries s id table) (Kept n rows)
unfolding index_entries
index_entries-Kept n rows [] s id h e kept = kept
index_entries-Kept n rows (entry ∷ table) s id h e kept =
    Returns->>= (Kept n rows) (Kept n rows) (index_entry s id entry) _
      (index_entry-Kept n rows s id entry (omega arith) h.0.0 kept)
      (λ s' kept'. index_entries-Kept n rows table s' (id + 1) h.1 (omega arith) kept')

sorted_clean :
    (table : List (List ℕ)) (buckets : ℕ → List ℕ) (k k2 : ℕ) (Z W M : Type 0)
    → M ⊎ ((buckets k2 ≡ []) × Z × W)
    → M ⊎ ((assign buckets k (sort_candidates table (buckets k)) k2 ≡ []) × Z × W)
unfolding sort_candidates
sorted_clean table buckets k k2 Z W M (inl m) = inl m
sorted_clean table buckets k k2 Z W M (inr (e, z, w)) = elim (Bool-cases (k2 == k)) [
  | inl t ↦ let same : k ≡ k2 = ground arith in inr (rw (t, same, e) refl, z, w)
  | inr t ↦ inr (rw t e, z, w)
]

sort_touched-Kept :
    (n : ℕ) (rows : List (List ℕ)) (table : List (List ℕ)) (touched : List ℕ) (s : EncodeScratch)
    → Kept n rows s
    → Kept n rows (sort_touched table s touched)
unfolding sort_touched IsClean Elem IsEmptyAt
sort_touched-Kept n rows table [] s kept = kept
sort_touched-Kept n rows table (k ∷ touched) s kept =
    sort_touched-Kept n rows table touched
      (record s { by_prefix2 = assign s.by_prefix2 k (sort_candidates table (s.by_prefix2 k)) })
      (
        (λ k2.
            sorted_clean table s.by_prefix2 k k2 (s.has_prefix2 k2 ≡ 0)
              ((word : ℕ) → s.prefix3_masks k2 word ≡ 0) (Elem k2 s.touched_prefix2) (kept.0 k2)),
        assign-All n s.by_prefix2 k (sort_candidates table (s.by_prefix2 k)) kept.1
            (sort_candidates-All n table (s.by_prefix2 k) (kept.1 k)),
        kept.2,
      )

-- The index while its buckets are filled and sorted: what it is held to, and what it holds.
abbrev Filled : ℕ → List (List ℕ) → List (List ℕ) → EncodeScratch → Type 0
Filled n rows table s = Kept n rows s × Indexed table s

-- `rebuild_prefix_index` on a scratch that any chunk left does not fail on a table without empty
-- entries, and it leaves the index of this table and of nothing else: under two bytes stand the ids of
-- the entries that begin with them, once each, `has_prefix2` says whether there are any, and the bits of
-- `prefix3_masks` are the third bytes of these entries, an entry of one or two bytes counting as its
-- repetition. All ids are below the table's length, the rows stay, and the scratch is fit for the next
-- chunk: a bucket that is not listed as touched has no id, no flag and no third byte.
pub rebuild_prefix_index-Kept :
    (s : EncodeScratch) (table : List (List ℕ))
    → IsClean s
    → All IsEntry table
    → Returns (rebuild_prefix_index s table) (λ s'.
      (IsClean s' × Ids (length table) s' × (s'.repeat_table ≡ s.repeat_table)) × Indexed table s')
unfolding rebuild_prefix_index IsClean IsEmptyAt
rebuild_prefix_index-Kept s table clean h =
    let n = length table in
    let rows = s.repeat_table in
    let s₁ = clear_touched s s.touched_prefix2 in
    let empty = λ (k2 : ℕ). clear_touched-IsEmptyAt s.touched_prefix2 s k2 (clean k2) in
    Returns->>= (Filled n rows table) (Filled n rows table) (index_entries s₁ 0 table) _
      (Returns-both (Kept n rows) (Indexed table) (index_entries s₁ 0 table)
        (index_entries-Kept n rows table s₁ 0 h (omega arith) (
          (λ k2. inr (empty k2)),
          (λ k2. rw ((empty k2).0) tt),
          clear_touched-rows s.touched_prefix2 s,
        ))
        (index_entries-Indexed table s₁ h (λ k2. (empty k2).0) (λ k2. (empty k2).1)
          (λ k2 word. (empty k2).2 word)))
      (λ s' filled. (
        sort_touched-Kept n rows table s'.touched_prefix2 s' filled.0,
        sort_touched-Indexed table table s'.touched_prefix2 s' filled.1,
      ))
