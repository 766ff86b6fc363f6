-- ===== src/Pdeflate/Encode/Search/Sound.antt =====
-- The search returns, and the match it finds is a true one.
use cozip.Base.{
  ℕ, zero, suc, ◌+◌, ◌-◌, ◌≤◌, ◌<◌, ◌≡◌, refl, sym, ◌∙◌, List, [], ◌∷◌, Bool, true, false, Option,
  none, some, min, not, ltb, leb, ◌==◌, ◌&&◌, length, take, drop, get_or, All, arith, inl, inr,
  Bool-cases, get_elem?-get_or, lt→ltb, leb→le, ltb→lt,
}
use cozip.Base.Le.{IsBytes}
use cozip.Base.Results.{ok, ◌>>=◌}
use cozip.Base.Returns.{Returns, Returns->>=, Returns-if}
use cozip.Pdeflate.Encode.{index}
use cozip.Pdeflate.Encode.Prefix.Common.{fast_prefix_len-common, take-common, drop-IsBytes}
use cozip.Pdeflate.Encode.Prefix.Word.{common}
use cozip.Pdeflate.Encode.Search.{
  Best, no_best, row_at, rejected_at, prefilter, next_byte_rejects, tail_rejects, take_match,
  better, match_prefix_len,
}
use cozip.Pdeflate.Error.{Result}

-- Any answer will do.
abbrev pub Answers {ℓ} : {A : Type ℓ} → Result A → Type 0
Answers m = Returns m (λ _. Unit)

pub index-Answers : (xs : List ℕ) (i : ℕ) → i < length xs → Answers (index xs i)
unfolding index
index-Answers xs i h = rw (get_elem?-get_or xs i 0 h) tt

pub row_at-Returns :
    (rows : List (List ℕ)) (id : ℕ)
    → id < length rows
    → Returns (row_at rows id) (λ row. row ≡ get_or rows id [])
unfolding row_at
row_at-Returns rows id h = rw (lt→ltb id (length rows) h) refl

-- Two bytes read and compared.
compare-Answers :
    (xs ys : List ℕ) (i j : ℕ)
    → i < length xs
    → j < length ys
    → Answers (index xs i >>= λ r. index ys j >>= λ s. ok (not (r == s)))
compare-Answers xs ys i j hi hj =
    Returns->>= (λ _. Unit) (λ _. Unit) (index xs i) (λ r. index ys j >>= λ s. ok (not (r == s)))
      (index-Answers xs i hi)
      (λ r _.
        Returns->>= (λ _. Unit) (λ _. Unit) (index ys j) (λ s. ok (not (r == s)))
          (index-Answers ys j hj) (λ s _. tt))

rejected_at-Answers :
    (k : ℕ) (src : List ℕ) (pos : ℕ) (entry rep : List ℕ)
    → k < length rep
    → Answers (rejected_at k src pos entry rep)
unfolding rejected_at
rejected_at-Answers k src pos entry rep h =
    Returns-if (λ _. Unit) (ltb k (length entry)) _ (ok false)
      (λ _.
        Returns-if (λ _. Unit) (leb (length src) (pos + k)) (ok true) _ (λ _. tt)
          (λ t. compare-Answers rep src k (pos + k) h (ground arith)))
      (λ _. tt)

pub prefilter-Answers :
    (src : List ℕ) (pos : ℕ) (entry rep : List ℕ)
    → 4 ≤ length rep
    → Answers (prefilter src pos entry rep)
unfolding prefilter
prefilter-Answers src pos entry rep h =
    Returns->>= (λ _. Unit) (λ _. Unit) (rejected_at 1 src pos entry rep) _
      (rejected_at-Answers 1 src pos entry rep (omega arith))
      (λ r1 _.
        Returns-if (λ _. Unit) r1 (ok true) _ (λ _. tt)
          (λ _.
            Returns->>= (λ _. Unit) (λ _. Unit) (rejected_at 2 src pos entry rep) _
              (rejected_at-Answers 2 src pos entry rep (omega arith))
              (λ r2 _.
                Returns-if (λ _. Unit) r2 (ok true) _ (λ _. tt)
                  (λ _. rejected_at-Answers 3 src pos entry rep (omega arith)))))

-- What the search relies on: rows of one width that the decoder's rows begin with, ids of the table,
-- and options that keep every test inside the rows.
pub record IsSearch (table rows : List (List ℕ)) (src : List ℕ) (min_ref_len max_ref_len width : ℕ)
    : Type 0 where
  pub row_sizes : All (λ row. length row ≡ width) rows
  pub row_bytes : All IsBytes rows
  pub row_count : length rows ≡ length table
  pub src_bytes : IsBytes src
  pub width_is : width ≡ min max_ref_len 64
  pub width_min : 4 ≤ width
  pub min_pos : 3 ≤ min_ref_len
  pub min_fits : min_ref_len ≤ width

pub and_left : (a b : Bool) → (a && b) ≡ true → a ≡ true
and_left true b h = refl
and_left false b h = cc

pub get_or_all :
    (P : List ℕ → Type 0) (rows : List (List ℕ)) (id : ℕ)
    → id < length rows
    → All P rows
    → P (get_or rows id [])
get_or_all P [] id h all = absurd (omega arith)
get_or_all P (row ∷ rows) zero h all = all.0
get_or_all P (row ∷ rows) (suc id) h all = get_or_all P rows id (omega arith) all.1

module _ {table rows : List (List ℕ)} {src : List ℕ} {min_ref_len max_ref_len width : ℕ}
    (search : IsSearch table rows src min_ref_len max_ref_len width) (pos : ℕ) where
  -- A match at `pos`: the row and the source agree.
  abbrev pub Found : Option ℕ → ℕ → Type 0
  Found none len = len ≡ 0
  Found (some id) len =
      (id < length rows)
      × (min_ref_len ≤ len)
      × (take len (get_or rows id []) ≡ take len (drop pos src))

  pub record IsBest (best : Best) : Type 0 where
    pub found : Found best.best_id best.best_len
    pub in_row : best.best_len ≤ width
    pub in_src : best.best_len ≤ min (length src - pos) max_ref_len

  pub no_best-IsBest : IsBest no_best
  no_best-IsBest = record { found = refl; in_row = omega arith; in_src = omega arith }

  pub next_byte_rejects-Answers :
      (best : Best) (rep : List ℕ)
      → IsBest best
      → best.best_len < 64
      → length rep ≡ width
      → Answers (next_byte_rejects best (min (length src - pos) max_ref_len) src pos rep)
  unfolding next_byte_rejects
  next_byte_rejects-Answers best rep good low size =
      let w = search.width_is in
      Returns-if (λ _. Unit) (ltb (best.best_len + 1) (min (length src - pos) max_ref_len)) _
        (ok false)
        (λ t.
          let lt : best.best_len + 1 < min (length src - pos) max_ref_len = ltb→lt _ _ t in
          compare-Answers rep src best.best_len (pos + best.best_len) (omega arith) (omega arith))
        (λ _. tt)

  pub tail_rejects-Answers :
      (best : Best) (rep : List ℕ)
      → IsBest best
      → length rep ≡ width
      → Answers (tail_rejects best min_ref_len src pos rep)
  unfolding tail_rejects
  tail_rejects-Answers best rep good size =
      Returns-if (λ _. Unit) (leb min_ref_len best.best_len) _ (ok false)
        (λ t.
          let w = search.width_is in
          let m = search.min_pos in
          let end = best.best_len - 1 in
          let le : min_ref_len ≤ best.best_len = leb→le _ _ t in
          Returns->>= (λ _. Unit) (λ _. Unit) (index rep end) _
            (index-Answers rep end (omega arith))
            (λ r _.
              Returns->>= (λ _. Unit) (λ _. Unit) (index src (pos + end)) _
                (index-Answers src (pos + end) (omega arith))
                (λ s _.
                  Returns-if (λ _. Unit) (not (r == s)) (ok true) _ (λ _. tt)
                    (λ _.
                      Returns-if (λ _. Unit) (leb 1 end) _ (ok false)
                        (λ _.
                          compare-Answers rep src (end - 1) (pos + end - 1) (omega arith)
                            (omega arith))
                        (λ _. tt)))))
        (λ _. tt)

  match_sound :
      (id : ℕ) (m : ℕ)
      → id < length rows
      → m ≡ match_prefix_len src pos (get_or rows id []) (min (length src - pos) max_ref_len)
      → (take m (get_or rows id []) ≡ take m (drop pos src))
        × (m ≤ width)
        × (m ≤ min (length src - pos) max_ref_len)
  unfolding match_prefix_len
  match_sound id m h e =
      let row = get_or rows id [] in
      let size = get_or_all (λ r. length r ≡ width) rows id h search.row_sizes in
      let bytes = get_or_all IsBytes rows id h search.row_bytes in
      let max_len = min (length src - pos) max_ref_len in
      let e' : m ≡ common max_len (drop pos src) row =
        e
        ∙ fast_prefix_len-common (drop pos src) row max_len (drop-IsBytes pos src search.src_bytes)
            bytes in
      let facts = take-common max_len (drop pos src) row in
      rw e' (sym facts.0, omega (arith, facts.3), facts.1)

  pub take_match-IsBest :
      (best : Best) (id m : ℕ) (entry : List ℕ)
      → IsBest best
      → id < length rows
      → m ≡ match_prefix_len src pos (get_or rows id []) (min (length src - pos) max_ref_len)
      → IsBest (take_match best id m min_ref_len (min (length src - pos) max_ref_len) entry table).0
  unfolding take_match
  take_match-IsBest best id m entry good h e =
      let facts = match_sound id m h e in
      elim (Bool-cases (leb min_ref_len m && better best m entry table)) [
        | inl t ↦
            let le : min_ref_len ≤ m = leb→le _ _ (and_left _ _ t) in
            rw t record { found = (h, le, facts.0); in_row = facts.1; in_src = facts.2 }
        | inr t ↦ rw t good
      ]
