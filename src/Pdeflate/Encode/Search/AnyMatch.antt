-- ===== src/Pdeflate/Encode/Search/AnyMatch.antt =====
-- `has_any_match` returns.
use cozip.Base.{
  ℕ, zero, suc, ◌+◌, ◌-◌, ◌≤◌, ◌<◌, ◌≡◌, refl, List, [], ◌∷◌, Bool, true, false, min, max, not, ltb,
  ◌==◌, ◌||◌, length, take, get_or, All, arith, ltb→ge,
}
use cozip.Base.Results.{ok}
use cozip.Base.Returns.{Returns->>=, Returns-if}
use cozip.Pdeflate.Encode.{EncodeScratch, PdeflateOptions, index}
use cozip.Pdeflate.Encode.Search.{
  row_at, prefilter, may_match, bytes_equal, any_candidate, has_any_match,
}
use cozip.Pdeflate.Encode.Search.BestMatch.{select_candidates-All}
use cozip.Pdeflate.Encode.Search.Sound.{
  Answers, IsSearch, get_or_all, index-Answers, row_at-Returns, prefilter-Answers,
}

bytes_equal-Answers :
    (n k : ℕ) (src : List ℕ) (pos : ℕ) (rep : List ℕ)
    → pos + k + n ≤ length src
    → k + n ≤ length rep
    → Answers (bytes_equal n k src pos rep)
unfolding bytes_equal
bytes_equal-Answers zero k src pos rep hs hr = tt
bytes_equal-Answers (suc n) k src pos rep hs hr =
    Returns->>= (λ _. Unit) (λ _. Unit) (index src (pos + k)) _
      (index-Answers src (pos + k) (omega arith))
      (λ s _.
        Returns->>= (λ _. Unit) (λ _. Unit) (index rep k) _ (index-Answers rep k (omega arith))
          (λ r _.
            Returns-if (λ _. Unit) (s == r) _ (ok false)
              (λ _. bytes_equal-Answers n (k + 1) src pos rep (omega arith) (omega arith))
              (λ _. tt)))

or_left : (a b : Bool) → (a || b) ≡ false → a ≡ false
or_left true b h = cc
or_left false b h = refl

take_all_ids : (P : ℕ → Type 0) (n : ℕ) (ids : List ℕ) → All P ids → All P (take n ids)
take_all_ids P zero ids h = tt
take_all_ids P (suc n) [] h = tt
take_all_ids P (suc n) (id ∷ ids) h = (h.0, take_all_ids P n ids h.1)

module _ {table rows : List (List ℕ)} {src : List ℕ} {min_ref_len max_ref_len width : ℕ}
    (search : IsSearch table rows src min_ref_len max_ref_len width) (pos : ℕ) where
  any_candidate-Answers :
      (ids : List ℕ) (check : ℕ)
      → All (λ id. id < length rows) ids
      → pos + check ≤ length src
      → check ≤ width
      → Answers (any_candidate ids table rows src pos check)
  unfolding any_candidate
  any_candidate-Answers [] check ids_ok in_src in_row = tt
  any_candidate-Answers (id ∷ ids) check ids_ok in_src in_row =
      let next = any_candidate-Answers ids check ids_ok.1 in_src in_row in
      Returns->>= (λ entry. entry ≡ get_or table id []) (λ _. Unit) (row_at table id) _
        (row_at-Returns table id (omega (arith, ids_ok.0, search.row_count)))
        (λ entry _.
          Returns->>= (λ rep. rep ≡ get_or rows id []) (λ _. Unit) (row_at rows id) _
            (row_at-Returns rows id ids_ok.0)
            (λ rep e.
              let size : length rep ≡ width =
                rw e (get_or_all (λ r. length r ≡ width) rows id ids_ok.0 search.row_sizes) in
              Returns-if (λ _. Unit) (length entry == 0) _ _ (λ _. next)
                (λ _.
                  Returns->>= (λ _. Unit) (λ _. Unit) (prefilter src pos entry rep) _
                    (prefilter-Answers src pos entry rep (omega (arith, search.width_min)))
                    (λ r1 _.
                      Returns-if (λ _. Unit) r1 _ _ (λ _. next)
                        (λ _.
                          Returns->>= (λ _. Unit) (λ _. Unit) (bytes_equal check 0 src pos rep) _
                            (bytes_equal-Answers check 0 src pos rep (omega arith) (omega arith))
                            (λ equal _.
                              Returns-if (λ _. Unit) equal (ok true) _ (λ _. tt) (λ _. next)))))))

pub has_any_match-Answers :
    {table : List (List ℕ)} {src : List ℕ} {max_ref_len width : ℕ} (s : EncodeScratch)
    (options : PdeflateOptions)
    (search : IsSearch table s.repeat_table src options.min_ref_len max_ref_len width) (pos : ℕ)
    → ((k2 : ℕ) → All (λ id. id < length s.repeat_table) (s.by_prefix2 k2))
    → Answers (has_any_match s table options src pos max_ref_len)
unfolding has_any_match
has_any_match-Answers {table} {src} {max_ref_len} s options search pos ids_ok =
    let max_len = min (length src - pos) max_ref_len in
    let t_short = ltb max_len options.min_ref_len in
    Returns-if (λ _. Unit) (t_short || not (may_match s src pos options.min_ref_len)) (ok false) _
      (λ _. tt)
      (λ t.
        let long : options.min_ref_len ≤ max_len = ltb→ge _ _ (or_left _ _ t) in
        let three = search.min_pos in
        any_candidate-Answers search pos _ (min options.min_ref_len max_ref_len)
          (take_all_ids (λ id. id < length s.repeat_table) (max options.match_probe_limit 1) _
            (select_candidates-All (λ id. id < length s.repeat_table) s.by_prefix2 src pos ids_ok))
          (omega arith) (omega (arith, search.min_fits)))
