-- ===== src/Pdeflate/Encode/Search/BestMatch.antt =====
-- `find_best_match` returns a true match.
use cozip.Base.{
  ℕ, ◌+◌, ◌-◌, ◌<◌, ◌≡◌, refl, List, [], ◌∷◌, Bool, true, false, min, max, ltb, leb, ◌==◌, ◌||◌,
  if◌then◌else◌, length, get_or, All, arith, inl, inr, Bool-cases,
}
use cozip.Base.Results.{ok, ◌>>=◌}
use cozip.Base.Returns.{Returns, Returns->>=, Returns-if}
use cozip.Pdeflate.Encode.{EncodeScratch, PdeflateOptions}
use cozip.Pdeflate.Encode.Search.{
  Best, no_best, row_at, prefilter, may_match, next_byte_rejects, tail_rejects, take_match,
  cut_chain, match_prefix_len, probe_candidate, best_loop, find_best_match, select_candidates,
  prefix_key,
}
use cozip.Pdeflate.Encode.Search.Sound.{
  IsSearch, IsBest, get_or_all, row_at-Returns, prefilter-Answers, no_best-IsBest,
  next_byte_rejects-Answers, tail_rejects-Answers, take_match-IsBest,
}

cut_chain-low :
    (len checked : ℕ) (whole : Bool) → (whole || cut_chain len checked) ≡ false → len < 64
unfolding cut_chain
cut_chain-low len checked whole h = ground arith

module _ {table rows : List (List ℕ)} {src : List ℕ} {min_ref_len max_ref_len width : ℕ}
    (search : IsSearch table rows src min_ref_len max_ref_len width) (pos : ℕ) where
  -- A round leaves a true match, and a short one unless it stops the loop.
  abbrev Kept : Best × Bool → Type 0
  Kept (best, stop) = IsBest search pos best × (stop ≡ false → best.best_len < 64)

  pass : (best : Best) → IsBest search pos best → best.best_len < 64 → Kept (best, false)
  pass best good low = (good, λ _. low)

  stop_here : (best : Best) → IsBest search pos best → Kept (best, true)
  stop_here best good = (good, λ t. cc)

  measure-Kept :
      (id : ℕ) (best : Best) (checked m : ℕ) (entry : List ℕ)
      → id < length rows
      → IsBest search pos best
      → m ≡ match_prefix_len src pos (get_or rows id []) (min (length src - pos) max_ref_len)
      → Kept (
        (take_match best id m min_ref_len (min (length src - pos) max_ref_len) entry table).0,
        (take_match best id m min_ref_len (min (length src - pos) max_ref_len) entry table).1
            || cut_chain
                (take_match best id m min_ref_len
                  (min (length src - pos) max_ref_len)
                  entry
                  table).0.best_len
                checked,
      )
  measure-Kept id best checked m entry h good e =
      let r = take_match best id m min_ref_len (min (length src - pos) max_ref_len) entry table in
      (
        take_match-IsBest search pos best id m entry good h e,
        λ t. cut_chain-low r.0.best_len checked r.1 t,
      )

  after_prefilter :
      (id : ℕ) (best : Best) (checked : ℕ) (entry rep : List ℕ)
      → id < length rows
      → IsBest search pos best
      → best.best_len < 64
      → rep ≡ get_or rows id []
      → length rep ≡ width
      → Returns
          (next_byte_rejects best (min (length src - pos) max_ref_len) src pos rep >>= λ r2.
            if r2
            then ok (best, false)
            else (tail_rejects best min_ref_len src pos rep >>= λ r3.
                if r3
                then ok (best, false)
                else (let r =
                      take_match best id
                        (match_prefix_len src pos rep (min (length src - pos) max_ref_len))
                        min_ref_len
                        (min (length src - pos) max_ref_len)
                        entry
                        table in
                    ok (r.0, r.1 || cut_chain r.0.best_len checked))))
          Kept
  after_prefilter id best checked entry rep h good low e size =
      Returns->>= (λ _. Unit) Kept
        (next_byte_rejects best (min (length src - pos) max_ref_len) src pos rep) _
        (next_byte_rejects-Answers search pos best rep good low size)
        (λ r2 _.
          Returns-if Kept r2 (ok (best, false)) _ (λ _. pass best good low)
            (λ _.
              Returns->>= (λ _. Unit) Kept (tail_rejects best min_ref_len src pos rep) _
                (tail_rejects-Answers search pos best rep good size)
                (λ r3 _.
                  Returns-if Kept r3 (ok (best, false)) _ (λ _. pass best good low)
                    (λ _.
                      measure-Kept id best checked
                        (match_prefix_len src pos rep (min (length src - pos) max_ref_len)) entry h
                        good (rw e refl)))))

  probe_candidate-Kept :
      (id : ℕ) (best : Best) (checked : ℕ)
      → id < length rows
      → IsBest search pos best
      → best.best_len < 64
      → Returns (probe_candidate table rows min_ref_len max_ref_len src pos id best checked) Kept
  unfolding probe_candidate
  probe_candidate-Kept id best checked h good low =
      Returns->>= (λ entry. entry ≡ get_or table id []) Kept (row_at table id) _
        (row_at-Returns table id (omega (arith, search.row_count)))
        (λ entry _.
          Returns->>= (λ rep. rep ≡ get_or rows id []) Kept (row_at rows id) _
            (row_at-Returns rows id h)
            (λ rep e.
              let max_len = min (length src - pos) max_ref_len in
              let size : length rep ≡ width =
                rw e (get_or_all (λ r. length r ≡ width) rows id h search.row_sizes) in
              Returns-if Kept (length entry == 0) (ok (best, false)) _ (λ _. pass best good low)
                (λ _.
                  Returns-if Kept (ltb max_len min_ref_len) (ok (best, true)) _
                    (λ _. stop_here best good)
                    (λ _.
                      Returns->>= (λ _. Unit) Kept (prefilter src pos entry rep) _
                        (prefilter-Answers src pos entry rep (omega (arith, search.width_min)))
                        (λ r1 _.
                          Returns-if Kept r1 (ok (best, false)) _ (λ _. pass best good low)
                            (λ _. after_prefilter id best checked entry rep h good low e size))))))

  best_loop-IsBest :
      (ids : List ℕ) (probe_limit checked : ℕ) (best : Best)
      → All (λ id. id < length rows) ids
      → IsBest search pos best
      → best.best_len < 64
      → Returns
          (best_loop ids probe_limit table rows min_ref_len max_ref_len src pos checked best)
          (IsBest search pos)
  unfolding best_loop
  best_loop-IsBest [] probe_limit checked best ids_ok good low = good
  best_loop-IsBest (id ∷ ids) probe_limit checked best ids_ok good low =
      Returns-if (IsBest search pos) (leb probe_limit checked) (ok best) _ (λ _. good)
        (λ _.
          Returns->>= Kept (IsBest search pos)
            (probe_candidate table rows min_ref_len max_ref_len src pos id best (checked + 1)) _
            (probe_candidate-Kept id best (checked + 1) ids_ok.0 good low)
            (λ (best', stop) kept.
              Returns-if (IsBest search pos) stop (ok best') _ (λ _. kept.0)
                (λ more.
                  best_loop-IsBest ids probe_limit (checked + 1) best' ids_ok.1 kept.0
                    (kept.1 more))))

pub select_candidates-All :
    (P : ℕ → Type 0) (by_prefix2 : ℕ → List ℕ) (src : List ℕ) (pos : ℕ)
    → ((k2 : ℕ) → All P (by_prefix2 k2))
    → All P (select_candidates src pos by_prefix2)
unfolding select_candidates
select_candidates-All P by_prefix2 src pos h = elim (Bool-cases (leb (length src) (pos + 1))) [
  | inl t ↦ rw t tt
  | inr t ↦ rw t (h (prefix_key src pos))
]

-- For an index that names entries of the table, rows that are as wide as the options and at least four
-- bytes, and a `min_ref_len` of at least 3 that a row has room for: `find_best_match` returns without a
-- read out of range, and what it returns is no match or a true one, an entry whose repeated bytes agree
-- with the source from `pos` on for the length it says, which is at least `min_ref_len` and neither
-- leaves the source nor the options' maximum.
pub find_best_match-IsBest :
    {table : List (List ℕ)} {src : List ℕ} {max_ref_len width : ℕ} (s : EncodeScratch)
    (options : PdeflateOptions)
    (search : IsSearch table s.repeat_table src options.min_ref_len max_ref_len width) (pos : ℕ)
    → ((k2 : ℕ) → All (λ id. id < length s.repeat_table) (s.by_prefix2 k2))
    → Returns (find_best_match s table options src pos max_ref_len) (IsBest search pos)
unfolding find_best_match
find_best_match-IsBest {table} {src} {max_ref_len} s options search pos ids_ok =
    Returns-if (IsBest search pos) (may_match s src pos options.min_ref_len) _ (ok no_best)
      (λ _.
        best_loop-IsBest search pos (select_candidates src pos s.by_prefix2)
          (max options.match_probe_limit 1) 0 no_best
          (select_candidates-All (λ id. id < length s.repeat_table) s.by_prefix2 src pos ids_ok)
          (no_best-IsBest search pos) (omega arith))
      (λ _. no_best-IsBest search pos)
