-- ===== src/Pdeflate/Encode/Search.antt =====
-- The search for a table entry that repeats the next bytes: `has_any_match`, `find_best_match`,
-- `select_candidates`, `prefix3_hit` and `match_prefix_len` of cozip_pdeflate/src/pdeflate/mod.rs.
-- The metrics are left out. A slice or array read out of range is `panicked`.
pub mod Sound
pub mod BestMatch
pub mod AnyMatch
use cozip.Base.{
  ℕ, zero, suc, ◌+◌, ◌-◌, ◌*◌, ◌/◌, ◌^◌, List, [], ◌∷◌, Bool, true, false, Option, none, some, min,
  max, bit_and, not, ltb, leb, ◌==◌, ◌&&◌, ◌||◌, if◌then◌else◌, length, take, drop, get_or,
}
use cozip.Base.Results.{ok, err, ◌>>=◌, ok_or}
use cozip.Pdeflate.Encode.{PdeflateOptions, EncodeScratch, index}
use cozip.Pdeflate.Encode.Prefix.{fast_prefix_len}
use cozip.Pdeflate.Error.{Result, panicked}

unfoldable pub prefix_key : List ℕ → ℕ → ℕ
prefix_key src pos = get_or src pos 0 * 2 ^ 8 + get_or src (pos + 1) 0

unfoldable pub prefix3_hit : (ℕ → ℕ → ℕ) → ℕ → ℕ → Bool
prefix3_hit prefix3_masks k2 b2 =
    not (bit_and (prefix3_masks k2 (b2 / 2 ^ 6)) (2 ^ bit_and b2 63) == 0)

unfoldable pub select_candidates : List ℕ → ℕ → (ℕ → List ℕ) → List ℕ
select_candidates src pos by_prefix2 =
    if leb (length src) (pos + 1) then [] else by_prefix2 (prefix_key src pos)

unfoldable pub match_prefix_len : List ℕ → ℕ → List ℕ → ℕ → ℕ
match_prefix_len src pos rep max_len = fast_prefix_len (drop pos src) rep max_len

-- `&rows[id]`
unfoldable pub row_at : List (List ℕ) → ℕ → Result (List ℕ)
row_at rows id = if ltb id (length rows) then ok (get_or rows id []) else err panicked

-- `entry.len() > k`, and then `pos + k >= src.len() || rep[k] != src[pos + k]`: the candidate is
-- passed over.
unfoldable pub rejected_at : ℕ → List ℕ → ℕ → List ℕ → List ℕ → Result Bool
rejected_at k src pos entry rep =
    let probe = index rep k >>= λ r. index src (pos + k) >>= λ s. ok (not (r == s)) in
    if ltb k (length entry)
    then (if leb (length src) (pos + k) then ok true else probe)
    else ok false

-- The first bytes: `entry.len() > 1`, `> 2` and `> 3`.
unfoldable pub prefilter : List ℕ → ℕ → List ℕ → List ℕ → Result Bool
prefilter src pos entry rep = do
  r1 ← rejected_at 1 src pos entry rep
  if r1 then ok true else (do
    r2 ← rejected_at 2 src pos entry rep
    if r2 then ok true else rejected_at 3 src pos entry rep)

-- What the tests at the head of the two searches leave: whether the table may hold a match at all.
unfoldable pub may_match : EncodeScratch → List ℕ → ℕ → ℕ → Bool
may_match s src pos min_ref_len =
    let k2 = prefix_key src pos in
    not (leb (length src) pos || ltb (length src - pos) min_ref_len)
    && (not (leb (length src) (pos + 1))
        && (not (s.has_prefix2 k2 == 0)
            && not (
                ltb (pos + 2) (length src)
                && not (prefix3_hit s.prefix3_masks k2 (get_or src (pos + 2) 0)))))

-- `for k in 0..n { if src[pos + k] != rep[k] { .. } }`
unfoldable pub bytes_equal : ℕ → ℕ → List ℕ → ℕ → List ℕ → Result Bool
bytes_equal zero k src pos rep = ok true
bytes_equal (suc n) k src pos rep = do
  s ← index src (pos + k)
  r ← index rep k
  let rest = bytes_equal n (k + 1) src pos rep
  if s == r then rest else ok false

unfoldable pub any_candidate : List ℕ → List (List ℕ) → List (List ℕ) → List ℕ → ℕ → ℕ → Result Bool
any_candidate [] table table_repeat src pos check = ok false
any_candidate (id ∷ ids) table table_repeat src pos check = do
  entry ← row_at table id
  rep ← row_at table_repeat id
  let next = any_candidate ids table table_repeat src pos check
  let probe = (do
    rejected ← prefilter src pos entry rep
    if rejected
        then next
        else (do equal ← bytes_equal check 0 src pos rep; if equal then ok true else next))
  if length entry == 0 then next else probe

unfoldable pub has_any_match :
    EncodeScratch → List (List ℕ) → PdeflateOptions → List ℕ → ℕ → ℕ → Result Bool
has_any_match s table options src pos max_ref_len =
    let max_len = min (length src - pos) max_ref_len in
    let candidates =
      take (max options.match_probe_limit 1) (select_candidates src pos s.by_prefix2) in
    let found =
      any_candidate candidates table s.repeat_table src pos (min options.min_ref_len max_ref_len) in
    if ltb max_len options.min_ref_len || not (may_match s src pos options.min_ref_len)
    then ok false
    else found

-- `best_id` and `best_len`; no entry is `usize::MAX` and 0.
pub record Best : Type 0 where
  pub best_id : Option ℕ
  pub best_len : ℕ

-- `best_len + 1 < max_len && rep[best_len] != src[pos + best_len]`
unfoldable pub next_byte_rejects : Best → ℕ → List ℕ → ℕ → List ℕ → Result Bool
next_byte_rejects best max_len src pos rep =
    let probe =
      index rep best.best_len >>= λ r. index src (pos + best.best_len) >>= λ s. ok (not (r == s)) in
    if ltb (best.best_len + 1) max_len then probe else ok false

-- The bytes at the end of the best match so far.
unfoldable pub tail_rejects : Best → ℕ → List ℕ → ℕ → List ℕ → Result Bool
tail_rejects best min_ref_len src pos rep =
    let end = best.best_len - 1 in
    let before =
      index rep (end - 1) >>= λ r. index src (pos + end - 1) >>= λ s. ok (not (r == s)) in
    let probe = index rep end >>= λ r. index src (pos + end) >>= λ s.
    if not (r == s) then ok true else (if leb 1 end then before else ok false) in
    if leb min_ref_len best.best_len then probe else ok false

-- `m > best_len || (m == best_len && best_id != MAX && entry.len() < table[best_id].len())`
unfoldable pub better : Best → ℕ → List ℕ → List (List ℕ) → Bool
better best m entry table = ltb best.best_len m || (m == best.best_len && shorter best.best_id)
  where
    shorter : Option ℕ → Bool
    shorter none = false
    shorter (some id) = ltb (length entry) (length (get_or table id []))

-- The chain cut, after a candidate was measured.
unfoldable pub cut_chain : ℕ → ℕ → Bool
cut_chain best_len checked =
    leb 64 best_len || (leb 32 best_len && leb 2 checked || leb 16 best_len && leb 3 checked)

unfoldable pub take_match : Best → ℕ → ℕ → ℕ → ℕ → List ℕ → List (List ℕ) → Best × Bool
take_match best id m min_ref_len max_len entry table =
    if leb min_ref_len m && better best m entry table
    then (record { best_id = some id; best_len = m }, m == max_len)
    else (best, false)

-- One round of the loop over the candidates; the test says whether the loop breaks.
unfoldable pub probe_candidate :
    List (List ℕ) → List (List ℕ) → ℕ → ℕ → List ℕ → ℕ → ℕ → Best → ℕ → Result (Best × Bool)
probe_candidate table table_repeat min_ref_len max_ref_len src pos id best checked = do
  entry ← row_at table id
  rep ← row_at table_repeat id
  let max_len = min (length src - pos) max_ref_len
  let measure =
      (let (best', whole) =
          take_match best id (match_prefix_len src pos rep max_len) min_ref_len max_len entry
            table in
        ok (best', whole || cut_chain best'.best_len checked))
  let probe = (do
    r1 ← prefilter src pos entry rep
    if r1 then ok (best, false) else (do
      r2 ← next_byte_rejects best max_len src pos rep
      if r2 then ok (best, false) else (do
        r3 ← tail_rejects best min_ref_len src pos rep
        if r3 then ok (best, false) else measure)))
  if length entry == 0
      then ok (best, false)
      else if ltb max_len min_ref_len
      then ok (best, true)
      else probe

unfoldable pub best_loop :
    List ℕ → ℕ → List (List ℕ) → List (List ℕ) → ℕ → ℕ → List ℕ → ℕ → ℕ → Best → Result Best
best_loop [] probe_limit table table_repeat min_ref_len max_ref_len src pos checked best = ok best
best_loop (id ∷ ids) probe_limit table table_repeat min_ref_len max_ref_len src pos checked best =
    let round =
      probe_candidate table table_repeat min_ref_len max_ref_len src pos id best (checked + 1)
      >>= λ (best', stop).
          let rest =
            best_loop ids probe_limit table table_repeat min_ref_len max_ref_len src pos
              (checked + 1) best' in
          if stop then ok best' else rest in
    if leb probe_limit checked then ok best else round

abbrev pub no_best : Best
no_best = record { best_id = none; best_len = 0 }

-- The entry and the length of the best match.
unfoldable pub find_best_match :
    EncodeScratch → List (List ℕ) → PdeflateOptions → List ℕ → ℕ → ℕ → Result Best
find_best_match s table options src pos max_ref_len =
    let found =
      best_loop (select_candidates src pos s.by_prefix2) (max options.match_probe_limit 1) table
        s.repeat_table options.min_ref_len max_ref_len src pos 0 no_best in
    if may_match s src pos options.min_ref_len then found else ok no_best
