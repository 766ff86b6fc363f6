-- ===== src/Pdeflate/Encode/EncodeSection.antt =====
-- `encode_section_into` of cozip_pdeflate/src/pdeflate/mod.rs: a section cut in references and runs of
-- literals. The profile is left out.
pub mod Sound
use cozip.Base.{
  ℕ, zero, suc, ◌+◌, ◌-◌, ◌%◌, ◌^◌, List, [], ◌∷◌, Bool, true, false, Option, none, some, min,
  bit_and, not, ltb, ◌==◌, ◌&&◌, if◌then◌else◌, length, take, drop, get_or,
}
use cozip.Base.Results.{ok, err, ◌>>=◌}
use cozip.Pdeflate.Command.{max_cmd_len, emit_ref_command, emit_literal_command}
use cozip.Pdeflate.Encode.{PdeflateOptions, EncodeScratch}
use cozip.Pdeflate.Encode.Search.{prefix_key, prefix3_hit, has_any_match, find_best_match}
use cozip.Pdeflate.Error.{Result}

-- The lookahead is thinned as the run of literals grows.
unfoldable pub should_probe : ℕ → Bool
should_probe lit_span =
    if ltb lit_span 8
    then true
    else if ltb lit_span 32
    then bit_and lit_span 0x7 == 0
    else if ltb lit_span 128
    then bit_and lit_span 0x1f == 0
    else bit_and lit_span 0x3f == 0

-- Whether the run of literals ends before `pos`: a round of the inner loop breaks or goes on.
unfoldable pub literal_stops :
    EncodeScratch → List (List ℕ) → PdeflateOptions → ℕ → List ℕ → ℕ → ℕ → Result Bool
literal_stops s table options max_ref_len src lit_start pos =
    let k2 = prefix_key src pos in
    let probe = has_any_match s table options src pos max_ref_len in
    if ltb (pos + 1) (length src)
    then (if s.has_prefix2 k2 == 0
        then ok false
        else if ltb (pos + 2) (length src)
            && not (prefix3_hit s.prefix3_masks k2 (get_or src (pos + 2) 0))
        then ok false
        else if not (should_probe (pos - lit_start))
        then ok false
        else probe)
    else ok false

-- `while pos < src.len() && (pos - lit_start) < MAX_CMD_LEN`; as many rounds as bytes are enough.
unfoldable pub literal_end :
    ℕ → EncodeScratch → List (List ℕ) → PdeflateOptions → ℕ → List ℕ → ℕ → ℕ → Result ℕ
literal_end zero s table options max_ref_len src lit_start pos = ok pos
literal_end (suc rounds) s table options max_ref_len src lit_start pos =
    let round = literal_stops s table options max_ref_len src lit_start pos >>= λ stop.
    let rest = literal_end rounds s table options max_ref_len src lit_start (pos + 1) in
    if stop then ok pos else rest in
    if ltb pos (length src) && ltb (pos - lit_start) max_cmd_len then round else ok pos

-- What is emitted at `pos`: the commands so far, and the place behind what they cover. `id as u16`
-- keeps 16 bits.
unfoldable pub encode_at :
    EncodeScratch
    → List (List ℕ)
    → PdeflateOptions
    → ℕ
    → List ℕ
    → List ℕ
    → ℕ
    → Option ℕ
    → ℕ
    → Result (List ℕ × ℕ)
encode_at s table options max_ref_len src dst pos (some id) mlen = do
  dst' ← emit_ref_command dst (id % 2 ^ 16) mlen
  ok (dst', pos + mlen)
encode_at s table options max_ref_len src dst pos none mlen = do
  end ← literal_end (length src) s table options max_ref_len src pos (pos + 1)
  dst' ← emit_literal_command dst (take (end - pos) (drop pos src))
  ok (dst', end)

-- `while pos < src.len()`, where every round covers a byte at least.
unfoldable pub encode_section_loop :
    ℕ → EncodeScratch → List (List ℕ) → PdeflateOptions → ℕ → List ℕ → List ℕ → ℕ → Result (List ℕ)
encode_section_loop zero s table options max_ref_len src dst pos = ok dst
encode_section_loop (suc rounds) s table options max_ref_len src dst pos =
    let round = find_best_match s table options src pos max_ref_len >>= λ best.
    encode_at s table options max_ref_len src dst pos best.best_id best.best_len >>= λ (dst', pos').
    encode_section_loop rounds s table options max_ref_len src dst' pos' in
    if ltb pos (length src) then round else ok dst

-- `dst` afterwards, and the number of bytes appended.
unfoldable pub encode_section_into :
    EncodeScratch → List (List ℕ) → PdeflateOptions → List ℕ → List ℕ → Result (List ℕ × ℕ)
encode_section_into s table options src dst =
    let max_ref_len = min options.max_ref_len max_cmd_len in
    let run = encode_section_loop (length src) s table options max_ref_len src dst 0 >>= λ dst'.
    ok (dst', length dst' - length dst) in
    if length src == 0 then ok (dst, 0) else run
