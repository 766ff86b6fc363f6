-- ===== src/Pdeflate/Command/Header.antt =====
-- What `write_cmd_header` writes, on every branch.
use cozip.Base.{
  ℕ, ◌+◌, ◌-◌, ◌*◌, ◌%◌, ◌^◌, ◌≤◌, ◌<◌, ◌≡◌, ◌∙◌, List, [], ◌∷◌, ◌++◌, append_assoc, arith, bit_and,
  bit_or, ltb, leb, ge→ltb, ◌==◌, ◌||◌, if◌then◌else◌, false, Bool-cases, inl, inr,
}
use cozip.Base.Bits.{bit_and_mask, bit_or_fields}
use cozip.Base.Le.{to_le_bytes}
use cozip.Base.Results.{ok, try_from-ok}
use cozip.Pdeflate.Cursor.{write_u16_le, write_u8}
use cozip.Pdeflate.Command.{
  write_cmd_header, literal_tag, max_inline_len, ext_len_base, max_cmd_len,
}
use cozip.Pdeflate.Error.{numeric_overflow}

-- The header in plain arithmetic: length times 4096 plus tag, or 15 times 4096 plus tag and the
-- extension byte.
unfoldable pub cmd_header : ℕ → ℕ → List ℕ
cmd_header tag len =
    if leb len max_inline_len
    then to_le_bytes 2 (len * 4096 + tag)
    else to_le_bytes 2 (15 * 4096 + tag) ++ ((len - ext_len_base) ∷ [])

join_cmd :
    (len tag : ℕ)
    → len < 16
    → tag ≤ literal_tag
    → bit_or (len * 2 ^ 12 % 2 ^ 16) (bit_and tag 0x0fff) ≡ len * 4096 + tag
join_cmd len tag hl ht =
    let masked : bit_and tag 0x0fff ≡ tag = bit_and_mask 12 tag ∙ omega arith in
    let fits : len * 2 ^ 12 % 2 ^ 16 ≡ len * 2 ^ 12 = omega arith in
    rw (masked, fits) (bit_or_fields 12 len tag (omega arith))

-- A header with a tag and a length in range is appended to `dst`.
pub write_cmd_header-cmd_header :
    (dst : List ℕ) (tag len : ℕ)
    → tag ≤ literal_tag
    → 0 < len
    → len ≤ max_cmd_len
    → write_cmd_header dst tag len ≡ ok (dst ++ cmd_header tag len)
unfolding write_cmd_header cmd_header write_u16_le write_u8
write_cmd_header-cmd_header dst tag len ht hl hm =
    let t1 : ltb literal_tag tag ≡ false = ge→ltb _ _ ht in
    let t2 : (len == 0 || ltb max_cmd_len len) ≡ false = ground arith in
    elim (Bool-cases (leb len max_inline_len)) [
      | inl short ↦ rw (
        t1,
        t2,
        short,
        try_from-ok 16 len numeric_overflow (ground arith),
        join_cmd len tag (ground arith) ht,
      )
      | inr long ↦ rw (
        t1,
        t2,
        long,
        try_from-ok 8 (len - ext_len_base) numeric_overflow (ground arith),
        join_cmd 15 tag (omega arith) ht,
        append_assoc,
      )
    ]
