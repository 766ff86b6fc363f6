-- ===== src/Pdeflate/Encode/Prefix.antt =====
-- `fast_prefix_len` of cozip_pdeflate/src/pdeflate/mod.rs: the common prefix of two byte strings,
-- eight bytes at a time.
pub mod Word
pub mod Common
use cozip.Base.{
  ℕ, zero, suc, ◌+◌, ◌/◌, ◌%◌, List, [], ◌∷◌, min, bit_xor, ltb, leb, ◌==◌, ◌&&◌, if◌then◌else◌,
  length, take, drop, get_or,
}
use cozip.Base.Le.{from_le_bytes}

-- `u64::trailing_zeros`, on the given number of bits.
unfoldable pub trailing_zeros : ℕ → ℕ → ℕ
trailing_zeros zero v = 0
trailing_zeros (suc bits) v =
    let more = trailing_zeros bits (v / 2) + 1 in if v % 2 == 0 then more else 0

-- On a little-endian machine.
unfoldable pub first_diff_byte_in_u64 : ℕ → ℕ
first_diff_byte_in_u64 diff = trailing_zeros 64 diff / 8

-- `while i < limit && a[i] == b[i]`
unfoldable pub byte_loop : ℕ → List ℕ → List ℕ → ℕ → ℕ → ℕ
byte_loop zero a b limit i = i
byte_loop (suc rounds) a b limit i =
    let more = byte_loop rounds a b limit (i + 1) in
    if ltb i limit && get_or a i 0 == get_or b i 0 then more else i

-- `while i + 8 <= limit`, and then the loop on bytes.
unfoldable pub word_loop : ℕ → List ℕ → List ℕ → ℕ → ℕ → ℕ
word_loop zero a b limit i = byte_loop limit a b limit i
word_loop (suc rounds) a b limit i =
    let aw = from_le_bytes (take 8 (drop i a)) in
    let bw = from_le_bytes (take 8 (drop i b)) in
    let diff = bit_xor aw bw in
    let more = word_loop rounds a b limit (i + 8) in
    let rest = byte_loop limit a b limit i in
    if leb (i + 8) limit
    then (if diff == 0 then more else i + first_diff_byte_in_u64 diff)
    else rest

-- `limit` rounds are enough for both loops.
unfoldable pub fast_prefix_len : List ℕ → List ℕ → ℕ → ℕ
fast_prefix_len a b max_len =
    let limit = min (min max_len (length a)) (length b) in word_loop limit a b limit 0
