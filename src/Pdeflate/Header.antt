-- ===== src/Pdeflate/Header.antt =====
-- The header of a PDeflate stream: `encode_stream_header` and `read_stream_header` of
-- cozip_pdeflate/src/pdeflate/mod.rs. A reader is the bytes that it has not given yet; a string is its
-- UTF-8 bytes.
mod Tests
pub mod RoundTrip
use cozip.Base.{
  ℕ, zero, suc, ◌+◌, ◌-◌, List, [], ◌∷◌, ◌++◌, Bool, true, false, Option, none, some, bit_and,
  bit_or, not, ltb, leb, ◌==◌, ◌&&◌, ◌||◌, if◌then◌else◌, length, take, drop, list_eq,
}
use cozip.Base.Le.{to_le_bytes, from_le_bytes}
use cozip.Base.Results.{ok, err, ◌>>=◌, ◌>>◌, fail_if, try_from}
use cozip.Pdeflate.Cursor.{read_exact, read_u16_le, read_u32_le, write_u16_le, write_u32_le}
use cozip.Pdeflate.Error.{Result, invalid_stream, io, numeric_overflow}

-- `b"PDS0"`
abbrev pub stream_magic : List ℕ
stream_magic = 0x50 ∷ 0x44 ∷ 0x53 ∷ 0x30 ∷ []

abbrev pub stream_version : ℕ
stream_version = 1

abbrev pub stream_flag_uncompressed_size : ℕ
stream_flag_uncompressed_size = 1

abbrev pub stream_flag_file_name_present : ℕ
stream_flag_file_name_present = 2

abbrev pub stream_header_size : ℕ
stream_header_size = 12

pub record StreamHeader : Type 0 where
  pub flags : ℕ
  pub chunk_size : ℕ
  pub uncompressed_size : Option ℕ
  pub file_name : Option (List ℕ)
  pub encoded_len : ℕ

abbrev pub has_some {ℓ} : {A : Type ℓ} → Option A → Bool
has_some none = false
has_some (some a) = true

unfoldable pub header_flags : Option ℕ → Option (List ℕ) → ℕ
header_flags uncompressed_size file_name =
    let flags = if has_some uncompressed_size then bit_or 0 stream_flag_uncompressed_size else 0 in
    if has_some file_name then bit_or flags stream_flag_file_name_present else flags

unfoldable pub write_size : List ℕ → Option ℕ → List ℕ
write_size header none = header
write_size header (some size) = header ++ to_le_bytes 8 size

unfoldable pub write_file_name : List ℕ → Option (List ℕ) → Result (List ℕ)
write_file_name header none = ok header
write_file_name header (some name) = do
  len ← try_from 16 (length name) numeric_overflow
  ok (write_u16_le header len ++ name)

unfoldable pub encode_stream_header : ℕ → Option ℕ → Option (List ℕ) → Result (List ℕ)
encode_stream_header chunk_size uncompressed_size file_name = do
  let h₁ = write_u16_le stream_magic stream_version
  let h₂ = write_u16_le h₁ (header_flags uncompressed_size file_name)
  size ← try_from 32 chunk_size numeric_overflow
  write_file_name (write_size (write_u32_le h₂ size) uncompressed_size) file_name

-- `Read::read_exact`: the bytes, and the reader behind them.
unfoldable pub reader_exact : List ℕ → ℕ → Result (List ℕ × List ℕ)
reader_exact reader n =
    if ltb (length reader) n
    then err (io "failed to fill whole buffer")
    else ok (take n reader, drop n reader)

-- Inside a UTF-8 sequence: how many bytes are left, and the range of the next.
abbrev Utf8State : Type 0
Utf8State = ℕ × ℕ × ℕ

abbrev between : ℕ → ℕ → ℕ → Bool
between low high b = leb low b && leb b high

abbrev utf8_lead : ℕ → Option Utf8State
utf8_lead b =
    if leb b 0x7f
    then some (0, 0, 0)
    else if between 0xc2 0xdf b
    then some (1, 0x80, 0xbf)
    else if b == 0xe0
    then some (2, 0xa0, 0xbf)
    else if b == 0xed
    then some (2, 0x80, 0x9f)
    else if between 0xe1 0xef b
    then some (2, 0x80, 0xbf)
    else if b == 0xf0
    then some (3, 0x90, 0xbf)
    else if between 0xf1 0xf3 b
    then some (3, 0x80, 0xbf)
    else if b == 0xf4
    then some (3, 0x80, 0x8f)
    else none

abbrev utf8_next : Utf8State → ℕ → Option Utf8State
utf8_next (need, low, high) b =
    if need == 0
    then utf8_lead b
    else if between low high b
    then some (need - 1, 0x80, 0xbf)
    else none

unfoldable pub utf8_from : Utf8State → List ℕ → Bool
utf8_from (need, low, high) [] = need == 0
utf8_from state (b ∷ bytes) = elim (utf8_next state b) [
  | none ↦ false
  | some state' ↦ utf8_from state' bytes
]

-- Whether `String::from_utf8` takes the bytes.
unfoldable pub utf8_valid : List ℕ → Bool
utf8_valid bytes = utf8_from (0, 0, 0) bytes

unfoldable pub read_size : ℕ → List ℕ → Result (Option ℕ × List ℕ)
read_size flags reader =
    let present = reader_exact reader 8 >>= λ (size_bytes, reader').
    ok (some (from_le_bytes size_bytes), reader') in
    if not (bit_and flags stream_flag_uncompressed_size == 0) then present else ok (none, reader)

unfoldable pub read_file_name : ℕ → List ℕ → Result (Option (List ℕ) × List ℕ)
read_file_name flags reader =
    let present = (do
      (len_bytes, r₁) ← reader_exact reader 2
      (name_bytes, r₂) ← reader_exact r₁ (from_le_bytes len_bytes)
      fail_if (not (utf8_valid name_bytes)) (invalid_stream "stream filename is not utf-8")
      ok (some name_bytes, r₂)) in
    if not (bit_and flags stream_flag_file_name_present == 0) then present else ok (none, reader)

unfoldable pub encoded_len_of : Option ℕ → Option (List ℕ) → ℕ
encoded_len_of size name =
    stream_header_size
    + (if has_some size then 8 else 0)
    + elim name [ none ↦ 0 | some bytes ↦ 2 + length bytes ]

-- The header, and the reader behind it.
unfoldable pub read_stream_header : List ℕ → Result (StreamHeader × List ℕ)
read_stream_header reader = do
  (stream_header, r₁) ← reader_exact reader stream_header_size
  (magic, c₁) ← read_exact stream_header 0 4
  fail_if (not (list_eq magic stream_magic)) (invalid_stream "bad stream magic")
  (version, c₂) ← read_u16_le stream_header c₁
  fail_if (not (version == stream_version)) (invalid_stream "unsupported stream version")
  (flags, c₃) ← read_u16_le stream_header c₂
  (chunk_size, c₄) ← read_u32_le stream_header c₃
  (uncompressed_size, r₂) ← read_size flags r₁
  (file_name, r₃) ← read_file_name flags r₂
  ok (
    record {
      flags = flags;
      chunk_size = chunk_size;
      uncompressed_size = uncompressed_size;
      file_name = file_name;
      encoded_len = encoded_len_of uncompressed_size file_name;
    },
    r₃,
  )

-- The two accessors of a stream that seeks back: the reader is as before.
unfoldable pub pdeflate_stream_uncompressed_size : List ℕ → Result (Option ℕ)
pdeflate_stream_uncompressed_size reader =
    read_stream_header reader >>= λ (header, _). ok header.uncompressed_size

unfoldable pub pdeflate_stream_suggested_name : List ℕ → Result (Option (List ℕ))
pdeflate_stream_suggested_name reader =
    read_stream_header reader >>= λ (header, _). ok header.file_name
