-- ===== src/Pdeflate/Header/RoundTrip.antt =====
-- A stream header is read back, and the reader stands behind it.
use cozip.Base.{
  ℕ, ◌+◌, ◌^◌, ◌<◌, ◌≡◌, refl, sym, List, [], ◌++◌, append_assoc, append-nil, true, Option, none,
  some, bit_and, not, ◌==◌, if◌then◌else◌, length, length-append, take-length-append,
  drop-length-append, list_eq_self, arith, ge→ltb,
}
use cozip.Base.At.{At, At-start, At-step}
use cozip.Base.Le.{to_le_bytes, length-to_le_bytes, from_le_bytes-to_le_bytes}
use cozip.Base.Results.{ok, ◌>>=◌, try_from-ok, usize_bound}
use cozip.Pdeflate.Cursor.{write_u16_le, write_u32_le}
use cozip.Pdeflate.Cursor.Laws.{read_exact-At, read_u16_le-At, read_u32_le-At, At-step_le}
use cozip.Pdeflate.Error.{numeric_overflow}
use cozip.Pdeflate.Header.{
  stream_magic, has_some, header_flags, write_size, write_file_name, encode_stream_header,
  reader_exact, utf8_valid, read_size, read_file_name, encoded_len_of, read_stream_header,
}

reader_exact-append :
    (n : ℕ) (bytes rest : List ℕ)
    → length bytes ≡ n
    → reader_exact (bytes ++ rest) n ≡ ok (bytes, rest)
unfolding reader_exact
reader_exact-append n bytes rest e = rw (
  sym e,
  ge→ltb (length (bytes ++ rest)) (length bytes) (omega (arith, length-append bytes rest)),
  take-length-append bytes rest,
  drop-length-append bytes rest,
)

-- The optional parts as bytes.
unfoldable pub size_bytes : Option ℕ → List ℕ
size_bytes none = []
size_bytes (some size) = to_le_bytes 8 size

unfoldable pub name_bytes : Option (List ℕ) → List ℕ
name_bytes none = []
name_bytes (some name) = to_le_bytes 2 (length name) ++ name

abbrev pub IsSize : Option ℕ → Type 0
IsSize none = Unit
IsSize (some size) = size < 2 ^ 64

abbrev pub IsName : Option (List ℕ) → Type 0
IsName none = Unit
IsName (some name) = (length name < 2 ^ 16) × (utf8_valid name ≡ true)

read_size-size_bytes :
    (size : Option ℕ) (name : Option (List ℕ)) (rest : List ℕ)
    → IsSize size
    → read_size (header_flags size name) (size_bytes size ++ rest) ≡ ok (size, rest)
unfolding read_size size_bytes header_flags
read_size-size_bytes none none rest h = refl
read_size-size_bytes none (some name) rest h = refl
read_size-size_bytes (some size) none rest h = rw (
  reader_exact-append 8 (to_le_bytes 8 size) rest (length-to_le_bytes 8 size),
  from_le_bytes-to_le_bytes 8 size h,
)
read_size-size_bytes (some size) (some name) rest h = rw (
  reader_exact-append 8 (to_le_bytes 8 size) rest (length-to_le_bytes 8 size),
  from_le_bytes-to_le_bytes 8 size h,
)

read_name_present :
    (name rest : List ℕ) (flags : ℕ)
    → IsName (some name)
    → not (bit_and flags 2 == 0) ≡ true
    → read_file_name flags (name_bytes (some name) ++ rest) ≡ ok (some name, rest)
unfolding read_file_name name_bytes
read_name_present name rest flags h t = rw (
  t,
  append_assoc,
  reader_exact-append 2 (to_le_bytes 2 (length name)) (name ++ rest)
      (length-to_le_bytes 2 (length name)),
  from_le_bytes-to_le_bytes 2 (length name) h.0,
  reader_exact-append (length name) name rest refl,
  h.1,
)

read_file_name-name_bytes :
    (size : Option ℕ) (name : Option (List ℕ)) (rest : List ℕ)
    → IsName name
    → read_file_name (header_flags size name) (name_bytes name ++ rest) ≡ ok (name, rest)
unfolding header_flags
read_file_name-name_bytes none none rest h = unfold read_file_name name_bytes in refl
read_file_name-name_bytes (some size) none rest h = unfold read_file_name name_bytes in refl
read_file_name-name_bytes none (some name) rest h = read_name_present name rest 2 h refl
read_file_name-name_bytes (some size) (some name) rest h = read_name_present name rest 3 h refl

header_flags-small : (size : Option ℕ) (name : Option (List ℕ)) → header_flags size name < 2 ^ 16
unfolding header_flags
header_flags-small none none = omega arith
header_flags-small none (some name) = omega arith
header_flags-small (some size) none = omega arith
header_flags-small (some size) (some name) = omega arith

write_size-size_bytes :
    (header : List ℕ) (size : Option ℕ) → write_size header size ≡ header ++ size_bytes size
unfolding write_size size_bytes
write_size-size_bytes header none = sym (append-nil header)
write_size-size_bytes header (some size) = refl

write_file_name-name_bytes :
    (header : List ℕ) (name : Option (List ℕ))
    → IsName name
    → write_file_name header name ≡ ok (header ++ name_bytes name)
unfolding write_file_name name_bytes write_u16_le
write_file_name-name_bytes header none h = rw append-nil
write_file_name-name_bytes header (some name) h =
    rw (try_from-ok 16 (length name) numeric_overflow h.0, append_assoc)

length-size_bytes : (size : Option ℕ) → length (size_bytes size) ≡ (if has_some size then 8 else 0)
unfolding size_bytes
length-size_bytes none = refl
length-size_bytes (some size) = length-to_le_bytes 8 size

length-encoded :
    (size : Option ℕ) (name : Option (List ℕ))
    → 12 + length (size_bytes size) + length (name_bytes name) ≡ encoded_len_of size name
unfolding encoded_len_of name_bytes
length-encoded size none = omega (arith, length-size_bytes size)
length-encoded size (some name) = omega (
  arith,
  length-size_bytes size,
  length-append (to_le_bytes 2 (length name)) name,
  length-to_le_bytes 2 (length name),
)

module _ (chunk_size : ℕ) (size : Option ℕ) (name : Option (List ℕ)) where
  fixed_part : List ℕ
  fixed_part =
      stream_magic
      ++ (to_le_bytes 2 1 ++ (to_le_bytes 2 (header_flags size name) ++ to_le_bytes 4 chunk_size))

  length-fixed_part : length fixed_part ≡ 12
  unfolding fixed_part
  length-fixed_part = simp (length-append, length-to_le_bytes)

  -- The header as bytes.
  unfoldable pub header_bytes : List ℕ
  unfolding fixed_part
  header_bytes = fixed_part ++ (size_bytes size ++ name_bytes name)

  encode_stream_header-header_bytes :
      chunk_size < 2 ^ 32
      → IsName name
      → encode_stream_header chunk_size size name ≡ ok header_bytes
  unfolding encode_stream_header header_bytes fixed_part write_u16_le write_u32_le
  encode_stream_header-header_bytes small h =
      rw
        (
          try_from-ok 32 chunk_size numeric_overflow small,
          write_size-size_bytes _ size,
          write_file_name-name_bytes _ name h,
        )
        (simp append_assoc)

  length-header_bytes : length header_bytes ≡ encoded_len_of size name
  unfolding header_bytes
  length-header_bytes = omega (
    arith,
    length-fixed_part,
    length-append fixed_part (size_bytes size ++ name_bytes name),
    length-append (size_bytes size) (name_bytes name),
    length-encoded size name,
  )

  header_bytes-split :
      (rest : List ℕ)
      → header_bytes ++ rest ≡ fixed_part ++ (size_bytes size ++ (name_bytes name ++ rest))
  unfolding header_bytes
  header_bytes-split rest = simp append_assoc

  fixed-At : At fixed_part 0 (
      stream_magic
      ++ (to_le_bytes 2 1 ++ (to_le_bytes 2 (header_flags size name) ++ to_le_bytes 4 chunk_size)))
  unfolding fixed_part
  fixed-At = At-start fixed_part

  -- Any chunk size that fits a `u32`, with or without a 64-bit uncompressed size, and with or without a
  -- UTF-8 file name shorter than 2 ^ 16 bytes: `encode_stream_header` does not fail, and
  -- `read_stream_header` gives back what was written, whatever follows, says how long the header is, and
  -- leaves the reader behind it.
  pub read_stream_header-encode_stream_header :
      (rest : List ℕ)
      → chunk_size < 2 ^ 32
      → IsSize size
      → IsName name
      → (encode_stream_header chunk_size size name >>= λ header.
          read_stream_header (header ++ rest))
        ≡ ok (
          record {
            flags = header_flags size name;
            chunk_size = chunk_size;
            uncompressed_size = size;
            file_name = name;
            encoded_len = length header_bytes;
          },
          rest,
        )
  unfolding read_stream_header
  read_stream_header-encode_stream_header rest small hs hn =
      let flags = header_flags size name in
      let t₂ = to_le_bytes 4 chunk_size in
      let t₁ = to_le_bytes 2 flags ++ t₂ in
      let a₁ : At fixed_part 4 (to_le_bytes 2 1 ++ t₁) = At-step 4 stream_magic _ fixed-At refl in
      let a₂ : At fixed_part 6 t₁ = At-step_le 2 6 1 t₁ a₁ refl in
      let a₃ : At fixed_part 8 (t₂ ++ []) = rw append-nil (At-step_le 2 8 flags t₂ a₂ refl) in
      let short : length fixed_part < usize_bound = omega (arith, length-fixed_part) in
      rw (
        encode_stream_header-header_bytes small hn,
        header_bytes-split rest,
        reader_exact-append 12 fixed_part (size_bytes size ++ (name_bytes name ++ rest))
            length-fixed_part,
        read_exact-At short 4 stream_magic (to_le_bytes 2 1 ++ t₁) refl fixed-At,
        list_eq_self stream_magic,
        read_u16_le-At short 1 t₁ (omega arith) a₁,
        read_u16_le-At short flags t₂ (header_flags-small size name) a₂,
        read_u32_le-At short chunk_size [] small a₃,
        read_size-size_bytes size name (name_bytes name ++ rest) hs,
        read_file_name-name_bytes size name rest hn,
        length-header_bytes,
      )
