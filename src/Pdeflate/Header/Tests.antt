-- ===== src/Pdeflate/Header/Tests.antt =====
-- A stream header with a size and a file name.
use cozip.Base.{ℕ, ◌≡◌, refl, List, [], ◌∷◌, ◌++◌, true, false, some, arith, length}
use cozip.Base.Results.{ok, ◌>>=◌}
use cozip.Pdeflate.Header.{
  encode_stream_header, read_stream_header, header_flags, utf8_valid, utf8_from,
}
use cozip.Pdeflate.Header.RoundTrip.{header_bytes, read_stream_header-encode_stream_header}

-- "aé"
abbrev name : List ℕ
name = 0x61 ∷ 0xc3 ∷ 0xa9 ∷ []

name_is_utf8 : utf8_valid name ≡ true
unfolding utf8_valid utf8_from
name_is_utf8 = refl

cut_name_is_not : utf8_valid (0x61 ∷ 0xc3 ∷ []) ≡ false
unfolding utf8_valid utf8_from
cut_name_is_not = refl

read_stream_header-encode_stream_header_example :
    (encode_stream_header 4096 (some 12) (some name) >>= λ header.
    read_stream_header (header ++ (1 ∷ 2 ∷ [])))
    ≡ ok (
      record {
        flags = header_flags (some 12) (some name);
        chunk_size = 4096;
        uncompressed_size = some 12;
        file_name = some name;
        encoded_len = length (header_bytes 4096 (some 12) (some name));
      },
      1 ∷ 2 ∷ [],
    )
read_stream_header-encode_stream_header_example =
    read_stream_header-encode_stream_header 4096 (some 12) (some name) (1 ∷ 2 ∷ []) (omega arith)
      (omega arith) (omega arith, name_is_utf8)
