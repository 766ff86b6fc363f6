-- ===== src/Deflate/BitRange/Tests.antt =====
-- Runs of bits that are cut out of three bytes.
use cozip.Base.{ℕ, ◌≡◌, refl, List, [], ◌∷◌, arith}
use cozip.Base.Results.{ok, err}
use cozip.Base.Returns.{Returns}
use cozip.Deflate.BitCursor.Bit.{bits_of}
use cozip.Deflate.BitRange.{shift_loop, mask_last, copy_aligned, copy_shifted, copy_bit_range}
use cozip.Deflate.BitRange.Copied.{copy_bit_range-Represents, copy_bit_range-past}
use cozip.Deflate.BitWriter.{byte_range}
use cozip.Deflate.ChunkBits.Represents.{Represents}
use cozip.Deflate.Error.{invalid_frame}

abbrev three_bytes : List ℕ
three_bytes = 0xa5 ∷ 0x3c ∷ 0xff ∷ []

shifted_run : copy_bit_range three_bytes 3 13 ≡ ok (0x94 ∷ 0x07 ∷ [])
unfolding copy_bit_range copy_shifted shift_loop mask_last
shifted_run = refl

aligned_run : copy_bit_range three_bytes 8 12 ≡ ok (0x3c ∷ 0x0f ∷ [])
unfolding copy_bit_range copy_aligned byte_range
aligned_run = refl

copy_bit_range-Represents_example :
    Returns (copy_bit_range three_bytes 3 13) (λ out. Represents out (bits_of three_bytes 3 13))
copy_bit_range-Represents_example =
    copy_bit_range-Represents three_bytes 3 13 (omega arith, (omega arith, (omega arith, tt)))
      (omega arith) (omega arith)

copy_bit_range-past_example :
    copy_bit_range three_bytes 20 5 ≡ err (invalid_frame "indexed chunk bit range is out of bounds")
copy_bit_range-past_example = copy_bit_range-past three_bytes 20 5 (omega arith) (omega arith)
