-- ===== src/Deflate/BitWriter/Tests.antt =====
-- Bits that are written to a writer which stands inside a byte.
use cozip.Base.{ℕ, ◌≡◌, refl, List, [], ◌∷◌, ◌++◌, arith}
use cozip.Base.Results.{ok}
use cozip.Base.Returns.{Returns}
use cozip.Deflate.BitCursor.{bit_at}
use cozip.Deflate.BitCursor.Bit.{bits_of}
use cozip.Deflate.BitWriter.{
  new_writer, flush_out_buf, emit_byte, emit_bytes, buffer_bytes, write_bit, write_byte_bits,
  read_unaligned_byte, byte_range, write_bulk, write_bits_loop, write_bits_from_slice, finish,
}
use cozip.Deflate.BitWriter.Finish.{new_writer-Writes}
use cozip.Deflate.BitWriter.Loop.{write_bits_from_slice-Returns}
use cozip.Deflate.BitWriter.Writes.{Writes, write_bit-Writes}
use cozip.Deflate.Error.{Result}
use cozip.Base.Results.{◌>>=◌}

abbrev three_bytes : List ℕ
three_bytes = 0xa5 ∷ 0x3c ∷ 0xff ∷ []

-- One bit, then twenty bits of the three bytes.
abbrev written : Result (List ℕ)
written = do
  w ← write_bits_from_slice (write_bit (new_writer []) 1) three_bytes 2 20
  ok (finish w).inner

written_bytes : written ≡ ok (0x53 ∷ 0x9e ∷ 0x1f ∷ [])
unfolding write_bits_from_slice write_bits_loop write_bulk byte_range read_unaligned_byte
    write_byte_bits write_bit emit_bytes buffer_bytes emit_byte flush_out_buf finish new_writer
    bit_at
written_bytes = refl

write_bits_from_slice-Returns_example :
    Returns
      (write_bits_from_slice (write_bit (new_writer []) 1) three_bytes 2 20)
      (λ v. Writes v ((1 ∷ []) ++ bits_of three_bytes 2 20))
write_bits_from_slice-Returns_example =
    write_bits_from_slice-Returns (write_bit (new_writer []) 1) (1 ∷ []) three_bytes 2 20
      (write_bit-Writes (new_writer []) [] new_writer-Writes 1 (omega arith))
      (omega arith, (omega arith, (omega arith, tt))) (omega arith)
