-- ===== src/Pdeflate/Huffman/Tests.antt =====
-- A small lookup table, with a root entry that leads to a subtable.
use cozip.Base.{◌≡◌, refl, [], ◌∷◌, arith}
use cozip.Base.Results.{ok, ◌>>=◌}
use cozip.Pdeflate.Huffman.{
  HuffmanLut, symbol, subtable, serialize_huffman_lut, deserialize_huffman_lut,
}
use cozip.Pdeflate.Huffman.Entry.{IsLut}
use cozip.Pdeflate.Huffman.LutRoundTrip.{deserialize_huffman_lut-serialize_huffman_lut}

abbrev lut : HuffmanLut
lut = record {
  symbol_count = 3;
  root_bits = 1;
  max_code_bits = 2;
  root = symbol 0 1 ∷ subtable 0 1 ∷ [];
  subtables = symbol 1 2 ∷ symbol 2 2 ∷ [];
}

lut-IsLut : IsLut lut
lut-IsLut = record {
  some_symbols = omega arith;
  few_symbols = omega arith;
  root_pos = omega arith;
  root-le = omega arith;
  max-le = omega arith;
  root_size = refl;
  sub_size = omega arith;
  root_entries =
      ((omega arith, omega arith, omega arith), ((omega arith, omega arith, omega arith), tt));
  sub_entries =
      ((omega arith, omega arith, omega arith), ((omega arith, omega arith, omega arith), tt));
}

deserialize_huffman_lut-serialize_huffman_lut_example :
    (serialize_huffman_lut lut >>= deserialize_huffman_lut) ≡ ok lut
deserialize_huffman_lut-serialize_huffman_lut_example =
    deserialize_huffman_lut-serialize_huffman_lut lut-IsLut
