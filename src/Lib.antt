-- ===== src/Lib.antt =====
-- The formats of cozip, modelled and proved: the PDeflate codec of src/cozip_pdeflate, and the
-- chunk index and the joining of Deflate chunks of src/cozip_deflate.
--
-- The program. cozip packs files in Deflate and ZIP archives (src/cozip_deflate, src/cozip) and in
-- a format of its own, PDeflate (src/cozip_pdeflate). A PDeflate stream is a header and a sequence
-- of frames, each a length and a chunk. A chunk holds a table of byte patterns, an index of its
-- sections, and for every section a stream of commands: literal bytes, or a reference to a pattern
-- that the decoder repeats endlessly. The command bytes may be coded once more by a Huffman table
-- of the chunk. The encoder cuts a chunk in sections that are coded and decoded independently.
--
-- The files, and the code of src/cozip_pdeflate/src/pdeflate/mod.rs that they follow:
--   * Base and its children: numbers, lists, bytes, bits and results that every module shares.
--     At is a cursor in a byte string, Groups the seven-bit groups of a varint.
--   * Pdeflate/Error: PDeflateError. Pdeflate/Cursor: read_exact, read_u8 to read_u64_le, write_u8 to
--     write_u64_le. Pdeflate/Varint: write_varint_u32, read_varint_u32.
--   * Pdeflate/Header: encode_stream_header, read_stream_header. A reader is the bytes it has not
--     given yet, and a string its UTF-8 bytes.
--   * Pdeflate/Command: write_cmd_header, emit_ref_command, emit_literal_command. Command/Stream
--     says what commands mean, independently of their coding.
--   * Pdeflate/Section: section_start, fill_repeat, decode_section.
--   * Pdeflate/Table: serialize_table_entries, materialize_table_entries, and the rows that
--     decompress_chunk_into prepares.
--   * Pdeflate/Encode: EncodeScratch; Encode/Prefix: fast_prefix_len; Encode/Search: find_best_match,
--     has_any_match; Encode/EncodeSection: encode_section_into; Encode/ChunkEncoder:
--     finalize_chunk_from_table with huffman_encode_enabled false and without GPU matches and table
--     overrides, as finalize_chunk_plain. Encode/Rebuild holds what is
--     known of the scratch that is used again for every chunk.
--   * Pdeflate/Huffman: HuffmanLut, serialize_huffman_lut, deserialize_huffman_lut; Huffman/Reader:
--     BitReaderLsb, decode_huffman_symbols_with_lut.
--   * Pdeflate/Chunk: pack_chunk_payload_cpu, the flags of a chunk, the plain layout of
--     finalize_chunk_from_table; Chunk/Decode: decompress_chunk_into.
--
-- The files that follow src/cozip_deflate/src/lib.rs:
--   * Deflate/Error: CozipDeflateError. Deflate/Leb128: append_uleb128_u64, read_uleb128_u64.
--   * Deflate/Index: DeflateChunkIndex, encode_czdi_v1, decode_czdi_v1. The checksum of the crate
--     crc32fast is an argument, any function into the 32-bit numbers.
--   * Deflate/BitCursor: DeflateBitCursor. A reader is a function of the bytes and the position that
--     returns the position behind what it read. Its children say when a reader depends on its own
--     bits only (Local), does not panic (Safe) and what it makes of equal bits (Value).
--   * Deflate/HuffmanDecoder: build_huffman_decoder; Deflate/HuffmanSymbol: decode_huffman_symbol.
--   * Deflate/Layout: fixed_huffman_trees, read_dynamic_huffman_trees, parse_huffman_block_payload,
--     parse_deflate_stream_layout.
--   * Deflate/ChunkBits: append_bit_to_vec_lsb, append_byte_to_vec_lsb,
--     append_empty_stored_block_non_final_bits, prepare_chunk_bits_for_non_final_stream.
--   * Deflate/BitWriter: DeflateBitWriter, write_chunk_bits_with_final_override,
--     append_deflate_chunk_as_block_sequence, append_empty_stored_block_non_final. Its children say
--     which bytes it gives away (Emits) and which bits it stands for (Writes, Loop, Chunk, Finish).
--   * Deflate/BitRange: copy_bit_range.
--   * Deflate/ChunkStream: the loop of
--     deflate_compress_stream_hybrid_zip_compatible_continuous_with_context that writes the ready chunks
--     and makes the chunk index, one chunk (Entry), all of them (Stream) and the parser on what they
--     wrote (Parsed). What the loop sees of the shared state comes with each chunk.
--   * Deflate/StreamSchedule: the turns that the threads of the same function take, as a step relation
--     (Step, Run) on the state that they share; InFlight has what holds in every run.
--
-- How the code is written here. A value of an unsigned type is a native number, with its wrap-around
-- or its check written out (usize and u64 have 64 bits). A byte slice is a list of numbers, read at a
-- cursor that is passed and returned where the source takes &mut usize. A Vec that a function appends
-- to is the list so far, and the result is the list afterwards; a slice that a function fills is
-- returned as what it holds after a success. Thread-local scratch is an argument. Result and ? are
-- Base/Results; an index out of bounds is the error `panicked`. A long function is cut in
-- steps at its loops and its blocks, in the source's order.
--
-- Fuel. A loop that is no recursion on its data runs on fuel: fill_repeat_loop on the length to fill
-- and decode_section_loop on the output length, since every round writes a byte at least;
-- read_varint_loop on six rounds, since the sixth is refused by its own test; decode_lut_loop on
-- the number of bits, since an entry takes a bit at least. The loops of the encoder run on the length of
-- the section, since a round covers a byte at least. write_varint_loop and append_uleb128_loop recur on
-- their value; read_uleb128_loop has the source's ten rounds. payload_loop and parse_blocks
-- have 2 ^ 64 rounds, more than a usize counts bits, and each takes a bit at least; read_lengths has
-- one more than the lengths to read, and each adds one at least; pad_to_byte and write_pad_loop have
-- eight. write_bits_loop runs on the number of bits to write, since a round writes one at least.
--
-- Not modelled. Timings and profile counters; the threads and queues of stream.rs and of the
-- decoders, and the GPU back end (gpu.rs and the shaders), which drive the same chunk functions; the
-- choice of the patterns (build_table); file and stream I/O, and an inner writer that fails; the rest of
-- the Deflate crate, the ZIP crate, the desktop program, the installer and the shell extension.
pub mod Base
pub mod Deflate
pub mod Pdeflate
