-- ===== src/Pdeflate.antt =====
-- The crate cozip_pdeflate: the native PDeflate stream, without the GPU back end.
mod Tests
pub mod Error
pub mod Cursor
pub mod Header
pub mod Varint
pub mod Command
pub mod Section
pub mod Table
pub mod Chunk
pub mod Encode
pub mod Huffman
