-- ===== src/Deflate.antt =====
-- The crate cozip_deflate: Deflate with an index of its chunks.
mod Tests
pub mod Error
pub mod Leb128
pub mod Index
pub mod BitCursor
pub mod HuffmanDecoder
pub mod HuffmanSymbol
pub mod Layout
pub mod ChunkBits
pub mod ChunkStream
pub mod StreamSchedule
pub mod Samples
pub mod BitRange
pub mod BitWriter
