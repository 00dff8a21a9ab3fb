-- ===== src/Inflate.antt =====
-- The gzip decompressor of src/inflate.c.
pub mod Run
pub mod Stream
pub mod Huffman
pub mod Output
pub mod Block
pub mod Dynamic
pub mod Gzip
mod Tests
