-- ===== src/Blake3.antt =====
-- src/blake3.c and include/blake3.h, from the words up to the one-shot functions.
pub mod Words
pub mod Compress
pub mod Absorb
pub mod Chunk
pub mod Hasher
