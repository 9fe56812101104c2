-- ===== src/Blake3/Chunk.antt =====
-- The chunk state of src/blake3.c: one chunk of at most 1024 bytes, hashed block by block.
pub mod Laws
pub mod Blocks
use shardingsim.Prelude.{
  ℕ, ◌+◌, ◌*◌, bit_or, List, replicate, memcpy, take, u8, ◌==◌, if◌then◌else◌,
}
use shardingsim.Blake3.Words.{store_words}
use shardingsim.Blake3.Compress.{
  compress, compress_in_place, block_len, chunk_start, chunk_end, parent,
}
use shardingsim.Blake3.Absorb.{absorb}

pub record ChunkState : Type 0 where
  pub cv : List ℕ
  pub chunk_counter : ℕ
  pub buf : List ℕ
  pub buf_len : ℕ
  pub blocks_compressed : ℕ
  pub flags : ℕ

pub chunk_state_init : List ℕ → ℕ → ℕ → ChunkState
chunk_state_init key chunk_counter flags = record {
  cv = take 8 key;
  chunk_counter = chunk_counter;
  buf = replicate block_len 0;
  buf_len = 0;
  blocks_compressed = 0;
  flags = flags;
}

pub chunk_state_len : ChunkState → ℕ
chunk_state_len self = block_len * self.blocks_compressed + self.buf_len

chunk_state_start_flag : ChunkState → ℕ
chunk_state_start_flag self = if self.blocks_compressed == 0 then chunk_start else 0

-- The branch of `chunk_state_update` at a full block.
pub compress_block : ChunkState → ChunkState
compress_block self = record self {
  cv =
      compress_in_place self.cv self.buf block_len self.chunk_counter
        (bit_or self.flags (chunk_state_start_flag self));
  blocks_compressed = u8 (self.blocks_compressed + 1);
  buf_len = 0;
  buf = replicate block_len 0;
}

-- The copy into the block.
pub fill_block : ChunkState → List ℕ → ℕ → ChunkState
fill_block self input n = record self {
  buf = memcpy self.buf self.buf_len input n;
  buf_len = u8 (self.buf_len + n);
}

pub block_fill : ChunkState → ℕ
block_fill self = self.buf_len

pub chunk_state_update : ChunkState → List ℕ → ChunkState
unfolding compress_block fill_block block_fill
chunk_state_update = absorb block_len block_fill compress_block fill_block

pub chunk_state_output : ChunkState → List ℕ
unfolding chunk_state_start_flag
chunk_state_output self = take 8 (
    compress self.cv self.buf self.buf_len self.chunk_counter
      (bit_or (bit_or self.flags (chunk_state_start_flag self)) chunk_end))

pub parent_cv : List ℕ → List ℕ → List ℕ → ℕ → List ℕ
parent_cv left right key flags =
    let block = store_words (store_words (replicate block_len 0) 0 left) 32 right in
    take 8 (compress key block block_len 0 (bit_or flags parent))
