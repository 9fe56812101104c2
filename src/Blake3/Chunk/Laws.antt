-- ===== src/Blake3/Chunk/Laws.antt =====
-- The value of a chunk and that of a parent node are eight words.
use shardingsim.Prelude.{ℕ, List, All, IsByte, arith, bit_or}
use shardingsim.Prelude.Bits.{bit_or-lt}
use shardingsim.Blake3.Words.{IsWord}
use shardingsim.Blake3.Compress.{block_len, chunk_end, parent}
use shardingsim.Blake3.Compress.Laws.{
  IsWords, compress-IsWords, compress_in_place-IsWords, take-IsWords,
}
use shardingsim.Blake3.Absorb.Laws.{absorb_keeps}
use shardingsim.Blake3.Chunk.{
  ChunkState, chunk_state_init, chunk_state_start_flag, compress_block, fill_block, block_fill,
  chunk_state_update, chunk_state_output, parent_cv,
}

-- What a chunk state keeps from its start to its end.
pub record IsReady (self : ChunkState) : Type 0 where
  pub cv_words : IsWords 8 self.cv
  pub len_byte : IsByte self.buf_len
  pub flags_byte : IsByte self.flags

start_flag-IsByte : (self : ChunkState) → IsByte (chunk_state_start_flag self)
unfolding chunk_state_start_flag
start_flag-IsByte self = ground arith

started_flags :
    (self : ChunkState) → IsReady self → IsByte (bit_or self.flags (chunk_state_start_flag self))
started_flags self h =
    bit_or-lt 8 self.flags (chunk_state_start_flag self) h.flags_byte (start_flag-IsByte self)

compress_block-IsReady : (self : ChunkState) → IsReady self → IsReady (compress_block self)
unfolding compress_block
compress_block-IsReady self h = record {
  cv_words =
      compress_in_place-IsWords self.cv self.buf block_len self.chunk_counter
        (bit_or self.flags (chunk_state_start_flag self)) h.cv_words (omega arith)
        (started_flags self h);
  len_byte = omega arith;
  flags_byte = h.flags_byte;
}

fill_block-IsReady :
    (self : ChunkState) (xs : List ℕ) (n : ℕ) → IsReady self → IsReady (fill_block self xs n)
unfolding fill_block
fill_block-IsReady self xs n h = record {
  cv_words = h.cv_words;
  len_byte = omega arith;
  flags_byte = h.flags_byte;
}

pub chunk_state_update-IsReady :
    (self : ChunkState) (input : List ℕ) → IsReady self → IsReady (chunk_state_update self input)
unfolding chunk_state_update
chunk_state_update-IsReady self input h =
    absorb_keeps block_len block_fill compress_block fill_block IsReady compress_block-IsReady
      fill_block-IsReady self input h

pub chunk_state_init-IsReady :
    (key : List ℕ) (counter flags : ℕ)
    → IsWords 8 key
    → IsByte flags
    → IsReady (chunk_state_init key counter flags)
unfolding chunk_state_init
chunk_state_init-IsReady key counter flags h hf = record {
  cv_words = take-IsWords 8 key (omega arith) h;
  len_byte = omega arith;
  flags_byte = hf;
}

pub chunk_state_output-IsWords :
    (self : ChunkState) → IsReady self → IsWords 8 (chunk_state_output self)
unfolding chunk_state_output
chunk_state_output-IsWords self h = take-IsWords 8 _ (omega arith) (
    compress-IsWords self.cv self.buf self.buf_len self.chunk_counter _ h.cv_words.1 h.len_byte (
      bit_or-lt 8 (bit_or self.flags (chunk_state_start_flag self)) chunk_end (started_flags self h)
        (omega arith)))

pub parent_cv-IsWords :
    (left right key : List ℕ) (flags : ℕ)
    → All IsWord key
    → IsByte flags
    → IsWords 8 (parent_cv left right key flags)
unfolding parent_cv
parent_cv-IsWords left right key flags h hf = take-IsWords 8 _ (omega arith) (
    compress-IsWords key _ block_len 0 _ h (omega arith)
      (bit_or-lt 8 flags parent hf (omega arith)))
