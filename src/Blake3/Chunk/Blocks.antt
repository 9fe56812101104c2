-- ===== src/Blake3/Chunk/Blocks.antt =====
-- The value of a chunk of src/blake3.c without a buffer and without counters: the compression function
-- goes over its blocks of 64 bytes, the last one filled up with zeros.
pub mod State
pub mod Laws
use shardingsim.Prelude.{
  ℕ, zero, suc, ◌-◌, Bool, true, false, List, ◌++◌, length, take, drop, replicate, leb, bit_or,
  if◌then◌else◌,
}
use shardingsim.Blake3.Compress.{compress, compress_in_place, block_len, chunk_start, chunk_end}

unfoldable pub padded : List ℕ → List ℕ
padded block = block ++ replicate (block_len - length block) 0

-- The flags of the first block, and of the others.
unfoldable pub begun : Bool → ℕ → ℕ
begun first flags = bit_or flags (if first then chunk_start else 0)

unfoldable pub last_block : Bool → ℕ → ℕ → List ℕ → List ℕ → List ℕ
unfolding padded begun
last_block first counter flags cv block =
    take 8
      (compress cv (padded block) (length block) counter (bit_or (begun first flags) chunk_end))

unfoldable pub next_value : Bool → ℕ → ℕ → List ℕ → List ℕ → List ℕ
unfolding begun
next_value first counter flags cv block =
    compress_in_place cv block block_len counter (begun first flags)

-- On fuel, one less than the number of blocks at least.
unfoldable pub chunk_blocks : ℕ → Bool → ℕ → ℕ → List ℕ → List ℕ → List ℕ
unfolding last_block next_value
chunk_blocks zero first counter flags cv bytes = last_block first counter flags cv bytes
chunk_blocks (suc fuel) first counter flags cv bytes =
    let rest =
      chunk_blocks fuel false counter flags
        (next_value first counter flags cv (take block_len bytes)) (drop block_len bytes) in
    if leb (length bytes) block_len then last_block first counter flags cv bytes else rest
