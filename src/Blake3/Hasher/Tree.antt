-- ===== src/Blake3/Hasher/Tree.antt =====
-- The hash of a message as a tree over its chunks, without a buffer and without a stack.
pub mod Laws
pub mod Refine
pub mod Blocks
pub mod Hash
use shardingsim.Prelude.{ℕ, zero, suc, true, List, [], ◌∷◌, length, take, drop, leb, if◌then◌else◌}
use shardingsim.Blake3.Compress.{iv}
use shardingsim.Blake3.Chunk.{parent_cv}
use shardingsim.Blake3.Chunk.Blocks.{chunk_blocks}
use shardingsim.Blake3.Hasher.{chunk_len, chunk_value, root_words, root_bytes}

-- The message cut after every 1024 bytes; there is one piece at least. The fuel is the length.
unfoldable pub pieces : ℕ → List ℕ → List (List ℕ)
pieces zero input = input ∷ []
pieces (suc fuel) input =
    let rest = pieces fuel (drop chunk_len input) in
    if leb (length input) chunk_len then input ∷ [] else take chunk_len input ∷ rest

-- The values of the chunks, numbered from `counter` on.
unfoldable pub chunk_values : ℕ → List (List ℕ) → List (List ℕ)
chunk_values counter [] = []
chunk_values counter (piece ∷ rest) = chunk_value counter 0 piece ∷ chunk_values (suc counter) rest

-- The same, each value from the blocks of its chunk.
unfoldable pub block_values : ℕ → List (List ℕ) → List (List ℕ)
block_values counter [] = []
block_values counter (piece ∷ rest) =
    chunk_blocks 15 true counter 0 iv piece ∷ block_values (suc counter) rest

unfoldable pub node : List ℕ → List ℕ → List ℕ
node left right = parent_cv left right iv 0

-- The value so far takes the next chunks in pairs, and a last one alone.
unfoldable pub chain : List ℕ → List (List ℕ) → List ℕ
unfolding node
chain value [] = value
chain value (v ∷ []) = node value v
chain value (v ∷ w ∷ rest) = chain (node value (node v w)) rest

unfoldable pub tree : List (List ℕ) → List ℕ
unfolding chain node
tree [] = []
tree (v ∷ []) = v
tree (v ∷ w ∷ rest) = chain (node v w) rest

-- The hash of 32 bytes, from the compression function alone.
unfoldable pub tree_hash : List ℕ → List ℕ
unfolding pieces block_values tree
tree_hash input =
    root_bytes 32 0 (root_words (tree (block_values 0 (pieces (length input) input))) 0)
