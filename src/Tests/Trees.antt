-- ===== src/Tests/Trees.antt =====
-- The theorems on the stack and the tree of BLAKE3.
use shardingsim.Prelude.{ℕ, ◌≡◌, inl, List, replicate, arith, IsBytes}
use shardingsim.Prelude.{[], ◌∷◌, take}
use shardingsim.Blake3.Hasher.Pieces.{joined, update_all, update_all-tree_hash}
use shardingsim.Blake3.Hasher.{
  blake3_hasher_init, blake3_hasher_finalize, blake3, blake3_hasher_update,
}
use shardingsim.Blake3.Hasher.Stack.{IsMemory}
use shardingsim.Blake3.Hasher.Depth.{IsShallow, blake3_hasher_update-IsShallow}
use shardingsim.Blake3.Hasher.Tree.{tree_hash}
use shardingsim.Blake3.Hasher.Tree.Hash.{blake3-tree_hash}
use shardingsim.Tests.Values.{memory}

memory-IsBytes : IsBytes 1728 memory.cv_stack
memory-IsBytes = omega arith

memory-IsMemory : IsMemory memory
memory-IsMemory = record { stack_bytes = memory-IsBytes; flags_byte = omega arith }

blake3_hasher_update-IsShallow_example : IsShallow (blake3_hasher_update memory (replicate 5000 1))
blake3_hasher_update-IsShallow_example =
    blake3_hasher_update-IsShallow memory (replicate 5000 1) (inl (omega arith))

abbrev message : List ℕ
message = replicate 3000 65

blake3-tree_hash_example : blake3 memory message ≡ tree_hash message
blake3-tree_hash_example = blake3-tree_hash memory message memory-IsBytes (omega arith)

abbrev pieces : List (List ℕ)
pieces = replicate 1000 65 ∷ [] ∷ replicate 2000 66 ∷ []

update_all-tree_hash_example :
    blake3_hasher_finalize (update_all (blake3_hasher_init memory) pieces) 28
    ≡ take 28 (tree_hash (joined pieces))
unfolding joined
update_all-tree_hash_example =
    update_all-tree_hash memory pieces 28 memory-IsBytes (omega arith) (omega arith)
