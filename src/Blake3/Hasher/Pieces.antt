-- ===== src/Blake3/Hasher/Pieces.antt =====
-- The hasher's promise to its callers: it hashes the bytes that it was given, in their order, however
-- they were cut into pieces.
use shardingsim.Prelude.{
  ℕ, ◌≤◌, ◌<◌, ◌^◌, ◌≡◌, sym, ap, ◌∙◌, List, [], ◌∷◌, ◌++◌, length, take, arith, IsBytes,
}
use shardingsim.Blake3.Absorb.Laws.{absorb-foldl}
use shardingsim.Blake3.Hasher.{
  Hasher, chunk_fill, blake3, blake3_hasher_init, blake3_hasher_update, blake3_hasher_finalize,
}
use shardingsim.Blake3.Hasher.Stream.{
  IsValid, hasher-IsBuffer, blake3_hasher_update-append, blake3_hasher_update-IsValid,
}
use shardingsim.Blake3.Hasher.Output.{take-blake3_hasher_finalize}
use shardingsim.Blake3.Hasher.Tree.{tree_hash}
use shardingsim.Blake3.Hasher.Tree.Hash.{blake3-tree_hash}

unfoldable pub joined : List (List ℕ) → List ℕ
joined [] = []
joined (piece ∷ pieces) = piece ++ joined pieces

-- One call of `blake3_hasher_update` for each piece.
unfoldable pub update_all : Hasher → List (List ℕ) → Hasher
update_all self [] = self
update_all self (piece ∷ pieces) = update_all (blake3_hasher_update self piece) pieces

update_nothing : (self : Hasher) → IsValid self → blake3_hasher_update self [] ≡ self
unfolding blake3_hasher_update chunk_fill
update_nothing self h = absorb-foldl hasher-IsBuffer self [] h

update_all-joined :
    (self : Hasher) (pieces : List (List ℕ))
    → IsValid self
    → update_all self pieces ≡ blake3_hasher_update self (joined pieces)
unfolding update_all joined
update_all-joined self [] h = sym (update_nothing self h)
update_all-joined self (piece ∷ pieces) h =
    update_all-joined (blake3_hasher_update self piece) pieces
      (blake3_hasher_update-IsValid self piece h)
    ∙ sym (blake3_hasher_update-append self piece (joined pieces) h)

init-IsValid : (memory : Hasher) → IsValid (blake3_hasher_init memory)
unfolding blake3_hasher_init
init-IsValid memory = omega arith

-- However a message of less than 2^64 bytes is cut into pieces, and whatever the memory of the hasher
-- held before: after an update for each piece, an output of at most 32 bytes is the front of the hash of
-- the tree over the whole message.
pub update_all-tree_hash :
    (memory : Hasher) (pieces : List (List ℕ)) (out_len : ℕ)
    → IsBytes 1728 memory.cv_stack
    → length (joined pieces) < 2 ^ 64
    → out_len ≤ 32
    → blake3_hasher_finalize (update_all (blake3_hasher_init memory) pieces) out_len
      ≡ take out_len (tree_hash (joined pieces))
unfolding blake3
update_all-tree_hash memory pieces out_len h small few =
    let start : Hasher = blake3_hasher_init memory in
    ap (λ (self : Hasher). blake3_hasher_finalize self out_len)
      (update_all-joined start pieces (init-IsValid memory))
    ∙ sym (take-blake3_hasher_finalize (blake3_hasher_update start (joined pieces)) out_len 32 few)
    ∙ ap (take out_len) (blake3-tree_hash memory (joined pieces) h small)
