-- ===== src/Blake3/Hasher/Tree/Blocks.antt =====
-- The values of the chunks are those of their blocks.
use shardingsim.Prelude.{
  ℕ, zero, suc, ◌≤◌, ◌<◌, ◌≡◌, ap, ap₂, ◌∙◌, inl, inr, List, [], ◌∷◌, length, take, drop, leb,
  arith, true, Bool-cases, length-drop, length-take_le,
}
use shardingsim.Blake3.Compress.{iv}
use shardingsim.Blake3.Chunk.{ChunkState, chunk_state_update, chunk_state_output}
use shardingsim.Blake3.Chunk.Blocks.{chunk_blocks}
use shardingsim.Blake3.Chunk.Blocks.Laws.{init_at, output-chunk_blocks}
use shardingsim.Blake3.Hasher.{chunk_len, chunk_value}
use shardingsim.Blake3.Hasher.Tree.{pieces, block_values, chunk_values}

chunk_value-chunk_blocks :
    (counter : ℕ) (piece : List ℕ)
    → length piece ≤ chunk_len
    → chunk_value counter 0 piece ≡ chunk_blocks 15 true counter 0 iv piece
unfolding chunk_value
chunk_value-chunk_blocks counter piece fits =
    ap (λ (s : ChunkState). chunk_state_output (chunk_state_update s piece)) (init_at counter 0)
    ∙ output-chunk_blocks iv counter 0 piece fits

-- No piece is longer than a chunk.
pub block_values-pieces :
    (fuel counter : ℕ) (input : List ℕ)
    → length input ≤ fuel
    → chunk_values counter (pieces fuel input) ≡ block_values counter (pieces fuel input)
unfolding chunk_values block_values pieces
block_values-pieces zero counter input enough =
    ap (λ (v : List ℕ). v ∷ []) (chunk_value-chunk_blocks counter input (omega arith))
block_values-pieces (suc fuel) counter input enough =
    elim (Bool-cases (leb (length input) chunk_len)) [
      | inl short ↦
          rw short
            (ap (λ (v : List ℕ). v ∷ []) (chunk_value-chunk_blocks counter input (ground arith)))
      | inr more ↦
          let long : chunk_len < length input = ground arith in
          let size = length-take_le chunk_len input (omega arith) in
          let left = length-drop chunk_len input in
          rw more (
            ap₂ ◌∷◌ (chunk_value-chunk_blocks counter (take chunk_len input) (omega arith))
              (block_values-pieces fuel (suc counter) (drop chunk_len input) (omega arith)))
    ]
