-- ===== src/Blake3/Chunk/Blocks/State.antt =====
-- The buffer of the chunk state of src/blake3.c, and the state with a block in it.
use shardingsim.Prelude.{
  ℕ, zero, suc, ◌+◌, ◌-◌, ◌≤◌, ◌≡◌, refl, ap, ap₂, ◌∙◌, List, [], ◌∷◌, ◌++◌, length, drop,
  replicate, memcpy, set, u8, arith, memcpy_lem, take_all, length-replicate,
}
use shardingsim.Blake3.Compress.{block_len}
use shardingsim.Blake3.Absorb.Laws.{IsBuffer}
use shardingsim.Blake3.Chunk.{ChunkState, compress_block, fill_block, block_fill}
use shardingsim.Blake3.Chunk.Blocks.{padded}

buf_len-fill_block :
    (self : ChunkState) (xs : List ℕ) (n : ℕ)
    → block_fill self + n ≤ block_len
    → block_fill (fill_block self xs n) ≡ block_fill self + n
unfolding block_fill fill_block
buf_len-fill_block self xs n h = omega arith

fill_block-zero :
    (self : ChunkState) (xs : List ℕ) → block_fill self ≤ block_len → fill_block self xs 0 ≡ self
unfolding block_fill fill_block
fill_block-zero self xs h = ap (λ (k : ℕ). record self { buf_len = k }) (omega arith)

fill_block-suc :
    (self : ChunkState) (x : ℕ) (xs : List ℕ) (n : ℕ)
    → block_fill self + suc n ≤ block_len
    → fill_block self (x ∷ xs) (suc n) ≡ fill_block (fill_block self (x ∷ []) 1) xs n
unfolding block_fill fill_block
fill_block-suc self x xs n h =
    let next : suc self.buf_len ≡ u8 (self.buf_len + 1) = omega arith in
    let total : u8 (self.buf_len + suc n) ≡ u8 (u8 (self.buf_len + 1) + n) = omega arith in
    λ i. record self { buf = memcpy (set self.buf self.buf_len x) (next i) xs n; buf_len = total i }

pub chunk-IsBuffer : IsBuffer block_len block_fill compress_block fill_block
chunk-IsBuffer = record {
  size_pos = omega arith;
  buf_len-flush = λ s. unfold block_fill compress_block in refl;
  buf_len-store = buf_len-fill_block;
  store-zero = fill_block-zero;
  store-suc = fill_block-suc;
}

-- The state of a chunk of which `k` blocks are compressed, with `block` in its buffer.
abbrev pub chunk_at : ℕ → List ℕ → ℕ → ℕ → List ℕ → ChunkState
chunk_at k cv counter flags block = record {
  cv = cv;
  chunk_counter = counter;
  buf = padded block;
  buf_len = length block;
  blocks_compressed = k;
  flags = flags;
}

drop-replicate : (n m : ℕ) → drop {A = ℕ} n (replicate m 0) ≡ replicate (m - n) 0
drop-replicate zero m = let e : m ≡ m - 0 = omega arith in ap (λ (k : ℕ). replicate {A = ℕ} k 0) e
drop-replicate (suc n) zero =
    let e : 0 ≡ 0 - suc n = omega arith in ap (λ (k : ℕ). replicate {A = ℕ} k 0) e
drop-replicate (suc n) (suc m) =
    let e : m - n ≡ suc m - suc n = omega arith in
    drop-replicate n m ∙ ap (λ (k : ℕ). replicate {A = ℕ} k 0) e

-- A block that is copied into an empty buffer.
pub fill_block-empty :
    (k : ℕ) (cv : List ℕ) (counter flags : ℕ) (block : List ℕ)
    → length block ≤ block_len
    → fill_block (chunk_at k cv counter flags []) block (length block)
      ≡ chunk_at k cv counter flags block
unfolding fill_block padded
fill_block-empty k cv counter flags block fits =
    let n = length block in
    let start : 0 + n ≡ n = omega arith in
    let copied : memcpy (replicate block_len 0) 0 block n ≡ block ++ replicate (block_len - n) 0 =
      memcpy_lem n (replicate block_len 0) 0 block
        (omega (arith, length-replicate {A = ℕ} block_len 0)) (omega arith)
      ∙ ap₂ ◌++◌ (take_all n block refl) (
          ap (λ (t : ℕ). drop {A = ℕ} t (replicate block_len 0)) start
          ∙ drop-replicate n block_len) in
    let size : u8 (0 + n) ≡ n = omega arith in
    λ i. record {
      cv = cv;
      chunk_counter = counter;
      buf = copied i;
      buf_len = size i;
      blocks_compressed = k;
      flags = flags;
    }
