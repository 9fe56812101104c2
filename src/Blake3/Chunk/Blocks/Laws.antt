-- ===== src/Blake3/Chunk/Blocks/Laws.antt =====
-- The chunk state of src/blake3.c computes what the blocks of the chunk say.
use mathlib.Core.List.{append-nil}
use shardingsim.Prelude.{
  ℕ, zero, suc, ◌+◌, ◌-◌, ◌*◌, ◌≤◌, ◌<◌, ◌≡◌, refl, sym, ap, ap₂, ◌∙◌, Bool, true, false, List, [],
  ◌∷◌, ◌++◌, length, take, drop, replicate, leb, bit_or, if◌then◌else◌, ◌==◌, u8, arith, Bool-cases,
  inl, inr, take-append-drop, length-take_le, length-drop, take-append, drop-append, length-append,
}
use shardingsim.Blake3.Compress.{iv, compress_in_place, block_len, chunk_start}
use shardingsim.Blake3.Absorb.Laws.{
  absorb-append, absorb-foldl, absorb_once, make_room_full, make_room_free,
}
use shardingsim.Blake3.Chunk.{
  ChunkState, chunk_state_init, chunk_state_start_flag, compress_block, fill_block, block_fill,
  chunk_state_update, chunk_state_output,
}
use shardingsim.Blake3.Chunk.Blocks.{padded, begun, last_block, next_value, chunk_blocks}
use shardingsim.Blake3.Chunk.Blocks.State.{chunk_at, chunk-IsBuffer, fill_block-empty}

first_test : (k : ℕ) → (suc k == 0) ≡ false
first_test k = ground arith

-- A full block is compressed, and leaves an empty buffer.
compress_block-full :
    (k : ℕ) (cv : List ℕ) (counter flags : ℕ) (block : List ℕ)
    → length block ≡ block_len
    → k < 255
    → compress_block (chunk_at k cv counter flags block)
      ≡ chunk_at (suc k) (next_value (k == 0) counter flags cv block) counter flags []
unfolding compress_block chunk_state_start_flag next_value padded begun
compress_block-full k cv counter flags block full few =
    let none_left : block_len - length block ≡ 0 = omega arith in
    let whole : block ++ replicate (block_len - length block) 0 ≡ block =
      ap (λ (n : ℕ). block ++ replicate n 0) none_left ∙ append-nil block in
    let count : u8 (k + 1) ≡ suc k = omega arith in
    λ i. record {
      cv =
          compress_in_place cv (whole i) block_len counter
            (bit_or flags (if k == 0 then chunk_start else 0));
      chunk_counter = counter;
      buf = replicate block_len 0;
      buf_len = 0;
      blocks_compressed = count i;
      flags = flags;
    }

-- The first bytes of a chunk.
update_first :
    (cv : List ℕ) (counter flags : ℕ) (block : List ℕ)
    → length block ≤ block_len
    → chunk_state_update (chunk_at 0 cv counter flags []) block ≡ chunk_at 0 cv counter flags block
unfolding chunk_state_update block_fill
update_first cv counter flags [] fits =
    absorb-foldl chunk-IsBuffer (chunk_at 0 cv counter flags []) [] (omega arith)
update_first cv counter flags (x ∷ block) fits =
    let start : ChunkState = chunk_at 0 cv counter flags [] in
    let free = make_room_free chunk-IsBuffer start (omega arith) in
    absorb_once block_len block_fill compress_block fill_block start x block (rw free (omega arith))
    ∙ rw free (fill_block-empty 0 cv counter flags (x ∷ block) fits)

-- The bytes behind a full block.
update_next :
    (k : ℕ) (cv : List ℕ) (counter flags : ℕ) (block next : List ℕ)
    → length block ≡ block_len
    → k < 255
    → 0 < length next
    → length next ≤ block_len
    → chunk_state_update (chunk_at k cv counter flags block) next
      ≡ chunk_at (suc k) (next_value (k == 0) counter flags cv block) counter flags next
unfolding chunk_state_update block_fill
update_next k cv counter flags block [] full few some fits = absurd (omega arith)
update_next k cv counter flags block (x ∷ next) full few some fits =
    let start : ChunkState = chunk_at k cv counter flags block in
    let made =
      make_room_full chunk-IsBuffer start full
      ∙ compress_block-full k cv counter flags block full few in
    absorb_once block_len block_fill compress_block fill_block start x next (rw made (omega arith))
    ∙ rw made (
        fill_block-empty (suc k) (next_value (k == 0) counter flags cv block) counter flags
          (x ∷ next) fits)

output_at :
    (k : ℕ) (cv : List ℕ) (counter flags : ℕ) (block : List ℕ)
    → chunk_state_output (chunk_at k cv counter flags block)
      ≡ last_block (k == 0) counter flags cv block
unfolding chunk_state_output chunk_state_start_flag last_block begun padded
output_at k cv counter flags block = refl

chunk_blocks-last :
    (fuel : ℕ) (first : Bool) (counter flags : ℕ) (cv bytes : List ℕ)
    → length bytes ≤ block_len
    → chunk_blocks fuel first counter flags cv bytes ≡ last_block first counter flags cv bytes
unfolding chunk_blocks
chunk_blocks-last zero first counter flags cv bytes fits = refl
chunk_blocks-last (suc fuel) first counter flags cv bytes fits =
    let test : leb (length bytes) block_len ≡ true = ground arith in rw test refl

chunk_blocks-more :
    (fuel : ℕ) (first : Bool) (counter flags : ℕ) (cv block rest : List ℕ)
    → length block ≡ block_len
    → 0 < length rest
    → chunk_blocks (suc fuel) first counter flags cv (block ++ rest)
      ≡ chunk_blocks fuel false counter flags (next_value first counter flags cv block) rest
unfolding chunk_blocks
chunk_blocks-more fuel first counter flags cv block rest full some =
    let test : leb (length (block ++ rest)) block_len ≡ false =
      ground (arith, length-append block rest) in
    rw
      (
        test,
        take-append block_len block rest (sym full),
        drop-append block_len block rest (sym full),
      )
      refl

update-append :
    (self : ChunkState) (xs ys : List ℕ)
    → self.buf_len ≤ block_len
    → chunk_state_update self (xs ++ ys) ≡ chunk_state_update (chunk_state_update self xs) ys
unfolding chunk_state_update block_fill
update-append self xs ys h = absorb-append chunk-IsBuffer self xs ys h

-- What is left of a chunk, behind a full block.
output-update :
    (fuel k : ℕ) (cv : List ℕ) (counter flags : ℕ) (block rest : List ℕ)
    → length block ≡ block_len
    → 0 < length rest
    → block_len * k + length rest ≤ 960
    → length rest ≤ block_len * fuel
    → chunk_state_output (chunk_state_update (chunk_at k cv counter flags block) rest)
      ≡ chunk_blocks fuel (k == 0) counter flags cv (block ++ rest)
output-update zero k cv counter flags block rest full some few enough = absurd (omega arith)
output-update (suc fuel) k cv counter flags block rest full some few enough =
    let cv' : List ℕ = next_value (k == 0) counter flags cv block in
    let more = chunk_blocks-more fuel (k == 0) counter flags cv block rest full some in
    elim (Bool-cases (leb (length rest) block_len)) [
      | inl short ↦
          let fits : length rest ≤ block_len = ground arith in
          ap chunk_state_output
            (update_next k cv counter flags block rest full (omega arith) some fits)
          ∙ output_at (suc k) cv' counter flags rest
          ∙ ap (λ (first : Bool). last_block first counter flags cv' rest) (first_test k)
          ∙ sym (chunk_blocks-last fuel false counter flags cv' rest fits)
          ∙ sym more
      | inr longer ↦
          let long : block_len < length rest = ground arith in
          let first : List ℕ = take block_len rest in
          let others : List ℕ = drop block_len rest in
          let size : length first ≡ block_len = length-take_le block_len rest (omega arith) in
          let left : length others ≡ length rest - block_len = length-drop block_len rest in
          let state : ChunkState = chunk_at k cv counter flags block in
          ap (λ (t : List ℕ). chunk_state_output (chunk_state_update state t))
            (sym (take-append-drop block_len rest))
          ∙ ap chunk_state_output (update-append state first others (omega arith))
          ∙ ap (λ (t : ChunkState). chunk_state_output (chunk_state_update t others))
              (update_next k cv counter flags block first full (omega arith) (omega arith)
                (omega arith))
          ∙ output-update fuel (suc k) cv' counter flags first others size (omega arith)
              (omega arith) (omega arith)
          ∙ ap₂ (λ (b : Bool) (t : List ℕ). chunk_blocks fuel b counter flags cv' t) (first_test k)
              (take-append-drop block_len rest)
          ∙ sym more
    ]

-- The state of a chunk that starts from eight words, and the value of at most 1024 bytes.
pub output-chunk_blocks :
    (cv : List ℕ) (counter flags : ℕ) (bytes : List ℕ)
    → length bytes ≤ 1024
    → chunk_state_output (chunk_state_update (chunk_at 0 cv counter flags []) bytes)
      ≡ chunk_blocks 15 true counter flags cv bytes
output-chunk_blocks cv counter flags bytes fits =
    let start : ChunkState = chunk_at 0 cv counter flags [] in
    elim (Bool-cases (leb (length bytes) block_len)) [
      | inl short ↦
          let one_block : length bytes ≤ block_len = ground arith in
          ap chunk_state_output (update_first cv counter flags bytes one_block)
          ∙ output_at 0 cv counter flags bytes
          ∙ sym (chunk_blocks-last 15 true counter flags cv bytes one_block)
      | inr longer ↦
          let long : block_len < length bytes = ground arith in
          let first : List ℕ = take block_len bytes in
          let others : List ℕ = drop block_len bytes in
          let size : length first ≡ block_len = length-take_le block_len bytes (omega arith) in
          let left : length others ≡ length bytes - block_len = length-drop block_len bytes in
          ap (λ (t : List ℕ). chunk_state_output (chunk_state_update start t))
            (sym (take-append-drop block_len bytes))
          ∙ ap chunk_state_output (update-append start first others (omega arith))
          ∙ ap (λ (t : ChunkState). chunk_state_output (chunk_state_update t others))
              (update_first cv counter flags first (omega arith))
          ∙ output-update 15 0 cv counter flags first others size (omega arith) (omega arith)
              (omega arith)
          ∙ ap (chunk_blocks 15 true counter flags cv) (take-append-drop block_len bytes)
    ]

pub init_at :
    (counter flags : ℕ) → chunk_state_init iv counter flags ≡ chunk_at 0 iv counter flags []
unfolding chunk_state_init padded
init_at counter flags = refl
