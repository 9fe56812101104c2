-- ===== src/Blake3/Hasher/Depth.antt =====
-- How many values the stack of a hasher holds.
use shardingsim.Prelude.{
  ℕ, zero, suc, ◌%◌, ◌≤◌, ◌≡◌, refl, ◌⊎◌, inl, inr, List, take, not, ◌==◌, Bool-cases, false, arith,
}
use shardingsim.Prelude.Bits.{bit_and_mask}
use shardingsim.Blake3.Compress.{iv}
use shardingsim.Blake3.Chunk.{parent_cv}
use shardingsim.Blake3.Absorb.Laws.{absorb_keeps}
use shardingsim.Blake3.Hasher.{
  Hasher, chunk_len, push_cv, pop_cv, must_merge, merge_loop, add_chunk_cv, chunk_value,
  finish_chunk, fill_chunk, chunk_fill, blake3_hasher_update,
}

-- At most one value, or two before a chunk of odd number.
abbrev pub IsShallow : Hasher → Type 0
IsShallow self = (self.cv_stack_len ≤ 1) ⊎ ((self.cv_stack_len ≡ 2) × (self.chunk_counter % 2 ≡ 1))

-- The test of the loop at these depths.
must_merge_one :
    (self : Hasher) (counter : ℕ)
    → self.cv_stack_len ≡ 1
    → must_merge self counter ≡ not (counter % 2 == 0)
unfolding must_merge
must_merge_one self counter h = rw (h, bit_and_mask 1 counter) refl

must_merge_two :
    (self : Hasher) (counter : ℕ)
    → self.cv_stack_len ≡ 2
    → must_merge self counter ≡ not (counter % 4 == 0)
unfolding must_merge
must_merge_two self counter h = rw (h, bit_and_mask 2 counter) refl

length-pop_cv :
    (self : Hasher) (n : ℕ) → self.cv_stack_len ≡ suc n → n ≤ 1 → (pop_cv self).0.cv_stack_len ≡ n
unfolding pop_cv
length-pop_cv self n h few = omega arith

-- After the loop the stack is empty, or holds one value before a chunk of even number.
abbrev IsMerged : ℕ → ℕ → Type 0
IsMerged n counter = (n ≡ 0) ⊎ ((n ≡ 1) × (counter % 2 ≡ 0))

merge_loop_one :
    (self : Hasher) (value : List ℕ) (counter : ℕ)
    → self.cv_stack_len ≡ 1
    → IsMerged (merge_loop 1 self value counter).0.cv_stack_len counter
unfolding merge_loop
merge_loop_one self value counter h = elim (Bool-cases (counter % 2 == 0)) [
  | inl even ↦ rw (must_merge_one self counter h, even) (inr (h, ground arith))
  | inr odd ↦ rw (must_merge_one self counter h, odd) (inl (length-pop_cv self 0 h (omega arith)))
]

merge_loop_two :
    (self : Hasher) (value : List ℕ) (counter : ℕ)
    → self.cv_stack_len ≡ 2
    → counter % 2 ≡ 1
    → IsMerged (merge_loop 2 self value counter).0.cv_stack_len counter
unfolding merge_loop
merge_loop_two self value counter h odd =
    let some : (counter % 4 == 0) ≡ false = ground arith in
    rw (must_merge_two self counter h, some)
      (merge_loop_one (pop_cv self).0 (parent_cv (pop_cv self).1 value iv self.flags) counter
        (length-pop_cv self 1 h (omega arith)))

merge_loop-IsMerged :
    (fuel : ℕ) (self : Hasher) (value : List ℕ)
    → self.cv_stack_len ≡ fuel
    → IsShallow self
    → IsMerged (merge_loop fuel self value self.chunk_counter).0.cv_stack_len self.chunk_counter
unfolding merge_loop
merge_loop-IsMerged zero self value size h = inl size
merge_loop-IsMerged (suc zero) self value size h = merge_loop_one self value self.chunk_counter size
merge_loop-IsMerged (suc (suc zero)) self value size (inl few) = absurd (omega arith)
merge_loop-IsMerged (suc (suc zero)) self value size (inr (two, odd)) =
    merge_loop_two self value self.chunk_counter two odd
merge_loop-IsMerged (suc (suc (suc fuel))) self value size h = absurd (ground arith)

add_chunk_cv-IsMerged :
    (self : Hasher) (value : List ℕ)
    → IsShallow self
    → let n = (add_chunk_cv self value self.chunk_counter).cv_stack_len in
      (n ≡ 1) ⊎ ((n ≡ 2) × (self.chunk_counter % 2 ≡ 0))
unfolding add_chunk_cv push_cv
add_chunk_cv-IsMerged self value h =
    ground (arith, merge_loop-IsMerged self.cv_stack_len self value refl h)

pub finish_chunk-IsShallow : (self : Hasher) → IsShallow self → IsShallow (finish_chunk self)
unfolding finish_chunk
finish_chunk-IsShallow self h = ground (
  arith,
  add_chunk_cv-IsMerged self
      (chunk_value self.chunk_counter self.flags (take chunk_len self.chunk_buf)) h,
)

pub fill_chunk-IsShallow :
    (self : Hasher) (xs : List ℕ) (n : ℕ) → IsShallow self → IsShallow (fill_chunk self xs n)
unfolding fill_chunk
fill_chunk-IsShallow self xs n h = h

-- However long the message is, and also when the counter of the chunks wraps around, an update keeps
-- the stack shallow: it holds at most one of its 54 values, or two before a chunk of odd number.
pub blake3_hasher_update-IsShallow :
    (self : Hasher) (input : List ℕ) → IsShallow self → IsShallow (blake3_hasher_update self input)
unfolding blake3_hasher_update
blake3_hasher_update-IsShallow self input h =
    absorb_keeps chunk_len chunk_fill finish_chunk fill_chunk IsShallow finish_chunk-IsShallow
      fill_chunk-IsShallow self input h
