-- ===== src/Blake3/Hasher.antt =====
-- The public interface of src/blake3.c.
pub mod Stream
pub mod Keyed
pub mod Output
pub mod Pieces
pub mod Stack
pub mod Depth
pub mod Tree
use shardingsim.Prelude.{
  ℕ, zero, suc, ◌+◌, ◌-◌, ◌*◌, ◌/◌, ◌%◌, ◌^◌, bit_and, bit_or, bit_xor, Bool, not, ◌&&◌, List, [],
  ◌∷◌, ◌++◌, length, get_or, replicate, memcpy, take, u8, u64, ltb, ◌==◌, if◌then◌else◌, ◌<<<◌,
  ◌>>>◌,
}
use shardingsim.Blake3.Words.{load_words, store_words}
use shardingsim.Blake3.Compress.{compress, iv, block_len, root, keyed_hash}
use shardingsim.Blake3.Absorb.{absorb}
use shardingsim.Blake3.Chunk.{chunk_state_init, chunk_state_update, chunk_state_output, parent_cv}

abbrev pub chunk_len : ℕ
chunk_len = 1024

-- `cv_stack` is the array of bytes, 54 values of 32 bytes.
pub record Hasher : Type 0 where
  pub cv : List ℕ
  pub chunk_buf : List ℕ
  pub cv_stack : List ℕ
  pub cv_stack_len : ℕ
  pub chunk_counter : ℕ
  pub buf_len : ℕ
  pub flags : ℕ

-- `self` is the memory that is initialised; `cv_stack` keeps what was there.
pub blake3_hasher_init : Hasher → Hasher
blake3_hasher_init self = record self {
  cv = iv;
  chunk_buf = replicate chunk_len 0;
  cv_stack_len = 0;
  chunk_counter = 0;
  buf_len = 0;
  flags = 0;
}

pub blake3_hasher_init_keyed : Hasher → List ℕ → Hasher
blake3_hasher_init_keyed self key = record self {
  cv = load_words 8 key 0;
  chunk_buf = replicate chunk_len 0;
  cv_stack_len = 0;
  chunk_counter = 0;
  buf_len = 0;
  flags = keyed_hash;
}

-- The two loops run over the eight words of one stack slot.
pub push_cv : Hasher → List ℕ → Hasher
push_cv self value = record self {
  cv_stack = store_words self.cv_stack (self.cv_stack_len * 32) (take 8 value);
  cv_stack_len = u8 (self.cv_stack_len + 1);
}

pub pop_cv : Hasher → Hasher × List ℕ
pop_cv self =
    let n = u8 (self.cv_stack_len + 2 ^ 8 - 1) in
    (record self { cv_stack_len = n }, load_words 8 self.cv_stack (n * 32))

-- `self->cv_stack_len > 0 && (chunk_counter & ((1 << self->cv_stack_len) - 1)) != 0`
must_merge : Hasher → ℕ → Bool
must_merge self counter =
    ltb 0 self.cv_stack_len && not (bit_and counter (u64 (1 <<< self.cv_stack_len) - 1) == 0)

-- The loop on fuel, with the value to push; each round takes one from the stack.
merge_loop : ℕ → Hasher → List ℕ → ℕ → Hasher × List ℕ
merge_loop zero self new_cv counter = (self, new_cv)
merge_loop (suc fuel) self new_cv counter =
    let popped = pop_cv self in
    let rest = merge_loop fuel popped.0 (parent_cv popped.1 new_cv iv self.flags) counter in
    if must_merge self counter then rest else (self, new_cv)

pub add_chunk_cv : Hasher → List ℕ → ℕ → Hasher
add_chunk_cv self new_cv counter =
    let merged = merge_loop self.cv_stack_len self new_cv counter in push_cv merged.0 merged.1

-- The value of a chunk, from the bytes of it.
pub chunk_value : ℕ → ℕ → List ℕ → List ℕ
chunk_value counter flags bytes =
    chunk_state_output (chunk_state_update (chunk_state_init iv counter flags) bytes)

-- The branch of `blake3_hasher_update` at a full chunk.
pub finish_chunk : Hasher → Hasher
finish_chunk self =
    let value = chunk_value self.chunk_counter self.flags (take chunk_len self.chunk_buf) in
    let added = add_chunk_cv self value self.chunk_counter in
    record added { chunk_counter = u64 (self.chunk_counter + 1); buf_len = 0 }

pub fill_chunk : Hasher → List ℕ → ℕ → Hasher
fill_chunk self input n = record self {
  chunk_buf = memcpy self.chunk_buf self.buf_len input n;
  buf_len = u64 (self.buf_len + n);
}

pub chunk_fill : Hasher → ℕ
chunk_fill self = self.buf_len

pub blake3_hasher_update : Hasher → List ℕ → Hasher
blake3_hasher_update = absorb chunk_len chunk_fill finish_chunk fill_chunk

-- The values left on the stack, merged from the last one down.
pub collapse : ℕ → Hasher → List ℕ → List ℕ
collapse zero self value = value
collapse (suc fuel) self value =
    let popped = pop_cv self in
    let rest = collapse fuel popped.0 (parent_cv popped.1 value iv self.flags) in
    if ltb 0 self.cv_stack_len then rest else value

-- `out[i]` for `n` values from `i` on, out of the words of the root.
pub root_bytes : ℕ → ℕ → List ℕ → List ℕ
root_bytes zero i words = []
root_bytes (suc n) i words =
    bit_and (get_or words (i / 4) 0 >>> (8 * (i % 4))) 0xff ∷ root_bytes n (suc i) words

-- The bytes behind the first 32: `out[i % 32]` with `i` mixed in.
extend : ℕ → ℕ → List ℕ → List ℕ
extend zero i out = []
extend (suc n) i out =
    bit_xor (bit_xor (get_or out (i % 32) 0) (u8 (i >>> 8))) (u8 i) ∷ extend n (suc i) out

-- The block of the root and its compression.
pub root_words : List ℕ → ℕ → List ℕ
root_words final_cv flags =
    compress iv (store_words (replicate block_len 0) 0 (take 8 final_cv)) 32 0 (bit_or flags root)

pub blake3_hasher_finalize : Hasher → ℕ → List ℕ
blake3_hasher_finalize self out_len =
    let value = chunk_value self.chunk_counter self.flags (take self.buf_len self.chunk_buf) in
    let words = root_words (collapse self.cv_stack_len self value) self.flags in
    let first = root_bytes (if ltb out_len 32 then out_len else 32) 0 words in
    first ++ extend (out_len - 32) 32 first

-- `memory` is the uninitialised `blake3_hasher` of the caller's stack frame.
pub blake3_truncated : Hasher → List ℕ → ℕ → List ℕ
blake3_truncated memory input out_len =
    blake3_hasher_finalize (blake3_hasher_update (blake3_hasher_init memory) input) out_len

pub blake3 : Hasher → List ℕ → List ℕ
blake3 memory input =
    blake3_hasher_finalize (blake3_hasher_update (blake3_hasher_init memory) input) 32
