-- ===== src/Blake3/Hasher/Keyed.antt =====
-- The key of `blake3_hasher_init_keyed` is stored in `cv`, and nothing reads `cv` again.
use shardingsim.Prelude.{
  ℕ, ◌+◌, ◌-◌, u64, take, ltb, ◌++◌, zero, suc, ◌≡◌, refl, ap, ◌∙◌, List, arith, if◌then◌else◌,
}
use shardingsim.Blake3.Compress.{iv}
use shardingsim.Blake3.Words.{load_words}
use shardingsim.Blake3.Chunk.{parent_cv}
use shardingsim.Blake3.Absorb.Laws.{map-absorb}
use shardingsim.Blake3.Hasher.{
  Hasher, chunk_len, blake3_hasher_init_keyed, push_cv, pop_cv, must_merge, merge_loop,
  add_chunk_cv, chunk_value, finish_chunk, fill_chunk, chunk_fill, blake3_hasher_update, collapse,
  root_bytes, root_words, extend, blake3_hasher_finalize,
}

-- The hasher with other words in `cv`.
rekey : List ℕ → Hasher → Hasher
rekey words self = record self { cv = words }

merge_loop-rekey :
    (k : List ℕ) (fuel : ℕ) (self : Hasher) (value : List ℕ) (counter : ℕ)
    → merge_loop fuel (rekey k self) value counter
      ≡ (rekey k (merge_loop fuel self value counter).0, (merge_loop fuel self value counter).1)
unfolding rekey merge_loop pop_cv must_merge
merge_loop-rekey k zero self value counter = refl
merge_loop-rekey k (suc fuel) self value counter = ground (
  arith,
  merge_loop-rekey k fuel (pop_cv self).0 (parent_cv (pop_cv self).1 value iv self.flags) counter,
)

finish_chunk-rekey :
    (k : List ℕ) (self : Hasher) → finish_chunk (rekey k self) ≡ rekey k (finish_chunk self)
unfolding rekey finish_chunk add_chunk_cv push_cv
finish_chunk-rekey k self =
    ap
      (λ (m : Hasher × List ℕ). record (push_cv m.0 m.1) {
        chunk_counter = u64 (self.chunk_counter + 1);
        buf_len = 0;
      })
      (merge_loop-rekey k self.cv_stack_len self
        (chunk_value self.chunk_counter self.flags (take chunk_len self.chunk_buf))
        self.chunk_counter)

fill_chunk-rekey :
    (k : List ℕ) (self : Hasher) (xs : List ℕ) (n : ℕ)
    → fill_chunk (rekey k self) xs n ≡ rekey k (fill_chunk self xs n)
unfolding rekey fill_chunk
fill_chunk-rekey k self xs n = refl

blake3_hasher_update-rekey :
    (k : List ℕ) (self : Hasher) (input : List ℕ)
    → blake3_hasher_update (rekey k self) input ≡ rekey k (blake3_hasher_update self input)
unfolding blake3_hasher_update
blake3_hasher_update-rekey k self input =
    map-absorb chunk_len chunk_fill finish_chunk fill_chunk (rekey k)
      (λ s. unfold rekey chunk_fill in refl) (finish_chunk-rekey k) (fill_chunk-rekey k) self input

collapse-rekey :
    (k : List ℕ) (fuel : ℕ) (self : Hasher) (value : List ℕ)
    → collapse fuel (rekey k self) value ≡ collapse fuel self value
unfolding rekey collapse pop_cv
collapse-rekey k zero self value = refl
collapse-rekey k (suc fuel) self value =
    ground
      (arith, collapse-rekey k fuel (pop_cv self).0 (parent_cv (pop_cv self).1 value iv self.flags))

blake3_hasher_finalize-rekey :
    (k : List ℕ) (self : Hasher) (n : ℕ)
    → blake3_hasher_finalize (rekey k self) n ≡ blake3_hasher_finalize self n
unfolding blake3_hasher_finalize rekey
blake3_hasher_finalize-rekey k self n =
    ap (λ (final_cv : List ℕ). output_of final_cv)
      (collapse-rekey k self.cv_stack_len self
        (chunk_value self.chunk_counter self.flags (take self.buf_len self.chunk_buf)))
  where
    output_of : List ℕ → List ℕ
    output_of final_cv =
        let first = root_bytes (if ltb n 32 then n else 32) 0 (root_words final_cv self.flags) in
        first ++ extend (n - 32) 32 first

-- The keyed hash does not depend on its key: under any two keys every message has the same hash, of
-- every length.
pub blake3_hasher_init_keyed_ignored :
    (self : Hasher) (key other input : List ℕ) (out_len : ℕ)
    → blake3_hasher_finalize
        (blake3_hasher_update (blake3_hasher_init_keyed self key) input)
        out_len
      ≡ blake3_hasher_finalize
          (blake3_hasher_update (blake3_hasher_init_keyed self other) input)
          out_len
unfolding blake3_hasher_init_keyed rekey
blake3_hasher_init_keyed_ignored self key other input n =
    let start : Hasher = blake3_hasher_init_keyed self other in
    let words : List ℕ = load_words 8 key 0 in
    ap (λ (h : Hasher). blake3_hasher_finalize h n) (blake3_hasher_update-rekey words start input)
    ∙ blake3_hasher_finalize-rekey words (blake3_hasher_update start input) n
