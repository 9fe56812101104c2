-- ===== src/Blake3/Hasher/Stream.antt =====
-- `blake3_hasher_update` on a message that comes in pieces.
use shardingsim.Prelude.{
  ℕ, suc, ◌+◌, ◌≤◌, ◌≡◌, refl, ap, List, [], ◌∷◌, ◌++◌, memcpy, u64, arith, set,
}
use shardingsim.Blake3.Absorb.Laws.{IsBuffer, absorb-append, absorb-foldl, foldl-le}
use shardingsim.Blake3.Hasher.{
  Hasher, chunk_len, finish_chunk, fill_chunk, chunk_fill, blake3_hasher_update,
}

-- The buffer of a hasher never holds more than a chunk.
abbrev pub IsValid : Hasher → Type 0
IsValid self = self.buf_len ≤ chunk_len

buf_len-fill_chunk :
    (self : Hasher) (xs : List ℕ) (n : ℕ)
    → chunk_fill self + n ≤ chunk_len
    → chunk_fill (fill_chunk self xs n) ≡ chunk_fill self + n
unfolding chunk_fill fill_chunk
buf_len-fill_chunk self xs n h = omega arith

fill_chunk-zero :
    (self : Hasher) (xs : List ℕ) → chunk_fill self ≤ chunk_len → fill_chunk self xs 0 ≡ self
unfolding chunk_fill fill_chunk
fill_chunk-zero self xs h = ap (λ (k : ℕ). record self { buf_len = k }) (omega arith)

fill_chunk-suc :
    (self : Hasher) (x : ℕ) (xs : List ℕ) (n : ℕ)
    → chunk_fill self + suc n ≤ chunk_len
    → fill_chunk self (x ∷ xs) (suc n) ≡ fill_chunk (fill_chunk self (x ∷ []) 1) xs n
unfolding chunk_fill fill_chunk
fill_chunk-suc self x xs n h =
    let next : suc self.buf_len ≡ u64 (self.buf_len + 1) = omega arith in
    let total : u64 (self.buf_len + suc n) ≡ u64 (u64 (self.buf_len + 1) + n) = omega arith in
    λ i. record self {
      chunk_buf = memcpy (set self.chunk_buf self.buf_len x) (next i) xs n;
      buf_len = total i;
    }

pub hasher-IsBuffer : IsBuffer chunk_len chunk_fill finish_chunk fill_chunk
hasher-IsBuffer = record {
  size_pos = omega arith;
  buf_len-flush = λ s. unfold chunk_fill finish_chunk in refl;
  buf_len-store = buf_len-fill_chunk;
  store-zero = fill_chunk-zero;
  store-suc = fill_chunk-suc;
}

-- Hashing a message in two pieces leaves the hasher, its stale bytes included, as hashing it at
-- once does, for every hasher whose buffer holds at most 1024 bytes.
pub blake3_hasher_update-append :
    (self : Hasher) (first second : List ℕ)
    → IsValid self
    → blake3_hasher_update self (first ++ second)
      ≡ blake3_hasher_update (blake3_hasher_update self first) second
unfolding blake3_hasher_update chunk_fill
blake3_hasher_update-append self first second h = absorb-append hasher-IsBuffer self first second h

-- An update keeps the buffer within a chunk.
pub blake3_hasher_update-IsValid :
    (self : Hasher) (input : List ℕ) → IsValid self → IsValid (blake3_hasher_update self input)
unfolding blake3_hasher_update chunk_fill
blake3_hasher_update-IsValid self input h =
    rw (absorb-foldl hasher-IsBuffer self input h) (foldl-le hasher-IsBuffer self input h)
