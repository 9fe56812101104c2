-- ===== src/Blake3/Hasher/Output.antt =====
-- The bytes that `blake3_hasher_finalize` writes: how many, and how outputs of different lengths agree.
use shardingsim.Prelude.{
  ℕ, zero, suc, ◌+◌, ◌-◌, ◌*◌, ◌/◌, ◌%◌, ◌≤◌, ◌≡◌, refl, ap, ◌∙◌, List, ◌++◌, length, take, get_or,
  bit_xor, u8, ◌>>>◌, ltb, if◌then◌else◌, All, IsByte, IsBytes, All-append, All-get_or,
  length-append, take-append_left, take-append_right, arith,
}
use shardingsim.Prelude.Bits.{bit_and_mask, bit_xor-lt}
use mathlib.Core.List.{append-nil}
use native.Mathlib.Decide.{dec_le}
use shardingsim.Blake3.Hasher.{
  Hasher, blake3, blake3_truncated, root_bytes, root_words, extend, collapse, chunk_value,
  blake3_hasher_finalize,
}

length-root_bytes : (n i : ℕ) (words : List ℕ) → length (root_bytes n i words) ≡ n
unfolding root_bytes
length-root_bytes zero i words = refl
length-root_bytes (suc n) i words = ap suc (length-root_bytes n (suc i) words)

root_bytes-IsByte : (n i : ℕ) (words : List ℕ) → All IsByte (root_bytes n i words)
unfolding root_bytes
root_bytes-IsByte zero i words = tt
root_bytes-IsByte (suc n) i words = (
  omega (arith, bit_and_mask 8 (get_or words (i / 4) 0 >>> (8 * (i % 4)))),
  root_bytes-IsByte n (suc i) words,
)

take-root_bytes :
    (n m i : ℕ) (words : List ℕ) → n ≤ m → take n (root_bytes m i words) ≡ root_bytes n i words
unfolding root_bytes
take-root_bytes zero m i words h = refl
take-root_bytes (suc n) zero i words h = absurd (omega arith)
take-root_bytes (suc n) (suc m) i words h = rw (take-root_bytes n m (suc i) words (omega arith))

length-extend : (n i : ℕ) (out : List ℕ) → length (extend n i out) ≡ n
unfolding extend
length-extend zero i out = refl
length-extend (suc n) i out = ap suc (length-extend n (suc i) out)

extend-IsByte : (n i : ℕ) (out : List ℕ) → All IsByte out → All IsByte (extend n i out)
unfolding extend
extend-IsByte zero i out h = tt
extend-IsByte (suc n) i out h = (
  bit_xor-lt 8 (bit_xor (get_or out (i % 32) 0) (u8 (i >>> 8))) (u8 i)
      (bit_xor-lt 8 (get_or out (i % 32) 0) (u8 (i >>> 8))
        (All-get_or IsByte out (i % 32) 0 h (omega arith)) (omega arith))
      (omega arith),
  extend-IsByte n (suc i) out h,
)

take-extend : (n m i : ℕ) (out : List ℕ) → n ≤ m → take n (extend m i out) ≡ extend n i out
unfolding extend
take-extend zero m i out h = refl
take-extend (suc n) zero i out h = absurd (omega arith)
take-extend (suc n) (suc m) i out h = rw (take-extend n m (suc i) out (omega arith))

-- The root, whatever length is asked for.
words_of : Hasher → List ℕ
words_of self =
    root_words
      (collapse self.cv_stack_len self
        (chunk_value self.chunk_counter self.flags (take self.buf_len self.chunk_buf)))
      self.flags

short : ℕ → ℕ
short n = if ltb n 32 then n else 32

finalize-words :
    (self : Hasher) (n : ℕ)
    → blake3_hasher_finalize self n
      ≡ root_bytes (short n) 0 (words_of self)
        ++ extend (n - 32) 32 (root_bytes (short n) 0 (words_of self))
unfolding blake3_hasher_finalize short words_of
finalize-words self n = refl

short_cases : (n : ℕ) → (n ≤ 32 → short n ≡ n) × (32 ≤ n → short n ≡ 32)
unfolding short
short_cases n = (λ h. ground arith, λ h. ground arith)

-- `blake3_hasher_finalize` writes the length that it is asked for, and each element is a byte.
pub blake3_hasher_finalize-IsBytes :
    (self : Hasher) (out_len : ℕ) → IsBytes out_len (blake3_hasher_finalize self out_len)
blake3_hasher_finalize-IsBytes self n = rw (finalize-words self n) (total, bytes)
  where
    first : List ℕ
    first = root_bytes (short n) 0 (words_of self)

    short_sum : short n + (n - 32) ≡ n
    short_sum = elim (dec_le n 32) [
      | yes h ↦ omega (arith, (short_cases n).0 h)
      | no h ↦ omega (arith, (short_cases n).1 (omega arith))
    ]

    total : length (first ++ extend (n - 32) 32 first) ≡ n
    total = omega (
      arith,
      length-append first (extend (n - 32) 32 first),
      length-root_bytes (short n) 0 (words_of self),
      length-extend (n - 32) 32 first,
      short_sum,
    )

    bytes : All IsByte (first ++ extend (n - 32) 32 first)
    bytes =
        All-append IsByte first (extend (n - 32) 32 first)
          (root_bytes-IsByte (short n) 0 (words_of self))
          (extend-IsByte (n - 32) 32 first (root_bytes-IsByte (short n) 0 (words_of self)))

finalize_short :
    (self : Hasher) (n : ℕ)
    → n ≤ 32
    → blake3_hasher_finalize self n ≡ root_bytes n 0 (words_of self)
unfolding extend
finalize_short self n h =
    let none_left : n - 32 ≡ 0 = omega arith in
    finalize-words self n
    ∙ rw ((short_cases n).0 h, none_left) (append-nil (root_bytes n 0 (words_of self)))

finalize_long :
    (self : Hasher) (n : ℕ)
    → 32 ≤ n
    → blake3_hasher_finalize self n
      ≡ root_bytes 32 0 (words_of self) ++ extend (n - 32) 32 (root_bytes 32 0 (words_of self))
finalize_long self n h = finalize-words self n ∙ rw ((short_cases n).1 h)

take-finalize_long :
    (self : Hasher) (n m : ℕ)
    → n ≤ m
    → 32 ≤ m
    → take n (blake3_hasher_finalize self m) ≡ blake3_hasher_finalize self n
take-finalize_long self n m h big = elim (dec_le n 32) [
  | yes few ↦
      rw (finalize_long self m big, finalize_short self n few)
        (take-append_left n first (extend (m - 32) 32 first) (omega (arith, size))
          ∙ take-root_bytes n 32 0 (words_of self) few)
  | no many ↦
      rw (finalize_long self m big, finalize_long self n (omega arith))
        (take-append_right n (n - 32) first (extend (m - 32) 32 first) (omega (arith, size))
          ∙ ap (λ (t : List ℕ). first ++ t) (take-extend (n - 32) (m - 32) 32 first (omega arith)))
]
  where
    first : List ℕ
    first = root_bytes 32 0 (words_of self)

    size : length first ≡ 32
    size = length-root_bytes 32 0 (words_of self)

-- A shorter output is the front of a longer one, above 32 bytes too.
pub take-blake3_hasher_finalize :
    (self : Hasher) (n m : ℕ)
    → n ≤ m
    → take n (blake3_hasher_finalize self m) ≡ blake3_hasher_finalize self n
take-blake3_hasher_finalize self n m h = elim (dec_le m 32) [
  | yes few ↦
      rw (finalize_short self m few, finalize_short self n (omega arith))
        (take-root_bytes n m 0 (words_of self) h)
  | no many ↦ take-finalize_long self n m h (omega arith)
]

-- The one-shot functions write 32 bytes and as many as they are asked for, and a truncated hash of at
-- most 32 bytes is the front of the full one.
pub blake3_truncated-blake3 :
    (memory : Hasher) (input : List ℕ) (out_len : ℕ)
    → out_len ≤ 32
    → IsBytes 32 (blake3 memory input)
      × IsBytes out_len (blake3_truncated memory input out_len)
      × (take out_len (blake3 memory input) ≡ blake3_truncated memory input out_len)
unfolding blake3 blake3_truncated
blake3_truncated-blake3 memory input out_len h = (
  blake3_hasher_finalize-IsBytes _ 32,
  blake3_hasher_finalize-IsBytes _ out_len,
  take-blake3_hasher_finalize _ out_len 32 h,
)
