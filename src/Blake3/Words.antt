-- ===== src/Blake3/Words.antt =====
-- The 32-bit words of src/blake3.c: rotation, and little-endian loads and stores in an array of bytes.

pub mod Laws
pub mod Loops
use shardingsim.Prelude.{
  ℕ, zero, suc, ◌+◌, ◌-◌, ◌*◌, ◌/◌, ◌%◌, ◌^◌, ◌<◌, bit_or, List, [], ◌∷◌, get_or, set, u8, u32,
  ◌<<<◌, ◌>>>◌,
}

abbrev pub IsWord : ℕ → Type 0
IsWord w = w < 2 ^ 32

pub rotr32 : ℕ → ℕ → ℕ
rotr32 x n = bit_or (x >>> n) (u32 (x <<< (32 - n)))

-- `load32_le (p + off)` and `store32_le (p + off, x)`
pub load32_le : List ℕ → ℕ → ℕ
load32_le p off =
    bit_or
      (bit_or (bit_or (get_or p off 0) (u32 (get_or p (off + 1) 0 <<< 8)))
        (u32 (get_or p (off + 2) 0 <<< 16)))
      (u32 (get_or p (off + 3) 0 <<< 24))

pub store32_le : List ℕ → ℕ → ℕ → List ℕ
store32_le p off x =
    set (set (set (set p off (u8 x)) (off + 1) (u8 (x >>> 8))) (off + 2) (u8 (x >>> 16))) (off + 3)
      (u8 (x >>> 24))

-- The loops that load or store `n` words, four bytes apart.
pub load_words : ℕ → List ℕ → ℕ → List ℕ
load_words zero p off = []
load_words (suc n) p off = load32_le p off ∷ load_words n p (off + 4)

pub store_words : List ℕ → ℕ → List ℕ → List ℕ
store_words p off [] = p
store_words p off (w ∷ words) = store_words (store32_le p off w) (off + 4) words
