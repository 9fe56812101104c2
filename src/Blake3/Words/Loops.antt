-- ===== src/Blake3/Words/Loops.antt =====
-- The loops over the words of a value: what they store is read back, and nothing else changes.
use shardingsim.Prelude.{
  ℕ, zero, suc, ◌+◌, ◌*◌, ◌≤◌, ◌≡◌, refl, ap₂, ◌∙◌, ◌⊎◌, inl, List, [], ◌∷◌, length, All, IsByte,
  arith,
}
use shardingsim.Blake3.Words.{IsWord, load32_le, store32_le, load_words, store_words}
use shardingsim.Blake3.Words.Laws.{
  length-store32_le, store32_le-IsByte, load32_le-store32_le, load32_le-store32_le_ne,
}

-- The ranges `[a, a + m)` and `[b, b + n)` do not meet.
abbrev pub IsApart : ℕ → ℕ → ℕ → ℕ → Type 0
IsApart a m b n = (a + m ≤ b) ⊎ (b + n ≤ a)

pub length-store_words :
    (p : List ℕ) (off : ℕ) (words : List ℕ) → length (store_words p off words) ≡ length p
unfolding store_words
length-store_words p off [] = refl
length-store_words p off (w ∷ words) =
    length-store_words (store32_le p off w) (off + 4) words ∙ length-store32_le p off w

pub store_words-IsByte :
    (p : List ℕ) (off : ℕ) (words : List ℕ) → All IsByte p → All IsByte (store_words p off words)
unfolding store_words
store_words-IsByte p off [] h = h
store_words-IsByte p off (w ∷ words) h =
    store_words-IsByte (store32_le p off w) (off + 4) words (store32_le-IsByte p off w h)

load32_le-store_words :
    (p : List ℕ) (off : ℕ) (words : List ℕ) (o : ℕ)
    → off + 4 * length words ≤ length p
    → IsApart o 4 off (4 * length words)
    → load32_le (store_words p off words) o ≡ load32_le p o
unfolding store_words
load32_le-store_words p off [] o fits apart = refl
load32_le-store_words p off (w ∷ words) o fits apart =
    load32_le-store_words (store32_le p off w) (off + 4) words o
      (omega (arith, length-store32_le p off w)) (ground arith)
    ∙ load32_le-store32_le_ne p off o w (omega arith) (ground arith)

-- Words outside the range that is written stay.
pub load_words-store_words_ne :
    (n : ℕ) (p : List ℕ) (off : ℕ) (words : List ℕ) (o : ℕ)
    → off + 4 * length words ≤ length p
    → IsApart o (4 * n) off (4 * length words)
    → load_words n (store_words p off words) o ≡ load_words n p o
unfolding load_words
load_words-store_words_ne zero p off words o fits apart = refl
load_words-store_words_ne (suc n) p off words o fits apart =
    ap₂ ◌∷◌ (load32_le-store_words p off words o fits (ground arith))
      (load_words-store_words_ne n p off words (o + 4) fits (ground arith))

-- The words come back as they were stored.
pub load_words-store_words :
    (p : List ℕ) (off : ℕ) (words : List ℕ) (n : ℕ)
    → length words ≡ n
    → All IsByte p
    → off + 4 * n ≤ length p
    → All IsWord words
    → load_words n (store_words p off words) off ≡ words
unfolding load_words store_words
load_words-store_words p off [] zero same h fits bounds = refl
load_words-store_words p off [] (suc n) same h fits bounds = absurd (omega arith)
load_words-store_words p off (w ∷ words) zero same h fits bounds = absurd (omega arith)
load_words-store_words p off (w ∷ words) (suc n) same h fits (word, bounds) =
    let p' : List ℕ = store32_le p off w in
    let room : length p' ≡ length p = length-store32_le p off w in
    ap₂ ◌∷◌
      (load32_le-store_words p' (off + 4) words off (omega arith) (inl (omega arith))
        ∙ load32_le-store32_le p off w h (omega arith) word)
      (load_words-store_words p' (off + 4) words n (omega arith) (store32_le-IsByte p off w h)
        (omega arith) bounds)
