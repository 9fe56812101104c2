-- ===== src/Blake3/Words/Laws.antt =====
-- Words and their little-endian bytes.
use native.Mathlib.Nat.{div-le_self}
use shardingsim.Prelude.{
  ℕ, ◌+◌, ◌-◌, ◌*◌, ◌^◌, ◌≤◌, ◌<◌, ◌≡◌, refl, ◌∙◌, ◌⊎◌, List, length, get_or, set, u8, u32, ◌<<<◌,
  ◌>>>◌, All, IsByte, arith, bit_or, length-set, get_or-set, if◌then◌else◌, ◌==◌, All-set,
  All-get_or,
}
use shardingsim.Prelude.Bits.{bit_or-lt, bit_or_high}
use shardingsim.Blake3.Words.{IsWord, rotr32, load32_le, store32_le}

shifted_down : (x n : ℕ) → IsWord x → IsWord (x >>> n)
shifted_down x n h = omega (arith, div-le_self x (2 ^ n))

-- A rotation stays a word.
pub rotr32-IsWord : (x n : ℕ) → IsWord x → IsWord (rotr32 x n)
unfolding rotr32
rotr32-IsWord x n h =
    bit_or-lt 32 (x >>> n) (u32 (x <<< (32 - n))) (shifted_down x n h) (omega arith)

-- The four bytes as a number.
abbrev from_bytes : ℕ → ℕ → ℕ → ℕ → ℕ
from_bytes a b c d = d * 2 ^ 24 + (c * 2 ^ 16 + (b * 2 ^ 8 + a))

or_bytes :
    (a b c d : ℕ)
    → IsByte a
    → IsByte b
    → IsByte c
    → IsByte d
    → bit_or (bit_or (bit_or a (u32 (b <<< 8))) (u32 (c <<< 16))) (u32 (d <<< 24))
      ≡ from_bytes a b c d
or_bytes a b c d ha hb hc hd =
    let fits_b : u32 (b <<< 8) ≡ b * 2 ^ 8 = omega arith in
    let fits_c : u32 (c <<< 16) ≡ c * 2 ^ 16 = omega arith in
    let fits_d : u32 (d <<< 24) ≡ d * 2 ^ 24 = omega arith in
    rw
      (
        fits_b,
        fits_c,
        fits_d,
        bit_or_high 8 b a ha,
        bit_or_high 16 c (b * 2 ^ 8 + a) (omega arith),
        bit_or_high 24 d (c * 2 ^ 16 + (b * 2 ^ 8 + a)) (omega arith),
      )
      refl

pub load32_le-from_bytes :
    (p : List ℕ) (off : ℕ)
    → All IsByte p
    → load32_le p off
      ≡ from_bytes
          (get_or p off 0)
          (get_or p (off + 1) 0)
          (get_or p (off + 2) 0)
          (get_or p (off + 3) 0)
unfolding load32_le
load32_le-from_bytes p off h =
    let at = λ (i : ℕ). All-get_or IsByte p i 0 h (omega arith) in
    or_bytes (get_or p off 0) (get_or p (off + 1) 0) (get_or p (off + 2) 0) (get_or p (off + 3) 0)
      (at off) (at (off + 1)) (at (off + 2)) (at (off + 3))

-- A read of any index after a store inside the array.
get_or-store32_le :
    (p : List ℕ) (off x i : ℕ)
    → off + 4 ≤ length p
    → get_or (store32_le p off x) i 0 ≡ (
        if off + 3 == i
        then u8 (x >>> 24)
        else if off + 2 == i
        then u8 (x >>> 16)
        else if off + 1 == i
        then u8 (x >>> 8)
        else if off == i
        then u8 x
        else get_or p i 0)
unfolding store32_le
get_or-store32_le p off x i h =
    let p1 : List ℕ = set p off (u8 x) in
    let p2 : List ℕ = set p1 (off + 1) (u8 (x >>> 8)) in
    let p3 : List ℕ = set p2 (off + 2) (u8 (x >>> 16)) in
    let l1 : length p1 ≡ length p = length-set p off (u8 x) in
    let l2 : length p2 ≡ length p1 = length-set p1 (off + 1) (u8 (x >>> 8)) in
    let l3 : length p3 ≡ length p2 = length-set p2 (off + 2) (u8 (x >>> 16)) in
    rw
      (
        get_or-set p3 (off + 3) i (u8 (x >>> 24)) 0 (omega arith),
        get_or-set p2 (off + 2) i (u8 (x >>> 16)) 0 (omega arith),
        get_or-set p1 (off + 1) i (u8 (x >>> 8)) 0 (omega arith),
        get_or-set p off i (u8 x) 0 (omega arith),
      )
      refl

pub length-store32_le : (p : List ℕ) (off x : ℕ) → length (store32_le p off x) ≡ length p
unfolding store32_le
length-store32_le p off x =
    let p1 : List ℕ = set p off (u8 x) in
    let p2 : List ℕ = set p1 (off + 1) (u8 (x >>> 8)) in
    let p3 : List ℕ = set p2 (off + 2) (u8 (x >>> 16)) in
    length-set p3 (off + 3) (u8 (x >>> 24))
    ∙ length-set p2 (off + 2) (u8 (x >>> 16))
    ∙ length-set p1 (off + 1) (u8 (x >>> 8))
    ∙ length-set p off (u8 x)

pub store32_le-IsByte : (p : List ℕ) (off x : ℕ) → All IsByte p → All IsByte (store32_le p off x)
unfolding store32_le
store32_le-IsByte p off x h =
    All-set IsByte _ (off + 3) (u8 (x >>> 24))
      (All-set IsByte _ (off + 2) (u8 (x >>> 16))
        (All-set IsByte _ (off + 1) (u8 (x >>> 8)) (All-set IsByte p off (u8 x) h (omega arith))
          (omega arith))
        (omega arith))
      (omega arith)

-- A word that is stored inside an array is read back.
pub load32_le-store32_le :
    (p : List ℕ) (off x : ℕ)
    → All IsByte p
    → off + 4 ≤ length p
    → IsWord x
    → load32_le (store32_le p off x) off ≡ x
load32_le-store32_le p off x h fits word =
    load32_le-from_bytes (store32_le p off x) off (store32_le-IsByte p off x h)
    ∙ ground (
      arith,
      get_or-store32_le p off x off fits,
      get_or-store32_le p off x (off + 1) fits,
      get_or-store32_le p off x (off + 2) fits,
      get_or-store32_le p off x (off + 3) fits,
    )

-- A store leaves the words beside it alone.
pub load32_le-store32_le_ne :
    (p : List ℕ) (off o x : ℕ)
    → off + 4 ≤ length p
    → (o + 4 ≤ off) ⊎ (off + 4 ≤ o)
    → load32_le (store32_le p off x) o ≡ load32_le p o
unfolding load32_le
load32_le-store32_le_ne p off o x fits apart =
    rw
      (
        same o (ground arith),
        same (o + 1) (ground arith),
        same (o + 2) (ground arith),
        same (o + 3) (ground arith),
      )
      refl
  where
    same : (i : ℕ) → (i < off) ⊎ (off + 4 ≤ i) → get_or (store32_le p off x) i 0 ≡ get_or p i 0
    same i e = ground (arith, get_or-store32_le p off x i fits)
