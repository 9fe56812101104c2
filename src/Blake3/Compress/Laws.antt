-- ===== src/Blake3/Compress/Laws.antt =====
-- The result of `compress` is sixteen words.
use shardingsim.Prelude.{
  ℕ, zero, suc, ◌+◌, ◌≤◌, ◌≡◌, refl, ◌∙◌, List, length, All, IsByte, arith, get_or, set, bit_xor,
  length-set, length-memcpy, All-memcpy, All-set, All-get_or, take, length-take_le, All-take,
}
use shardingsim.Prelude.Bits.{bit_xor-lt}
use shardingsim.Blake3.Words.{IsWord, load_words}
use shardingsim.Blake3.Words.Laws.{rotr32-IsWord}
use shardingsim.Blake3.Compress.{
  iv, compress, compress_in_place, add_to, mix_into, g, round_fn, rounds, feed_forward,
  initial_state,
}

-- `uint32_t xs[n]`
abbrev pub IsWords : ℕ → List ℕ → Type 0
IsWords n xs = (length xs ≡ n) × All IsWord xs

IsWord-at : {n : ℕ} (xs : List ℕ) (i : ℕ) → IsWords n xs → IsWord (get_or xs i 0)
IsWord-at xs i h = All-get_or IsWord xs i 0 h.1 (omega arith)

set-IsWords : {n : ℕ} (xs : List ℕ) (i v : ℕ) → IsWords n xs → IsWord v → IsWords n (set xs i v)
set-IsWords xs i v h p = (length-set xs i v ∙ h.0, All-set IsWord xs i v h.1 p)

add_to-IsWords : {n : ℕ} (s : List ℕ) (i j m : ℕ) → IsWords n s → IsWords n (add_to s i j m)
add_to-IsWords s i j m h = set-IsWords s i _ h (omega arith)

mix_into-IsWords : {n : ℕ} (s : List ℕ) (i j k : ℕ) → IsWords n s → IsWords n (mix_into s i j k)
mix_into-IsWords s i j k h = set-IsWords s i _ h (
    rotr32-IsWord _ k
      (bit_xor-lt 32 (get_or s i 0) (get_or s j 0) (IsWord-at s i h) (IsWord-at s j h)))

g-IsWords : {n : ℕ} (s : List ℕ) (a b c d mx my : ℕ) → IsWords n s → IsWords n (g s a b c d mx my)
unfolding g
g-IsWords s a b c d mx my h = mix_into-IsWords _ b c 7 (
    add_to-IsWords _ c d 0 (
      mix_into-IsWords _ d a 8 (
        add_to-IsWords _ a b my (
          mix_into-IsWords _ b c 12
            (add_to-IsWords _ c d 0 (mix_into-IsWords _ d a 16 (add_to-IsWords s a b mx h)))))))

round_fn-IsWords : {n : ℕ} (s msg : List ℕ) (r : ℕ) → IsWords n s → IsWords n (round_fn s msg r)
unfolding round_fn
round_fn-IsWords s msg r h = g-IsWords _ 3 4 9 14 _ _ (
    g-IsWords _ 2 7 8 13 _ _ (
      g-IsWords _ 1 6 11 12 _ _ (
        g-IsWords _ 0 5 10 15 _ _ (
          g-IsWords _ 3 7 11 15 _ _
            (g-IsWords _ 2 6 10 14 _ _ (g-IsWords _ 1 5 9 13 _ _ (g-IsWords s 0 4 8 12 _ _ h)))))))

rounds-IsWords : {n : ℕ} (k r : ℕ) (msg s : List ℕ) → IsWords n s → IsWords n (rounds k r msg s)
unfolding rounds
rounds-IsWords zero r msg s h = h
rounds-IsWords (suc k) r msg s h = rounds-IsWords k (suc r) msg _ (round_fn-IsWords s msg r h)

feed_forward-IsWords :
    {n : ℕ} (k i : ℕ) (cv s : List ℕ)
    → All IsWord cv
    → IsWords n s
    → IsWords n (feed_forward k i cv s)
unfolding feed_forward
feed_forward-IsWords zero i cv s hc h = h
feed_forward-IsWords {n} (suc k) i cv s hc h =
    let first : IsWords n (set s i (bit_xor (get_or s i 0) (get_or s (i + 8) 0))) =
      set-IsWords s i _ h (
        bit_xor-lt 32 (get_or s i 0) (get_or s (i + 8) 0) (IsWord-at s i h)
          (IsWord-at s (i + 8) h)) in
    feed_forward-IsWords k (suc i) cv _ hc (
      set-IsWords _ (i + 8) _ first (
        bit_xor-lt 32 _ (get_or cv i 0) (IsWord-at _ (i + 8) first)
          (All-get_or IsWord cv i 0 hc (omega arith))))

initial_state-IsWords :
    (cv : List ℕ) (len counter flags : ℕ)
    → All IsWord cv
    → IsByte len
    → IsByte flags
    → IsWords 16 (initial_state cv len counter flags)
unfolding initial_state
initial_state-IsWords cv len counter flags h hl hf =
    let word = λ (i : ℕ). All-get_or IsWord cv i 0 h (omega arith) in
    (
      refl,
      (word 0, (word 1, (word 2, (word 3, (word 4, (word 5, (word 6, (word 7, omega arith)))))))),
    )

-- The compression function returns 16 words of 32 bits for every chaining value of such words and
-- every block, whatever the counter, with a length and flags that are bytes.
pub compress-IsWords :
    (cv block : List ℕ) (len counter flags : ℕ)
    → All IsWord cv
    → IsByte len
    → IsByte flags
    → IsWords 16 (compress cv block len counter flags)
unfolding compress
compress-IsWords cv block len counter flags h hl hf =
    let msg : List ℕ = load_words 16 block 0 in
    let start : List ℕ = initial_state cv len counter flags in
    feed_forward-IsWords 8 0 cv (rounds 7 0 msg start) h
      (rounds-IsWords 7 0 msg start (initial_state-IsWords cv len counter flags h hl hf))

pub take-IsWords : (n : ℕ) (xs : List ℕ) {m : ℕ} → n ≤ m → IsWords m xs → IsWords n (take n xs)
take-IsWords n xs le h = (length-take_le n xs (omega arith), All-take IsWord n xs h.1)

pub iv-IsWords : IsWords 8 iv
iv-IsWords = omega arith

pub compress_in_place-IsWords :
    (cv block : List ℕ) (len counter flags : ℕ)
    → IsWords 8 cv
    → IsByte len
    → IsByte flags
    → IsWords 8 (compress_in_place cv block len counter flags)
unfolding compress_in_place
compress_in_place-IsWords cv block len counter flags h hl hf =
    let full = compress cv block len counter flags in
    (
      length-memcpy cv 0 full 8 ∙ h.0,
      All-memcpy IsWord cv 0 full 8 h.1 (compress-IsWords cv block len counter flags h.1 hl hf).1,
    )
