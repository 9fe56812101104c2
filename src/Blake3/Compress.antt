-- ===== src/Blake3/Compress.antt =====
-- The compression function of src/blake3.c. An array of words is a list.

pub mod Laws
use shardingsim.Prelude.{
  ℕ, zero, suc, ◌+◌, bit_xor, ◌/◌, ◌%◌, ◌^◌, List, [], ◌∷◌, get_or, set, memcpy, u32, ◌>>>◌,
}
use shardingsim.Blake3.Words.{rotr32, load_words}

abbrev pub iv : List ℕ
iv =
    0x6A09E667 ∷ 0xBB67AE85 ∷ 0x3C6EF372 ∷ 0xA54FF53A ∷ 0x510E527F ∷ 0x9B05688C ∷ 0x1F83D9AB
    ∷ 0x5BE0CD19 ∷ []

abbrev pub chunk_start : ℕ
chunk_start = 1

abbrev pub chunk_end : ℕ
chunk_end = 2

abbrev pub parent : ℕ
parent = 4

abbrev pub root : ℕ
root = 8

abbrev pub keyed_hash : ℕ
keyed_hash = 16

abbrev pub block_len : ℕ
block_len = 64

abbrev msg_schedule : List (List ℕ)
msg_schedule =
    (0 ∷ 1 ∷ 2 ∷ 3 ∷ 4 ∷ 5 ∷ 6 ∷ 7 ∷ 8 ∷ 9 ∷ 10 ∷ 11 ∷ 12 ∷ 13 ∷ 14 ∷ 15 ∷ [])
    ∷ (2 ∷ 6 ∷ 3 ∷ 10 ∷ 7 ∷ 0 ∷ 4 ∷ 13 ∷ 1 ∷ 11 ∷ 12 ∷ 5 ∷ 9 ∷ 14 ∷ 15 ∷ 8 ∷ [])
    ∷ (3 ∷ 4 ∷ 10 ∷ 12 ∷ 13 ∷ 2 ∷ 7 ∷ 14 ∷ 6 ∷ 5 ∷ 9 ∷ 0 ∷ 11 ∷ 15 ∷ 8 ∷ 1 ∷ [])
    ∷ (10 ∷ 7 ∷ 12 ∷ 9 ∷ 14 ∷ 3 ∷ 13 ∷ 15 ∷ 4 ∷ 0 ∷ 11 ∷ 2 ∷ 5 ∷ 8 ∷ 1 ∷ 6 ∷ [])
    ∷ (12 ∷ 13 ∷ 9 ∷ 11 ∷ 15 ∷ 10 ∷ 14 ∷ 8 ∷ 7 ∷ 2 ∷ 5 ∷ 3 ∷ 0 ∷ 1 ∷ 6 ∷ 4 ∷ [])
    ∷ (9 ∷ 14 ∷ 11 ∷ 5 ∷ 8 ∷ 12 ∷ 15 ∷ 1 ∷ 13 ∷ 3 ∷ 0 ∷ 10 ∷ 2 ∷ 6 ∷ 4 ∷ 7 ∷ [])
    ∷ (11 ∷ 15 ∷ 5 ∷ 0 ∷ 1 ∷ 9 ∷ 8 ∷ 6 ∷ 14 ∷ 10 ∷ 2 ∷ 12 ∷ 3 ∷ 4 ∷ 7 ∷ 13 ∷ [])
    ∷ []

-- `state[i] = state[i] + state[j] + m`, and `state[i] = rotr32(state[i] ^ state[j], n)`
abbrev add_to : List ℕ → ℕ → ℕ → ℕ → List ℕ
add_to state i j m = set state i (u32 (get_or state i 0 + get_or state j 0 + m))

abbrev mix_into : List ℕ → ℕ → ℕ → ℕ → List ℕ
mix_into state i j n = set state i (rotr32 (bit_xor (get_or state i 0) (get_or state j 0)) n)

g : List ℕ → ℕ → ℕ → ℕ → ℕ → ℕ → ℕ → List ℕ
g s0 a b c d mx my =
    let s1 = add_to s0 a b mx in
    let s2 = mix_into s1 d a 16 in
    let s3 = add_to s2 c d 0 in
    let s4 = mix_into s3 b c 12 in
    let s5 = add_to s4 a b my in
    let s6 = mix_into s5 d a 8 in let s7 = add_to s6 c d 0 in mix_into s7 b c 7

-- `msg[schedule[k]]`
abbrev scheduled : List ℕ → ℕ → ℕ → ℕ
scheduled msg r k = get_or msg (get_or (get_or msg_schedule r []) k 0) 0

round_fn : List ℕ → List ℕ → ℕ → List ℕ
round_fn s0 msg r =
    let s1 = g s0 0 4 8 12 (scheduled msg r 0) (scheduled msg r 1) in
    let s2 = g s1 1 5 9 13 (scheduled msg r 2) (scheduled msg r 3) in
    let s3 = g s2 2 6 10 14 (scheduled msg r 4) (scheduled msg r 5) in
    let s4 = g s3 3 7 11 15 (scheduled msg r 6) (scheduled msg r 7) in
    let s5 = g s4 0 5 10 15 (scheduled msg r 8) (scheduled msg r 9) in
    let s6 = g s5 1 6 11 12 (scheduled msg r 10) (scheduled msg r 11) in
    let s7 = g s6 2 7 8 13 (scheduled msg r 12) (scheduled msg r 13) in
    g s7 3 4 9 14 (scheduled msg r 14) (scheduled msg r 15)

-- `n` rounds from round `r` on.
rounds : ℕ → ℕ → List ℕ → List ℕ → List ℕ
rounds zero r msg state = state
rounds (suc n) r msg state = rounds n (suc r) msg (round_fn state msg r)

-- `state[i] ^= state[i + 8]; state[i + 8] ^= cv[i]`, for `n` values from `i` on.
feed_forward : ℕ → ℕ → List ℕ → List ℕ → List ℕ
feed_forward zero i cv state = state
feed_forward (suc n) i cv s0 =
    let s1 = set s0 i (bit_xor (get_or s0 i 0) (get_or s0 (i + 8) 0)) in
    let s2 = set s1 (i + 8) (bit_xor (get_or s1 (i + 8) 0) (get_or cv i 0)) in
    feed_forward n (suc i) cv s2

-- The sixteen words before the first round.
initial_state : List ℕ → ℕ → ℕ → ℕ → List ℕ
initial_state cv len counter flags =
    get_or cv 0 0
    ∷ get_or cv 1 0
    ∷ get_or cv 2 0
    ∷ get_or cv 3 0
    ∷ get_or cv 4 0
    ∷ get_or cv 5 0
    ∷ get_or cv 6 0
    ∷ get_or cv 7 0
    ∷ get_or iv 0 0
    ∷ get_or iv 1 0
    ∷ get_or iv 2 0
    ∷ get_or iv 3 0
    ∷ u32 counter
    ∷ u32 (counter >>> 32)
    ∷ len
    ∷ flags
    ∷ []

pub compress : List ℕ → List ℕ → ℕ → ℕ → ℕ → List ℕ
unfolding rounds feed_forward initial_state round_fn g
compress cv block len counter flags =
    let msg = load_words 16 block 0 in
    feed_forward 8 0 cv (rounds 7 0 msg (initial_state cv len counter flags))

-- `memcpy(cv, full, 32)`: eight words.
pub compress_in_place : List ℕ → List ℕ → ℕ → ℕ → ℕ → List ℕ
compress_in_place cv block len counter flags = memcpy cv 0 (compress cv block len counter flags) 8
