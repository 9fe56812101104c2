-- ===== src/Generator.antt =====
-- main.c: the options of the load generator and the division of its work into batches.
pub mod Bounds
pub mod Batch
pub mod Exchange
use shardingsim.Prelude.{
  ℕ, zero, suc, ◌+◌, ◌-◌, ◌*◌, ◌/◌, ◌%◌, ◌^◌, Bool, true, false, List, [], ◌∷◌, ltb, if◌then◌else◌,
  u64, ℤ, pos, negsuc,
}
use shardingsim.Common.Compare.{streq}

abbrev pub max_threads : ℕ
max_threads = 64

abbrev pub max_batch_size : ℕ
max_batch_size = 256

-- The functions of the C library that read numbers.
pub record Libc : Type 0 where
  pub atoi : List ℕ → ℤ
  pub atoll : List ℕ → ℤ

-- The variables that the options set; `num_threads` and `batch_size` as they were given.
pub record Config : Type 0 where
  pub connect_addr : List ℕ
  pub use_zmq : Bool
  pub num_threads : ℤ
  pub batch_size : ℤ
  pub sleep_ms : ℤ
  pub base_nonce : ℤ

-- "tcp://localhost:5557", 48 threads and 64 transactions a batch
abbrev pub default_config : Config
default_config = record {
  connect_addr =
      b't' ∷ b'c' ∷ b'p' ∷ b':' ∷ b'/' ∷ b'/' ∷ b'l' ∷ b'o' ∷ b'c' ∷ b'a' ∷ b'l' ∷ b'h' ∷ b'o'
      ∷ b's' ∷ b't' ∷ b':' ∷ b'5' ∷ b'5' ∷ b'5' ∷ b'7' ∷ [];
  use_zmq = true;
  num_threads = pos 48;
  batch_size = pos 64;
  sleep_ms = pos 0;
  base_nonce = pos 0;
}

abbrev connect_option : List ℕ
connect_option = b'-' ∷ b'-' ∷ b'c' ∷ b'o' ∷ b'n' ∷ b'n' ∷ b'e' ∷ b'c' ∷ b't' ∷ []

abbrev in_process_option : List ℕ
in_process_option =
    b'-' ∷ b'-' ∷ b'i' ∷ b'n' ∷ b'-' ∷ b'p' ∷ b'r' ∷ b'o' ∷ b'c' ∷ b'e' ∷ b's' ∷ b's' ∷ []

abbrev pub threads_option : List ℕ
threads_option = b'-' ∷ b'-' ∷ b't' ∷ b'h' ∷ b'r' ∷ b'e' ∷ b'a' ∷ b'd' ∷ b's' ∷ []

abbrev pub batch_option : List ℕ
batch_option = b'-' ∷ b'-' ∷ b'b' ∷ b'a' ∷ b't' ∷ b'c' ∷ b'h' ∷ []

abbrev sleep_option : List ℕ
sleep_option = b'-' ∷ b'-' ∷ b's' ∷ b'l' ∷ b'e' ∷ b'e' ∷ b'p' ∷ b'-' ∷ b'm' ∷ b's' ∷ []

abbrev nonce_option : List ℕ
nonce_option =
    b'-' ∷ b'-' ∷ b'b' ∷ b'a' ∷ b's' ∷ b'e' ∷ b'-' ∷ b'n' ∷ b'o' ∷ b'n' ∷ b'c' ∷ b'e' ∷ []

-- The options that take no argument of their own, and what an unknown one does.
flag_option : List ℕ → Config → Config
flag_option arg config =
    if streq arg in_process_option then record config { use_zmq = false } else config

-- The options with an argument; `none` when `arg` is not one of them.
value_option : Libc → List ℕ → List ℕ → Config → Bool × Config
value_option libc arg value config =
    if streq arg connect_option
    then (true, record config { connect_addr = value })
    else if streq arg threads_option
    then (true, record config { num_threads = libc.atoi value })
    else if streq arg batch_option
    then (true, record config { batch_size = libc.atoi value })
    else if streq arg sleep_option
    then (true, record config { sleep_ms = libc.atoi value })
    else if streq arg nonce_option
    then (true, record config { base_nonce = libc.atoll value })
    else (false, flag_option arg config)

-- The loop over the arguments after the fourth.
pub parse_options : Libc → List (List ℕ) → Config → Config
unfolding value_option flag_option
parse_options libc [] config = config
parse_options libc (arg ∷ []) config = flag_option arg config
parse_options libc (arg ∷ value ∷ rest) config =
    let (taken, next) = value_option libc arg value config in
    elim taken [
      | true ↦ parse_options libc rest next
      | false ↦ parse_options libc (value ∷ rest) next
    ]

pub clamp_batch_size : ℤ → ℕ
clamp_batch_size (negsuc n) = 1
clamp_batch_size (pos n) = if ltb max_batch_size n then max_batch_size else if ltb n 1 then 1 else n

pub clamp_num_threads : ℤ → ℕ
clamp_num_threads (negsuc n) = 1
clamp_num_threads (pos n) = if ltb n 1 then 1 else if ltb max_threads n then max_threads else n

-- `(total_count + batch_size - 1) / batch_size`, and no batch for a negative sum, whose quotient is
-- at most 0: the sum is an `int`, and wraps to a negative number from 2^31 on.
unfoldable pub num_batches : ℤ → ℕ → ℕ
num_batches (negsuc n) batch_size = 0
num_batches (pos total_count) batch_size =
    let sum = total_count + batch_size - 1 in if ltb sum (2 ^ 31) then sum / batch_size else 0

-- `tx_start` and `tx_end` of batch `b`
pub batch_range : ℕ → ℕ → ℕ → ℕ × ℕ
batch_range total_count batch_size b =
    let tx_start = b * batch_size in
    let tx_end = tx_start + batch_size in
    (tx_start, if ltb total_count tx_end then total_count else tx_end)

-- An `int64_t` as the `uint64_t` of the same bits.
pub to_uint64 : ℤ → ℕ
to_uint64 (pos n) = u64 n
to_uint64 (negsuc n) = u64 (2 ^ 64 - 1 - n)

-- `(uint64_t) (base_nonce + i)`
pub nonce_of : ℤ → ℕ → ℕ
unfolding to_uint64
nonce_of base_nonce i = u64 (to_uint64 base_nonce + i)
