-- ===== src/Generator/Batch.antt =====
-- main.c: the loop over the batches. Each thread has its wallet and counts what it submitted.
pub mod Laws
pub mod Distinct
use shardingsim.Prelude.{
  ℕ, zero, suc, ◌+◌, ◌-◌, ◌*◌, ◌^◌, ◌&&◌, Bool, true, false, Option, none, some, List, [], ◌∷◌,
  ◌++◌, map, length, get_or, set, ltb, leb, ◌==◌, if◌then◌else◌, u32, ℤ,
}
use shardingsim.Blake3.Hasher.{Hasher}
use shardingsim.Proto.{PbTransaction, PbBatch, Protobuf}
use shardingsim.Wallet.{Wallet}
use shardingsim.Transaction.{Transaction}
use shardingsim.Transaction.Sign.{Signer, transaction_create}
use shardingsim.Transaction.Wire.{to_pb}
use shardingsim.Receiver.{submit_batch_pb_prefix}
use shardingsim.Generator.{batch_range, nonce_of}

-- What is fixed when the threads start. `memory` is the stack frame of the hashes.
pub record Job : Type 0 where
  pub memory : Hasher
  pub signer : Signer
  pub thread_wallets : ℕ → Wallet
  pub to_addr : List ℕ
  pub amount : ℕ
  pub base_nonce : ℤ
  pub total_count : ℕ
  pub batch_size : ℕ

abbrev pub fee : ℕ
fee = 1

-- `current_height + expiry_blocks`
abbrev pub expiry : ℕ
expiry = 1000

-- `raw_txs` after the loop from `i` over `n` indices, without the transactions that are NULL.
pub create_from : (ℕ → Option Transaction) → ℕ → ℕ → List Transaction
create_from create i zero = []
create_from create i (suc n) =
    let rest = create_from create (suc i) n in elim (create i) [ none ↦ rest | some tx ↦ tx ∷ rest ]

pub create_at : Job → ℕ → ℕ → Option Transaction
create_at job tid i =
    transaction_create job.memory job.signer (job.thread_wallets tid) job.to_addr job.amount fee
      (nonce_of job.base_nonce i) expiry

pub batch_txs : Job → ℕ → ℕ → List Transaction
unfolding create_from create_at
batch_txs job tid b =
    let (tx_start, tx_end) = batch_range job.total_count job.batch_size b in
    create_from (create_at job tid) tx_start (tx_end - tx_start)

pub pb_batch : List Transaction → PbBatch
pb_batch raw_txs = record { transactions = map to_pb raw_txs; count = u32 (length raw_txs) }

unfoldable pub batch_message : Protobuf → List Transaction → List ℕ
unfolding pb_batch
batch_message p raw_txs = submit_batch_pb_prefix ++ p.batch_pack (pb_batch raw_txs)

-- `sz > 0` and `strncmp(resp, "OK", 2) == 0`; no answer within the time is `none`.
unfoldable pub is_ok : Option (List ℕ) → Bool
is_ok none = false
is_ok (some []) = false
is_ok (some (x ∷ [])) = false
is_ok (some (x ∷ y ∷ resp)) = x == b'O' && y == b'K'

-- `thread_submitted[tid] += txs_in_batch`
pub credit : List ℕ → ℕ → ℕ → List ℕ
credit thread_submitted tid txs_in_batch =
    set thread_submitted tid (get_or thread_submitted tid 0 + txs_in_batch)

pub total_submitted : List ℕ → ℕ
total_submitted [] = 0
total_submitted (n ∷ thread_submitted) = n + total_submitted thread_submitted

-- `char resp[128]`
abbrev pub resp_size : ℕ
resp_size = 128

-- `resp[sz] = 0` writes behind `resp`: `zmq_recv` puts 127 bytes there at most, and returns the length of
-- the message also when it is longer.
unfoldable pub overruns : Option (List ℕ) → Bool
overruns none = false
overruns (some resp) = leb resp_size (length resp)

-- The state after the body of the loop, or a write behind `resp`, after which nothing is known.
pub data After (S : Type 0) : Type 0 where
  finished : S → After S
  overran : After S

-- What a thread does with the answer to its batch, the whole message that arrived.
unfoldable pub collect : Job → List ℕ → ℕ → ℕ → Option (List ℕ) → After (List ℕ)
collect job thread_submitted tid b resp =
    let txs_in_batch = length (batch_txs job tid b) in
    if txs_in_batch == 0
    then finished thread_submitted
    else if overruns resp
    then overran
    else if is_ok resp
    then finished (credit thread_submitted tid txs_in_batch)
    else finished thread_submitted

-- How many microseconds it waits; the transactions are not looked at.
pub simulator_submit_batch : ℕ → ℕ → ℕ
simulator_submit_batch sleep_ms count =
    if count == 0 then 0 else if ltb 0 sleep_ms then u32 (u32 sleep_ms * 1000) else 0

-- `simulator_submit_batch` does nothing but wait.
pub submit_in_process : Job → List ℕ → ℕ → ℕ → List ℕ
submit_in_process job thread_submitted tid b =
    let txs_in_batch = length (batch_txs job tid b) in
    if txs_in_batch == 0 then thread_submitted else credit thread_submitted tid txs_in_batch
