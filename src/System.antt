-- ===== src/System.antt =====
-- Generator and receiver together: what main.c and src/receiver.c do with each batch, in the order in
-- which the receiver's one socket takes the messages. The threads take the batches in any order and
-- share nothing but the receiver.
pub mod Laws
pub mod Credit
use shardingsim.Prelude.{
  ℕ, zero, suc, Bool, true, false, Option, none, some, List, [], ◌∷◌, length, replicate, ◌==◌,
  if◌then◌else◌,
}
use shardingsim.Proto.{Protobuf}
use shardingsim.Transaction.{Transaction}
use shardingsim.Receiver.{Outcome, retried, overread, answered, receive}
use shardingsim.Generator.Batch.{Job, batch_txs, batch_message, is_ok, credit}

pub record System : Type 0 where
  pub thread_submitted : List ℕ
  pub total_received : ℕ

-- `memset` of `thread_submitted`, and the receiver's counter.
abbrev pub started : ℕ → System
started num_threads = record { thread_submitted = replicate num_threads 0; total_received = 0 }

-- What `zmq_recv` brings the generator, and what it does with it: the receiver's answers have at most 63
-- bytes, so that none overruns `resp`.
pub finish_batch : System → ℕ → ℕ → Outcome → System
finish_batch system tid txs_in_batch (answered resp total) = record {
  thread_submitted =
      if is_ok (some resp)
      then credit system.thread_submitted tid txs_in_batch
      else system.thread_submitted;
  total_received = total;
}
finish_batch system tid txs_in_batch _ = system

-- Thread `tid` takes batch `b`.
pub run_batch : Protobuf → (ℕ → List ℕ) → Bool → Job → System → ℕ × ℕ → System
unfolding finish_batch
run_batch p decimal verify job system (tid, b) =
    let raw_txs = batch_txs job tid b in
    if length raw_txs == 0
    then system
    else finish_batch system tid (length raw_txs)
        (receive p decimal verify system.total_received (some (batch_message p raw_txs)))

unfoldable pub run : Protobuf → (ℕ → List ℕ) → Bool → Job → System → List (ℕ × ℕ) → System
unfolding run_batch
run p decimal verify job system [] = system
run p decimal verify job system (event ∷ schedule) =
    run p decimal verify job (run_batch p decimal verify job system event) schedule
