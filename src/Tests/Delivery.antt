-- ===== src/Tests/Delivery.antt =====
-- The theorems on batches and their delivery.
use shardingsim.Prelude.{
  ℕ, ◌+◌, ◌-◌, ◌≡◌, ◌<◌, refl, true, false, some, List, [], ◌∷◌, ◌++◌, if◌then◌else◌, map, length,
  All, arith, u64, pos,
}
use mathlib.Core.List.{Perm, Permᴰ}
use shardingsim.Transaction.{Transaction, IsTransaction}
use shardingsim.Transaction.Wire.{from_pb, transaction_serialize_pb, transaction_deserialize_pb}
use shardingsim.Transaction.Wire.Laws.{
  transaction_deserialize_pb-transaction_serialize_pb, from_pb-IsTransaction,
}
use shardingsim.Proto.{IsPbTransaction, IsSmall}
use shardingsim.System.Credit.{receive-collect}
use shardingsim.Tests.Loops.{first_filled}
use shardingsim.Receiver.{
  is_submission, receive, ok_response, answered, submit_batch_pb_prefix, recv_buf_size,
}
use shardingsim.Receiver.Laws.{rejected_in, receive_batch}
use shardingsim.Generator.{num_batches, nonce_of}
use shardingsim.Generator.Bounds.{
  count_from, batch_indices, first_batches, first_batches-num_batches,
}
use shardingsim.Generator.Batch.{batch_txs, collect, finished, credit}
use shardingsim.Generator.Batch.Laws.{batch_txs_lem}
use shardingsim.System.Laws.{batches_of}
use shardingsim.Tests.Codec.{codec, codec-IsProtobuf}
use shardingsim.Tests.Values.{
  payment, payment-IsTransaction, odd_message, odd_message-IsPbTransaction, odd_batch, job,
  job-IsJob,
}

abbrev decimal : ℕ → List ℕ
decimal n = (48 + n) ∷ []

-- Thread 1 takes the second batch before thread 0 takes the first.
abbrev schedule : List (ℕ × ℕ)
schedule = (1, 1) ∷ (0, 0) ∷ []

schedule-Perm : Perm (batches_of schedule) (count_from 0 (num_batches (pos 3) 2))
unfolding num_batches count_from
schedule-Perm = ∣ Permᴰ.swap refl refl ∣₁

first_batches-num_batches_example :
    (first_batches 3 2 (num_batches (pos 3) 2) ≡ count_from 0 3)
    × ((b : ℕ) → b < num_batches (pos 3) 2 → 0 < length (batch_indices 3 2 b))
first_batches-num_batches_example = first_batches-num_batches 3 2 (omega arith) (omega arith)

first_batches-num_batches_run : first_batches 3 2 (num_batches (pos 3) 2) ≡ 0 ∷ 1 ∷ 2 ∷ []
unfolding count_from
first_batches-num_batches_run = (first_batches-num_batches 3 2 (omega arith) (omega arith)).0

batch_txs_lem_example :
    All IsTransaction (batch_txs job 1 0)
    × (map (λ (tx : Transaction). tx.nonce) (batch_txs job 1 0)
        ≡ map (nonce_of (pos 40)) (batch_indices 3 2 0))
batch_txs_lem_example = batch_txs_lem job 1 0 job-IsJob

odd_batch-All : All IsPbTransaction odd_batch.transactions
odd_batch-All = (odd_message-IsPbTransaction, tt)

odd_batch-fits : 16 + length (codec.batch_pack odd_batch) < recv_buf_size
odd_batch-fits =
    omega (arith, codec-IsProtobuf.batch_size odd_batch odd_batch-All odd_small (omega arith))
  where
    odd_small : All IsSmall odd_batch.transactions
    odd_small = (
      record {
        source_small = omega arith;
        dest_small = omega arith;
        signature_small = omega arith;
      },
      tt,
    )

receive_batch_example :
    receive codec decimal false 10 (some (submit_batch_pb_prefix ++ codec.batch_pack odd_batch))
    ≡ answered
        (ok_response decimal
          (1 - rejected_in false odd_batch.transactions)
          (rejected_in false odd_batch.transactions))
        (u64 (10 + 1))
receive_batch_example =
    receive_batch codec-IsProtobuf decimal false 10 odd_batch odd_batch-All (omega arith)
      (omega arith) odd_batch-fits

-- A batch that arrives damaged is counted as two transactions by the generator.
receive-collect_example :
    (resp : List ℕ) × (next : ℕ) × (receive codec decimal true 10
        (some (submit_batch_pb_prefix ++ (5 ∷ [])))
      ≡ answered resp next)
    × (collect job (0 ∷ 0 ∷ []) 0 0 (some resp)
        ≡ finished (
            if is_submission (submit_batch_pb_prefix ++ (5 ∷ []))
            then credit (0 ∷ 0 ∷ []) 0 (length (batch_txs job 0 0))
            else 0 ∷ 0 ∷ []))
receive-collect_example =
    receive-collect codec decimal true 10 (submit_batch_pb_prefix ++ (5 ∷ [])) job (0 ∷ 0 ∷ []) 0 0
      (omega arith) first_filled

transaction_deserialize_pb-transaction_serialize_pb_example :
    transaction_deserialize_pb codec (transaction_serialize_pb codec payment) ≡ some payment
transaction_deserialize_pb-transaction_serialize_pb_example =
    transaction_deserialize_pb-transaction_serialize_pb codec-IsProtobuf payment
      payment-IsTransaction

from_pb-IsTransaction_example : IsTransaction (from_pb odd_message)
from_pb-IsTransaction_example = from_pb-IsTransaction odd_message odd_message-IsPbTransaction
