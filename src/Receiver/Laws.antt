-- ===== src/Receiver/Laws.antt =====
-- How the receiver answers.
use shardingsim.Prelude.{
  ℕ, ◌+◌, ◌-◌, ◌^◌, ◌≤◌, ◌<◌, ◌≡◌, refl, ap, ◌∙◌, Bool, true, false, not, some, List, [], ◌∷◌, ◌++◌,
  length, ltb, leb, if◌then◌else◌, u64, Bool-cases, Option-cases, ◌⊎◌, drop, inl, inr, arith, All,
}
use shardingsim.Common.Compare.Laws.{same_bytes-append}
use shardingsim.Proto.{PbTransaction, PbBatch, IsPbTransaction, Protobuf, IsProtobuf}
use shardingsim.Transaction.{transaction_verify}
use shardingsim.Receiver.{
  submit_batch_pb_prefix, recv_buf_size, pb_to_tx, check_batch, ok_response, answered,
  unknown_response, answer_batch, is_submission, receive,
}

-- The transactions of a batch that `transaction_verify` refuses.
unfoldable pub refused : List PbTransaction → ℕ
refused [] = 0
refused (pt ∷ rest) =
    let more = refused rest in if transaction_verify (pb_to_tx pt) then more else more + 1

pub refused_le : (batch : List PbTransaction) → refused batch ≤ length batch
unfolding refused
refused_le [] = omega arith
refused_le (pt ∷ rest) = elim (Bool-cases (transaction_verify (pb_to_tx pt))) [
  | inl ok ↦ rw (ok) (omega (arith, refused_le rest))
  | inr bad ↦ rw (bad) (omega (arith, refused_le rest))
]

-- What one transaction does to the counts.
check_batch_step :
    (pt : PbTransaction) (rest : List PbTransaction) (accepted rejected : ℕ) (valid : Bool)
    → transaction_verify (pb_to_tx pt) ≡ valid
    → check_batch true (pt ∷ rest) accepted rejected
      ≡ check_batch true rest
          (if not valid then accepted else accepted + 1)
          (if not valid then rejected + 1 else rejected)
unfolding check_batch
check_batch_step pt rest accepted rejected valid e =
    ap
      (λ (b : Bool).
        check_batch true rest (if not b then accepted else accepted + 1)
          (if not b then rejected + 1 else rejected))
      e

check_batch-true :
    (batch : List PbTransaction) (accepted rejected : ℕ)
    → ((check_batch true batch accepted rejected).0 + refused batch ≡ accepted + length batch)
      × ((check_batch true batch accepted rejected).1 ≡ rejected + refused batch)
unfolding refused check_batch
check_batch-true [] accepted rejected = (omega arith, omega arith)
check_batch-true (pt ∷ rest) accepted rejected =
    elim (Bool-cases (transaction_verify (pb_to_tx pt))) [
      | inl ok ↦
          let later = check_batch-true rest (accepted + 1) rejected in
          rw (check_batch_step pt rest accepted rejected true ok, ok)
            (omega (arith, later.0), omega (arith, later.1))
      | inr bad ↦
          let later = check_batch-true rest accepted (rejected + 1) in
          rw (check_batch_step pt rest accepted rejected false bad, bad)
            (omega (arith, later.0), omega (arith, later.1))
    ]

check_batch-false :
    (batch : List PbTransaction) (accepted rejected : ℕ)
    → check_batch false batch accepted rejected ≡ (accepted + length batch, rejected)
unfolding check_batch
check_batch-false [] accepted rejected = ap (λ (n : ℕ). (n, rejected)) (omega arith)
check_batch-false (pt ∷ rest) accepted rejected =
    check_batch-false rest (accepted + 1) rejected ∙ ap (λ (n : ℕ). (n, rejected)) (omega arith)

-- The count of rejected transactions: with `--verify` those that `transaction_verify` refuses.
unfoldable pub rejected_in : Bool → List PbTransaction → ℕ
rejected_in verify batch = if verify then refused batch else 0

-- Each transaction of a batch is counted once, as rejected or as accepted; without `--verify` none is
-- rejected.
pub check_batch_lem :
    (verify : Bool) (batch : List PbTransaction)
    → ((check_batch verify batch 0 0).0 + (check_batch verify batch 0 0).1 ≡ length batch)
      × ((check_batch verify batch 0 0).1 ≡ rejected_in verify batch)
unfolding rejected_in
check_batch_lem true batch =
    let counts = check_batch-true batch 0 0 in
    (omega (arith, counts.0, counts.1), omega (arith, counts.1))
check_batch_lem false batch = rw (check_batch-false batch 0 0) (omega arith, omega arith)

submission :
    (content : List ℕ)
    → 0 < length content
    → is_submission (submit_batch_pb_prefix ++ content) ≡ true
unfolding is_submission
submission content h = rw (longer, same_bytes-append 16 submit_batch_pb_prefix content refl)
  where
    longer : ltb 16 (length (submit_batch_pb_prefix ++ content)) ≡ true
    longer = ground arith

-- A batch that fits the buffer is answered with the two counts, and `total_received` grows by the
-- length of the batch.
pub receive_batch :
    {p : Protobuf}
    → IsProtobuf p
    → (decimal : ℕ → List ℕ) (verify : Bool) (total : ℕ) (batch : PbBatch)
    → All IsPbTransaction batch.transactions
    → 0 < batch.count
    → batch.count < 2 ^ 32
    → 16 + length (p.batch_pack batch) < recv_buf_size
    → let n = length batch.transactions in
      let rejected = rejected_in verify batch.transactions in
      receive p decimal verify total (some (submit_batch_pb_prefix ++ p.batch_pack batch))
      ≡ answered (ok_response decimal (n - rejected) rejected) (u64 (total + n))
unfolding receive answer_batch
receive_batch {p} laws decimal verify total batch hb pos fits small =
    rw
      (
        submission (p.batch_pack batch) (laws.batch_sent batch pos),
        short,
        laws.batch_round batch hb fits,
      )
      (λ i. answered (ok_response decimal (accepted i) (counts.1 i)) (u64 (total + counts.0 i)))
  where
    counts :
        ((check_batch verify batch.transactions 0 0).0
            + (check_batch verify batch.transactions 0 0).1
          ≡ length batch.transactions)
        × ((check_batch verify batch.transactions 0 0).1 ≡ rejected_in verify batch.transactions)
    counts = check_batch_lem verify batch.transactions

    accepted :
        (check_batch verify batch.transactions 0 0).0
        ≡ length batch.transactions - rejected_in verify batch.transactions
    accepted = omega (arith, counts.0, counts.1)

    short : leb (length (submit_batch_pb_prefix ++ p.batch_pack batch)) (recv_buf_size - 1) ≡ true
    short = ground arith

-- The two forms of the answer to a message that fits the buffer.
pub receive_forms :
    (p : Protobuf) (decimal : ℕ → List ℕ) (verify : Bool) (total : ℕ) (message : List ℕ)
    → length message < recv_buf_size
    → ((is_submission message ≡ true)
        × ((accepted : ℕ) × (rejected : ℕ) × (next : ℕ) × (receive p decimal verify total
                (some message)
              ≡ answered (ok_response decimal accepted rejected) next)))
      ⊎ ((is_submission message ≡ false)
          × (receive p decimal verify total (some message) ≡ answered unknown_response total))
unfolding receive answer_batch
receive_forms p decimal verify total message fits =
    let short : leb (length message) (recv_buf_size - 1) ≡ true = ground arith in
    elim (Bool-cases (is_submission message)) [
      | inr other ↦ inr (other, rw other refl)
      | inl submits ↦ elim (Option-cases (p.batch_unpack (drop 16 message))) [
        | inl bad ↦ inl (submits, (0, 0, total, rw (submits, short, bad) refl))
        | inr (batch, good) ↦
            let counts = check_batch verify batch.transactions 0 0 in
            let next = u64 (total + (counts.0 + counts.1)) in
            inl (submits, (counts.0, counts.1, next, rw (submits, short, good) refl))
      ]
    ]
