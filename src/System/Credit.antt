-- ===== src/System/Credit.antt =====
-- What the generator makes of the receiver's answer to any message.
use shardingsim.Prelude.{
  ℕ, zero, suc, ◌≤◌, ◌<◌, ◌≡◌, refl, Bool, false, some, List, [], ◌∷◌, ◌++◌, length, take, ◌==◌,
  if◌then◌else◌, arith, inl, inr,
}
use shardingsim.Proto.{Protobuf}
use shardingsim.Receiver.{
  recv_buf_size, unknown_response, ok_response, answered, is_submission, receive,
}
use shardingsim.Receiver.Laws.{receive_forms}
use shardingsim.Generator.Batch.{Job, batch_txs, is_ok, overruns, finished, collect, credit}

length-take : (n : ℕ) (xs : List ℕ) → length (take n xs) ≤ n
length-take zero xs = omega arith
length-take (suc n) [] = omega arith
length-take (suc n) (x ∷ xs) = omega (arith, length-take n xs)

-- The buffer of the generator holds any answer of the receiver.
ok_response-fits :
    (decimal : ℕ → List ℕ) (accepted rejected : ℕ)
    → overruns (some (ok_response decimal accepted rejected)) ≡ false
unfolding overruns ok_response
ok_response-fits decimal accepted rejected =
    let size =
      length-take 63 (b'O' ∷ b'K' ∷ b':' ∷ (decimal accepted ++ b'|' ∷ decimal rejected)) in
    ground (arith, size)

collect-ok_response :
    (decimal : ℕ → List ℕ) (accepted rejected : ℕ) (job : Job) (counters : List ℕ) (tid b : ℕ)
    → 0 < length (batch_txs job tid b)
    → collect job counters tid b (some (ok_response decimal accepted rejected))
      ≡ finished (credit counters tid (length (batch_txs job tid b)))
unfolding collect is_ok ok_response
collect-ok_response decimal accepted rejected job counters tid b some_txs =
    let filled : (length (batch_txs job tid b) == 0) ≡ false = ground arith in
    rw (filled, ok_response-fits decimal accepted rejected) refl

collect-unknown_response :
    (job : Job) (counters : List ℕ) (tid b : ℕ)
    → collect job counters tid b (some unknown_response) ≡ finished counters
unfolding collect is_ok overruns
collect-unknown_response job counters tid b = ground arith

-- Whatever message that fits its buffer the receiver gets for a batch: its answer does not overrun the
-- generator's, and the generator counts the whole batch exactly when the message was longer than
-- "SUBMIT_BATCH_PB:" and began with it, and nothing else. Neither a message that cannot be unpacked nor
-- a rejected transaction makes a difference.
pub receive-collect :
    (p : Protobuf) (decimal : ℕ → List ℕ) (verify : Bool) (total : ℕ) (message : List ℕ) (job : Job)
    (counters : List ℕ) (tid b : ℕ)
    → length message < recv_buf_size
    → 0 < length (batch_txs job tid b)
    → (resp : List ℕ) × (next : ℕ) × (receive p decimal verify total (some message)
        ≡ answered resp next)
      × (collect job counters tid b (some resp)
          ≡ finished (
              if is_submission message
              then credit counters tid (length (batch_txs job tid b))
              else counters))
receive-collect p decimal verify total message job counters tid b fits some_txs =
    elim (receive_forms p decimal verify total message fits) [
      | inl (submits, (accepted, rejected, next, answers)) ↦ (
        ok_response decimal accepted rejected,
        next,
        answers,
        rw submits (collect-ok_response decimal accepted rejected job counters tid b some_txs),
      )
      | inr (other, answers) ↦
          (unknown_response, total, answers, rw other (collect-unknown_response job counters tid b))
    ]
