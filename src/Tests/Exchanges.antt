-- ===== src/Tests/Exchanges.antt =====
-- Two threads with sockets whose answers are late, or never come.
use shardingsim.Prelude.{
  ℕ, ◌*◌, ◌≤◌, ◌≡◌, refl, Bool, true, false, not, ◌&&◌, ◌||◌, Option, none, some, List, [], ◌∷◌,
  get_or, arith,
}
use shardingsim.Generator.Batch.{batch_txs, batch_message, overruns, finished}
use shardingsim.Prelude.{◌≢◌}
use shardingsim.Transaction.{Transaction}
use shardingsim.Transaction.Layout.{signing_bytes}
use shardingsim.Generator.Batch.Distinct.{signing_bytes-distinct}
use shardingsim.Generator.Batch.Laws.{collect_ends, created}
use shardingsim.Generator.Exchange.{Req, IsReq, is_some, Links, connected, after_calls, exchange}
use shardingsim.Generator.Exchange.Laws.{Exchanges, submitted-le-sent, exchange-after_calls}
use shardingsim.Generator.Exchange.Silent.{sent-le-one}
use shardingsim.Tests.Codec.{codec}
use shardingsim.Tests.Values.{job, job-IsJob}
use shardingsim.Tests.Loops.{both_threads, first_filled, second_filled}

-- What each call of `zmq_recv` will find, and whether an answer is outstanding.
abbrev Wire : Type 0
Wire = Bool × List (Option (List ℕ))

abbrev send : Wire → List ℕ → Bool × Wire
send (true, later) msg = (false, (true, later))
send (false, later) msg = (true, (true, later))

abbrev recv : Wire → Option (List ℕ) × Wire
recv (waits, []) = (none, (waits, []))
recv (false, found ∷ later) = (none, (false, later))
recv (true, none ∷ later) = (none, (true, later))
recv (true, some resp ∷ later) = (some resp, (false, later))

abbrev req : Req Wire
req = record { zmq_send = send; zmq_recv = recv }

abbrev waits : Wire → Bool
waits s = s.0

send_refused : (s : Wire) (msg : List ℕ) → waits s ≡ true → (send s msg).0 ≡ false
send_refused (true, later) msg h = refl
send_refused (false, later) msg h = absurd (cc h)

recv_refused : (s : Wire) → waits s ≡ false → (recv s).0 ≡ none
recv_refused (waits, []) h = refl
recv_refused (false, found ∷ later) h = refl
recv_refused (true, none ∷ later) h = refl
recv_refused (true, some resp ∷ later) h = absurd (cc h)

waits-send : (s : Wire) (msg : List ℕ) → waits (send s msg).1 ≡ (waits s || (send s msg).0)
waits-send (true, later) msg = refl
waits-send (false, later) msg = refl

waits-recv : (s : Wire) → waits (recv s).1 ≡ (waits s && not (is_some (recv s).0))
waits-recv (true, []) = refl
waits-recv (false, []) = refl
waits-recv (false, found ∷ later) = refl
waits-recv (true, none ∷ later) = refl
waits-recv (true, some resp ∷ later) = refl

req-IsReq : IsReq req waits
req-IsReq = record {
  send_refused = send_refused;
  recv_refused = recv_refused;
  waits-send = waits-send;
  waits-recv = waits-recv;
}

abbrev ok : Option (List ℕ)
ok = some (b'O' ∷ b'K' ∷ [])

-- No answer in time, then the answer.
abbrev sockets : ℕ → Wire
sockets tid = (false, none ∷ ok ∷ [])

unheard : overruns none ≡ false
unfolding overruns
unheard = refl

-- What both threads count: nothing, since no answer is there yet.
abbrev second_counters : List ℕ
second_counters = (collect_ends job (0 ∷ 0 ∷ []) 1 1 none unheard).0

abbrev second_done : Links Wire
second_done =
    after_calls req (batch_message codec (batch_txs job 1 1)) (connected sockets 2) 1
      second_counters

second_finishes : exchange req codec job (connected sockets 2) 1 1 ≡ finished second_done
second_finishes =
    exchange-after_calls req codec job (connected sockets 2) 1 1 second_counters second_filled
      (collect_ends job (0 ∷ 0 ∷ []) 1 1 none unheard).1

abbrev first_counters : List ℕ
first_counters = (collect_ends job second_counters 0 0 none unheard).0

abbrev both_done : Links Wire
both_done = after_calls req (batch_message codec (batch_txs job 0 0)) second_done 0 first_counters

both_finish : exchange req codec job second_done 0 0 ≡ finished both_done
both_finish =
    exchange-after_calls req codec job second_done 0 0 first_counters first_filled
      (collect_ends job second_counters 0 0 none unheard).1

submitted-le-sent_example : get_or both_done.thread_submitted 1 0 ≤ 2 * both_done.sent 1
submitted-le-sent_example = submitted-le-sent req-IsReq codec job 2 sockets 1 job-IsJob refl (
    both_threads (Exchanges req codec job) (connected sockets 2) second_done both_done
      second_finishes both_finish)

-- A socket that takes one message and never gets an answer; the state tells whether it waits.
abbrev quiet : Req Bool
quiet = record { zmq_send = λ s msg. (not s, true); zmq_recv = λ s. (none, s) }

quiet-IsReq : IsReq quiet (λ s. s)
quiet-IsReq = record {
  send_refused = λ s msg h. rw h refl;
  recv_refused = λ s h. refl;
  waits-send = after_send;
  waits-recv = after_recv;
}
  where
    after_send : (s : Bool) (msg : List ℕ) → true ≡ (s || not s)
    after_send true msg = refl
    after_send false msg = refl

    after_recv : (s : Bool) → s ≡ (s && true)
    after_recv true = refl
    after_recv false = refl

abbrev second_waits : Links Bool
second_waits =
    after_calls quiet (batch_message codec (batch_txs job 1 1)) (connected (λ tid. false) 2) 1
      second_counters

abbrev both_wait : Links Bool
both_wait =
    after_calls quiet (batch_message codec (batch_txs job 0 0)) second_waits 0 first_counters

sent-le-one_example :
    (both_wait.sent 1 ≡ 1) × (both_wait.sent 1 ≤ 1) × (get_or both_wait.thread_submitted 1 0 ≡ 0)
sent-le-one_example =
    sent-le-one quiet-IsReq codec job 2 (λ tid. false) 1 job-IsJob (λ s. refl) refl
      (both_threads (Exchanges quiet codec job) (connected (λ tid. false) 2) second_waits both_wait
        (exchange-after_calls quiet codec job (connected (λ tid. false) 2) 1 1 second_counters
          second_filled (collect_ends job (0 ∷ 0 ∷ []) 1 1 none unheard).1)
        (exchange-after_calls quiet codec job second_waits 0 0 first_counters first_filled
          (collect_ends job second_counters 0 0 none unheard).1))

-- What thread 0 makes at index 0, and thread 1 at index 2.
abbrev first_tx : Transaction
first_tx = (created job 0 job-IsJob 0).0

abbrev third_tx : Transaction
third_tx = (created job 1 job-IsJob 2).0

zero_ne_two : ◌≢◌ {A = ℕ} 0 2
zero_ne_two e = absurd (omega arith)

signing_bytes-distinct_example :
    (first_tx.nonce ≢ third_tx.nonce) × (signing_bytes first_tx ≢ signing_bytes third_tx)
signing_bytes-distinct_example =
    signing_bytes-distinct job 0 1 0 2 first_tx third_tx job-IsJob (omega arith) (omega arith)
      zero_ne_two (created job 0 job-IsJob 0).1 (created job 1 job-IsJob 2).1
