-- ===== src/Generator/Exchange.antt =====
-- main.c: what a thread does with its socket for a batch. ZeroMQ's REQ socket is a parameter: a state
-- `S`, which may hold everything that will happen on the network, and what the two calls do with it.
pub mod Laws
pub mod Silent
use shardingsim.Prelude.{
  ℕ, zero, suc, ◌+◌, ◌≡◌, Bool, true, false, not, ◌&&◌, ◌||◌, Option, none, some, List, [], ◌∷◌,
  length, replicate, ◌==◌, if◌then◌else◌,
}
use shardingsim.Proto.{Protobuf}
use shardingsim.Transaction.{Transaction}
use shardingsim.Generator.Batch.{Job, batch_txs, batch_message, After, finished, overran, collect}

-- Whether the message was taken, and the message that was received within the time: all of it, of which
-- the buffer gets what fits, while the length that the call returns is that of the message.
pub record Req (S : Type 0) : Type 0 where
  pub zmq_send : S → List ℕ → Bool × S
  pub zmq_recv : S → Option (List ℕ) × S

abbrev pub is_some : Option (List ℕ) → Bool
is_some none = false
is_some (some resp) = true

-- What ZeroMQ's manual says of a REQ socket, `waits` telling that an answer is outstanding: then a
-- message is refused (EFSM), and nothing is received when no answer is outstanding.
pub record IsReq {S : Type 0} (req : Req S) (waits : S → Bool) : Type 0 where
  pub send_refused : (s : S) (msg : List ℕ) → waits s ≡ true → (req.zmq_send s msg).0 ≡ false
  pub recv_refused : (s : S) → waits s ≡ false → (req.zmq_recv s).0 ≡ none
  pub waits-send :
      (s : S) (msg : List ℕ) → waits (req.zmq_send s msg).1 ≡ (waits s || (req.zmq_send s msg).0)
  pub waits-recv :
      (s : S) → waits (req.zmq_recv s).1 ≡ (waits s && not (is_some (req.zmq_recv s).0))

-- `sent` is no variable of the program: the number of messages of each thread that ZeroMQ has taken.
pub record Links (S : Type 0) : Type 0 where
  pub sockets : ℕ → S
  pub sent : ℕ → ℕ
  pub thread_submitted : List ℕ

abbrev pub connected : {S : Type 0} → (ℕ → S) → ℕ → Links S
connected sockets num_threads = record {
  sockets = sockets;
  sent = λ tid. 0;
  thread_submitted = replicate num_threads 0;
}

abbrev pub set_at : {A : Type 0} → (ℕ → A) → ℕ → A → ℕ → A
set_at f i v j = if j == i then v else f j

-- `zmq_send`, whose result is not looked at, and `zmq_recv`.
abbrev pub ask : {S : Type 0} → Req S → S → List ℕ → Option (List ℕ) × S
ask req s msg = req.zmq_recv (req.zmq_send s msg).1

-- The links after the two calls, with the counters that the answer leaves.
abbrev pub after_calls : {S : Type 0} → Req S → List ℕ → Links S → ℕ → List ℕ → Links S
after_calls req msg links tid counters =
    let s = links.sockets tid in
    record {
      sockets = set_at links.sockets tid (ask req s msg).1;
      sent =
          set_at links.sent tid
            (if (req.zmq_send s msg).0 then links.sent tid + 1 else links.sent tid);
      thread_submitted = counters;
    }

pub put_counters : {S : Type 0} → After (List ℕ) → (List ℕ → Links S) → After (Links S)
put_counters overran links = overran
put_counters (finished thread_submitted) links = finished (links thread_submitted)

pub exchange : {S : Type 0} → Req S → Protobuf → Job → Links S → ℕ → ℕ → After (Links S)
unfolding put_counters
exchange req p job links tid b =
    let raw_txs = batch_txs job tid b in
    let msg = batch_message p raw_txs in
    let resp = (ask req (links.sockets tid) msg).0 in
    if length raw_txs == 0
    then finished links
    else put_counters (collect job links.thread_submitted tid b resp)
        (after_calls req msg links tid)
