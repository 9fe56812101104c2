-- ===== src/Generator/Exchange/Silent.antt =====
-- What the threads do when no answer ever arrives.
use shardingsim.Prelude.{
  ℕ, ◌≤◌, ◌≡◌, refl, ==_iff, Bool, false, none, List, get_or, ◌==◌, if◌then◌else◌, arith,
  Bool-cases, inl, inr,
}
use shardingsim.Proto.{Protobuf}
use shardingsim.Generator.Batch.{Job, batch_txs, batch_message}
use shardingsim.Generator.Batch.Laws.{IsJob}
use shardingsim.Generator.Exchange.{Req, IsReq, Links, connected, ask}
use shardingsim.Schedule.{Loop, begin, taken, worked, Run, stop, later}
use shardingsim.Schedule.Delivery.{batches}
use shardingsim.Generator.Exchange.Laws.{
  one, ask-one, collect-get_or, count_sent, get_or-zeros, Exchanged, exchange-finished, Exchanges,
}

module _ {S : Type 0} {req : Req S} {waits : S → Bool} (h : IsReq req waits) (p : Protobuf)
    (job : Job) (well : IsJob job) (silent : (s : S) → (req.zmq_recv s).0 ≡ none) where
  -- A thread waits exactly when it has sent a message, one at most, and has counted nothing.
  abbrev Unanswered : ℕ → Links S → Type 0
  Unanswered t links =
      (links.sent t ≡ one (waits (links.sockets t))) × (get_or links.thread_submitted t 0 ≡ 0)

  Exchanged-Unanswered :
      (links next : Links S) (tid b t : ℕ) (counters : List ℕ)
      → Exchanged req p job links tid b next counters
      → Unanswered t links
      → Unanswered t next
  Exchanged-Unanswered links next tid b t counters (counts, moved) (sends, nothing) =
      let msg = batch_message p (batch_txs job tid b) in
      let s = links.sockets tid in
      let unheard : (ask req s msg).0 ≡ none = silent (req.zmq_send s msg).1 in
      let counted =
        collect-get_or job links.thread_submitted counters tid b t none well
          (rw unheard at counts) in
      let still : get_or counters t 0 ≡ 0 = ground (arith, counted) in
      elim (Bool-cases (t == tid)) [
        | inl same ↦
            let t_is : t ≡ tid = (==_iff t tid).0 same in
            let placed = ask-one h s msg in
            rw (moved, same, count_sent)
              (omega (arith, rw unheard at placed, rw t_is at sends), still)
        | inr other ↦ rw (moved, other) (sends, still)
      ]

  run-Unanswered :
      {limit n : ℕ} {l k : Loop (Links S)} {done : List (ℕ × ℕ)} (t : ℕ)
      → Run (Exchanges req p job) limit l n done k
      → Unanswered t l.shared
      → Unanswered t k.shared
  run-Unanswered t stop un = un
  run-Unanswered t (later (taken tid free idle more) rest) un = run-Unanswered t rest un
  run-Unanswered t (later {l = l} (worked tid b has held moved) rest) un =
      elim (exchange-finished req p job l.shared tid b _ moved) [
        | inl same ↦ run-Unanswered t rest (rw same un)
        | inr (counters, ends) ↦
            run-Unanswered t rest (Exchanged-Unanswered l.shared _ tid b t counters ends un)
      ]

-- When no answer ever arrives, and ZeroMQ keeps to what its manual says of REQ sockets: at any moment of
-- the parallel loop, whatever batches a thread has done, it has sent one message at most, waits for an
-- answer exactly when it has sent one, and has counted nothing.
pub sent-le-one :
    {S : Type 0} {req : Req S} {waits : S → Bool}
    → IsReq req waits
    → (p : Protobuf) (job : Job) (num_threads : ℕ) (sockets : ℕ → S) {n : ℕ} {done : List (ℕ × ℕ)}
      {k : Loop (Links S)} (tid : ℕ)
    → IsJob job
    → ((s : S) → (req.zmq_recv s).0 ≡ none)
    → waits (sockets tid) ≡ false
    → Run
        (Exchanges req p job)
        (batches job)
        (begin num_threads (connected sockets num_threads))
        n
        done
        k
    → (k.shared.sent tid ≡ (if waits (k.shared.sockets tid) then 1 else 0))
      × (k.shared.sent tid ≤ 1)
      × (get_or k.shared.thread_submitted tid 0 ≡ 0)
sent-le-one {waits = waits} h p job num_threads sockets {k = k} tid well silent fresh r =
    let (sends, nothing) =
      run-Unanswered h p job well silent tid r (rw fresh refl, get_or-zeros num_threads tid) in
    let few : one (waits (k.shared.sockets tid)) ≤ 1 = ground arith in
    (sends, omega (arith, sends, few), nothing)
