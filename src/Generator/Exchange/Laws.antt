-- ===== src/Generator/Exchange/Laws.antt =====
-- What the counters of the threads say of the messages that were sent.
use shardingsim.Prelude.{
  ℕ, zero, suc, ◌+◌, ◌*◌, ◌≤◌, ◌<◌, ◌≡◌, refl, ap, ◌⊎◌, ==_iff, Bool, true, false, not, ◌&&◌, ◌||◌,
  Option, none, some, List, length, get_or, replicate, ◌==◌, if◌then◌else◌, arith, Bool-cases, inl,
  inr,
}
use shardingsim.Proto.{Protobuf}
use shardingsim.Generator.Bounds.{length-batch_indices}
use shardingsim.Generator.Batch.{
  Job, batch_txs, batch_message, After, finished, overran, is_ok, overruns, collect,
}
use shardingsim.Generator.Batch.Laws.{IsJob, length-batch_txs, get_or-credit}
use shardingsim.Generator.Exchange.{
  Req, IsReq, is_some, Links, connected, after_calls, ask, put_counters, exchange,
}
use shardingsim.Schedule.{Loop, begin, taken, worked, Run, stop, later}
use shardingsim.Schedule.Delivery.{batches}

abbrev pub one : Bool → ℕ
one b = if b then 1 else 0

-- A message is sent for every answer, the outstanding one included.
pub ask-one :
    {S : Type 0} {req : Req S} {waits : S → Bool}
    → IsReq req waits
    → (s : S) (msg : List ℕ)
    → one (is_some (ask req s msg).0) + one (waits (ask req s msg).1)
      ≡ one (req.zmq_send s msg).0 + one (waits s)
ask-one {req = req} {waits} h s msg =
    let after = (req.zmq_send s msg).1 in
    counted (waits s) (req.zmq_send s msg).0 (waits after) (req.zmq_recv after).0
      (waits (ask req s msg).1) (h.send_refused s msg) (h.waits-send s msg) (h.recv_refused after)
      (h.waits-recv after)
  where
    counted :
        (before sent asked : Bool) (resp : Option (List ℕ)) (left : Bool)
        → (before ≡ true → sent ≡ false)
        → asked ≡ (before || sent)
        → (asked ≡ false → resp ≡ none)
        → left ≡ (asked && not (is_some resp))
        → one (is_some resp) + one left ≡ one sent + one before
    counted true true asked resp left refused e recv f = absurd (cc (refused refl))
    counted true false asked none left refused e recv f = rw (f, e) refl
    counted true false asked (some r) left refused e recv f = rw (f, e) refl
    counted false true asked none left refused e recv f = rw (f, e) refl
    counted false true asked (some r) left refused e recv f = rw (f, e) refl
    counted false false asked none left refused e recv f = rw (f, e) refl
    counted false false asked (some r) left refused e recv f = absurd (cc (recv e))

-- A thread counts at most the size of a batch for an answer, and nothing without one.
pub collect-get_or :
    (job : Job) (s counters : List ℕ) (tid b t : ℕ) (resp : Option (List ℕ))
    → IsJob job
    → collect job s tid b resp ≡ finished counters
    → get_or counters t 0
      ≤ get_or s t 0 + (if t == tid then job.batch_size * one (is_some resp) else 0)
unfolding collect is_ok overruns
collect-get_or job s counters tid b t none h e = ground arith
collect-get_or job s counters tid b t (some resp) h e =
    let n = length (batch_txs job tid b) in
    let few : n ≤ job.batch_size = omega (
      arith,
      length-batch_txs job tid b h,
      length-batch_indices job.total_count job.batch_size b,
    ) in
    ground (arith, get_or-credit s tid n t, few)

-- What an exchange that comes to its end has done: nothing for an empty batch, and else the two calls,
-- with the counters that `collect` leaves.
abbrev pub Exchanged :
    {S : Type 0} → Req S → Protobuf → Job → Links S → ℕ → ℕ → Links S → List ℕ → Type 0
Exchanged req p job links tid b next counters =
    let msg = batch_message p (batch_txs job tid b) in
    (collect job links.thread_submitted tid b (ask req (links.sockets tid) msg).0
      ≡ finished counters)
    × (next ≡ after_calls req msg links tid counters)

put_counters-finished :
    {S : Type 0} (after : After (List ℕ)) (links : List ℕ → Links S) (next : Links S)
    → put_counters after links ≡ finished next
    → (counters : List ℕ) × (after ≡ finished counters) × (next ≡ links counters)
unfolding put_counters
put_counters-finished overran links next e = absurd (cc e)
put_counters-finished (finished counters) links next e = (counters, refl, cc e)

pub exchange-finished :
    {S : Type 0} (req : Req S) (p : Protobuf) (job : Job) (links : Links S) (tid b : ℕ)
    (next : Links S)
    → exchange req p job links tid b ≡ finished next
    → (next ≡ links) ⊎ ((counters : List ℕ) × Exchanged req p job links tid b next counters)
unfolding exchange
exchange-finished req p job links tid b next e =
    let msg = batch_message p (batch_txs job tid b) in
    let resp = (ask req (links.sockets tid) msg).0 in
    elim (Bool-cases (length (batch_txs job tid b) == 0)) [
      | inl empty ↦ inl (unchanged (rw empty at e))
      | inr filled ↦
          let (counters, counts, moved) =
            put_counters-finished (collect job links.thread_submitted tid b resp)
              (after_calls req msg links tid) next (rw filled at e) in
          inr (counters, (counts, moved))
    ]
  where
    unchanged : finished links ≡ finished next → next ≡ links
    unchanged same = cc same

-- With an answer that fits `resp` it comes to its end.
pub exchange-after_calls :
    {S : Type 0} (req : Req S) (p : Protobuf) (job : Job) (links : Links S) (tid b : ℕ)
    (counters : List ℕ)
    → 0 < length (batch_txs job tid b)
    → (let msg = batch_message p (batch_txs job tid b) in
        collect job links.thread_submitted tid b (ask req (links.sockets tid) msg).0
        ≡ finished counters)
    → exchange req p job links tid b
      ≡ finished (after_calls req (batch_message p (batch_txs job tid b)) links tid counters)
unfolding exchange put_counters
exchange-after_calls req p job links tid b counters some_txs e =
    let filled : (length (batch_txs job tid b) == 0) ≡ false = ground arith in rw (filled, e) refl

paced_step :
    (n c c' sent got left placed waiting : ℕ)
    → c' ≤ c + n * got
    → got + left ≡ placed + waiting
    → c + n * waiting ≤ n * sent
    → c' + n * left ≤ n * (sent + placed)
paced_step n c c' sent got left placed waiting more same before =
    omega (arith, ap (λ (k : ℕ). n * k) same)

pub count_sent : (sent : Bool) (n : ℕ) → (if sent then n + 1 else n) ≡ n + one sent
count_sent true n = refl
count_sent false n = omega arith

pub get_or-zeros : (n t : ℕ) → get_or {A = ℕ} (replicate n 0) t 0 ≡ 0
get_or-zeros zero t = refl
get_or-zeros (suc n) zero = refl
get_or-zeros (suc n) (suc t) = get_or-zeros n t

-- The body of the loop with sockets.
abbrev pub Exchanges : {S : Type 0} → Req S → Protobuf → Job → Links S → ℕ → ℕ → Links S → Type 0
Exchanges req p job links tid b next = exchange req p job links tid b ≡ finished next

module _ {S : Type 0} {req : Req S} {waits : S → Bool} (h : IsReq req waits) (p : Protobuf)
    (job : Job) (well : IsJob job) where
  -- What thread `t` has counted, and a batch for the answer that is outstanding, is within the messages
  -- that it sent.
  abbrev Paced : ℕ → Links S → Type 0
  Paced t links =
      get_or links.thread_submitted t 0 + job.batch_size * one (waits (links.sockets t))
      ≤ job.batch_size * links.sent t

  Exchanged-Paced_self :
      (links next : Links S) (tid b : ℕ) (counters : List ℕ)
      → Exchanged req p job links tid b next counters
      → Paced tid links
      → (tid == tid) ≡ true
      → Paced tid next
  Exchanged-Paced_self links next tid b counters (counts, moved) paced same =
      let msg = batch_message p (batch_txs job tid b) in
      let resp = (ask req (links.sockets tid) msg).0 in
      let counted = collect-get_or job links.thread_submitted counters tid b tid resp well counts in
      rw (moved, same, count_sent)
        (paced_step _ (get_or links.thread_submitted tid 0) _ (links.sent tid) _ _ _
          (one (waits (links.sockets tid))) (rw same at counted) (ask-one h (links.sockets tid) msg)
          paced)

  Exchanged-Paced :
      (links next : Links S) (tid b t : ℕ) (counters : List ℕ)
      → Exchanged req p job links tid b next counters
      → Paced t links
      → Paced t next
  Exchanged-Paced links next tid b t counters (counts, moved) paced = elim (Bool-cases (t == tid)) [
    | inl same ↦
        let t_is : t ≡ tid = (==_iff t tid).0 same in
        rw t_is (
          Exchanged-Paced_self links next tid b counters (counts, moved) (rw t_is at paced)
            (rw t_is at same))
    | inr other ↦
        let resp = (ask req (links.sockets tid) (batch_message p (batch_txs job tid b))).0 in
        let counted = collect-get_or job links.thread_submitted counters tid b t resp well counts in
        rw (moved, other) (omega (arith, rw other at counted, paced))
  ]

  exchange-Paced :
      (links next : Links S) (tid b t : ℕ)
      → exchange req p job links tid b ≡ finished next
      → Paced t links
      → Paced t next
  exchange-Paced links next tid b t e paced =
      elim (exchange-finished req p job links tid b next e) [
        | inl same ↦ rw same paced
        | inr (counters, moved) ↦ Exchanged-Paced links next tid b t counters moved paced
      ]

  run-Paced :
      {limit n : ℕ} {l k : Loop (Links S)} {done : List (ℕ × ℕ)} (t : ℕ)
      → Run (Exchanges req p job) limit l n done k
      → Paced t l.shared
      → Paced t k.shared
  run-Paced t stop paced = paced
  run-Paced t (later (taken tid free idle more) rest) paced = run-Paced t rest paced
  run-Paced t (later {l = l} (worked tid b has held moved) rest) paced =
      run-Paced t rest (exchange-Paced l.shared _ tid b t moved paced)

-- Whatever happens on the network, as long as no answer of 128 bytes or more arrives, and however often
-- an answer is late: where ZeroMQ keeps to what its manual says of REQ sockets, no thread counts at any
-- moment of the parallel loop more than `batch_size` transactions for each message that it sent.
pub submitted-le-sent :
    {S : Type 0} {req : Req S} {waits : S → Bool}
    → IsReq req waits
    → (p : Protobuf) (job : Job) (num_threads : ℕ) (sockets : ℕ → S) {n : ℕ} {done : List (ℕ × ℕ)}
      {k : Loop (Links S)} (tid : ℕ)
    → IsJob job
    → waits (sockets tid) ≡ false
    → Run
        (Exchanges req p job)
        (batches job)
        (begin num_threads (connected sockets num_threads))
        n
        done
        k
    → get_or k.shared.thread_submitted tid 0 ≤ job.batch_size * k.shared.sent tid
submitted-le-sent h p job num_threads sockets tid well fresh r =
    let none_yet = get_or-zeros num_threads tid in
    omega (arith, run-Paced h p job well tid r (rw fresh (omega (arith, none_yet))))
