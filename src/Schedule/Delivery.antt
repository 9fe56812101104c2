-- ===== src/Schedule/Delivery.antt =====
-- What the loop of main.c delivers: through ZeroMQ to the receiver, to answers of any kind, and in the
-- process itself.
use shardingsim.Prelude.{
  ℕ, ◌+◌, ◌≤◌, ◌<◌, ◌≡◌, refl, sym, ap, ◌∙◌, Bool, Option, List, length, replicate, arith, some,
  none, length-set, length-replicate, pos,
}
use shardingsim.Proto.{Protobuf, IsProtobuf}
use shardingsim.Generator.{num_batches}
use shardingsim.Generator.Batch.{Job, total_submitted, finished, collect, submit_in_process}
use shardingsim.Generator.Batch.Laws.{
  IsJob, collect-le, submit_in_process-size, total_submitted-replicate,
}
use shardingsim.System.{System, started, run_batch, run}
use shardingsim.System.Laws.{
  size, sizes, sizes-append, sizes-Perm, sizes-num_batches, batches_of, run_delivers,
}
use shardingsim.Schedule.{Loop, begin, taken, worked, Run, stop, later, IsOver}
use shardingsim.Schedule.Laws.{todo, run-todo, IsOver-todo}
use shardingsim.Schedule.Ends.{run_once, todo-begin}

-- The number of batches of a job.
abbrev pub batches : Job → ℕ
batches job = num_batches (pos job.total_count) job.batch_size

-- The body of the loop, with the receiver's answer.
abbrev pub Delivers : Protobuf → (ℕ → List ℕ) → Bool → Job → System → ℕ → ℕ → System → Type 0
Delivers p decimal verify job system tid b next =
    next ≡ run_batch p decimal verify job system (tid, b)

-- The state after a run is that of its batches in the order in which they were done.
run-shared :
    (p : Protobuf) (decimal : ℕ → List ℕ) (verify : Bool) (job : Job) {limit n : ℕ}
    → {l k : Loop System} {done : List (ℕ × ℕ)}
    → Run (Delivers p decimal verify job) limit l n done k
    → k.shared ≡ run p decimal verify job l.shared done
unfolding run
run-shared p decimal verify job stop = refl
run-shared p decimal verify job (later (taken tid h free more) rest) =
    run-shared p decimal verify job rest
run-shared p decimal verify job (later {done = others} (worked tid b h has moved) rest) =
    run-shared p decimal verify job rest
    ∙ ap (λ (s : System). run p decimal verify job s others) moved

-- However OpenMP deals the batches to the threads and whichever of them is faster: when the parallel
-- loop is over and every message was delivered, the generator reports `total_count` transactions as
-- submitted, and the receiver has counted as many.
pub loop_delivers :
    {p : Protobuf}
    → IsProtobuf p
    → (decimal : ℕ → List ℕ) (verify : Bool) (job : Job) (num_threads : ℕ)
    → {n : ℕ} {done : List (ℕ × ℕ)} {k : Loop System} → IsJob job
    → Run
        (Delivers p decimal verify job)
        (batches job)
        (begin num_threads (started num_threads))
        n
        done
        k
    → IsOver (Delivers p decimal verify job) (batches job) k
    → (total_submitted k.shared.thread_submitted ≡ job.total_count)
      × (k.shared.total_received ≡ job.total_count)
loop_delivers {p} laws decimal verify job num_threads {done = done} h r over =
    let (order, threads) =
      run_once (Delivers p decimal verify job) (batches job) num_threads (started num_threads) r
        over in
    rw (run-shared p decimal verify job r)
      (run_delivers laws decimal verify job num_threads done h threads order)

-- A body that counts on the thread's own counter, by an amount that stands in the relation `Rel` to the
-- size of the batch.
module _ (job : Job) (Rel : ℕ → ℕ → Type 0) (Work : List ℕ → ℕ → ℕ → List ℕ → Type 0)
    (none_done : (a : ℕ) → Rel a (a + 0))
    (more_done : (a b c x y : ℕ) → Rel b (a + x) → Rel c (b + y) → Rel c (a + (x + y)))
    (body : (s t : List ℕ) (tid b : ℕ)
      → tid < length s
      → Work s tid b t
      → (length t ≡ length s) × Rel (total_submitted t) (total_submitted s + size job b)) where
  run_counts :
      {limit n : ℕ} {l k : Loop (List ℕ)} {done : List (ℕ × ℕ)}
      → length l.held ≡ length l.shared
      → Run Work limit l n done k
      → Rel (total_submitted k.shared) (total_submitted l.shared + sizes job (batches_of done))
  unfolding sizes
  run_counts {l = l} same_length stop = none_done (total_submitted l.shared)
  run_counts {l = l} same_length (later (taken tid h free more) rest) =
      run_counts (length-set l.held tid (some l.next) ∙ same_length) rest
  run_counts {l = l} same_length (later (worked tid b h has moved) rest) =
      let (same, counted) = body _ _ tid b (omega (arith, same_length)) moved in
      more_done _ _ _ _ _ counted
        (run_counts (length-set l.held tid none ∙ same_length ∙ sym same) rest)

-- The body of the loop when `zmq_recv` may bring any bytes, or nothing within its time. It comes to its
-- end unless it writes behind `resp`.
abbrev pub Answered : Job → List ℕ → ℕ → ℕ → List ℕ → Type 0
Answered job s tid b t = (resp : Option (List ℕ)) × (collect job s tid b resp ≡ finished t)

-- The body of the loop with `--in-process`.
abbrev pub InProcess : Job → List ℕ → ℕ → ℕ → List ℕ → Type 0
InProcess job s tid b t = t ≡ submit_in_process job s tid b

-- The transactions done and to be done are all the transactions.
sizes_conserved :
    {S : Type 0} (Work : S → ℕ → ℕ → S → Type 0) (job : Job) (num_threads : ℕ) (s : S)
    → {n : ℕ} {done : List (ℕ × ℕ)} {k : Loop S} → IsJob job
    → Run Work (batches job) (begin num_threads s) n done k
    → sizes job (batches_of done) + sizes job (todo Work (batches job) k) ≡ job.total_count
sizes_conserved Work job num_threads s {done = done} {k} h r =
    sym (sizes-append job (batches_of done) (todo Work (batches job) k))
    ∙ sizes-Perm job (run-todo Work (batches job) r)
    ∙ ap (sizes job) (todo-begin Work (batches job) num_threads s)
    ∙ sizes-num_batches job h

same_length : (n : ℕ) → length (replicate {A = Option ℕ} n none) ≡ length (replicate {A = ℕ} n 0)
same_length n = length-replicate n none ∙ sym (length-replicate {A = ℕ} n 0)

-- Whatever the generator is answered in less than 128 bytes, late, wrong or not at all: at no moment of the parallel loop have
-- its threads counted more than `total_count` transactions together.
pub submitted-le :
    (job : Job) (num_threads : ℕ) {n : ℕ} {done : List (ℕ × ℕ)} {k : Loop (List ℕ)}
    → IsJob job
    → Run (Answered job) (batches job) (begin num_threads (replicate num_threads 0)) n done k
    → total_submitted k.shared ≤ job.total_count
unfolding size
submitted-le job num_threads h r =
    let counted =
      run_counts job (λ a b. a ≤ b) (Answered job) (λ a. omega arith)
        (λ a b c x y p q. omega (arith, p, q))
        (λ s t tid b threads m. collect-le job s t tid b m.0 h threads m.1)
        (same_length num_threads) r in
    omega (
      arith,
      counted,
      total_submitted-replicate num_threads,
      sizes_conserved (Answered job) job num_threads (replicate num_threads 0) h r,
    )

-- With `--in-process` every transaction is counted: when the loop is over the total is `total_count`.
pub in_process_submitted :
    (job : Job) (num_threads : ℕ) {n : ℕ} {done : List (ℕ × ℕ)} {k : Loop (List ℕ)}
    → IsJob job
    → Run (InProcess job) (batches job) (begin num_threads (replicate num_threads 0)) n done k
    → IsOver (InProcess job) (batches job) k
    → total_submitted k.shared ≡ job.total_count
unfolding size sizes
in_process_submitted job num_threads {k = k} h r over =
    let counted =
      run_counts job ◌≡◌ (InProcess job) (λ a. omega arith) (λ a b c x y p q. omega (arith, p, q))
        (λ s t tid b threads e. rw e (submit_in_process-size job s tid b h threads))
        (same_length num_threads) r in
    let none_left = ap (sizes job) (IsOver-todo (InProcess job) (batches job) k over) in
    counted
    ∙ omega (
      arith,
      none_left,
      total_submitted-replicate num_threads,
      sizes_conserved (InProcess job) job num_threads (replicate num_threads 0) h r,
    )
