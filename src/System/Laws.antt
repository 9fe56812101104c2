-- ===== src/System/Laws.antt =====
-- Every transaction is submitted and received once, whichever thread takes which batch and when.
use shardingsim.Prelude.{
  ℕ, zero, suc, ◌+◌, ◌-◌, ◌^◌, ◌<◌, ◌≡◌, refl, ap, ap₂, ◌∙◌, Bool, true, some, List, [], ◌∷◌, ◌++◌,
  length, All, arith, u64, ◌==◌, Bool-cases, inl, inr, pos, length-append, length-replicate,
}
use mathlib.Core.List.{Perm, Permᴰ}
use mathlib.Core.Logic.{∥∥₁_elim}
use native.Mathlib.Nat.{ℕ_set}
use shardingsim.Proto.{Protobuf, IsProtobuf}
use shardingsim.Receiver.{answered, receive, ok_response}
use shardingsim.Receiver.Laws.{receive_batch, rejected_in}
use shardingsim.Generator.{num_batches}
use shardingsim.Generator.Bounds.{
  count_from, count_from_last, batch_indices, first_batches, first_batches-num_batches,
  length-count_from,
}
use shardingsim.Generator.Batch.{Job, batch_txs, batch_message, pb_batch, is_ok, total_submitted}
use shardingsim.Generator.Batch.Laws.{
  IsJob, total_submitted-credit, total_submitted-replicate, length-credit, length-batch_txs,
  pb_batch_lem,
}
use shardingsim.System.{System, started, finish_batch, run_batch, run}

-- The number of transactions of batch `b`.
unfoldable pub size : Job → ℕ → ℕ
size job b = length (batch_indices job.total_count job.batch_size b)

unfoldable pub sizes : Job → List ℕ → ℕ
unfolding size
sizes job [] = 0
sizes job (b ∷ batches) = size job b + sizes job batches

ok_response-is_ok : (decimal : ℕ → List ℕ) (a r : ℕ) → is_ok (some (ok_response decimal a r)) ≡ true
unfolding ok_response is_ok
ok_response-is_ok decimal a r = refl

finish_batch-answered :
    (system : System) (tid n total : ℕ) (decimal : ℕ → List ℕ) (a r : ℕ)
    → tid < length system.thread_submitted
    → let next = finish_batch system tid n (answered (ok_response decimal a r) total) in
      (total_submitted next.thread_submitted ≡ total_submitted system.thread_submitted + n)
      × (next.total_received ≡ total)
      × (length next.thread_submitted ≡ length system.thread_submitted)
unfolding finish_batch
finish_batch-answered system tid n total decimal a r h = rw (ok_response-is_ok decimal a r) (
  total_submitted-credit system.thread_submitted tid n h,
  refl,
  length-credit system.thread_submitted tid n,
)

-- The receiver's answer to a batch of the generator.
receive-batch_message :
    {p : Protobuf}
    → IsProtobuf p
    → (decimal : ℕ → List ℕ) (verify : Bool) (job : Job) (received tid b : ℕ) → IsJob job
    → 0 < length (batch_txs job tid b)
    → let batch = pb_batch (batch_txs job tid b) in
      let rejected = rejected_in verify batch.transactions in
      receive p decimal verify received (some (batch_message p (batch_txs job tid b)))
      ≡ answered
          (ok_response decimal (size job b - rejected) rejected)
          (u64 (received + size job b))
unfolding batch_message size
receive-batch_message {p} laws decimal verify job received tid b h nonempty =
    let batch = pb_batch (batch_txs job tid b) in
    let facts = pb_batch_lem job tid b h in
    let (well, small, count, total, few) = facts in
    let room = laws.batch_size batch well small (omega (arith, few)) in
    let same : length batch.transactions ≡ length (batch_indices job.total_count job.batch_size b) =
      total ∙ count in
    let size_b = length-batch_txs job tid b h in
    receive_batch laws decimal verify received batch well (omega (arith, count, size_b, nonempty))
      (omega (arith, few)) (omega (arith, room, total, few))
    ∙ rw (same)

-- One batch, whichever thread takes it.
run_batch_lem :
    {p : Protobuf}
    → IsProtobuf p
    → (decimal : ℕ → List ℕ) (verify : Bool) (job : Job) (system : System) (tid b : ℕ) → IsJob job
    → tid < length system.thread_submitted
    → system.total_received < 2 ^ 64
    → let next = run_batch p decimal verify job system (tid, b) in
      (total_submitted next.thread_submitted ≡ total_submitted system.thread_submitted + size job b)
      × (next.total_received ≡ u64 (system.total_received + size job b))
      × (length next.thread_submitted ≡ length system.thread_submitted)
unfolding run_batch size finish_batch
run_batch_lem {p} laws decimal verify job system tid b h ht hr =
    elim (Bool-cases (length (batch_txs job tid b) == 0)) [
      | inl empty ↦
          let none : length (batch_txs job tid b) ≡ 0 = ground arith in
          let size = length-batch_txs job tid b h in
          rw (empty) (omega (arith, size, none), omega (arith, size, none, hr), refl)
      | inr filled ↦
          let nonempty : 0 < length (batch_txs job tid b) = ground arith in
          let rejected = rejected_in verify (pb_batch (batch_txs job tid b)).transactions in
          let done =
            finish_batch-answered system tid (length (batch_txs job tid b))
              (u64 (system.total_received + size job b)) decimal (size job b - rejected) rejected
              ht in
          rw
            (
              filled,
              receive-batch_message laws decimal verify job system.total_received tid b h nonempty,
            )
            (
              done.0
                  ∙ ap (λ (n : ℕ). total_submitted system.thread_submitted + n)
                      (length-batch_txs job tid b h),
              done.1,
              done.2,
            )
    ]

-- The batches of a schedule, which names for each batch the thread that takes it.
abbrev pub batches_of : List (ℕ × ℕ) → List ℕ
batches_of [] = []
batches_of (event ∷ schedule) = event.1 ∷ batches_of schedule

-- The threads that a schedule names.
abbrev pub threads_of : List (ℕ × ℕ) → List ℕ
threads_of [] = []
threads_of (event ∷ schedule) = event.0 ∷ threads_of schedule

run_lem :
    {p : Protobuf}
    → IsProtobuf p
    → (decimal : ℕ → List ℕ) (verify : Bool) (job : Job) (num_threads : ℕ)
    → (schedule : List (ℕ × ℕ)) (system : System) → IsJob job
    → length system.thread_submitted ≡ num_threads
    → All (λ (tid : ℕ). tid < num_threads) (threads_of schedule)
    → system.total_received < 2 ^ 64
    → let last = run p decimal verify job system schedule in
      (total_submitted last.thread_submitted
        ≡ total_submitted system.thread_submitted + sizes job (batches_of schedule))
      × (last.total_received ≡ u64 (system.total_received + sizes job (batches_of schedule)))
unfolding run sizes
run_lem laws decimal verify job num_threads [] system h size ht hr =
    (omega arith, omega (arith, hr))
run_lem {p} laws decimal verify job num_threads ((tid, b) ∷ schedule) system h size (first, others)
      hr =
    let next = run_batch p decimal verify job system (tid, b) in
    let (submitted, received, threads) =
      run_batch_lem laws decimal verify job system tid b h (omega (arith, size, first)) hr in
    let later =
      run_lem laws decimal verify job num_threads schedule next h (threads ∙ size) others
        (omega (arith, received)) in
    (omega (arith, later.0, submitted), omega (arith, later.1, received))

sizes-Permᴰ : (job : Job) {xs ys : List ℕ} → Permᴰ xs ys → sizes job xs ≡ sizes job ys
unfolding sizes
sizes-Permᴰ job Permᴰ.nil = refl
sizes-Permᴰ job (Permᴰ.cons e d) = ap₂ ◌+◌ (ap (size job) e) (sizes-Permᴰ job d)
sizes-Permᴰ job (Permᴰ.swap e e') = rw (e, e') (omega arith)
sizes-Permᴰ job (Permᴰ.trans d d') = sizes-Permᴰ job d ∙ sizes-Permᴰ job d'

pub sizes-append : (job : Job) (xs ys : List ℕ) → sizes job (xs ++ ys) ≡ sizes job xs + sizes job ys
unfolding sizes
sizes-append job [] ys = omega arith
sizes-append job (x ∷ xs) ys = omega (arith, sizes-append job xs ys)

size_lem :
    (job : Job) (b : ℕ) → size job b ≡ length (batch_indices job.total_count job.batch_size b)
unfolding size
size_lem job b = refl

sizes-count_from :
    (job : Job) (n : ℕ)
    → sizes job (count_from 0 n) ≡ length (first_batches job.total_count job.batch_size n)
unfolding first_batches sizes count_from
sizes-count_from job zero = refl
sizes-count_from job (suc n) =
    let made = sizes-count_from job n in
    let joined =
      length-append (first_batches job.total_count job.batch_size n)
        (batch_indices job.total_count job.batch_size n) in
    ap (sizes job) (count_from_last n)
    ∙ sizes-append job (count_from 0 n) (n ∷ [])
    ∙ omega (arith, made, joined, size_lem job n)

pub sizes-Perm : (job : Job) {xs ys : List ℕ} → Perm xs ys → sizes job xs ≡ sizes job ys
sizes-Perm job order = ∥∥₁_elim order (ℕ_set _ _) (λ d. sizes-Permᴰ job d)

-- All the batches together hold all the transactions.
pub sizes-num_batches :
    (job : Job)
    → IsJob job
    → sizes job (count_from 0 (num_batches (pos job.total_count) job.batch_size)) ≡ job.total_count
sizes-num_batches job h =
    sizes-count_from job (num_batches (pos job.total_count) job.batch_size)
    ∙ ap length (first_batches-num_batches job.total_count job.batch_size h.batch_pos h.sum_fits).0
    ∙ length-count_from 0 job.total_count

-- The threads start at 0 and take the batches in any order, each batch once: then the generator
-- reports `total_count` transactions as submitted, and the receiver has counted as many. With
-- `--verify` a rejected transaction counts for both.
pub run_delivers :
    {p : Protobuf}
    → IsProtobuf p
    → (decimal : ℕ → List ℕ) (verify : Bool) (job : Job) (num_threads : ℕ)
    → (schedule : List (ℕ × ℕ)) → IsJob job
    → All (λ (tid : ℕ). tid < num_threads) (threads_of schedule)
    → Perm (batches_of schedule) (count_from 0 (num_batches (pos job.total_count) job.batch_size))
    → let last = run p decimal verify job (started num_threads) schedule in
      (total_submitted last.thread_submitted ≡ job.total_count)
      × (last.total_received ≡ job.total_count)
run_delivers laws decimal verify job num_threads schedule h threads order =
    let moved =
      run_lem laws decimal verify job num_threads schedule (started num_threads) h
        (length-replicate num_threads 0) threads (omega arith) in
    let none = total_submitted-replicate num_threads in
    (omega (arith, moved.0, none, total), omega (arith, moved.1, total, h.sum_fits))
  where
    total : sizes job (batches_of schedule) ≡ job.total_count
    total = sizes-Perm job order ∙ sizes-num_batches job h
