-- ===== src/Tests/Loops.antt =====
-- The parallel loop of three transactions in two batches, on two threads.
use shardingsim.Prelude.{ℕ, ◌+◌, ◌<◌, ◌≡◌, refl, none, length, List, [], ◌∷◌, true, arith}
use shardingsim.Generator.{num_batches}
use shardingsim.Generator.Bounds.{first_batches-num_batches}
use shardingsim.Generator.Batch.{batch_txs, total_submitted}
use shardingsim.Generator.Batch.Laws.{length-batch_txs}
use shardingsim.System.{System, started, run_batch}
use shardingsim.Schedule.{Loop, begin, taken, worked, Run, stop, later, IsOver}
use shardingsim.Schedule.Delivery.{batches, Delivers, loop_delivers}
use shardingsim.Tests.Codec.{codec, codec-IsProtobuf}
use shardingsim.Tests.Values.{job, job-IsJob}

abbrev decimal : ℕ → List ℕ
decimal n = (48 + n) ∷ []

pub two_batches : batches job ≡ 2
unfolding num_batches
two_batches = omega arith

abbrev pub over : {S : Type 0} → S → Loop S
over s = record { next = 2; held = none ∷ none ∷ []; shared = s }

abbrev pub trace : List (ℕ × ℕ)
trace = (1, 1) ∷ (0, 0) ∷ []

-- Both threads take a batch, and the second is done first.
pub both_threads :
    {S : Type 0} (Work : S → ℕ → ℕ → S → Type 0) (s t u : S)
    → Work s 1 1 t
    → Work t 0 0 u
    → Run Work (batches job) (begin 2 s) 4 trace (over u)
both_threads Work s t u first second =
    later (taken 0 (omega arith) refl (omega (arith, two_batches))) (
      later (taken 1 (omega arith) refl (omega (arith, two_batches))) (
        later (worked 1 1 (omega arith) refl first)
          (later (worked 0 0 (omega arith) refl second) stop)))

over-IsOver :
    {S : Type 0} (Work : S → ℕ → ℕ → S → Type 0) (s : S) → IsOver Work (batches job) (over s)
over-IsOver Work s = (omega (arith, two_batches), refl)

abbrev first_done : System
first_done = run_batch codec decimal true job (started 2) (1, 1)

abbrev both_done : System
both_done = run_batch codec decimal true job first_done (0, 0)

abbrev delivery_run :
    Run
      (Delivers codec decimal true job)
      (batches job)
      (begin 2 (started 2))
      4
      trace
      (over both_done)
delivery_run =
    both_threads (Delivers codec decimal true job) (started 2) first_done both_done refl refl

loop_delivers_example :
    (total_submitted both_done.thread_submitted ≡ 3) × (both_done.total_received ≡ 3)
loop_delivers_example =
    loop_delivers codec-IsProtobuf decimal true job 2 job-IsJob delivery_run
      (over-IsOver (Delivers codec decimal true job) both_done)

-- Both batches hold transactions.
filled : (tid b : ℕ) → b < 2 → 0 < length (batch_txs job tid b)
filled tid b h = omega (
  arith,
  length-batch_txs job tid b job-IsJob,
  (first_batches-num_batches 3 2 (omega arith) (omega arith)).1 b (omega (arith, h, two_batches)),
)

pub first_filled : 0 < length (batch_txs job 0 0)
first_filled = filled 0 0 (omega arith)

pub second_filled : 0 < length (batch_txs job 1 1)
second_filled = filled 1 1 (omega arith)
