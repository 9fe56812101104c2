-- ===== src/Tests/Mains.antt =====
-- Runs of `main`.
use shardingsim.Prelude.{
  ℕ, zero, suc, ◌+◌, ◌≡◌, ◌<◌, refl, true, false, Bool, List, [], ◌∷◌, replicate, pos, arith, ℤ,
  ◌-◌, ◌==◌, if◌then◌else◌, Option, some, none, All, ◌≤◌,
}
use shardingsim.Generator.{Libc}
use shardingsim.System.{System, started, run_batch}
use shardingsim.Schedule.{Loop, begin, Run, IsOver}
use shardingsim.Schedule.Ends.{run_completes}
use shardingsim.Schedule.Delivery.{batches, Delivers, Answered, InProcess}
use shardingsim.Generator.Batch.{Job, overruns, submit_in_process}
use shardingsim.Generator.Batch.Laws.{collect_ends}
use shardingsim.Main.{World, connects, count_of, main}
use shardingsim.Main.Ledger.{reported}
use shardingsim.Main.Laws.{EndsWell, main-EndsWell}
use shardingsim.Main.Totals.{IsRegion, main-reports}
use shardingsim.Main.Bounded.{main-bounded}
use shardingsim.Tests.Codec.{codec, codec-IsProtobuf}
use shardingsim.Tests.Values.{memory, openssl, openssl-IsOpenSsl, keys, signing, signing-SignsBytes}

abbrev decimal : ℕ → List ℕ
decimal n = (48 + n) ∷ []

-- A run of the loop to its end on `suc n` threads.
quiet_run :
    (n : ℕ) (job : Job)
    → (steps : ℕ) × (done : List (ℕ × ℕ)) × (k : Loop (List ℕ)) × Run
        (InProcess job)
        (batches job)
        (begin (suc n) (replicate (suc n) 0))
        steps
        done
        k
      × IsOver (InProcess job) (batches job) k
quiet_run n job =
    run_completes (InProcess job) (batches job) (begin (suc n) (replicate (suc n) 0)) (omega arith)
      (λ s tid b. (submit_in_process job s tid b, refl))

sent_run :
    (n : ℕ) (job : Job)
    → (steps : ℕ) × (done : List (ℕ × ℕ)) × (k : Loop System) × Run
        (Delivers codec decimal true job)
        (batches job)
        (begin (suc n) (started (suc n)))
        steps
        done
        k
      × IsOver (Delivers codec decimal true job) (batches job) k
sent_run n job =
    run_completes (Delivers codec decimal true job) (batches job) (begin (suc n) (started (suc n)))
      (omega arith) (λ s tid b. (run_batch codec decimal true job s (tid, b), refl))

-- Without a thread there are no counters.
region : Bool → ℕ → Job → List ℕ
unfolding quiet_run sent_run
region use_zmq zero job = []
region false (suc n) job = (quiet_run n job).2.shared
region true (suc n) job = (sent_run n job).2.shared.thread_submitted

region-quiet :
    (num_threads : ℕ) (job : Job)
    → 0 < num_threads
    → (steps : ℕ) × (done : List (ℕ × ℕ)) × (k : Loop (List ℕ)) × Run
        (InProcess job)
        (batches job)
        (begin num_threads (replicate num_threads 0))
        steps
        done
        k
      × IsOver (InProcess job) (batches job) k
      × (region false num_threads job ≡ k.shared)
unfolding region
region-quiet zero job h = absurd (omega arith)
region-quiet (suc n) job h =
    let (steps, done, k, r, over) = quiet_run n job in (steps, done, k, r, over, refl)

region-sent :
    (num_threads : ℕ) (job : Job)
    → 0 < num_threads
    → (steps : ℕ) × (done : List (ℕ × ℕ)) × (k : Loop System) × Run
        (Delivers codec decimal true job)
        (batches job)
        (begin num_threads (started num_threads))
        steps
        done
        k
      × IsOver (Delivers codec decimal true job) (batches job) k
      × (region true num_threads job ≡ k.shared.thread_submitted)
unfolding region
region-sent zero job h = absurd (omega arith)
region-sent (suc n) job h =
    let (steps, done, k, r, over) = sent_run n job in (steps, done, k, r, over, refl)

region-IsRegion : IsRegion codec decimal true region
region-IsRegion = record { in_process = region-quiet; delivered = region-sent }

-- One decimal digit.
abbrev libc : Libc
libc = record { atoi = digit; atoll = digit }
  where
    digit : List ℕ → ℤ
    digit [] = pos 0
    digit (c ∷ text) = pos (c - 48)

abbrev world : World
world = record {
  memory = memory;
  to_addr = replicate 20 170;
  openssl = openssl;
  keys = λ t. keys;
  signer = signing;
  libc = libc;
  amount_of = λ text. 5;
  zmq = record { ctx_new = λ t. true; new_socket = λ t. true; connect = λ t. true };
  region = region;
}

-- generator a b 5 3
abbrev argv : List (List ℕ)
argv = (b'a' ∷ []) ∷ (b'b' ∷ []) ∷ (b'5' ∷ []) ∷ (b'3' ∷ []) ∷ []

all_connected : (t : ℕ) → connects world.zmq t ≡ true
unfolding connects
all_connected t = refl

main-reports_example : ((main world argv).code ≡ 0) × (reported (main world argv).effects ≡ 3 ∷ [])
main-reports_example =
    main-reports codec-IsProtobuf world openssl-IsOpenSsl signing-SignsBytes region-IsRegion
      (b'a' ∷ []) (b'b' ∷ []) (b'5' ∷ []) (b'3' ∷ []) [] 3 (λ t. 1) refl (omega arith) refl
      (omega arith) (λ t. refl) all_connected

-- The loop when every batch but the first waits in vain.
answer : ℕ → Option (List ℕ)
answer b = if b == 0 then some (b'O' ∷ b'K' ∷ []) else none

answer-fits : (b : ℕ) → overruns (answer b) ≡ false
unfolding answer overruns
answer-fits b = ground arith

late_run :
    (n : ℕ) (job : Job)
    → (steps : ℕ) × (done : List (ℕ × ℕ)) × (k : Loop (List ℕ)) × Run
        (Answered job)
        (batches job)
        (begin (suc n) (replicate (suc n) 0))
        steps
        done
        k
      × IsOver (Answered job) (batches job) k
late_run n job =
    run_completes (Answered job) (batches job) (begin (suc n) (replicate (suc n) 0)) (omega arith)
      (λ s tid b.
        let (t, ends) = collect_ends job s tid b (answer b) (answer-fits b) in
        (t, (answer b, ends)))

late_region : Bool → ℕ → Job → List ℕ
unfolding quiet_run late_run
late_region use_zmq zero job = []
late_region false (suc n) job = (quiet_run n job).2.shared
late_region true (suc n) job = (late_run n job).2.shared

late_region-quiet :
    (num_threads : ℕ) (job : Job)
    → 0 < num_threads
    → (steps : ℕ) × (done : List (ℕ × ℕ)) × (k : Loop (List ℕ)) × Run
        (InProcess job)
        (batches job)
        (begin num_threads (replicate num_threads 0))
        steps
        done
        k
      × IsOver (InProcess job) (batches job) k
      × (late_region false num_threads job ≡ k.shared)
unfolding late_region
late_region-quiet zero job h = absurd (omega arith)
late_region-quiet (suc n) job h =
    let (steps, done, k, r, over) = quiet_run n job in (steps, done, k, r, over, refl)

late_region-late :
    (num_threads : ℕ) (job : Job)
    → 0 < num_threads
    → (steps : ℕ) × (done : List (ℕ × ℕ)) × (k : Loop (List ℕ)) × Run
        (Answered job)
        (batches job)
        (begin num_threads (replicate num_threads 0))
        steps
        done
        k
      × IsOver (Answered job) (batches job) k
      × (late_region true num_threads job ≡ k.shared)
unfolding late_region
late_region-late zero job h = absurd (omega arith)
late_region-late (suc n) job h =
    let (steps, done, k, r, over) = late_run n job in (steps, done, k, r, over, refl)

abbrev late_world : World
late_world = record world { region = late_region }

main-bounded_example : All (λ (t : ℕ). t ≤ 3) (reported (main late_world argv).effects)
unfolding count_of
main-bounded_example =
    main-bounded late_world openssl-IsOpenSsl signing-SignsBytes
      (record { in_process = late_region-quiet; answered = late_region-late }) (b'a' ∷ [])
      (b'b' ∷ []) (b'5' ∷ []) (b'3' ∷ []) [] refl (omega arith) (omega arith)

-- The third thread is not connected.
abbrev unlucky : World
unlucky = record world {
  zmq = record {
    ctx_new = λ t. true;
    new_socket = λ t. true;
    connect = λ t. if t == 2 then false else true;
  };
}

main-EndsWell_example : EndsWell (main unlucky argv)
main-EndsWell_example = main-EndsWell unlucky argv
