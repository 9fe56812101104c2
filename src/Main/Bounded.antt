-- ===== src/Main/Bounded.antt =====
-- What `main` reports whatever is answered, and whatever fails.
use shardingsim.Prelude.{
  ◌≤◌, ◌+◌, ◌<◌, ◌^◌, ℕ, ◌≡◌, refl, ap, inl, inr, Bool, true, false, some, List, [], ◌∷◌, All,
  IsBytes, length, replicate, arith, Bool-cases, Option-cases,
}
use shardingsim.Common.Hash.{IsOpenSsl}
use shardingsim.Wallet.{Wallet}
use shardingsim.Wallet.Address.Laws.{wallet_parse_address_lem}
use shardingsim.Wallet.Keys.Laws.{wallet_create_named-some}
use shardingsim.Transaction.Sign.Laws.{SignsBytes}
use shardingsim.Generator.{Config, default_config, parse_options, clamp_num_threads}
use shardingsim.Generator.Bounds.{clamp_lem}
use shardingsim.Generator.Batch.{Job, total_submitted}
use shardingsim.Generator.Batch.Laws.{IsJob}
use shardingsim.Schedule.{Loop, begin, Run, IsOver}
use shardingsim.Schedule.Delivery.{batches, Answered, InProcess, submitted-le, in_process_submitted}
use shardingsim.Main.{
  Exit, World, create_wallets, set_up, make_wallet, after_wallets, start_main, bytes_of, count_of,
  job_of, main,
}
use shardingsim.Main.Ledger.{reported}
use shardingsim.Main.Wallets.{create_wallets-some, create_wallets-All}
use shardingsim.Main.Laws.{EndsWell, start_main-EndsWell}
use shardingsim.Main.Totals.{start_main-reports, job_of-IsJob}

-- The counters that `main` adds up are those of some run of the parallel loop to its end: with ZeroMQ
-- one in which `zmq_recv` brings any bytes or none and no answer overruns `resp`, and else one in the
-- process itself.
pub record IsAnswered (region : Bool → ℕ → Job → List ℕ) : Type 0 where
  pub in_process :
      (num_threads : ℕ) (job : Job)
      → 0 < num_threads
      → (n : ℕ) × (done : List (ℕ × ℕ)) × (k : Loop (List ℕ)) × Run
          (InProcess job)
          (batches job)
          (begin num_threads (replicate num_threads 0))
          n
          done
          k
        × IsOver (InProcess job) (batches job) k
        × (region false num_threads job ≡ k.shared)
  pub answered :
      (num_threads : ℕ) (job : Job)
      → 0 < num_threads
      → (n : ℕ) × (done : List (ℕ × ℕ)) × (k : Loop (List ℕ)) × Run
          (Answered job)
          (batches job)
          (begin num_threads (replicate num_threads 0))
          n
          done
          k
        × IsOver (Answered job) (batches job) k
        × (region true num_threads job ≡ k.shared)

region-bounded :
    (region : Bool → ℕ → Job → List ℕ) (use_zmq : Bool) (num_threads : ℕ) (job : Job)
    → IsAnswered region
    → IsJob job
    → 0 < num_threads
    → total_submitted (region use_zmq num_threads job) ≤ job.total_count
region-bounded region false num_threads job h well some_threads =
    let (n, done, k, r, over, same) = h.in_process num_threads job some_threads in
    let all = in_process_submitted job num_threads well r over in
    let total = ap total_submitted same in omega (arith, total, all)
region-bounded region true num_threads job h well some_threads =
    let (n, done, k, r, over, same) = h.answered num_threads job some_threads in
    let some_of_them = submitted-le job num_threads well r in
    let total = ap total_submitted same in omega (arith, total, some_of_them)

abbrev AtMost : ℕ → List ℕ → Type 0
AtMost bound totals = All (λ (t : ℕ). t ≤ bound) totals

AtMost-none :
    (bound : ℕ) (exit : Exit) → EndsWell exit → exit.code ≡ 1 → AtMost bound (reported exit.effects)
AtMost-none bound exit ends failed = elim ends.code_tells [
  | inl (fine, total) ↦ absurd (omega (arith, fine, failed))
  | inr (code, silent) ↦ rw silent tt
]

AtMost-one : (bound t : ℕ) (totals : List ℕ) → totals ≡ t ∷ [] → t ≤ bound → AtMost bound totals
AtMost-one bound t totals e h = rw e (h, tt)

start_main-bounded :
    (world : World) (config : Config) (n : ℕ) (job : List Wallet → Job) (from_name : List ℕ)
    (bound : ℕ)
    → ((wallets : List Wallet)
        → (create_wallets (make_wallet world from_name) 0 n).0 ≡ some wallets
        → total_submitted (world.region config.use_zmq n (job wallets)) ≤ bound)
    → AtMost bound (reported (start_main world config n job from_name).effects)
unfolding start_main after_wallets
start_main-bounded world config n job from_name bound h =
    let ends = start_main-EndsWell world config n job from_name in
    let exit = start_main world config n job from_name in
    elim (Option-cases (create_wallets (make_wallet world from_name) 0 n).0) [
      | inl missing ↦ AtMost-none bound exit ends (rw missing refl)
      | inr (wallets, all) ↦ elim (Bool-cases (set_up world.zmq config.use_zmq n).0) [
        | inl good ↦
            AtMost-one bound _ _
              (start_main-reports world config n job from_name wallets all good).1 (h wallets all)
        | inr bad ↦ AtMost-none bound exit ends (rw (all, bad) refl)
      ]
    ]

-- With arguments for the names, the amount and a count of at most 2^31 - 256, whatever the options:
-- every total that `main` reports is at most the count (0 for a negative one), whatever the generator is
-- answered in less than 128 bytes or not answered, and whichever key, connection or signature fails.
pub main-bounded :
    (world : World)
    → IsOpenSsl world.openssl
    → SignsBytes world.signer
    → IsAnswered world.region
    → (from_name to_name amount count : List ℕ) (options : List (List ℕ))
    → length world.to_addr ≡ 20
    → world.amount_of amount < 2 ^ 64
    → count_of (world.libc.atoi count) + 256 ≤ 2 ^ 31
    → All
        (λ (t : ℕ). t ≤ count_of (world.libc.atoi count))
        (reported (main world (from_name ∷ to_name ∷ amount ∷ count ∷ options)).effects)
unfolding main bytes_of job_of
main-bounded world ssl signs h from_name to_name amount count options size amount_fits small =
    let config = parse_options world.libc options default_config in
    let n = clamp_num_threads config.num_threads in
    let (to_addr, parsed, to_bytes, hex, named) =
      wallet_parse_address_lem ssl to_name world.to_addr size in
    let n_pos : 0 < n = (clamp_lem config.num_threads).2 in
    let job = job_of world config to_addr amount count in
    rw parsed (
      start_main-bounded world config n job from_name (count_of (world.libc.atoi count))
        (λ wallets all.
          let (kinds, silent, many) =
            create_wallets-some (make_wallet world from_name) 0 n wallets all in
          let addresses =
            create_wallets-All (λ w. IsBytes 20 w.address) (make_wallet world from_name) 0 n wallets
              (λ t w. unfold make_wallet in wallet_create_named-some ssl (world.keys t) from_name w)
              all in
          region-bounded world.region config.use_zmq n (job wallets) h
            (job_of-IsJob world config to_addr amount count wallets signs to_bytes amount_fits small
              (omega (arith, many, n_pos)) addresses)
            n_pos))
