-- ===== src/Main/Totals.antt =====
-- What `main` reports when nothing fails.
use shardingsim.Prelude.{
  ◌≤◌, ◌+◌, ℕ, zero, suc, ◌^◌, ◌<◌, ◌≡◌, refl, ap, ◌∙◌, Bool, true, false, Option, some, List, [],
  ◌∷◌, All, All-get_or, IsBytes, length, replicate, arith, pos,
}
use shardingsim.Proto.{Protobuf, IsProtobuf}
use shardingsim.Common.Hash.{IsOpenSsl}
use shardingsim.Wallet.{Wallet}
use shardingsim.Wallet.Address.Laws.{wallet_parse_address_lem}
use shardingsim.Wallet.Keys.{generated}
use shardingsim.Wallet.Keys.Laws.{wallet_create_named_ok}
use shardingsim.Transaction.Sign.Laws.{SignsBytes}
use shardingsim.Generator.{Config, default_config, parse_options, clamp_num_threads}
use shardingsim.Generator.Bounds.{clamp_lem}
use shardingsim.Generator.Batch.{Job, total_submitted}
use shardingsim.Generator.Batch.Laws.{IsJob}
use shardingsim.System.{System, started}
use shardingsim.Schedule.{Loop, begin, Run, IsOver}
use shardingsim.Schedule.Delivery.{
  batches, Delivers, InProcess, loop_delivers, in_process_submitted,
}
use shardingsim.Main.{
  Zmq, World, create_wallets, connects, connect_sockets, set_up, make_wallet, after_wallets,
  start_main, bytes_of, count_of, wallet_of, job_of, main, put_first,
}
use shardingsim.Main.Ledger.{reported}
use shardingsim.Main.Wallets.{create_wallets-made, create_wallets-some}
use shardingsim.Main.Sockets.{connect_sockets-connected}
use shardingsim.Main.Laws.{reported-finished}

-- The counters that `main` adds up are those of some run of the parallel loop to its end: with ZeroMQ
-- one in which every message reaches the receiver and is answered in time, and else one in the process
-- itself.
pub record IsRegion (p : Protobuf) (decimal : ℕ → List ℕ) (verify : Bool)
    (region : Bool → ℕ → Job → List ℕ) : Type 0 where
  pub in_process :
      (num_threads : ℕ) (job : Job)
      → 0 < num_threads
      → (n : ℕ) × (done : List (ℕ × ℕ)) × (k : Loop (List ℕ)) × Run
          (InProcess job)
          (batches job)
          (begin num_threads (replicate num_threads 0))
          n
          done
          k
        × IsOver (InProcess job) (batches job) k
        × (region false num_threads job ≡ k.shared)
  pub delivered :
      (num_threads : ℕ) (job : Job)
      → 0 < num_threads
      → (n : ℕ) × (done : List (ℕ × ℕ)) × (k : Loop System) × Run
          (Delivers p decimal verify job)
          (batches job)
          (begin num_threads (started num_threads))
          n
          done
          k
        × IsOver (Delivers p decimal verify job) (batches job) k
        × (region true num_threads job ≡ k.shared.thread_submitted)

region-total :
    {p : Protobuf}
    → IsProtobuf p
    → {decimal : ℕ → List ℕ} {verify : Bool} (region : Bool → ℕ → Job → List ℕ) (use_zmq : Bool)
      (num_threads : ℕ) (job : Job)
    → IsRegion p decimal verify region
    → IsJob job
    → 0 < num_threads
    → total_submitted (region use_zmq num_threads job) ≡ job.total_count
region-total laws region false num_threads job h well some_threads =
    let (n, done, k, r, over, same) = h.in_process num_threads job some_threads in
    ap total_submitted same ∙ in_process_submitted job num_threads well r over
region-total laws {decimal} {verify} region true num_threads job h well some_threads =
    let (n, done, k, r, over, same) = h.delivered num_threads job some_threads in
    ap total_submitted same ∙ (loop_delivers laws decimal verify job num_threads well r over).0

connect_sockets-connects :
    (z : Zmq) (num_threads t n : ℕ)
    → ((t : ℕ) → connects z t ≡ true)
    → (connect_sockets z num_threads t n).0 ≡ true
unfolding connect_sockets
connect_sockets-connects z num_threads t zero h = refl
connect_sockets-connects z num_threads t (suc n) h =
    rw (connect_sockets-connected z num_threads t n (h t))
      (connect_sockets-connects z num_threads (suc t) n h)

set_up-connects :
    (z : Zmq) (use_zmq : Bool) (n : ℕ)
    → ((t : ℕ) → connects z t ≡ true)
    → (set_up z use_zmq n).0 ≡ true
unfolding set_up
set_up-connects z false n h = refl
set_up-connects z true n h = connect_sockets-connects z n 0 n h

create_wallets_total :
    (make : ℕ → Option Wallet) (t n : ℕ)
    → ((t : ℕ) → (w : Wallet) × (make t ≡ some w) × IsBytes 20 w.address)
    → (wallets : List Wallet) × ((create_wallets make t n).0 ≡ some wallets)
      × All (λ (w : Wallet). IsBytes 20 w.address) wallets
unfolding create_wallets
create_wallets_total make t zero h = ([], refl, tt)
create_wallets_total make t (suc n) h =
    let (w, made, bytes) = h t in
    let (wallets, rest, all) = create_wallets_total make (suc t) n h in
    (w ∷ wallets, rw (create_wallets-made make t n w made) (ap (put_first w) rest), (bytes, all))

wallet_of-IsBytes :
    (wallets : List Wallet) (tid : ℕ)
    → 0 < length wallets
    → All (λ (w : Wallet). IsBytes 20 w.address) wallets
    → IsBytes 20 (wallet_of wallets tid).address
unfolding wallet_of
wallet_of-IsBytes [] tid some_wallet h = absurd (omega arith)
wallet_of-IsBytes (w ∷ wallets) tid some_wallet h =
    All-get_or (λ (v : Wallet). IsBytes 20 v.address) (w ∷ wallets) tid w h h.0

-- What the parts of `main` come to when every thread has its wallet and its connection.
pub start_main-reports :
    (world : World) (config : Config) (n : ℕ) (job : List Wallet → Job) (from_name : List ℕ)
    → (wallets : List Wallet) → (create_wallets (make_wallet world from_name) 0 n).0 ≡ some wallets
    → (set_up world.zmq config.use_zmq n).0 ≡ true
    → let exit = start_main world config n job from_name in
      (exit.code ≡ 0)
      × (reported exit.effects ≡ total_submitted (world.region config.use_zmq n (job wallets)) ∷ [])
unfolding start_main after_wallets
start_main-reports world config n job from_name wallets all good =
    let made = (create_wallets (make_wallet world from_name) 0 n).1 in
    let (kinds, silent, size) = create_wallets-some (make_wallet world from_name) 0 n wallets all in
    rw (all, good)
      (
        refl,
        reported-finished n made kinds silent world.zmq config.use_zmq
            (world.region config.use_zmq n (job wallets)) good,
      )

job_of-total :
    (world : World) (config : Config) (to_addr amount count : List ℕ) (wallets : List Wallet)
    (total : ℕ)
    → world.libc.atoi count ≡ pos total
    → (job_of world config to_addr amount count wallets).total_count ≡ total
unfolding job_of count_of
job_of-total world config to_addr amount count wallets total counts = rw counts refl

pub job_of-IsJob :
    (world : World) (config : Config) (to_addr amount count : List ℕ) (wallets : List Wallet)
    → SignsBytes world.signer
    → IsBytes 20 to_addr
    → world.amount_of amount < 2 ^ 64
    → (job_of world config to_addr amount count wallets).total_count + 256 ≤ 2 ^ 31
    → 0 < length wallets
    → All (λ (w : Wallet). IsBytes 20 w.address) wallets
    → IsJob (job_of world config to_addr amount count wallets)
unfolding job_of
job_of-IsJob world config to_addr amount count wallets signs to_bytes fits counted some_wallet
      addresses =
    let limits = clamp_lem config.batch_size in
    record {
      signs = signs;
      wallets = λ tid. wallet_of-IsBytes wallets tid some_wallet addresses;
      to_bytes = to_bytes;
      amount_fits = fits;
      batch_pos = limits.0;
      batch_small = limits.1;
      sum_fits = omega (arith, limits.1, counted);
    }

-- With arguments for the names, the amount and a count from 0 to 2^31 - 256, whatever the options: when
-- every thread gets a key and a connection and, with ZeroMQ, every message of the threads is delivered to
-- a receiver and its answer to them in time, `main` returns 0 and reports as many transactions as were
-- asked for.
pub main-reports :
    {p : Protobuf}
    → IsProtobuf p
    → {decimal : ℕ → List ℕ} {verify : Bool} (world : World) → IsOpenSsl world.openssl
    → SignsBytes world.signer
    → IsRegion p decimal verify world.region
    → (from_name to_name amount count : List ℕ) (options : List (List ℕ)) (total : ℕ) (key : ℕ → ℕ)
    → length world.to_addr ≡ 20
    → world.amount_of amount < 2 ^ 64
    → world.libc.atoi count ≡ pos total
    → total + 256 ≤ 2 ^ 31
    → ((t : ℕ) → (world.keys t).key_gen ≡ generated (key t))
    → ((t : ℕ) → connects world.zmq t ≡ true)
    → let exit = main world (from_name ∷ to_name ∷ amount ∷ count ∷ options) in
      (exit.code ≡ 0) × (reported exit.effects ≡ total ∷ [])
unfolding main bytes_of
main-reports laws world ssl signs h from_name to_name amount count options total key size
      amount_fits counts small keys connected =
    let config = parse_options world.libc options default_config in
    let n = clamp_num_threads config.num_threads in
    let (to_addr, parsed, to_bytes, hex, named) =
      wallet_parse_address_lem ssl to_name world.to_addr size in
    let (wallets, all, addresses) = create_wallets_total (make_wallet world from_name) 0 n (λ t.
      unfold make_wallet in wallet_create_named_ok ssl (world.keys t) from_name (key t) (keys t)) in
    let (kinds, silent, many) = create_wallets-some (make_wallet world from_name) 0 n wallets all in
    let n_pos : 0 < n = (clamp_lem config.num_threads).2 in
    let job = job_of world config to_addr amount count wallets in
    let ran =
      start_main-reports world config n (job_of world config to_addr amount count) from_name wallets
        all (set_up-connects world.zmq config.use_zmq n connected) in
    let count_is : job.total_count ≡ total =
      job_of-total world config to_addr amount count wallets total counts in
    let well : IsJob job =
      job_of-IsJob world config to_addr amount count wallets signs to_bytes amount_fits
        (omega (arith, count_is, small)) (omega (arith, many, n_pos)) addresses in
    let reaches : total_submitted (world.region config.use_zmq n job) ≡ total =
      region-total laws world.region config.use_zmq n job h well n_pos ∙ count_is in
    rw parsed (ran.0, ran.1 ∙ ap (λ (t : ℕ). t ∷ []) reaches)
