-- ===== src/Main.antt =====
-- main.c: what `main` does around the parallel loop, with the wallets, sockets and arrays that it
-- acquires and releases. What ZeroMQ and OpenSSL answer is given for each thread.
pub mod Ledger
pub mod Wallets
pub mod Sockets
pub mod TearDown
pub mod Laws
pub mod Totals
pub mod Bounded
use shardingsim.Prelude.{
  ℕ, zero, suc, ◌+◌, ◌&&◌, Bool, true, false, Option, none, some, List, [], ◌∷◌, ◌++◌, get_or,
  replicate, if◌then◌else◌, ℤ, pos, negsuc,
}
use shardingsim.Blake3.Hasher.{Hasher}
use shardingsim.Common.Hash.{OpenSsl}
use shardingsim.Wallet.{Wallet}
use shardingsim.Wallet.Address.{wallet_parse_address}
use shardingsim.Wallet.Keys.{Keys, wallet_create_named}
use shardingsim.Transaction.Sign.{Signer}
use shardingsim.Generator.{
  Libc, Config, default_config, parse_options, clamp_batch_size, clamp_num_threads,
}
use shardingsim.Generator.Batch.{Job, total_submitted}

-- What is acquired: a wallet, context or socket of a thread, or one of the four arrays.
pub data Resource : Type 0 where
  wallet context socket thread_wallets thread_ctxs thread_socks thread_submitted : Resource

-- What `main` does that outlives its own variables; `reports` is the line "Submitted".
pub data Effect : Type 0 where
  acquires : Resource → ℕ → Effect
  releases : Resource → ℕ → Effect
  reports : ℕ → Effect

pub record Exit : Type 0 where
  pub code : ℕ
  pub effects : List Effect

-- Whether the calls for a thread give something other than NULL, and a connection.
pub record Zmq : Type 0 where
  pub ctx_new : ℕ → Bool
  pub new_socket : ℕ → Bool
  pub connect : ℕ → Bool

-- Everything that comes from outside: `memory` and `to_addr` are stack frames as they were, `amount_of`
-- is `strtoull`, `region` the counters that the parallel loop leaves, with ZeroMQ or without, on a number
-- of threads, when no answer overruns its buffer.
pub record World : Type 0 where
  pub memory : Hasher
  pub to_addr : List ℕ
  pub openssl : OpenSsl
  pub keys : ℕ → Keys
  pub signer : Signer
  pub libc : Libc
  pub amount_of : List ℕ → ℕ
  pub zmq : Zmq
  pub region : Bool → ℕ → Job → List ℕ

-- `for (int j = from; …; j++) wallet_destroy(thread_wallets[j])`, `n` times.
pub destroy_wallets : ℕ → ℕ → List Effect
destroy_wallets from zero = []
destroy_wallets from (suc n) = releases wallet from ∷ destroy_wallets (suc from) n

abbrev pub put_first : Wallet → Option (List Wallet) → Option (List Wallet)
put_first w none = none
put_first w (some wallets) = some (w ∷ wallets)

-- The wallets of the threads from `t` on, or `none` after the clean-up when one cannot be made.
pub create_wallets : (ℕ → Option Wallet) → ℕ → ℕ → Option (List Wallet) × List Effect
unfolding destroy_wallets
create_wallets make t zero = (some [], [])
create_wallets make t (suc n) =
    let rest = create_wallets make (suc t) n in
    elim (make t) [
      | none ↦ (none, destroy_wallets 0 t ++ (releases thread_wallets 0 ∷ []))
      | some w ↦ (put_first w rest.0, acquires wallet t ∷ rest.1)
    ]

-- A socket of a context that is NULL is NULL, and a socket that is NULL is not connected.
unfoldable pub has_socket : Zmq → ℕ → Bool
has_socket z t = z.ctx_new t && z.new_socket t

unfoldable pub connects : Zmq → ℕ → Bool
unfolding has_socket
connects z t = has_socket z t && z.connect t

pub open_socket : Zmq → ℕ → List Effect
unfolding has_socket
open_socket z t =
    (if z.ctx_new t then acquires context t ∷ [] else [])
    ++ (if has_socket z t then acquires socket t ∷ [] else [])

-- The loop over what was opened, with its tests for NULL.
pub close_opened : Zmq → ℕ → ℕ → List Effect
unfolding has_socket
close_opened z from zero = []
close_opened z from (suc n) =
    (if has_socket z from then releases socket from ∷ [] else [])
    ++ ((if z.ctx_new from then releases context from ∷ [] else []) ++ close_opened z (suc from) n)

-- What is done after a failed connection, when `opened` threads have been through the loop.
pub clean_up : Zmq → ℕ → ℕ → List Effect
unfolding close_opened destroy_wallets
clean_up z num_threads opened =
    close_opened z 0 opened
    ++ (releases thread_socks 0
        ∷ releases thread_ctxs 0
        ∷ (destroy_wallets 0 num_threads ++ (releases thread_wallets 0 ∷ [])))

-- The sockets of the threads from `t` on; `false` after the clean-up when one is not connected.
pub connect_sockets : Zmq → ℕ → ℕ → ℕ → Bool × List Effect
unfolding connects open_socket clean_up
connect_sockets z num_threads t zero = (true, [])
connect_sockets z num_threads t (suc n) =
    let rest = connect_sockets z num_threads (suc t) n in
    if connects z t
    then (rest.0, open_socket z t ++ rest.1)
    else (false, open_socket z t ++ clean_up z num_threads (suc t))

-- The loop after the parallel region.
pub close_sockets : ℕ → ℕ → List Effect
close_sockets from zero = []
close_sockets from (suc n) =
    releases socket from ∷ releases context from ∷ close_sockets (suc from) n

-- The sockets and their arrays, with ZeroMQ only.
pub set_up : Zmq → Bool → ℕ → Bool × List Effect
unfolding connect_sockets
set_up z false num_threads = (true, [])
set_up z true num_threads =
    let (connected, effects) = connect_sockets z num_threads 0 num_threads in
    (connected, acquires thread_ctxs 0 ∷ acquires thread_socks 0 ∷ effects)

pub tear_down : Bool → ℕ → List Effect
unfolding close_sockets
tear_down false num_threads = []
tear_down true num_threads =
    close_sockets 0 num_threads ++ (releases thread_socks 0 ∷ releases thread_ctxs 0 ∷ [])

-- From the array of the counters to the end.
pub finish_main : Bool → ℕ → List ℕ → List Effect
unfolding tear_down destroy_wallets
finish_main use_zmq num_threads counters =
    acquires thread_submitted 0
    ∷ (tear_down use_zmq num_threads
        ++ (reports (total_submitted counters)
            ∷ (destroy_wallets 0 num_threads
                ++ (releases thread_wallets 0 ∷ releases thread_submitted 0 ∷ []))))

-- A negative count makes no batches, like 0.
unfoldable pub count_of : ℤ → ℕ
count_of (pos n) = n
count_of (negsuc n) = 0

-- The wallet of thread `tid`; there is one for each thread.
pub wallet_of : List Wallet → ℕ → Wallet
wallet_of [] tid = record {
  name = [];
  address = [];
  address_hex = [];
  public_key = [];
  public_key_len = 0;
  evp_key = none;
  private_key_pem = [];
  nonce = 0;
}
wallet_of (w ∷ wallets) tid = get_or (w ∷ wallets) tid w

pub job_of : World → Config → List ℕ → List ℕ → List ℕ → List Wallet → Job
unfolding count_of wallet_of
job_of world config to_addr amount count wallets = record {
  memory = world.memory;
  signer = world.signer;
  thread_wallets = wallet_of wallets;
  to_addr = to_addr;
  amount = world.amount_of amount;
  base_nonce = config.base_nonce;
  total_count = count_of (world.libc.atoi count);
  batch_size = clamp_batch_size config.batch_size;
}

-- What follows the loop that makes the wallets, whose effects are `made`.
pub after_wallets :
    World → Config → ℕ → (List Wallet → Job) → List Effect → Option (List Wallet) → Exit
unfolding set_up finish_main
after_wallets world config num_threads job made none = record {
  code = 1;
  effects = acquires thread_wallets 0 ∷ made;
}
after_wallets world config num_threads job made (some wallets) =
    let (opened, opening) = set_up world.zmq config.use_zmq num_threads in
    let begun = acquires thread_wallets 0 ∷ (made ++ opening) in
    if opened
    then record {
      code = 0;
      effects =
          begun
          ++ finish_main config.use_zmq num_threads
              (world.region config.use_zmq num_threads (job wallets));
    }
    else record { code = 1; effects = begun }

pub make_wallet : World → List ℕ → ℕ → Option Wallet
make_wallet world from_name t = wallet_create_named world.openssl (world.keys t) from_name

-- From the array of the wallets on.
pub start_main : World → Config → ℕ → (List Wallet → Job) → List ℕ → Exit
unfolding create_wallets after_wallets make_wallet
start_main world config num_threads job from_name =
    let (wallets, made) = create_wallets (make_wallet world from_name) 0 num_threads in
    after_wallets world config num_threads job made wallets

pub bytes_of : Option (List ℕ) → List ℕ
bytes_of none = []
bytes_of (some bytes) = bytes

-- `argv` without the name of the program.
pub main : World → List (List ℕ) → Exit
unfolding start_main bytes_of
main world (from_name ∷ to_name ∷ amount ∷ count ∷ options) =
    let config = parse_options world.libc options default_config in
    let parsed = wallet_parse_address world.openssl (some to_name) (some world.to_addr) in
    if parsed.0
    then start_main world config (clamp_num_threads config.num_threads)
        (job_of world config (bytes_of parsed.1) amount count) from_name
    else record { code = 1; effects = [] }
main world _ = record { code = 1; effects = [] }
