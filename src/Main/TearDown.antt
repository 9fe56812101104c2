-- ===== src/Main/TearDown.antt =====
-- The end of `main`: what is set up, and what is torn down after the parallel loop.
use shardingsim.Prelude.{
  ℕ, zero, suc, ◌≡◌, refl, ap, ◌∙◌, Bool, true, false, List, [], ◌∷◌, ◌++◌, ◌||◌, if◌then◌else◌,
  arith,
}
use mathlib.Core.List.{append-nil}
use shardingsim.Generator.Bounds.{count_from}
use shardingsim.Generator.Batch.{total_submitted}
use shardingsim.Main.{
  Resource, wallet, context, socket, thread_wallets, thread_ctxs, thread_socks, thread_submitted,
  Effect, acquires, releases, reports, Zmq, destroy_wallets, connect_sockets, close_sockets, set_up,
  tear_down, finish_main,
}
use shardingsim.Main.Ledger.{
  same_kind, acquired, released, reported, acquired-append, released-append, reported-append,
}
use shardingsim.Main.Wallets.{destroy_wallets_lem}
use shardingsim.Main.Sockets.{connect_sockets-true}

close_sockets_lem :
    (k : Resource) (from n : ℕ)
    → (acquired k (close_sockets from n) ≡ [])
      × (released k (close_sockets from n)
          ≡ (if same_kind k context || same_kind k socket then count_from from n else []))
      × (reported (close_sockets from n) ≡ [])
unfolding close_sockets acquired released reported count_from same_kind
close_sockets_lem k from zero = (refl, ground arith, refl)
close_sockets_lem wallet from (suc n) = close_sockets_lem wallet (suc from) n
close_sockets_lem context from (suc n) = ground (arith, close_sockets_lem context (suc from) n)
close_sockets_lem socket from (suc n) = ground (arith, close_sockets_lem socket (suc from) n)
close_sockets_lem thread_wallets from (suc n) = close_sockets_lem thread_wallets (suc from) n
close_sockets_lem thread_ctxs from (suc n) = close_sockets_lem thread_ctxs (suc from) n
close_sockets_lem thread_socks from (suc n) = close_sockets_lem thread_socks (suc from) n
close_sockets_lem thread_submitted from (suc n) = close_sockets_lem thread_submitted (suc from) n

-- What `set_up` has acquired when it succeeds.
unfoldable pub set_of : Resource → Bool → ℕ → List ℕ
unfolding count_from
set_of k false n = []
set_of context true n = count_from 0 n
set_of socket true n = count_from 0 n
set_of thread_ctxs true n = 0 ∷ []
set_of thread_socks true n = 0 ∷ []
set_of _ true n = []

pub set_up-true :
    (z : Zmq) (use_zmq : Bool) (n : ℕ)
    → (set_up z use_zmq n).0 ≡ true
    → ((k : Resource)
        → (released k (set_up z use_zmq n).1 ≡ [])
          × (acquired k (set_up z use_zmq n).1 ≡ set_of k use_zmq n))
      × (reported (set_up z use_zmq n).1 ≡ [])
unfolding set_up set_of acquired released reported
set_up-true z false n e = (λ k. (refl, refl), refl)
set_up-true z true n e =
    let (kinds, silent) = connect_sockets-true z n 0 n e in
    (λ k. ((kinds k).0, cases k (kinds k).1), silent)
  where
    cases :
        (k : Resource)
        → acquired k (connect_sockets z n 0 n).1
          ≡ (if same_kind k context || same_kind k socket then count_from 0 n else [])
        → acquired k
            (acquires thread_ctxs 0 ∷ acquires thread_socks 0 ∷ (connect_sockets z n 0 n).1)
          ≡ set_of k true n
    cases wallet h = h
    cases context h = h
    cases socket h = h
    cases thread_wallets h = h
    cases thread_ctxs h = ap (λ (xs : List ℕ). 0 ∷ xs) h
    cases thread_socks h = ap (λ (xs : List ℕ). 0 ∷ xs) h
    cases thread_submitted h = h

pub tear_down_lem :
    (k : Resource) (use_zmq : Bool) (n : ℕ)
    → (acquired k (tear_down use_zmq n) ≡ [])
      × (released k (tear_down use_zmq n) ≡ set_of k use_zmq n)
      × (reported (tear_down use_zmq n) ≡ [])
unfolding tear_down set_of acquired released reported
tear_down_lem k false n = (refl, refl, refl)
tear_down_lem k true n =
    let (fresh, gone, silent) = close_sockets_lem k 0 n in
    let arrays = releases thread_socks 0 ∷ releases thread_ctxs 0 ∷ [] in
    (
      acquired-append k (close_sockets 0 n) arrays ∙ rw fresh refl,
      released-append k (close_sockets 0 n) arrays ∙ rw gone (cases k),
      reported-append (close_sockets 0 n) arrays ∙ rw silent refl,
    )
  where
    cases :
        (k : Resource)
        → (if same_kind k context || same_kind k socket then count_from 0 n else [])
            ++ released k (releases thread_socks 0 ∷ releases thread_ctxs 0 ∷ [])
          ≡ set_of k true n
    cases wallet = refl
    cases context = append-nil (count_from 0 n)
    cases socket = append-nil (count_from 0 n)
    cases thread_wallets = refl
    cases thread_ctxs = refl
    cases thread_socks = refl
    cases thread_submitted = refl

unfoldable pub last_arrays : List Effect
last_arrays = releases thread_wallets 0 ∷ releases thread_submitted 0 ∷ []

pub finish_main_lem :
    (k : Resource) (use_zmq : Bool) (n : ℕ) (counters : List ℕ)
    → (acquired k (finish_main use_zmq n counters) ≡ acquired k (acquires thread_submitted 0 ∷ []))
      × (released k (finish_main use_zmq n counters)
          ≡ set_of k use_zmq n
            ++ ((if same_kind k wallet then count_from 0 n else []) ++ released k last_arrays))
      × (reported (finish_main use_zmq n counters) ≡ total_submitted counters ∷ [])
unfolding finish_main acquired released reported last_arrays
finish_main_lem k use_zmq n counters =
    let (fresh, gone, silent) = tear_down_lem k use_zmq n in
    let (fresh_wallets, gone_wallets, silent_wallets) = destroy_wallets_lem k 0 n in
    let rest = reports (total_submitted counters) ∷ (destroy_wallets 0 n ++ last_arrays) in
    let parts = acquired-append k (tear_down use_zmq n) rest in
    let wallets = acquired-append k (destroy_wallets 0 n) last_arrays in
    (
      ap (λ (xs : List ℕ). if same_kind k thread_submitted then 0 ∷ xs else xs)
          (parts ∙ rw fresh (wallets ∙ rw fresh_wallets refl)),
      released-append k (tear_down use_zmq n) rest
          ∙ rw gone (
              ap (λ (xs : List ℕ). set_of k use_zmq n ++ xs)
                (released-append k (destroy_wallets 0 n) last_arrays ∙ rw gone_wallets refl)),
      reported-append (tear_down use_zmq n) rest
          ∙ rw silent (
              ap (λ (xs : List ℕ). total_submitted counters ∷ xs)
                (reported-append (destroy_wallets 0 n) last_arrays ∙ rw silent_wallets refl)),
    )
