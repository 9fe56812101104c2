-- ===== src/Main/Sockets.antt =====
-- The sockets that `main` opens, and its clean-up when one is not connected.
use shardingsim.Prelude.{
  ℕ, zero, suc, ◌+◌, ◌≡◌, refl, sym, ap, ◌∙◌, inl, inr, true, false, List, [], ◌∷◌, ◌++◌, ◌||◌,
  Bool-cases, if◌then◌else◌, arith,
}
use mathlib.Core.List.{append_assoc, append-nil}
use shardingsim.Generator.Bounds.{count_from}
use shardingsim.Main.{
  Resource, wallet, context, socket, thread_wallets, thread_ctxs, thread_socks, thread_submitted,
  Effect, releases, Zmq, destroy_wallets, has_socket, connects, open_socket, close_opened,
  connect_sockets, clean_up,
}
use shardingsim.Main.Ledger.{
  same_kind, acquired, released, reported, acquired-append, released-append, reported-append,
  numbers_from, numbers_from_last, only,
}
use shardingsim.Main.Wallets.{destroy_wallets_lem}

open_socket_lem :
    (k : Resource) (z : Zmq) (t : ℕ)
    → (released k (open_socket z t) ≡ []) × (reported (open_socket z t) ≡ [])
unfolding open_socket released reported
open_socket_lem k z t = ground arith

-- What the socket of a thread adds.
opened_by : Resource → Zmq → ℕ → List ℕ
unfolding only
opened_by context z t = only (z.ctx_new) t
opened_by socket z t = only (has_socket z) t
opened_by _ z t = []

acquired-open_socket :
    (k : Resource) (z : Zmq) (t : ℕ) → acquired k (open_socket z t) ≡ opened_by k z t
unfolding open_socket acquired opened_by only
acquired-open_socket wallet z t = ground arith
acquired-open_socket context z t = ground arith
acquired-open_socket socket z t = ground arith
acquired-open_socket thread_wallets z t = ground arith
acquired-open_socket thread_ctxs z t = ground arith
acquired-open_socket thread_socks z t = ground arith
acquired-open_socket thread_submitted z t = ground arith

close_opened_lem :
    (z : Zmq) (from n : ℕ)
    → ((k : Resource) → acquired k (close_opened z from n) ≡ [])
      × (released socket (close_opened z from n) ≡ numbers_from (has_socket z) from n)
      × (released context (close_opened z from n) ≡ numbers_from z.ctx_new from n)
      × (reported (close_opened z from n) ≡ [])
      × ((k : Resource)
          → same_kind k socket ≡ false
          → same_kind k context ≡ false
          → released k (close_opened z from n) ≡ [])
unfolding close_opened acquired released reported numbers_from
close_opened_lem z from zero = (λ k. refl, refl, refl, refl, λ k hs hc. refl)
close_opened_lem z from (suc n) =
    let rest = close_opened_lem z (suc from) n in
    (
      λ k. ground (arith, rest.0 k),
      ground (arith, rest.1),
      ground (arith, rest.2),
      ground (arith, rest.3),
      λ k hs hc. ground (arith, rest.4 k hs hc),
    )

-- What is acquired when `n` threads have been through the loop.
unfoldable pub opened : Resource → Zmq → ℕ → ℕ → List ℕ
unfolding count_from numbers_from
opened wallet z num_threads n = count_from 0 num_threads
opened context z num_threads n = numbers_from z.ctx_new 0 n
opened socket z num_threads n = numbers_from (has_socket z) 0 n
opened thread_submitted z num_threads n = []
opened _ z num_threads n = 0 ∷ []

tail_of : ℕ → List Effect
unfolding destroy_wallets
tail_of num_threads =
    releases thread_socks 0
    ∷ releases thread_ctxs 0
    ∷ (destroy_wallets 0 num_threads ++ (releases thread_wallets 0 ∷ []))

released-tail :
    (k : Resource) (n : ℕ)
    → released k (tail_of n)
      ≡ released k (releases thread_socks 0 ∷ releases thread_ctxs 0 ∷ [])
        ++ ((if same_kind k wallet then count_from 0 n else [])
            ++ released k (releases thread_wallets 0 ∷ []))
unfolding tail_of released
released-tail k n =
    released-append k (releases thread_socks 0 ∷ releases thread_ctxs 0 ∷ destroy_wallets 0 n)
      (releases thread_wallets 0 ∷ [])
    ∙ rw (destroy_wallets_lem k 0 n).1 (ground arith)

clean_up_parts :
    (z : Zmq) (num_threads n : ℕ)
    → clean_up z num_threads n ≡ close_opened z 0 n ++ tail_of num_threads
unfolding clean_up tail_of
clean_up_parts z num_threads n = refl

released-clean_up :
    (k : Resource) (z : Zmq) (num_threads n : ℕ)
    → released k (clean_up z num_threads n) ≡ opened k z num_threads n
unfolding opened released
released-clean_up k z num_threads n =
    ap (released k) (clean_up_parts z num_threads n)
    ∙ released-append k (close_opened z 0 n) (tail_of num_threads)
    ∙ ap (λ (xs : List ℕ). released k (close_opened z 0 n) ++ xs) (released-tail k num_threads)
    ∙ cases k
  where
    cases :
        (k : Resource)
        → released k (close_opened z 0 n)
            ++ (released k (releases thread_socks 0 ∷ releases thread_ctxs 0 ∷ [])
                ++ ((if same_kind k wallet then count_from 0 num_threads else [])
                    ++ released k (releases thread_wallets 0 ∷ [])))
          ≡ opened k z num_threads n
    cases wallet =
        rw ((close_opened_lem z 0 n).4 wallet refl refl) (append-nil (count_from 0 num_threads))
    cases context = rw (close_opened_lem z 0 n).2 (append-nil (numbers_from z.ctx_new 0 n))
    cases socket = rw (close_opened_lem z 0 n).1 (append-nil (numbers_from (has_socket z) 0 n))
    cases thread_wallets = rw ((close_opened_lem z 0 n).4 thread_wallets refl refl) refl
    cases thread_ctxs = rw ((close_opened_lem z 0 n).4 thread_ctxs refl refl) refl
    cases thread_socks = rw ((close_opened_lem z 0 n).4 thread_socks refl refl) refl
    cases thread_submitted = rw ((close_opened_lem z 0 n).4 thread_submitted refl refl) refl

pub nothing-clean_up :
    (k : Resource) (z : Zmq) (num_threads n : ℕ)
    → (acquired k (clean_up z num_threads n) ≡ []) × (reported (clean_up z num_threads n) ≡ [])
unfolding acquired reported tail_of
nothing-clean_up k z num_threads n =
    let tail = destroy_wallets 0 num_threads ++ (releases thread_wallets 0 ∷ []) in
    let (fresh, gone, silent) = destroy_wallets_lem k 0 num_threads in
    let opened_fresh = (close_opened_lem z 0 n).0 k in
    let opened_silent = (close_opened_lem z 0 n).3 in
    (
      ap (acquired k) (clean_up_parts z num_threads n)
          ∙ acquired-append k (close_opened z 0 n) (tail_of num_threads)
          ∙ rw opened_fresh (
              acquired-append k (destroy_wallets 0 num_threads) (releases thread_wallets 0 ∷ [])
              ∙ rw fresh refl),
      ap reported (clean_up_parts z num_threads n)
          ∙ reported-append (close_opened z 0 n) (tail_of num_threads)
          ∙ rw opened_silent (
              reported-append (destroy_wallets 0 num_threads) (releases thread_wallets 0 ∷ [])
              ∙ rw silent refl),
    )

opened-suc :
    (k : Resource) (z : Zmq) (num_threads t : ℕ)
    → opened k z num_threads (suc t) ≡ opened k z num_threads t ++ opened_by k z t
unfolding opened opened_by
opened-suc wallet z num_threads t = sym (append-nil (count_from 0 num_threads))
opened-suc context z num_threads t =
    let e : 0 + t ≡ t = omega arith in numbers_from_last z.ctx_new 0 t ∙ rw e refl
opened-suc socket z num_threads t =
    let e : 0 + t ≡ t = omega arith in numbers_from_last (has_socket z) 0 t ∙ rw e refl
opened-suc thread_wallets z num_threads t = refl
opened-suc thread_ctxs z num_threads t = refl
opened-suc thread_socks z num_threads t = refl
opened-suc thread_submitted z num_threads t = refl

opened-open_socket :
    (k : Resource) (z : Zmq) (num_threads t : ℕ) (effects : List Effect)
    → opened k z num_threads (suc t) ++ acquired k effects
      ≡ opened k z num_threads t ++ acquired k (open_socket z t ++ effects)
opened-open_socket k z num_threads t effects =
    ap (λ (xs : List ℕ). xs ++ acquired k effects) (opened-suc k z num_threads t)
    ∙ append_assoc (opened k z num_threads t) (opened_by k z t) (acquired k effects)
    ∙ ap (λ (xs : List ℕ). opened k z num_threads t ++ (xs ++ acquired k effects))
        (sym (acquired-open_socket k z t))
    ∙ ap (λ (xs : List ℕ). opened k z num_threads t ++ xs)
        (sym (acquired-append k (open_socket z t) effects))

-- Opening a socket releases and reports nothing.
released-open_socket :
    (k : Resource) (z : Zmq) (t : ℕ) (effects : List Effect)
    → (released k (open_socket z t ++ effects) ≡ released k effects)
      × (reported (open_socket z t ++ effects) ≡ reported effects)
released-open_socket k z t effects =
    let (gone, silent) = open_socket_lem k z t in
    (
      released-append k (open_socket z t) effects
          ∙ ap (λ (xs : List ℕ). xs ++ released k effects) gone,
      reported-append (open_socket z t) effects
          ∙ ap (λ (xs : List ℕ). xs ++ reported effects) silent,
    )

pub connect_sockets-connected :
    (z : Zmq) (num_threads t n : ℕ)
    → connects z t ≡ true
    → let rest = connect_sockets z num_threads (suc t) n in
      connect_sockets z num_threads t (suc n) ≡ (rest.0, open_socket z t ++ rest.1)
unfolding connect_sockets
connect_sockets-connected z num_threads t n e = rw (e, connect_sockets) refl

connect_sockets-failed :
    (z : Zmq) (num_threads t n : ℕ)
    → connects z t ≡ false
    → connect_sockets z num_threads t (suc n)
      ≡ (false, open_socket z t ++ clean_up z num_threads (suc t))
unfolding connect_sockets
connect_sockets-failed z num_threads t n e = rw (e, connect_sockets) refl

-- When one is not connected, all that was opened and made is released.
pub connect_sockets-false :
    (z : Zmq) (num_threads t n : ℕ)
    → (connect_sockets z num_threads t n).0 ≡ false
    → let effects = (connect_sockets z num_threads t n).1 in
      ((k : Resource) → released k effects ≡ opened k z num_threads t ++ acquired k effects)
      × (reported effects ≡ [])
unfolding connect_sockets reported
connect_sockets-false z num_threads t zero e = absurd (cc e)
connect_sockets-false z num_threads t (suc n) e = elim (Bool-cases (connects z t)) [
  | inl good ↦
      let (balance, silent) =
        connect_sockets-false z num_threads (suc t) n
          (rw (connect_sockets-connected z num_threads t n good) at e) in
      let rest = (connect_sockets z num_threads (suc t) n).1 in
      rw (connect_sockets-connected z num_threads t n good) (
        λ k.
            (released-open_socket k z t rest).0
            ∙ balance k
            ∙ opened-open_socket k z num_threads t rest,
        (released-open_socket wallet z t rest).1 ∙ silent,
      )
  | inr bad ↦
      let undo = clean_up z num_threads (suc t) in
      rw (connect_sockets-failed z num_threads t n bad) (
        λ k.
            (released-open_socket k z t undo).0
            ∙ released-clean_up k z num_threads (suc t)
            ∙ sym (append-nil (opened k z num_threads (suc t)))
            ∙ ap (λ (xs : List ℕ). opened k z num_threads (suc t) ++ xs)
                (sym (nothing-clean_up k z num_threads (suc t)).0)
            ∙ opened-open_socket k z num_threads t undo,
        (released-open_socket wallet z t undo).1
            ∙ (nothing-clean_up wallet z num_threads (suc t)).1,
      )
]

only_connected :
    (k : Resource) (z : Zmq) (t : ℕ)
    → connects z t ≡ true
    → opened_by k z t ≡ (if same_kind k context || same_kind k socket then t ∷ [] else [])
unfolding opened_by only connects same_kind
only_connected wallet z t e = refl
only_connected context z t e = ground arith
only_connected socket z t e = ground arith
only_connected thread_wallets z t e = refl
only_connected thread_ctxs z t e = refl
only_connected thread_socks z t e = refl
only_connected thread_submitted z t e = refl

-- When all are connected, each thread has a context and a socket.
pub connect_sockets-true :
    (z : Zmq) (num_threads t n : ℕ)
    → (connect_sockets z num_threads t n).0 ≡ true
    → let effects = (connect_sockets z num_threads t n).1 in
      ((k : Resource)
        → (released k effects ≡ [])
          × (acquired k effects
              ≡ (if same_kind k context || same_kind k socket then count_from t n else [])))
      × (reported effects ≡ [])
unfolding connect_sockets reported released acquired count_from
connect_sockets-true z num_threads t zero e = (λ k. (refl, ground arith), refl)
connect_sockets-true z num_threads t (suc n) e = elim (Bool-cases (connects z t)) [
  | inr bad ↦ absurd (cc (rw (connect_sockets-failed z num_threads t n bad) at e))
  | inl good ↦
      let (kinds, silent) =
        connect_sockets-true z num_threads (suc t) n
          (rw (connect_sockets-connected z num_threads t n good) at e) in
      let rest = (connect_sockets z num_threads (suc t) n).1 in
      rw (connect_sockets-connected z num_threads t n good) (
        λ k. (
          (released-open_socket k z t rest).0 ∙ (kinds k).0,
          acquired-append k (open_socket z t) rest
              ∙ rw (acquired-open_socket k z t, only_connected k z t good, (kinds k).1)
                  (ground arith),
        ),
        (released-open_socket wallet z t rest).1 ∙ silent,
      )
]
