-- ===== src/Main/Laws.antt =====
-- Every path through `main` releases what it acquired, and reports a total or fails.
use shardingsim.Prelude.{
  ℕ, ◌≡◌, refl, sym, ap, ap₂, ◌∙◌, ◌⊎◌, inl, inr, Bool, true, false, Option, none, some, List, [],
  ◌∷◌, ◌++◌, Bool-cases, if◌then◌else◌,
}
use shardingsim.Generator.{Config, default_config, parse_options, clamp_num_threads}
use shardingsim.Wallet.Address.{wallet_parse_address}
use mathlib.Core.List.{append-nil}
use shardingsim.Wallet.{Wallet}
use shardingsim.Generator.Bounds.{count_from}
use shardingsim.Generator.Batch.{Job, total_submitted}
use shardingsim.Main.{
  Resource, wallet, context, socket, thread_wallets, thread_ctxs, thread_socks, thread_submitted,
  Effect, acquires, Exit, Zmq, World, create_wallets, connect_sockets, set_up, finish_main,
  after_wallets, make_wallet, start_main, bytes_of, job_of, main,
}
use shardingsim.Main.Ledger.{
  same_kind, acquired, released, reported, acquired-append, released-append, reported-append,
}
use shardingsim.Main.Wallets.{create_wallets-some, create_wallets-none, before}
use shardingsim.Main.Sockets.{connect_sockets-false, opened}
use shardingsim.Main.TearDown.{set_up-true, set_of, finish_main_lem, last_arrays}

-- How a part of `main` can end: with what it acquired released, and either a total reported and code 0
-- or nothing reported and code 1.
pub record EndsWell (exit : Exit) : Type 0 where
  pub all_released : (k : Resource) → released k exit.effects ≡ acquired k exit.effects
  pub code_tells :
      ((exit.code ≡ 0) × ((total : ℕ) × (reported exit.effects ≡ total ∷ [])))
      ⊎ ((exit.code ≡ 1) × (reported exit.effects ≡ []))

no_wallets :
    (effects : List Effect)
    → ((k : Resource) → released k effects ≡ before k 0 ++ acquired k effects)
    → reported effects ≡ []
    → EndsWell (record { code = 1; effects = acquires thread_wallets 0 ∷ effects })
unfolding acquired released reported before count_from
no_wallets effects balance silent = record {
  all_released = λ k. cases k (balance k);
  code_tells = inr (refl, silent);
}
  where
    cases :
        (k : Resource)
        → released k effects ≡ before k 0 ++ acquired k effects
        → released k effects ≡ acquired k (acquires thread_wallets 0 ∷ effects)
    cases wallet h = h
    cases context h = h
    cases socket h = h
    cases thread_wallets h = h
    cases thread_ctxs h = h
    cases thread_socks h = h
    cases thread_submitted h = h

-- The effects of a set-up that succeeded, after those of the wallets.
module _ (n : ℕ) (made : List Effect)
    (wallets : (k : Resource)
      → (acquired k made ≡ (if same_kind k wallet then count_from 0 n else []))
        × (released k made ≡ []))
    (wallets_silent : reported made ≡ []) where
  abbrev begun : List Effect → List Effect
  begun opening = acquires thread_wallets 0 ∷ (made ++ opening)

  released-begun : (k : Resource) (es : List Effect) → released k (begun es) ≡ released k es
  unfolding released
  released-begun k es = released-append k made es ∙ rw (wallets k).1 refl

  reported-begun : (es : List Effect) → reported (begun es) ≡ reported es
  unfolding reported
  reported-begun es = reported-append made es ∙ rw wallets_silent refl

  acquired-begun :
      (k : Resource) (es : List Effect)
      → acquired k (begun es)
        ≡ acquired k (acquires thread_wallets 0 ∷ [])
          ++ ((if same_kind k wallet then count_from 0 n else []) ++ acquired k es)
  unfolding acquired
  acquired-begun k es =
      acquired-append k (acquires thread_wallets 0 ∷ []) (made ++ es)
      ∙ ap (λ (xs : List ℕ). acquired k (acquires thread_wallets 0 ∷ []) ++ xs)
          (acquired-append k made es ∙ rw (wallets k).0 refl)

  no_sockets :
      (z : Zmq) (use_zmq : Bool)
      → (set_up z use_zmq n).0 ≡ false
      → EndsWell (record { code = 1; effects = begun (set_up z use_zmq n).1 })
  unfolding set_up acquired released reported count_from opened
  no_sockets z false e = absurd (cc e)
  no_sockets z true e =
      let (balance, silent) = connect_sockets-false z n 0 n e in
      record {
        all_released = λ k.
            released-begun k (set_up z true n).1
            ∙ cases k (balance k)
            ∙ sym (acquired-begun k (set_up z true n).1);
        code_tells = inr (refl, reported-begun (set_up z true n).1 ∙ silent);
      }
    where
      cases :
          (k : Resource)
          → released k (connect_sockets z n 0 n).1
            ≡ opened k z n 0 ++ acquired k (connect_sockets z n 0 n).1
          → released k (set_up z true n).1
            ≡ acquired k (acquires thread_wallets 0 ∷ [])
              ++ ((if same_kind k wallet then count_from 0 n else [])
                  ++ acquired k (set_up z true n).1)
      cases wallet h = h
      cases context h = h
      cases socket h = h
      cases thread_wallets h = h
      cases thread_ctxs h = h
      cases thread_socks h = h
      cases thread_submitted h = h

  pub reported-finished :
      (z : Zmq) (use_zmq : Bool) (counters : List ℕ)
      → (set_up z use_zmq n).0 ≡ true
      → reported (begun (set_up z use_zmq n).1 ++ finish_main use_zmq n counters)
        ≡ total_submitted counters ∷ []
  reported-finished z use_zmq counters e =
      let silent = (set_up-true z use_zmq n e).1 in
      reported-append (begun (set_up z use_zmq n).1) (finish_main use_zmq n counters)
      ∙ ap₂ ◌++◌ (reported-begun (set_up z use_zmq n).1 ∙ silent)
          (finish_main_lem wallet use_zmq n counters).2

  finished :
      (z : Zmq) (use_zmq : Bool) (counters : List ℕ)
      → (set_up z use_zmq n).0 ≡ true
      → EndsWell (record {
        code = 0;
        effects = begun (set_up z use_zmq n).1 ++ finish_main use_zmq n counters;
      })
  unfolding set_of last_arrays acquired released count_from reported
  finished z use_zmq counters e =
      let kinds = (set_up-true z use_zmq n e).0 in
      let opening = (set_up z use_zmq n).1 in
      let rest = finish_main use_zmq n counters in
      record {
        all_released = λ k.
            let (last, gone, total) = finish_main_lem k use_zmq n counters in
            released-append k (begun opening) rest
            ∙ ap₂ ◌++◌ (released-begun k opening ∙ (kinds k).0) gone
            ∙ cases k use_zmq
            ∙ sym (
                acquired-append k (begun opening) rest
                ∙ ap₂ ◌++◌
                    (acquired-begun k opening
                      ∙ ap
                          (λ (xs : List ℕ).
                            acquired k (acquires thread_wallets 0 ∷ [])
                            ++ ((if same_kind k wallet then count_from 0 n else []) ++ xs))
                          (kinds k).1)
                    last);
        code_tells = inl (refl, (total_submitted counters, reported-finished z use_zmq counters e));
      }
    where
      cases :
          (k : Resource) (zmq : Bool)
          → set_of k zmq n
              ++ ((if same_kind k wallet then count_from 0 n else []) ++ released k last_arrays)
            ≡ (acquired k (acquires thread_wallets 0 ∷ [])
                ++ ((if same_kind k wallet then count_from 0 n else []) ++ set_of k zmq n))
              ++ acquired k (acquires thread_submitted 0 ∷ [])
      cases wallet false = sym (append-nil (count_from 0 n ++ []))
      cases wallet true = sym (append-nil (count_from 0 n ++ []))
      cases context false = refl
      cases context true = refl
      cases socket false = refl
      cases socket true = refl
      cases thread_wallets false = refl
      cases thread_wallets true = refl
      cases thread_ctxs false = refl
      cases thread_ctxs true = refl
      cases thread_socks false = refl
      cases thread_socks true = refl
      cases thread_submitted false = refl
      cases thread_submitted true = refl

after_wallets-EndsWell :
    (world : World) (config : Config) (n : ℕ) (job : List Wallet → Job) (make : ℕ → Option Wallet)
    → (wallets : Option (List Wallet)) → (create_wallets make 0 n).0 ≡ wallets
    → EndsWell (after_wallets world config n job (create_wallets make 0 n).1 wallets)
unfolding after_wallets
after_wallets-EndsWell world config n job make none missing =
    let (balance, silent) = create_wallets-none make 0 n missing in
    no_wallets (create_wallets make 0 n).1 balance silent
after_wallets-EndsWell world config n job make (some wallets) all =
    let made = (create_wallets make 0 n).1 in
    let (kinds, silent, size) = create_wallets-some make 0 n wallets all in
    elim (Bool-cases (set_up world.zmq config.use_zmq n).0) [
      | inl good ↦ rw good (
          finished n made kinds silent world.zmq config.use_zmq
            (world.region config.use_zmq n (job wallets)) good)
      | inr bad ↦ rw bad (no_sockets n made kinds silent world.zmq config.use_zmq bad)
    ]

pub start_main-EndsWell :
    (world : World) (config : Config) (n : ℕ) (job : List Wallet → Job) (from_name : List ℕ)
    → EndsWell (start_main world config n job from_name)
unfolding start_main
start_main-EndsWell world config n job from_name =
    after_wallets-EndsWell world config n job (make_wallet world from_name) _ refl

nothing_done : EndsWell (record { code = 1; effects = [] })
unfolding acquired released reported
nothing_done = record { all_released = λ k. refl; code_tells = inr (refl, refl) }

-- Whatever the arguments are, and whatever fails: `main` releases each wallet, socket, context and array
-- that it acquired once, in the order in which those of its kind were acquired, and it either returns 0
-- and reports one total, or returns 1 and reports none.
pub main-EndsWell : (world : World) (argv : List (List ℕ)) → EndsWell (main world argv)
unfolding main acquired released reported
main-EndsWell world [] = nothing_done
main-EndsWell world (a ∷ []) = nothing_done
main-EndsWell world (a ∷ b ∷ []) = nothing_done
main-EndsWell world (a ∷ b ∷ c ∷ []) = nothing_done
main-EndsWell world (from_name ∷ to_name ∷ amount ∷ count ∷ options) =
    let config = parse_options world.libc options default_config in
    let parsed = wallet_parse_address world.openssl (some to_name) (some world.to_addr) in
    elim (Bool-cases parsed.0) [
      | inl good ↦ rw good (
          start_main-EndsWell world config (clamp_num_threads config.num_threads)
            (job_of world config (bytes_of parsed.1) amount count) from_name)
      | inr bad ↦ rw bad nothing_done
    ]
