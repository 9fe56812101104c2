-- ===== src/Main/Wallets.antt =====
-- The wallets that `main` makes, and its clean-up when one cannot be made.
use shardingsim.Prelude.{
  ℕ, zero, suc, ◌≡◌, refl, sym, ap, ◌∙◌, inl, inr, Option, none, some, List, [], ◌∷◌, ◌++◌,
  Option-cases, if◌then◌else◌, arith, length, All,
}
use mathlib.Core.List.{append_assoc, append-nil}
use shardingsim.Wallet.{Wallet}
use shardingsim.Generator.Bounds.{count_from, count_from_last}
use shardingsim.Main.{
  Resource, wallet, context, socket, thread_wallets, thread_ctxs, thread_socks, thread_submitted,
  Effect, acquires, releases, destroy_wallets, create_wallets, put_first,
}
use shardingsim.Main.Ledger.{
  same_kind, acquired, released, reported, acquired-append, released-append, reported-append,
}

-- Destroying the wallets.
pub destroy_wallets_lem :
    (k : Resource) (from n : ℕ)
    → (acquired k (destroy_wallets from n) ≡ [])
      × (released k (destroy_wallets from n)
          ≡ (if same_kind k wallet then count_from from n else []))
      × (reported (destroy_wallets from n) ≡ [])
unfolding destroy_wallets acquired released reported count_from
destroy_wallets_lem k from zero = (refl, ground arith, refl)
destroy_wallets_lem k from (suc n) = ground (arith, destroy_wallets_lem k (suc from) n)

create_wallets-missing :
    (make : ℕ → Option Wallet) (t n : ℕ)
    → make t ≡ none
    → create_wallets make t (suc n)
      ≡ (none, destroy_wallets 0 t ++ (releases thread_wallets 0 ∷ []))
unfolding create_wallets
create_wallets-missing make t n e = rw (e, create_wallets) refl

pub create_wallets-made :
    (make : ℕ → Option Wallet) (t n : ℕ) (w : Wallet)
    → make t ≡ some w
    → let rest = create_wallets make (suc t) n in
      create_wallets make t (suc n) ≡ (put_first w rest.0, acquires wallet t ∷ rest.1)
unfolding create_wallets
create_wallets-made make t n w e = rw (e, create_wallets) refl

-- When all wallets are made, they are those of the threads in turn.
pub create_wallets-some :
    (make : ℕ → Option Wallet) (t n : ℕ) (wallets : List Wallet)
    → (create_wallets make t n).0 ≡ some wallets
    → let effects = (create_wallets make t n).1 in
      ((k : Resource)
        → (acquired k effects ≡ (if same_kind k wallet then count_from t n else []))
          × (released k effects ≡ []))
      × (reported effects ≡ [])
      × (length wallets ≡ n)
unfolding create_wallets acquired released reported count_from
create_wallets-some make t zero wallets e =
    let none_left : [] ≡ wallets = cc e in
    (λ k. (ground arith, refl), refl, ap length (sym none_left))
create_wallets-some make t (suc n) wallets e = elim (Option-cases (make t)) [
  | inl missing ↦ absurd (cc (rw (create_wallets-missing make t n missing) at e))
  | inr (w, has) ↦ elim (Option-cases (create_wallets make (suc t) n).0) [
    | inl failed ↦ absurd (cc (rw (create_wallets-made make t n w has, failed) at e))
    | inr (ws, made) ↦
        let (kinds, silent, size) = create_wallets-some make (suc t) n ws made in
        let all : w ∷ ws ≡ wallets = cc (rw (create_wallets-made make t n w has, made) at e) in
        rw (create_wallets-made make t n w has)
          (λ k. ground (arith, kinds k), silent, ap length (sym all) ∙ ap suc size)
  ]
]

-- The wallets have what each wallet that is made has.
pub create_wallets-All :
    (P : Wallet → Type 0) (make : ℕ → Option Wallet) (t n : ℕ) (wallets : List Wallet)
    → ((t : ℕ) (w : Wallet) → make t ≡ some w → P w)
    → (create_wallets make t n).0 ≡ some wallets
    → All P wallets
unfolding create_wallets
create_wallets-All P make t zero wallets h e =
    let none_left : [] ≡ wallets = cc e in rw (sym none_left) tt
create_wallets-All P make t (suc n) wallets h e = elim (Option-cases (make t)) [
  | inl missing ↦ absurd (cc (rw (create_wallets-missing make t n missing) at e))
  | inr (w, has) ↦ elim (Option-cases (create_wallets make (suc t) n).0) [
    | inl failed ↦ absurd (cc (rw (create_wallets-made make t n w has, failed) at e))
    | inr (ws, made) ↦
        let all : w ∷ ws ≡ wallets = cc (rw (create_wallets-made make t n w has, made) at e) in
        rw (sym all) (h t w has, create_wallets-All P make (suc t) n ws h made)
  ]
]

-- What is there before thread `t` gets its wallet.
unfoldable pub before : Resource → ℕ → List ℕ
unfolding count_from
before wallet t = count_from 0 t
before thread_wallets t = 0 ∷ []
before _ t = []

released-missing :
    (k : Resource) (t : ℕ)
    → released k (destroy_wallets 0 t ++ (releases thread_wallets 0 ∷ [])) ≡ before k t
unfolding released before
released-missing k t =
    let parts = released-append k (destroy_wallets 0 t) (releases thread_wallets 0 ∷ []) in
    let (fresh, gone, silent) = destroy_wallets_lem k 0 t in parts ∙ rw gone (cases k)
  where
    cases :
        (k : Resource)
        → (if same_kind k wallet then count_from 0 t else [])
            ++ released k (releases thread_wallets 0 ∷ [])
          ≡ before k t
    cases wallet = append-nil (count_from 0 t)
    cases context = refl
    cases socket = refl
    cases thread_wallets = refl
    cases thread_ctxs = refl
    cases thread_socks = refl
    cases thread_submitted = refl

acquired-missing :
    (k : Resource) (t : ℕ)
    → acquired k (destroy_wallets 0 t ++ (releases thread_wallets 0 ∷ [])) ≡ []
unfolding acquired
acquired-missing k t =
    acquired-append k (destroy_wallets 0 t) (releases thread_wallets 0 ∷ [])
    ∙ rw (destroy_wallets_lem k 0 t).0 refl

reported-missing : (t : ℕ) → reported (destroy_wallets 0 t ++ (releases thread_wallets 0 ∷ [])) ≡ []
unfolding reported
reported-missing t =
    reported-append (destroy_wallets 0 t) (releases thread_wallets 0 ∷ [])
    ∙ rw (destroy_wallets_lem wallet 0 t).2 refl

before-suc :
    (k : Resource) (t : ℕ) (effects : List Effect)
    → before k (suc t) ++ acquired k effects
      ≡ before k t ++ acquired k (acquires wallet t ∷ effects)
unfolding before acquired
before-suc wallet t effects =
    ap (λ (xs : List ℕ). xs ++ acquired wallet effects) (count_from_last t)
    ∙ append_assoc (count_from 0 t) (t ∷ []) (acquired wallet effects)
before-suc context t effects = refl
before-suc socket t effects = refl
before-suc thread_wallets t effects = refl
before-suc thread_ctxs t effects = refl
before-suc thread_socks t effects = refl
before-suc thread_submitted t effects = refl

-- When one is not made, the wallets made before it are destroyed, and their array is freed.
pub create_wallets-none :
    (make : ℕ → Option Wallet) (t n : ℕ)
    → (create_wallets make t n).0 ≡ none
    → let effects = (create_wallets make t n).1 in
      ((k : Resource) → released k effects ≡ before k t ++ acquired k effects)
      × (reported effects ≡ [])
unfolding create_wallets acquired released reported
create_wallets-none make t zero e = absurd (cc e)
create_wallets-none make t (suc n) e = elim (Option-cases (make t)) [
  | inl missing ↦ rw (create_wallets-missing make t n missing) (
    λ k.
        released-missing k t
        ∙ sym (append-nil (before k t))
        ∙ ap (λ (xs : List ℕ). before k t ++ xs) (sym (acquired-missing k t)),
    reported-missing t,
  )
  | inr (w, has) ↦ elim (Option-cases (create_wallets make (suc t) n).0) [
    | inr (ws, made) ↦ absurd (cc (rw (create_wallets-made make t n w has, made) at e))
    | inl failed ↦
        let (balance, silent) = create_wallets-none make (suc t) n failed in
        rw (create_wallets-made make t n w has)
          (λ k. balance k ∙ before-suc k t (create_wallets make (suc t) n).1, silent)
  ]
]
