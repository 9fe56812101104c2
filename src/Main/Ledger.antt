-- ===== src/Main/Ledger.antt =====
-- What a list of effects acquires, releases and reports.
use shardingsim.Prelude.{
  ℕ, zero, suc, ◌+◌, ◌≡◌, refl, ap, ◌∙◌, inl, inr, Bool, true, false, List, [], ◌∷◌, ◌++◌,
  Bool-cases, if◌then◌else◌, arith,
}
use shardingsim.Generator.Bounds.{count_from}
use shardingsim.Main.{
  Resource, wallet, context, socket, thread_wallets, thread_ctxs, thread_socks, thread_submitted,
  Effect, acquires, releases, reports,
}

unfoldable pub same_kind : Resource → Resource → Bool
same_kind wallet wallet = true
same_kind context context = true
same_kind socket socket = true
same_kind thread_wallets thread_wallets = true
same_kind thread_ctxs thread_ctxs = true
same_kind thread_socks thread_socks = true
same_kind thread_submitted thread_submitted = true
same_kind _ _ = false

-- The numbers under which resources of a kind are acquired, and released, in their order.
unfoldable pub acquired : Resource → List Effect → List ℕ
unfolding same_kind
acquired k [] = []
acquired k (acquires r t ∷ effects) =
    let rest = acquired k effects in if same_kind k r then t ∷ rest else rest
acquired k (_ ∷ effects) = acquired k effects

unfoldable pub released : Resource → List Effect → List ℕ
unfolding same_kind
released k [] = []
released k (releases r t ∷ effects) =
    let rest = released k effects in if same_kind k r then t ∷ rest else rest
released k (_ ∷ effects) = released k effects

-- The totals that are printed.
unfoldable pub reported : List Effect → List ℕ
reported [] = []
reported (reports n ∷ effects) = n ∷ reported effects
reported (_ ∷ effects) = reported effects

pub acquired-append :
    (k : Resource) (xs ys : List Effect) → acquired k (xs ++ ys) ≡ acquired k xs ++ acquired k ys
unfolding acquired
acquired-append k [] ys = refl
acquired-append k (acquires r t ∷ xs) ys = ground (arith, acquired-append k xs ys)
acquired-append k (releases r t ∷ xs) ys = acquired-append k xs ys
acquired-append k (reports n ∷ xs) ys = acquired-append k xs ys

pub released-append :
    (k : Resource) (xs ys : List Effect) → released k (xs ++ ys) ≡ released k xs ++ released k ys
unfolding released
released-append k [] ys = refl
released-append k (acquires r t ∷ xs) ys = released-append k xs ys
released-append k (releases r t ∷ xs) ys = ground (arith, released-append k xs ys)
released-append k (reports n ∷ xs) ys = released-append k xs ys

pub reported-append : (xs ys : List Effect) → reported (xs ++ ys) ≡ reported xs ++ reported ys
unfolding reported
reported-append [] ys = refl
reported-append (acquires r t ∷ xs) ys = reported-append xs ys
reported-append (releases r t ∷ xs) ys = reported-append xs ys
reported-append (reports n ∷ xs) ys = ap (λ (t : List ℕ). n ∷ t) (reported-append xs ys)

-- The numbers from `from` on, `n` of them, that pass a test.
unfoldable pub numbers_from : (ℕ → Bool) → ℕ → ℕ → List ℕ
numbers_from p from zero = []
numbers_from p from (suc n) =
    let rest = numbers_from p (suc from) n in if p from then from ∷ rest else rest

unfoldable pub only : (ℕ → Bool) → ℕ → List ℕ
only p t = if p t then t ∷ [] else []

pub numbers_from_last :
    (p : ℕ → Bool) (from n : ℕ)
    → numbers_from p from (suc n) ≡ numbers_from p from n ++ only p (from + n)
unfolding numbers_from only
numbers_from_last p from zero = let e : from ≡ from + 0 = omega arith in ap (only p) e
numbers_from_last p from (suc n) =
    let e : suc from + n ≡ from + suc n = omega arith in
    let rest =
      numbers_from_last p (suc from) n
      ∙ ap (λ (t : ℕ). numbers_from p (suc from) n ++ only p t) e in
    elim (Bool-cases (p from)) [
      | inl yes_here ↦ rw yes_here (ap (λ (t : List ℕ). from ∷ t) rest)
      | inr no_here ↦ rw no_here rest
    ]

pub numbers_from_all : (from n : ℕ) → numbers_from (λ t. true) from n ≡ count_from from n
unfolding numbers_from count_from
numbers_from_all from zero = refl
numbers_from_all from (suc n) = ap (λ (t : List ℕ). from ∷ t) (numbers_from_all (suc from) n)
