-- ===== src/Generator/Batch/Laws.antt =====
-- The transactions of a batch, and the sum of what the threads submitted.
use shardingsim.Prelude.{
  ◌==◌, if◌then◌else◌, ℕ, zero, suc, ◌+◌, ◌-◌, ◌^◌, ◌≤◌, ◌<◌, ◌≡◌, refl, sym, ap, ap₂, ◌∙◌, Option,
  Bool-cases, inl, inr, false, some, List, [], ◌∷◌, map, length, get_or, replicate, length-set, All,
  IsBytes, arith, ℤ,
}
use shardingsim.Proto.{IsPbTransaction, IsSmall}
use shardingsim.Transaction.{Transaction, IsTransaction}
use shardingsim.Transaction.Sign.Laws.{SignsBytes}
use shardingsim.Transaction.Sign.Create.{transaction_create-IsTransaction}
use shardingsim.Transaction.Wire.{to_pb}
use shardingsim.Transaction.Wire.Laws.{to_pb-IsPbTransaction, to_pb-IsSmall}
use shardingsim.Generator.{nonce_of, batch_range}
use shardingsim.Generator.Bounds.{count_from, batch_indices, length-batch_indices}
use shardingsim.Generator.Batch.{
  Job, fee, expiry, create_from, create_at, batch_txs, pb_batch, credit, total_submitted, collect,
  is_ok, overruns, finished, submit_in_process,
}

-- The addresses and the amount are in range, OpenSSL's signatures are bytes, and the sum from which
-- the number of batches is computed is an `int`.
pub record IsJob (job : Job) : Type 0 where
  pub signs : SignsBytes job.signer
  pub wallets : (tid : ℕ) → IsBytes 20 (job.thread_wallets tid).address
  pub to_bytes : IsBytes 20 job.to_addr
  pub amount_fits : job.amount < 2 ^ 64
  pub batch_pos : 0 < job.batch_size
  pub batch_small : job.batch_size ≤ 256
  pub sum_fits : job.total_count + job.batch_size ≤ 2 ^ 31

create_from_total :
    (create : ℕ → Option Transaction) (made : ℕ → Transaction)
    → ((i : ℕ) → create i ≡ some (made i))
    → (i n : ℕ) → create_from create i n ≡ map made (count_from i n)
unfolding create_from count_from
create_from_total create made h i zero = refl
create_from_total create made h i (suc n) =
    rw (h i, create_from)
      (ap (λ (t : List Transaction). made i ∷ t) (create_from_total create made h (suc i) n))

All-map :
    (P : Transaction → Type 0) (made : ℕ → Transaction)
    → ((i : ℕ) → P (made i))
    → (xs : List ℕ) → All P (map made xs)
All-map P made h [] = tt
All-map P made h (x ∷ xs) = (h x, All-map P made h xs)

map-map :
    (made : ℕ → Transaction) (nonce : ℕ → ℕ)
    → ((i : ℕ) → (made i).nonce ≡ nonce i)
    → (xs : List ℕ) → map (λ (tx : Transaction). tx.nonce) (map made xs) ≡ map nonce xs
map-map made nonce h [] = refl
map-map made nonce h (x ∷ xs) = ap₂ ◌∷◌ (h x) (map-map made nonce h xs)

nonce_of-lt : (base : ℤ) (i : ℕ) → nonce_of base i < 2 ^ 64
unfolding nonce_of
nonce_of-lt base i = omega arith

-- What a thread makes at each index: a transaction in range with the nonce of the index.
pub created :
    (job : Job) (tid : ℕ)
    → IsJob job
    → (i : ℕ)
    → (tx : Transaction) × (create_at job tid i ≡ some tx)
      × IsTransaction tx
      × (tx.nonce ≡ nonce_of job.base_nonce i)
unfolding create_at
created job tid h i =
    let (tx, made, well_formed, nonce, bytes) =
      transaction_create-IsTransaction job.memory job.signer (job.thread_wallets tid) job.to_addr
        job.amount fee (nonce_of job.base_nonce i) expiry h.signs (h.wallets tid) h.to_bytes
        h.amount_fits (omega arith) (nonce_of-lt job.base_nonce i) (omega arith) in
    (tx, made, well_formed, nonce)

-- A batch holds one transaction in range for each of its indices, with the nonce of the index.
pub batch_txs_lem :
    (job : Job) (tid b : ℕ)
    → IsJob job
    → All IsTransaction (batch_txs job tid b)
      × (map (λ (tx : Transaction). tx.nonce) (batch_txs job tid b)
          ≡ map (nonce_of job.base_nonce) (batch_indices job.total_count job.batch_size b))
unfolding batch_txs batch_indices
batch_txs_lem job tid b h =
    rw
      (create_from_total (create_at job tid) (λ i. (created job tid h i).0)
        (λ i. (created job tid h i).1) start count)
      (
        All-map IsTransaction (λ i. (created job tid h i).0) (λ i. (created job tid h i).2)
            (count_from start count),
        map-map (λ i. (created job tid h i).0) (nonce_of job.base_nonce)
            (λ i. (created job tid h i).3) (count_from start count),
      )
  where
    start : ℕ
    start = (batch_range job.total_count job.batch_size b).0

    count : ℕ
    count = (batch_range job.total_count job.batch_size b).1 - start

pub total_submitted-replicate : (n : ℕ) → total_submitted (replicate n 0) ≡ 0
unfolding total_submitted
total_submitted-replicate zero = refl
total_submitted-replicate (suc n) = omega (arith, total_submitted-replicate n)

pub total_submitted-credit :
    (thread_submitted : List ℕ) (tid n : ℕ)
    → tid < length thread_submitted
    → total_submitted (credit thread_submitted tid n) ≡ total_submitted thread_submitted + n
unfolding total_submitted credit
total_submitted-credit [] tid n h = absurd (omega arith)
total_submitted-credit (x ∷ xs) zero n h = omega arith
total_submitted-credit (x ∷ xs) (suc tid) n h =
    omega (arith, total_submitted-credit xs tid n (omega arith))

pub length-credit :
    (thread_submitted : List ℕ) (tid n : ℕ)
    → length (credit thread_submitted tid n) ≡ length thread_submitted
unfolding credit
length-credit thread_submitted tid n =
    length-set thread_submitted tid (get_or thread_submitted tid 0 + n)

length-map {ℓ κ} :
    {A : Type ℓ} {B : Type κ} (f : A → B) (xs : List A) → length (map f xs) ≡ length xs
length-map f [] = refl
length-map f (x ∷ xs) = ap suc (length-map f xs)

pub length-batch_txs :
    (job : Job) (tid b : ℕ)
    → IsJob job
    → length (batch_txs job tid b) ≡ length (batch_indices job.total_count job.batch_size b)
length-batch_txs job tid b h =
    sym (length-map (λ (tx : Transaction). tx.nonce) (batch_txs job tid b))
    ∙ ap length (batch_txs_lem job tid b h).1
    ∙ length-map (nonce_of job.base_nonce) (batch_indices job.total_count job.batch_size b)

All-to_pb :
    (txs : List Transaction)
    → All IsTransaction txs
    → All IsPbTransaction (map to_pb txs) × All IsSmall (map to_pb txs)
All-to_pb [] h = (tt, tt)
All-to_pb (tx ∷ txs) (head, tail) =
    let rest = All-to_pb txs tail in
    ((to_pb-IsPbTransaction tx head, rest.0), (to_pb-IsSmall tx, rest.1))

-- The message of a batch is one that protobuf-c packs faithfully, and fits the receiver's buffer.
pub pb_batch_lem :
    (job : Job) (tid b : ℕ)
    → IsJob job
    → let batch = pb_batch (batch_txs job tid b) in
      All IsPbTransaction batch.transactions
      × All IsSmall batch.transactions
      × (batch.count ≡ length (batch_indices job.total_count job.batch_size b))
      × (length batch.transactions ≡ batch.count)
      × (batch.count ≤ 256)
unfolding pb_batch
pb_batch_lem job tid b h =
    let parts = All-to_pb (batch_txs job tid b) (batch_txs_lem job tid b h).0 in
    let size = length-batch_txs job tid b h in
    let few = length-batch_indices job.total_count job.batch_size b in
    let mapped = length-map to_pb (batch_txs job tid b) in
    let small = h.batch_small in
    (
      parts.0,
      parts.1,
      omega (arith, size, few, small),
      omega (arith, mapped, size, few, small),
      omega (arith, size, few, small),
    )

-- A thread counts at most the transactions of its batch, and all of them in the process itself.
pub collect-le :
    (job : Job) (s t : List ℕ) (tid b : ℕ) (resp : Option (List ℕ))
    → IsJob job
    → tid < length s
    → collect job s tid b resp ≡ finished t
    → (length t ≡ length s)
      × (total_submitted t
          ≤ total_submitted s + length (batch_indices job.total_count job.batch_size b))
unfolding collect
collect-le job s t tid b resp h threads e = ground (
  arith,
  length-batch_txs job tid b h,
  length-credit s tid (length (batch_txs job tid b)),
  total_submitted-credit s tid (length (batch_txs job tid b)) threads,
)

-- Without an answer of 128 bytes or more the body of the loop comes to its end.
pub collect_ends :
    (job : Job) (s : List ℕ) (tid b : ℕ) (resp : Option (List ℕ))
    → overruns resp ≡ false
    → (t : List ℕ) × (collect job s tid b resp ≡ finished t)
unfolding collect
collect_ends job s tid b resp short =
    let n = length (batch_txs job tid b) in
    elim (Bool-cases (n == 0)) [
      | inl empty ↦ (s, rw empty refl)
      | inr filled ↦ elim (Bool-cases (is_ok resp)) [
        | inl ok ↦ (credit s tid n, rw (filled, short, ok) refl)
        | inr other ↦ (s, rw (filled, short, other) refl)
      ]
    ]

pub submit_in_process-size :
    (job : Job) (s : List ℕ) (tid b : ℕ)
    → IsJob job
    → tid < length s
    → (length (submit_in_process job s tid b) ≡ length s)
      × (total_submitted (submit_in_process job s tid b)
          ≡ total_submitted s + length (batch_indices job.total_count job.batch_size b))
unfolding submit_in_process
submit_in_process-size job s tid b h threads = ground (
  arith,
  length-batch_txs job tid b h,
  length-credit s tid (length (batch_txs job tid b)),
  total_submitted-credit s tid (length (batch_txs job tid b)) threads,
)

-- Only the counter of the thread itself moves.
pub get_or-credit :
    (s : List ℕ) (tid n t : ℕ)
    → get_or (credit s tid n) t 0 ≤ get_or s t 0 + (if t == tid then n else 0)
unfolding credit
get_or-credit [] tid n t = omega arith
get_or-credit (x ∷ s) zero n zero = omega arith
get_or-credit (x ∷ s) zero n (suc t) = ground arith
get_or-credit (x ∷ s) (suc tid) n zero = ground arith
get_or-credit (x ∷ s) (suc tid) n (suc t) = ground (arith, get_or-credit s tid n t)
