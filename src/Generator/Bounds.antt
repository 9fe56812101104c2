-- ===== src/Generator/Bounds.antt =====
-- The limits of the options, and that the batches divide the transactions.
use shardingsim.Prelude.{
  true, ◌^◌, ltb, ℕ, zero, suc, ◌+◌, ◌-◌, ◌*◌, ◌≤◌, ◌<◌, ◌≡◌, refl, sym, ap, ◌∙◌, List, [], ◌∷◌,
  ◌++◌, length, ltb, if◌then◌else◌, arith, ℤ, pos, negsuc,
}
use native.Mathlib.Nat.{div-add-mod', mod-lt, mul-le-mul_right}
use native.Mathlib.Decide.{dec_le}
use mathlib.Core.List.{append-nil}
use shardingsim.Generator.{
  max_threads, max_batch_size, clamp_batch_size, clamp_num_threads, num_batches, batch_range,
}

-- Whatever the options say, there are between 1 and 256 transactions a batch and between 1 and 64
-- threads, and a number within the limits is taken as it is.
pub clamp_lem :
    (given : ℤ)
    → (0 < clamp_batch_size given)
      × (clamp_batch_size given ≤ max_batch_size)
      × (0 < clamp_num_threads given)
      × (clamp_num_threads given ≤ max_threads)
      × ((n : ℕ) → 0 < n → n ≤ max_threads → given ≡ pos n → clamp_num_threads given ≡ n)
      × ((n : ℕ) → 0 < n → n ≤ max_batch_size → given ≡ pos n → clamp_batch_size given ≡ n)
unfolding clamp_batch_size clamp_num_threads
clamp_lem (negsuc k) = (
  omega arith,
  omega arith,
  omega arith,
  omega arith,
  λ n lo hi e. absurd (cc e),
  λ n lo hi e. absurd (cc e),
)
clamp_lem (pos k) = (
  ground arith,
  ground arith,
  ground arith,
  ground arith,
  λ n lo hi e. let same : k ≡ n = cc e in ground arith,
  λ n lo hi e. let same : k ≡ n = cc e in ground arith,
)

-- `from`, `from + 1`, …
unfoldable pub count_from : ℕ → ℕ → List ℕ
count_from from zero = []
count_from from (suc n) = from ∷ count_from (suc from) n

pub count_from-append :
    (from n m : ℕ) → count_from from n ++ count_from (from + n) m ≡ count_from from (n + m)
unfolding count_from
count_from-append from zero m =
    let e : from + 0 ≡ from = omega arith in let z : 0 + m ≡ m = omega arith in rw (e, z)
count_from-append from (suc n) m =
    let e : from + suc n ≡ suc from + n = omega arith in
    let s : suc n + m ≡ suc (n + m) = omega arith in
    rw (e, s) (ap (λ (t : List ℕ). from ∷ t) (count_from-append (suc from) n m))

pub count_from_last : (n : ℕ) → count_from 0 (suc n) ≡ count_from 0 n ++ (n ∷ [])
unfolding count_from
count_from_last n =
    let one_more : suc n ≡ n + 1 = omega arith in
    let last : 0 + n ≡ n = omega arith in
    ap (count_from 0) one_more
    ∙ sym (count_from-append 0 n 1)
    ∙ ap (λ (k : ℕ). count_from 0 n ++ (k ∷ [])) last

pub length-count_from : (from n : ℕ) → length (count_from from n) ≡ n
unfolding count_from
length-count_from from zero = refl
length-count_from from (suc n) = ap suc (length-count_from (suc from) n)

-- The indices that batch `b` makes transactions for.
unfoldable pub batch_indices : ℕ → ℕ → ℕ → List ℕ
batch_indices total_count batch_size b =
    let (tx_start, tx_end) = batch_range total_count batch_size b in
    count_from tx_start (tx_end - tx_start)

-- What the first `n` batches make.
unfoldable pub first_batches : ℕ → ℕ → ℕ → List ℕ
unfolding batch_indices
first_batches total_count batch_size zero = []
first_batches total_count batch_size (suc n) =
    first_batches total_count batch_size n ++ batch_indices total_count batch_size n

-- The smaller of the two, as `tx_end` is computed.
cut : ℕ → ℕ → ℕ
cut total x = if ltb total x then total else x

cut_low : (total x : ℕ) → x ≤ total → cut total x ≡ x
unfolding cut
cut_low total x h = ground arith

cut_high : (total x : ℕ) → total ≤ x → cut total x ≡ total
unfolding cut
cut_high total x h = ground arith

le-cut : (total x lo : ℕ) → lo ≤ total → lo ≤ x → lo ≤ cut total x
unfolding cut
le-cut total x lo h h' = ground arith

batch_indices_lem :
    (total batch_size b : ℕ)
    → batch_indices total batch_size b
      ≡ count_from (b * batch_size) (cut total (b * batch_size + batch_size) - b * batch_size)
unfolding batch_indices batch_range cut
batch_indices_lem total batch_size b = refl

cut-le : (total x : ℕ) → cut total x ≤ x
unfolding cut
cut-le total x = ground arith

pub length-batch_indices :
    (total batch_size b : ℕ) → length (batch_indices total batch_size b) ≤ batch_size
length-batch_indices total batch_size b =
    rw
      (
        batch_indices_lem total batch_size b,
        length-count_from (b * batch_size)
            (cut total (b * batch_size + batch_size) - b * batch_size),
      )
      (omega (arith, cut-le total (b * batch_size + batch_size)))

-- A batch goes on where those before it end, or makes nothing.
batch_indices-append :
    (total batch_size b : ℕ)
    → count_from 0 (cut total (b * batch_size)) ++ batch_indices total batch_size b
      ≡ count_from 0 (cut total (b * batch_size + batch_size))
unfolding count_from
batch_indices-append total batch_size b = elim (dec_le (b * batch_size) total) [
  | yes low ↦
      let start : 0 + b * batch_size ≡ b * batch_size = omega arith in
      let more = cut total (b * batch_size + batch_size) - b * batch_size in
      let joined : count_from 0 (b * batch_size) ++ count_from (b * batch_size) more
          ≡ count_from 0 (b * batch_size + more) =
        ap (λ (t : ℕ). count_from 0 (b * batch_size) ++ count_from t more) (sym start)
        ∙ count_from-append 0 (b * batch_size) more in
      let end : b * batch_size + more ≡ cut total (b * batch_size + batch_size) =
        omega
          (arith, le-cut total (b * batch_size + batch_size) (b * batch_size) low (omega arith)) in
      rw (cut_low total (b * batch_size) low, batch_indices_lem total batch_size b)
        (rw end at joined)
  | no high ↦
      let none : cut total (b * batch_size + batch_size) - b * batch_size ≡ 0 =
        omega (arith, cut_high total (b * batch_size + batch_size) (omega arith)) in
      rw
        (
          cut_high total (b * batch_size) (omega arith),
          batch_indices_lem total batch_size b,
          none,
          cut_high total (b * batch_size + batch_size) (omega arith),
        )
        (append-nil (count_from 0 total))
]

mul-suc_left : (n k : ℕ) → suc n * k ≡ n * k + k
mul-suc_left n k = omega arith

first_batches_lem :
    (total batch_size n : ℕ)
    → first_batches total batch_size n ≡ count_from 0 (cut total (n * batch_size))
unfolding first_batches count_from
first_batches_lem total batch_size zero =
    let z : 0 * batch_size ≡ 0 = omega arith in rw (z, cut_low total 0 (omega arith))
first_batches_lem total batch_size (suc n) =
    let step : suc n * batch_size ≡ n * batch_size + batch_size = mul-suc_left n batch_size in
    rw (step, first_batches_lem total batch_size n) (batch_indices-append total batch_size n)

-- The number of batches is enough, and one less is not.
pub num_batches_lem :
    (total batch_size : ℕ)
    → 0 < batch_size
    → total + batch_size ≤ 2 ^ 31
    → (total ≤ num_batches (pos total) batch_size * batch_size)
      × ((b : ℕ) → b < num_batches (pos total) batch_size → b * batch_size < total)
unfolding num_batches
num_batches_lem total batch_size h fits =
    let sum : ltb (total + batch_size - 1) (2 ^ 31) ≡ true = ground arith in
    let parts = div-add-mod' (total + batch_size - 1) batch_size in
    let small = mod-lt (total + batch_size - 1) h in
    rw sum (
      omega (arith, parts, small),
      λ b hb.
          let most = mul-le-mul_right batch_size hb in
          omega (arith, parts, most, mul-suc_left b batch_size),
    )

-- Where `total_count + batch_size - 1` is an `int`, the batches in their order make each of the indices
-- 0, 1, … below `total_count` once, and none of them is empty.
pub first_batches-num_batches :
    (total_count batch_size : ℕ)
    → 0 < batch_size
    → total_count + batch_size ≤ 2 ^ 31
    → (first_batches total_count batch_size (num_batches (pos total_count) batch_size)
        ≡ count_from 0 total_count)
      × ((b : ℕ)
          → b < num_batches (pos total_count) batch_size
          → 0 < length (batch_indices total_count batch_size b))
first_batches-num_batches total batch_size h fits = (
  first_batches_lem total batch_size (num_batches (pos total) batch_size)
      ∙ rw (
          cut_high total (num_batches (pos total) batch_size * batch_size)
            (num_batches_lem total batch_size h fits).0),
  λ b hb.
      rw
        (
          batch_indices_lem total batch_size b,
          length-count_from (b * batch_size)
              (cut total (b * batch_size + batch_size) - b * batch_size),
        )
        (nonempty b ((num_batches_lem total batch_size h fits).1 b hb)),
)
  where
    nonempty :
        (b : ℕ)
        → b * batch_size < total
        → 0 < cut total (b * batch_size + batch_size) - b * batch_size
    nonempty b low =
        omega (
          arith,
          le-cut total (b * batch_size + batch_size) (suc (b * batch_size)) low (omega arith),
        )
