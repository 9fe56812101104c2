-- ===== src/Prelude/Bits.antt =====
-- Laws of the native bit operations at variables, each from the equation for the lowest digit.
use Prim.Native.Nat.{ℕ, zero, suc, ◌+◌, ◌-◌, ◌*◌, ◌/◌, ◌%◌, ◌^◌, ◌≤◌, ◌<◌, min, max}
use Prim.Native.Nat.{bit_and, bit_or, bit_xor, digits, differ, bitwise}
use Prim.Native.Nat.{bit_and-bitwise, bit_or-bitwise, bit_xor-bitwise}
use mathlib.Core.Path.{◌≡◌, refl, sym, ap, ◌∙◌}
use native.Mathlib.Nat.{
  pow-suc, one-le-pow, mul-add-mod_self_right, mod-eq_of_lt, mod-lt, div-add-mod,
}
use native.Mathlib.Omega.{arith}

-- Fuel for the first argument is fuel enough: `bound` limits both sides of the recursion.
module _ (last : ℕ → ℕ) (combine : ℕ → ℕ → ℕ) where
  digits-bitwise :
      (bound fuel x y : ℕ)
      → fuel ≤ bound
      → x ≤ fuel
      → digits last combine fuel x y ≡ bitwise last combine x y
  digits-bitwise bound zero zero y hf hx = refl
  digits-bitwise bound (suc n) zero y hf hx = refl
  digits-bitwise bound zero (suc x) y hf hx = absurd (omega arith)
  digits-bitwise zero (suc n) (suc x) y hf hx = absurd (omega arith)
  digits-bitwise (suc bound) (suc n) (suc x) y hf hx =
      let less = digits-bitwise bound n (suc x / 2) (y / 2) (omega arith) (omega arith) in
      let exact = digits-bitwise bound x (suc x / 2) (y / 2) (omega arith) (omega arith) in
      omega (arith, less, exact)

  lowest_digit :
      (x y : ℕ)
      → bitwise last combine (suc x) y
        ≡ combine (suc x % 2) (y % 2) + 2 * bitwise last combine (suc x / 2) (y / 2)
  lowest_digit x y =
      let halved = digits-bitwise x x (suc x / 2) (y / 2) (omega arith) (omega arith) in
      omega (arith, halved)

bit_or_step : (x y : ℕ) → bit_or x y ≡ max (x % 2) (y % 2) + 2 * bit_or (x / 2) (y / 2)
bit_or_step zero y = simp bit_or-bitwise (omega arith)
bit_or_step (suc x) y = simp bit_or-bitwise (lowest_digit (λ rest. rest) max x y)

bit_and_step : (x y : ℕ) → bit_and x y ≡ min (x % 2) (y % 2) + 2 * bit_and (x / 2) (y / 2)
bit_and_step zero y = simp bit_and-bitwise (omega arith)
bit_and_step (suc x) y = simp bit_and-bitwise (lowest_digit (λ rest. 0) min x y)

-- The difference of two digits, as a number that `omega` can bound.
differ-lt : (x y : ℕ) → x < 2 → y < 2 → differ x y < 2
differ-lt zero y hx hy = hy
differ-lt (suc x) zero hx hy = hx
differ-lt (suc zero) (suc zero) hx hy = omega arith
differ-lt (suc (suc x)) (suc y) hx hy = absurd (omega arith)
differ-lt (suc zero) (suc (suc y)) hx hy = absurd (omega arith)

differ-zero : (x : ℕ) → x < 2 → differ zero x ≡ x
differ-zero x h = refl

bit_xor_step : (x y : ℕ) → bit_xor x y ≡ differ (x % 2) (y % 2) + 2 * bit_xor (x / 2) (y / 2)
bit_xor_step zero y = simp bit_xor-bitwise (omega arith)
bit_xor_step (suc x) y = simp bit_xor-bitwise (lowest_digit (λ rest. rest) differ x y)

half-lt : (k a : ℕ) → a < 2 ^ suc k → a / 2 < 2 ^ k
half-lt k a h = omega (arith, pow-suc 2 k)

-- Below 1 there is no digit left, above it the lowest one is split off.
zero_of_lt_one : (a : ℕ) → a < 2 ^ 0 → a ≡ 0
zero_of_lt_one a h = omega arith

-- `|` and `^` stay inside the width that both arguments fit.
pub bit_or-lt : (k a b : ℕ) → a < 2 ^ k → b < 2 ^ k → bit_or a b < 2 ^ k
bit_or-lt zero a b ha hb = rw (zero_of_lt_one a ha, zero_of_lt_one b hb) (omega arith)
bit_or-lt (suc k) a b ha hb = omega (
  arith,
  bit_or_step a b,
  pow-suc 2 k,
  bit_or-lt k (a / 2) (b / 2) (half-lt k a ha) (half-lt k b hb),
)

pub bit_xor-lt : (k a b : ℕ) → a < 2 ^ k → b < 2 ^ k → bit_xor a b < 2 ^ k
bit_xor-lt zero a b ha hb = rw (zero_of_lt_one a ha, zero_of_lt_one b hb) (omega arith)
bit_xor-lt (suc k) a b ha hb = omega (
  arith,
  bit_xor_step a b,
  pow-suc 2 k,
  differ-lt (a % 2) (b % 2) (omega arith) (omega arith),
  bit_xor-lt k (a / 2) (b / 2) (half-lt k a ha) (half-lt k b hb),
)

shifted_twice : (q k : ℕ) → q * 2 ^ suc k ≡ 2 * (q * 2 ^ k)
shifted_twice q k = omega (arith, ap (λ (t : ℕ). q * t) (pow-suc 2 k))

-- A missing second argument.
bit_or-zero : (n a : ℕ) → a ≤ n → bit_or a 0 ≡ a
bit_or-zero n zero h = refl
bit_or-zero (suc n) (suc a) h =
    let half = bit_or-zero n (suc a / 2) (omega arith) in omega (arith, half, bit_or_step (suc a) 0)
bit_or-zero zero (suc a) h = absurd (omega arith)

bit_and-zero : (n a : ℕ) → a ≤ n → bit_and a 0 ≡ 0
bit_and-zero n zero h = refl
bit_and-zero (suc n) (suc a) h =
    let half = bit_and-zero n (suc a / 2) (omega arith) in
    omega (arith, half, bit_and_step (suc a) 0)
bit_and-zero zero (suc a) h = absurd (omega arith)

halved : (k q : ℕ) → q * 2 ^ suc k / 2 ≡ q * 2 ^ k
halved k q = omega (arith, shifted_twice q k)

mask_halves : (k : ℕ) → ((2 ^ suc k - 1) / 2 ≡ 2 ^ k - 1) × ((2 ^ suc k - 1) % 2 ≡ 1)
mask_halves k =
    (omega (arith, pow-suc 2 k, one-le-pow k 2), omega (arith, pow-suc 2 k, one-le-pow k 2))

-- `(q << k) | r` is a sum when `r` fits in the `k` low bits.
pub bit_or_low : (k q r : ℕ) → r < 2 ^ k → bit_or (q * 2 ^ k) r ≡ q * 2 ^ k + r
bit_or_low zero q r h = ground (arith, bit_or-zero q q (omega arith))
bit_or_low (suc k) q r h = omega (
  arith,
  bit_or_step (q * 2 ^ suc k) r,
  shifted_twice q k,
  ap (λ (t : ℕ). bit_or t (r / 2)) (halved k q),
  bit_or_low k q (r / 2) (half-lt k r h),
)

mod_split : (m q r a : ℕ) → a ≡ q * m + r → r < m → a % m ≡ r
mod_split m q r a e h = ap (λ (t : ℕ). t % m) e ∙ mul-add-mod_self_right q m r ∙ mod-eq_of_lt h

low_digit : (k a : ℕ) → min (a % 2) 1 + 2 * (a / 2 % 2 ^ k) ≡ a % 2 ^ suc k
low_digit k a =
    let quotient : a / 2 / 2 ^ k * 2 ^ suc k ≡ 2 * (a / 2 / 2 ^ k * 2 ^ k) =
      shifted_twice (a / 2 / 2 ^ k) k in
    let parts : 2 ^ k * (a / 2 / 2 ^ k) + a / 2 % 2 ^ k ≡ a / 2 = div-add-mod (a / 2) (2 ^ k) in
    sym (
      mod_split (2 ^ suc k) (a / 2 / 2 ^ k) (min (a % 2) 1 + 2 * (a / 2 % 2 ^ k)) a (omega arith) (
        omega (
          arith,
          pow-suc 2 k,
          one-le-pow k 2,
          mod-lt (a / 2) {m = 2 ^ k} (one-le-pow k 2 (omega arith)),
        )))

-- A mask of `k` ones is the remainder by `2 ^ k`.
pub bit_and_mask : (k a : ℕ) → bit_and a (2 ^ k - 1) ≡ a % 2 ^ k
bit_and_mask zero a = ground (arith, bit_and-zero a a (omega arith))
bit_and_mask (suc k) a =
    bit_and_step a (2 ^ suc k - 1)
    ∙ rw ((mask_halves k).0, (mask_halves k).1, bit_and_mask k (a / 2)) (low_digit k a)

zero-bit_or : (b : ℕ) → bit_or 0 b ≡ b
zero-bit_or b = bit_or-bitwise 0 b

bit_or_comm_fuel : (n a b : ℕ) → a ≤ n → b ≤ n → bit_or a b ≡ bit_or b a
bit_or_comm_fuel n zero b ha hb = zero-bit_or b ∙ sym (bit_or-zero b b (omega arith))
bit_or_comm_fuel zero (suc a) b ha hb = absurd (omega arith)
bit_or_comm_fuel (suc n) (suc a) b ha hb = omega (
  arith,
  bit_or_step (suc a) b,
  bit_or_step b (suc a),
  bit_or_comm_fuel n (suc a / 2) (b / 2) (omega arith) (omega arith),
)

-- `r | (q << k)` is a sum when `r` fits in the `k` low bits.
pub bit_or_high : (k q r : ℕ) → r < 2 ^ k → bit_or r (q * 2 ^ k) ≡ q * 2 ^ k + r
bit_or_high k q r h =
    bit_or_comm_fuel (r + q * 2 ^ k) r (q * 2 ^ k) (omega arith) (omega arith) ∙ bit_or_low k q r h
