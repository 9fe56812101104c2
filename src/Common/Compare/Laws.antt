-- ===== src/Common/Compare/Laws.antt =====
-- What the comparisons decide.
use Prim.Native.Nat.{Ordering}
use shardingsim.Prelude.{
  ℕ, zero, suc, ◌≡◌, refl, sym, ap₂, ◌↔◌, true, List, [], ◌∷◌, ◌++◌, length, replicate, arith,
}
use shardingsim.Common.Compare.{memcmp, same_bytes, is_zero}

zeros_of_is_zero : (xs : List ℕ) → is_zero xs ≡ true → xs ≡ replicate (length xs) 0
unfolding is_zero
zeros_of_is_zero [] h = refl
zeros_of_is_zero (x ∷ xs) h = let (head, tail) = parts in ap₂ ◌∷◌ head (zeros_of_is_zero xs tail)
  where
    parts : (x ≡ 0) × (is_zero xs ≡ true)
    parts = ground arith

pub is_zero-replicate : (n : ℕ) → is_zero (replicate n 0) ≡ true
unfolding is_zero
is_zero-replicate zero = refl
is_zero-replicate (suc n) = is_zero-replicate n

-- `is_zero` holds of an array exactly when all of its bytes are 0.
pub is_zero_iff : (bytes : List ℕ) → (is_zero bytes ≡ true) ↔ (bytes ≡ replicate (length bytes) 0)
is_zero_iff bytes = (zeros_of_is_zero bytes, λ e. rw e (is_zero-replicate (length bytes)))

memcmp-eq :
    (n : ℕ) (a b : List ℕ) → length a ≡ n → length b ≡ n → memcmp n a b ≡ Ordering.eq → a ≡ b
unfolding memcmp
memcmp-eq zero [] [] ha hb h = refl
memcmp-eq zero [] (y ∷ b) ha hb h = absurd (omega arith)
memcmp-eq zero (x ∷ a) b ha hb h = absurd (omega arith)
memcmp-eq (suc n) [] b ha hb h = absurd (omega arith)
memcmp-eq (suc n) (x ∷ a) [] ha hb h = absurd (omega arith)
memcmp-eq (suc n) (x ∷ a) (y ∷ b) ha hb h = ground (arith, memcmp-eq n a b)

memcmp_self : (n : ℕ) (a : List ℕ) → memcmp n a a ≡ Ordering.eq
unfolding memcmp
memcmp_self zero a = refl
memcmp_self (suc n) [] = refl
memcmp_self (suc n) (x ∷ a) = ground (arith, memcmp_self n a)

-- On arrays of the length compared, `memcmp` is 0 exactly on equal arrays.
pub same_bytes_iff :
    (n : ℕ) (a b : List ℕ) → length a ≡ n → length b ≡ n → (same_bytes n a b ≡ true) ↔ (a ≡ b)
unfolding same_bytes
same_bytes_iff n a b ha hb =
    (λ h. memcmp-eq n a b ha hb (ground arith), λ e. ground (arith, memcmp_self n a))

memcmp-append : (a c : List ℕ) → memcmp (length a) (a ++ c) a ≡ Ordering.eq
unfolding memcmp
memcmp-append [] c = refl
memcmp-append (x ∷ a) c = ground (arith, memcmp-append a c)

-- An array begins with its prefix.
pub same_bytes-append : (n : ℕ) (a c : List ℕ) → length a ≡ n → same_bytes n (a ++ c) a ≡ true
unfolding same_bytes
same_bytes-append n a c h =
    let same : memcmp n (a ++ c) a ≡ Ordering.eq = rw (sym h) (memcmp-append a c) in ground arith
