-- ===== src/Prelude/Copy.antt =====
-- What a block copy leaves in its destination.
use Prim.Native.Nat.{ℕ, zero, suc, ◌+◌, ◌<◌, ◌≤◌}
use mathlib.Core.Path.{◌≡◌, refl, sym, ap, ◌∙◌}
use mathlib.Core.List.{List, [], ◌∷◌, ◌++◌, append_assoc, append-nil}
use native.Mathlib.Omega.{arith}
use shardingsim.Prelude.Lists.{
  length, set, take, drop, memcpy, All, length-set, take-append-drop, take_all, All-set,
}

module _ {ℓ} {A : Type ℓ} where
  take-set :
      (off : ℕ) (dst : List A) (x : A)
      → off < length dst
      → take (suc off) (set dst off x) ≡ take off dst ++ (x ∷ [])
  take-set off [] x h = absurd (omega arith)
  take-set zero (y ∷ dst) x h = refl
  take-set (suc off) (y ∷ dst) x h = ap (λ (t : List A). y ∷ t) (take-set off dst x (omega arith))

  drop-set : (k off : ℕ) (dst : List A) (x : A) → off < k → drop k (set dst off x) ≡ drop k dst
  drop-set k off [] x h = refl
  drop-set zero off (y ∷ dst) x h = absurd (omega arith)
  drop-set (suc k) zero (y ∷ dst) x h = refl
  drop-set (suc k) (suc off) (y ∷ dst) x h = drop-set k off dst x (omega arith)

  -- Inside both arrays a copy replaces exactly its range.
  pub memcpy_lem :
      (n : ℕ) (dst : List A) (off : ℕ) (src : List A)
      → off + n ≤ length dst
      → n ≤ length src
      → memcpy dst off src n ≡ take off dst ++ (take n src ++ drop (off + n) dst)
  memcpy_lem zero dst off src hd hs =
      let e : off ≡ off + 0 = omega arith in
      sym (take-append-drop off dst) ∙ ap (λ (t : ℕ). take off dst ++ drop t dst) e
  memcpy_lem (suc n) dst off [] hd hs = absurd (omega arith)
  memcpy_lem (suc n) dst off (x ∷ src) hd hs =
      let e : suc off + n ≡ off + suc n = omega arith in
      memcpy_lem n (set dst off x) (suc off) src (omega (arith, length-set dst off x)) (omega arith)
      ∙ ap (λ (t : List A). t ++ (take n src ++ drop (suc off + n) (set dst off x)))
          (take-set off dst x (omega arith))
      ∙ append_assoc (take off dst) (x ∷ []) (take n src ++ drop (suc off + n) (set dst off x))
      ∙ ap (λ (t : List A). take off dst ++ (x ∷ (take n src ++ t)))
          (drop-set (suc off + n) off dst x (omega arith) ∙ ap (λ (t : ℕ). drop t dst) e)

  pub drop-length : (n : ℕ) (xs : List A) → length xs ≡ n → drop n xs ≡ []
  drop-length zero [] h = refl
  drop-length zero (x ∷ xs) h = absurd (omega arith)
  drop-length (suc n) [] h = refl
  drop-length (suc n) (x ∷ xs) h = drop-length n xs (omega arith)

  -- A copy of the whole array.
  pub memcpy_all :
      (n : ℕ) (dst src : List A) → length dst ≡ n → length src ≡ n → memcpy dst 0 src n ≡ src
  memcpy_all n dst src hd hs =
      let e : n ≡ 0 + n = omega arith in
      memcpy_lem n dst 0 src (omega arith) (omega arith)
      ∙ ap (λ (t : List A). t ++ drop (0 + n) dst) (take_all n src (sym hs))
      ∙ ap (λ (t : List A). src ++ t) (drop-length (0 + n) dst (omega arith))
      ∙ append-nil src

module _ {ℓ κ} {A : Type ℓ} (P : A → Type κ) where
  pub All-memcpy :
      (dst : List A) (off : ℕ) (src : List A) (n : ℕ)
      → All P dst
      → All P src
      → All P (memcpy dst off src n)
  All-memcpy dst off src zero hd hs = hd
  All-memcpy dst off [] (suc n) hd hs = hd
  All-memcpy dst off (x ∷ src) (suc n) hd hs =
      All-memcpy (set dst off x) (suc off) src n (All-set P dst off x hd hs.0) hs.1
