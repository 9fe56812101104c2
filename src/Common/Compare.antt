-- ===== src/Common/Compare.antt =====
-- The comparison utilities of src/common.c, and the `memcmp` that they and the macros call.
pub mod Laws
pub mod Zeros
use Prim.Native.Nat.{compare, Ordering}
use shardingsim.Prelude.{
  ℕ, zero, suc, ◌+◌, ◌*◌, ◌%◌, ◌^◌, bit_and, ◌&&◌, Bool, true, false, List, [], ◌∷◌, ◌==◌,
  if◌then◌else◌, u8, u32,
}

-- The sign of `memcmp (a, b, n)`; arrays shorter than `n` compare by what they have.
pub memcmp : ℕ → List ℕ → List ℕ → Ordering
memcmp zero a b = Ordering.eq
memcmp (suc n) [] b = Ordering.eq
memcmp (suc n) (x ∷ a) [] = Ordering.eq
memcmp (suc n) (x ∷ a) (y ∷ b) =
    let rest = memcmp n a b in
    elim (compare x y) [
      | Ordering.lt ↦ Ordering.lt
      | Ordering.eq ↦ rest
      | Ordering.gt ↦ Ordering.gt
    ]

pub compare_bytes : List ℕ → List ℕ → ℕ → Ordering
compare_bytes a b len = memcmp len a b

-- `memcmp (a, b, n) == 0`
pub same_bytes : ℕ → List ℕ → List ℕ → Bool
unfolding memcmp
same_bytes n a b = elim (memcmp n a b) [ Ordering.eq ↦ true | _ ↦ false ]

-- `data` is the array of `len` bytes.
pub is_zero : List ℕ → Bool
is_zero [] = true
is_zero (b ∷ bytes) = let rest = is_zero bytes in if b == 0 then rest else false

-- `while ((b & 0x80) == 0)`: a byte that is not 0 reaches its top bit within 7 shifts.
byte_zeros : ℕ → ℕ → ℕ
byte_zeros zero b = 0
byte_zeros (suc fuel) b =
    let more = byte_zeros fuel (u8 (b * 2)) in if bit_and b 0x80 == 0 then more + 1 else 0

-- The loop, with `zeros` so far.
zeros_from : ℕ → List ℕ → ℕ
zeros_from zeros [] = zeros
zeros_from zeros (b ∷ bytes) =
    let rest = zeros_from (u32 (zeros + 8)) bytes in
    if b == 0 then rest else u32 (zeros + byte_zeros 8 b)

pub count_leading_zeros : List ℕ → ℕ
unfolding zeros_from byte_zeros
count_leading_zeros bytes = zeros_from 0 bytes

-- `strcmp(a, b) == 0`
pub streq : List ℕ → List ℕ → Bool
streq [] [] = true
streq [] (y ∷ b) = false
streq (x ∷ a) [] = false
streq (x ∷ a) (y ∷ b) = x == y && streq a b
