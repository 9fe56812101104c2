-- ===== src/Common/Compare/Zeros.antt =====
-- What `count_leading_zeros` counts.
use shardingsim.Prelude.{
  ℕ, suc, ◌+◌, ◌*◌, ◌/◌, ◌%◌, ◌^◌, ◌<◌, ◌≡◌, refl, ap, true, false, ◌&&◌, ◌||◌, ltb, List, [], ◌∷◌,
  ◌++◌, length, ◌==◌, if◌then◌else◌, u32, IsByte, All, arith, Bool-cases, inl, inr, passes,
  passes_sound, ==_iff,
}
use shardingsim.Common.Compare.{byte_zeros, zeros_from, count_leading_zeros}

-- The bits of a byte, the highest first.
unfoldable pub byte_bits : ℕ → List ℕ
byte_bits b =
    b / 128 % 2
    ∷ b / 64 % 2
    ∷ b / 32 % 2
    ∷ b / 16 % 2
    ∷ b / 8 % 2
    ∷ b / 4 % 2
    ∷ b / 2 % 2
    ∷ b % 2
    ∷ []

unfoldable pub bits_of : List ℕ → List ℕ
unfolding byte_bits
bits_of [] = []
bits_of (b ∷ bytes) = byte_bits b ++ bits_of bytes

-- The zeros before the first other bit.
unfoldable pub leading_zeros : List ℕ → ℕ
leading_zeros [] = 0
leading_zeros (b ∷ bits) = let rest = leading_zeros bits in if b == 0 then suc rest else 0

byte_table :
    passes
      (λ b.
        b == 0
        || (byte_zeros 8 b == leading_zeros (byte_bits b) && ltb (leading_zeros (byte_bits b)) 8))
      256
    ≡ true
unfolding passes byte_zeros leading_zeros byte_bits
byte_table = refl

-- In a byte that is not 0 the shifts find the first bit.
byte_zeros-leading_zeros :
    (b : ℕ)
    → IsByte b
    → (b == 0) ≡ false
    → (byte_zeros 8 b ≡ leading_zeros (byte_bits b)) × (leading_zeros (byte_bits b) < 8)
byte_zeros-leading_zeros b byte some =
    let seen =
      passes_sound 256 b
        (λ b.
          b == 0
          || (byte_zeros 8 b == leading_zeros (byte_bits b) && ltb (leading_zeros (byte_bits b)) 8))
        byte byte_table in
    (ground (arith, seen, some), ground (arith, seen, some))

leading_zeros-append :
    (xs ys : List ℕ) → leading_zeros xs < length xs → leading_zeros (xs ++ ys) ≡ leading_zeros xs
unfolding leading_zeros
leading_zeros-append [] ys h = absurd (omega arith)
leading_zeros-append (x ∷ xs) ys h = elim (Bool-cases (x == 0)) [
  | inl none ↦
      let more : suc (leading_zeros xs) < suc (length xs) = rw none at h in
      rw none (ap suc (leading_zeros-append xs ys (omega (arith, more))))
  | inr some ↦ rw some refl
]

-- A byte that is 0 has eight zeros, and the count goes on.
leading_zeros-zero :
    (b : ℕ) (bits : List ℕ)
    → (b == 0) ≡ true
    → leading_zeros (byte_bits b ++ bits) ≡ leading_zeros bits + 8
leading_zeros-zero b bits none = let e : b ≡ 0 = (==_iff b 0).0 none in rw e (eight bits)
  where
    eight : (bits : List ℕ) → leading_zeros (byte_bits 0 ++ bits) ≡ leading_zeros bits + 8
    eight bits = unfold leading_zeros byte_bits in omega arith

zeros_from-leading_zeros :
    (so_far : ℕ) (bytes : List ℕ)
    → All IsByte bytes
    → so_far + 8 * length bytes < 2 ^ 32
    → zeros_from so_far bytes ≡ so_far + leading_zeros (bits_of bytes)
unfolding zeros_from bits_of
zeros_from-leading_zeros so_far [] all fits = unfold leading_zeros in omega arith
zeros_from-leading_zeros so_far (b ∷ bytes) (byte, others) fits = elim (Bool-cases (b == 0)) [
  | inl none ↦
      let count : u32 (so_far + 8) ≡ so_far + 8 = omega arith in
      rw (none, leading_zeros-zero b (bits_of bytes) none, count)
        (omega (arith, zeros_from-leading_zeros (so_far + 8) bytes others (omega arith)))
  | inr some ↦
      let (found, few) = byte_zeros-leading_zeros b byte some in
      rw (some, leading_zeros-append (byte_bits b) (bits_of bytes) (unfold byte_bits in few))
        (omega (arith, found, few))
]

-- For an array of less than 2^29 bytes `count_leading_zeros` is the number of zeros before the first
-- other bit, the highest bit of a byte first.
pub count_leading_zeros-leading_zeros :
    (bytes : List ℕ)
    → All IsByte bytes
    → length bytes < 2 ^ 29
    → count_leading_zeros bytes ≡ leading_zeros (bits_of bytes)
unfolding count_leading_zeros
count_leading_zeros-leading_zeros bytes all small =
    omega (arith, zeros_from-leading_zeros 0 bytes all (omega arith))
