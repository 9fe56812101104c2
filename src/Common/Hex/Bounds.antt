-- ===== src/Common/Hex/Bounds.antt =====
-- What `hex_to_bytes_buf` leaves in the caller's buffer, whatever the text.
use shardingsim.Prelude.{
  ℕ, zero, suc, ◌≡◌, refl, ap, some, List, [], ◌∷◌, length, drop, arith, IsByte, All, u8, bit_or,
  ◌<<<◌, get_or, Option-cases, inl, inr,
}
use shardingsim.Common.Hex.{hex_char_value, byte_value, hex_to_bytes_buf}

byte_value-IsByte : (s : List ℕ) (b : ℕ) → byte_value s ≡ some b → IsByte b
unfolding byte_value
byte_value-IsByte s b e = elim (Option-cases (hex_char_value (get_or s 0 0))) [
  | inl bad ↦ absurd (cc (rw bad at e))
  | inr (h, high) ↦ elim (Option-cases (hex_char_value (get_or s 1 0))) [
    | inl bad ↦ absurd (cc (rw (high, bad) at e))
    | inr (l, low) ↦
        let whole : u8 (bit_or (h <<< 4) l) ≡ b = ground (arith, rw (high, low) at e) in
        omega (arith, whole)
  ]
]

pub length-hex_to_bytes_buf :
    (n : ℕ) (hex old : List ℕ) → length (hex_to_bytes_buf hex old n).1 ≡ length old
unfolding hex_to_bytes_buf
length-hex_to_bytes_buf zero hex old = refl
length-hex_to_bytes_buf (suc n) hex [] = refl
length-hex_to_bytes_buf (suc n) hex (x ∷ old) = elim (Option-cases (byte_value hex)) [
  | inl bad ↦ rw (bad, length) refl
  | inr (b, here) ↦ rw (here, length) (ap suc (length-hex_to_bytes_buf n (drop 2 hex) old))
]

pub All-hex_to_bytes_buf :
    (n : ℕ) (hex old : List ℕ) → All IsByte old → All IsByte (hex_to_bytes_buf hex old n).1
unfolding hex_to_bytes_buf
All-hex_to_bytes_buf zero hex old h = h
All-hex_to_bytes_buf (suc n) hex [] h = h
All-hex_to_bytes_buf (suc n) hex (x ∷ old) h = elim (Option-cases (byte_value hex)) [
  | inl bad ↦ rw (bad, All) h
  | inr (b, here) ↦
      rw (here, All) (byte_value-IsByte hex b here, All-hex_to_bytes_buf n (drop 2 hex) old h.1)
]
