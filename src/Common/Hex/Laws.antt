-- ===== src/Common/Hex/Laws.antt =====
-- Hex text and bytes are the same thing, up to the case of the digits.
use shardingsim.Prelude.{
  ℕ, zero, suc, ◌+◌, ◌*◌, ◌/◌, ◌%◌, ◌<◌, bit_or, Bool, true, false, ◌&&◌, Option, none, some, List,
  [], ◌∷◌, length, get_or, drop, leb, ◌==◌, if◌then◌else◌, u8, ◌<<<◌, map, ◌≡◌, refl, ap, arith,
  IsByte, IsBytes, All, passes, passes_sound, ==_iff, Option-cases, inl, inr, ◌≢◌,
}
use shardingsim.Prelude.Bits.{bit_and_mask, bit_or_low}
use shardingsim.Common.Hex.{
  hex_chars, high_digit, low_digit, bytes_to_hex_buf, bytes_to_hex, hex_char_value, byte_value,
  hex_to_bytes_loop, hex_to_bytes, hex_to_bytes_buf,
}

-- A decoded digit, and what decoding says about a character.
same_value : Option ℕ → ℕ → Bool
same_value none n = false
same_value (some m) n = m == n

same_value→eq : (o : Option ℕ) (n : ℕ) → same_value o n ≡ true → o ≡ some n
unfolding same_value
same_value→eq none n h = cc
same_value→eq (some m) n h = ap (λ (t : ℕ). some t) ((==_iff m n).0 h)

digit_table : passes (λ n. same_value (hex_char_value (get_or hex_chars n 0)) n) 16 ≡ true
unfolding passes same_value hex_char_value
digit_table = refl

digit-value : (n : ℕ) → n < 16 → hex_char_value (get_or hex_chars n 0) ≡ some n
digit-value n h =
    same_value→eq _ n
      (passes_sound 16 n (λ m. same_value (hex_char_value (get_or hex_chars m 0)) m) h digit_table)

high_digit-value : (b : ℕ) → IsByte b → hex_char_value (high_digit b) ≡ some (b / 16)
unfolding high_digit
high_digit-value b h =
    let fits : b / 16 % 16 ≡ b / 16 = omega arith in
    rw (bit_and_mask 4 (b / 16), fits) (digit-value (b / 16) (omega arith))

low_digit-value : (b : ℕ) → hex_char_value (low_digit b) ≡ some (b % 16)
unfolding low_digit
low_digit-value b = rw (bit_and_mask 4 b) (digit-value (b % 16) (omega arith))

byte_value-digits :
    (b : ℕ) (s : List ℕ) → IsByte b → byte_value (high_digit b ∷ low_digit b ∷ s) ≡ some b
unfolding byte_value
byte_value-digits b s h =
    rw (high_digit-value b h, low_digit-value b, bit_or_low 4 (b / 16) (b % 16) (omega arith))
      (ap (λ (t : ℕ). some t) (omega arith))

hex_to_bytes_loop-digits :
    (bytes : List ℕ)
    → All IsByte bytes
    → hex_to_bytes_loop (length bytes) (bytes_to_hex_buf bytes) ≡ some bytes
unfolding hex_to_bytes_loop bytes_to_hex_buf
hex_to_bytes_loop-digits [] h = refl
hex_to_bytes_loop-digits (b ∷ bytes) h =
    rw (byte_value-digits b (bytes_to_hex_buf bytes) h.0, hex_to_bytes_loop-digits bytes h.1)

pub length-bytes_to_hex_buf : (bytes : List ℕ) → length (bytes_to_hex_buf bytes) ≡ 2 * length bytes
unfolding bytes_to_hex_buf
length-bytes_to_hex_buf [] = refl
length-bytes_to_hex_buf (b ∷ bytes) = omega (arith, length-bytes_to_hex_buf bytes)

-- Decoding the hex text of an array of bytes gives the array back, whatever its length, where both
-- allocations succeed.
pub hex_to_bytes-bytes_to_hex :
    (bytes hex : List ℕ)
    → All IsByte bytes
    → bytes_to_hex true bytes ≡ some hex
    → hex_to_bytes true hex ≡ some bytes
unfolding hex_to_bytes bytes_to_hex
hex_to_bytes-bytes_to_hex bytes hex h e =
    let text : bytes_to_hex_buf bytes ≡ hex = ground arith in
    let even : length (bytes_to_hex_buf bytes) % 2 ≡ 0 =
      omega (arith, length-bytes_to_hex_buf bytes) in
    let half : length (bytes_to_hex_buf bytes) / 2 ≡ length bytes =
      omega (arith, length-bytes_to_hex_buf bytes) in
    rw (← text, even, half) (hex_to_bytes_loop-digits bytes h)

-- The other direction, character by character.
abbrev pub to_lower : ℕ → ℕ
to_lower c = if leb b'A' c && leb c b'F' then c + 32 else c

byte_agrees : Option ℕ → ℕ → Bool
byte_agrees none c = true
byte_agrees (some v) c = get_or hex_chars v 0 == to_lower c

letter_table : passes (λ c. byte_agrees (hex_char_value c) c) 128 ≡ true
unfolding passes byte_agrees hex_char_value
letter_table = refl

value-bounds : (c v : ℕ) → hex_char_value c ≡ some v → (c < 128) × (v < 16)
unfolding hex_char_value
value-bounds c v h = ground arith

value-digit : (c v : ℕ) → hex_char_value c ≡ some v → get_or hex_chars v 0 ≡ to_lower c
unfolding byte_agrees
value-digit c v h =
    let seen : byte_agrees (hex_char_value c) c ≡ true =
      passes_sound 128 c (λ x. byte_agrees (hex_char_value x) x) (value-bounds c v h).0
        letter_table in
    (==_iff _ _).0 (rw h at seen)

byte_value-parts :
    (c d : ℕ) (s : List ℕ) (b : ℕ)
    → byte_value (c ∷ d ∷ s) ≡ some b
    → (h : ℕ) × (l : ℕ) × (hex_char_value c ≡ some h)
      × (hex_char_value d ≡ some l)
      × (b ≡ u8 (bit_or (h <<< 4) l))
unfolding byte_value
byte_value-parts c d s b e = elim (Option-cases (hex_char_value c)) [
  | inl bad ↦ absurd (cc (rw bad at e))
  | inr (h, hi) ↦ elim (Option-cases (hex_char_value d)) [
    | inl bad ↦ absurd (cc (rw (hi, bad) at e))
    | inr (l, lo) ↦ (h, l, hi, lo, ground (arith, rw (hi, lo) at e))
  ]
]

byte_value-digit :
    (c d : ℕ) (s : List ℕ) (b : ℕ)
    → byte_value (c ∷ d ∷ s) ≡ some b
    → IsByte b × (high_digit b ≡ to_lower c) × (low_digit b ≡ to_lower d)
unfolding high_digit low_digit
byte_value-digit c d s b e =
    let (h, l, hi, lo, whole) = byte_value-parts c d s b e in
    let h_fits : h < 16 = (value-bounds c h hi).1 in
    let l_fits : l < 16 = (value-bounds d l lo).1 in
    let sum : b ≡ h * 16 + l = omega (arith, whole, bit_or_low 4 h l l_fits) in
    let top : b / 16 % 16 ≡ h = omega arith in
    let bottom : b % 16 ≡ l = omega arith in
    (
      omega arith,
      rw (bit_and_mask 4 (b / 16), top) (value-digit c h hi),
      rw (bit_and_mask 4 b, bottom) (value-digit d l lo),
    )

-- What the loop decodes is as long as the text is, in bytes, and prints back as the text in lower
-- case.
pub hex_to_bytes_loop-text :
    (n : ℕ) (s bytes : List ℕ)
    → length s ≡ 2 * n
    → hex_to_bytes_loop n s ≡ some bytes
    → IsBytes n bytes × (bytes_to_hex_buf bytes ≡ map to_lower s)
unfolding hex_to_bytes_loop bytes_to_hex_buf
hex_to_bytes_loop-text zero [] bytes hl e = ground arith
hex_to_bytes_loop-text zero (c ∷ s) bytes hl e = absurd (omega arith)
hex_to_bytes_loop-text (suc n) [] bytes hl e = absurd (omega arith)
hex_to_bytes_loop-text (suc n) (c ∷ []) bytes hl e = absurd (omega arith)
hex_to_bytes_loop-text (suc n) (c ∷ d ∷ s) bytes hl e =
    elim (Option-cases (byte_value (c ∷ d ∷ s))) [
      | inl bad ↦ absurd (cc (rw bad at e))
      | inr (b, here) ↦ elim (Option-cases (hex_to_bytes_loop n s)) [
        | inl bad ↦ absurd (cc (rw (here, bad) at e))
        | inr (rest, there) ↦
            let (fits, hi, lo) = byte_value-digit c d s b here in
            let ((same, bounds), text) = hex_to_bytes_loop-text n s rest (omega arith) there in
            let whole : b ∷ rest ≡ bytes = ground (arith, rw (here, there) at e) in
            rw (← whole) ((omega arith, (fits, bounds)), rw (hi, lo, text))
      ]
    ]

-- Whatever `hex_to_bytes` accepts has two digits for each byte of the result, all of whose elements
-- are bytes, and printing the result gives the text back with its letters in lower case.
pub bytes_to_hex-hex_to_bytes :
    (alloc : Bool) (hex bytes : List ℕ)
    → hex_to_bytes alloc hex ≡ some bytes
    → (2 * length bytes ≡ length hex)
      × All IsByte bytes
      × (bytes_to_hex true bytes ≡ some (map to_lower hex))
unfolding hex_to_bytes bytes_to_hex
bytes_to_hex-hex_to_bytes alloc hex bytes e =
    let (even, ran) = accepted in
    let ((same, bounds), text) =
      hex_to_bytes_loop-text (length hex / 2) hex bytes (omega arith) ran in
    (omega arith, bounds, ap (λ (t : List ℕ). some t) text)
  where
    accepted : (length hex % 2 ≡ 0) × (hex_to_bytes_loop (length hex / 2) hex ≡ some bytes)
    accepted = ground arith

-- With room for the whole text the buffer version does what the loop of `hex_to_bytes` does.
pub hex_to_bytes_buf_ok :
    (n : ℕ) (hex old bytes : List ℕ)
    → length old ≡ n
    → hex_to_bytes_loop n hex ≡ some bytes
    → hex_to_bytes_buf hex old n ≡ (true, bytes)
unfolding hex_to_bytes_loop hex_to_bytes_buf
hex_to_bytes_buf_ok zero hex [] bytes hl e = ground arith
hex_to_bytes_buf_ok zero hex (x ∷ old) bytes hl e = absurd (omega arith)
hex_to_bytes_buf_ok (suc n) hex [] bytes hl e = absurd (omega arith)
hex_to_bytes_buf_ok (suc n) hex (x ∷ old) bytes hl e = elim (Option-cases (byte_value hex)) [
  | inl bad ↦ absurd (cc (rw bad at e))
  | inr (b, here) ↦ elim (Option-cases (hex_to_bytes_loop n (drop 2 hex))) [
    | inl bad ↦ absurd (cc (rw (here, bad) at e))
    | inr (rest, there) ↦
        rw (here, hex_to_bytes_buf, hex_to_bytes_buf_ok n (drop 2 hex) old rest (omega arith) there)
          (ground (arith, rw (here, there) at e))
  ]
]

pub hex_to_bytes_buf_bad :
    (n : ℕ) (hex old : List ℕ)
    → length old ≡ n
    → hex_to_bytes_loop n hex ≡ none
    → (hex_to_bytes_buf hex old n).0 ≡ false
unfolding hex_to_bytes_loop hex_to_bytes_buf
hex_to_bytes_buf_bad zero hex old hl e = cc
hex_to_bytes_buf_bad (suc n) hex [] hl e = absurd (omega arith)
hex_to_bytes_buf_bad (suc n) hex (x ∷ old) hl e = elim (Option-cases (byte_value hex)) [
  | inl bad ↦ rw (bad, hex_to_bytes_buf)
  | inr (b, here) ↦ elim (Option-cases (hex_to_bytes_loop n (drop 2 hex))) [
    | inl bad ↦
        rw (here, hex_to_bytes_buf) (hex_to_bytes_buf_bad n (drop 2 hex) old (omega arith) bad)
    | inr (rest, there) ↦ absurd (cc (rw (here, there) at e))
  ]
]

-- The loop's answer on the text that `bytes_to_hex_buf` prints.
pub hex_to_bytes_buf-bytes_to_hex_buf :
    (bytes old : List ℕ)
    → All IsByte bytes
    → length old ≡ length bytes
    → hex_to_bytes_buf (bytes_to_hex_buf bytes) old (length bytes) ≡ (true, bytes)
hex_to_bytes_buf-bytes_to_hex_buf bytes old h hl =
    hex_to_bytes_buf_ok (length bytes) (bytes_to_hex_buf bytes) old bytes hl
      (hex_to_bytes_loop-digits bytes h)

-- A text whose characters are all digits is decoded.
pub hex_to_bytes_loop-IsSome :
    (n : ℕ) (s : List ℕ)
    → length s ≡ 2 * n
    → All (λ c. hex_char_value c ≢ none) s
    → (bytes : List ℕ) × (hex_to_bytes_loop n s ≡ some bytes)
unfolding hex_to_bytes_loop byte_value
hex_to_bytes_loop-IsSome zero s hl h = ([], refl)
hex_to_bytes_loop-IsSome (suc n) [] hl h = absurd (omega arith)
hex_to_bytes_loop-IsSome (suc n) (c ∷ []) hl h = absurd (omega arith)
hex_to_bytes_loop-IsSome (suc n) (c ∷ d ∷ s) hl (hc, (hd, hs)) =
    elim (Option-cases (hex_char_value c)) [
      | inl bad ↦ absurd (hc bad)
      | inr (h, hi) ↦ elim (Option-cases (hex_char_value d)) [
        | inl bad ↦ absurd (hd bad)
        | inr (l, lo) ↦
            let (bytes, rest) = hex_to_bytes_loop-IsSome n s (omega arith) hs in
            (u8 (bit_or (h <<< 4) l) ∷ bytes, rw (hi, lo, rest))
      ]
    ]

-- What is printed consists of digits.
pub bytes_to_hex_buf-digits :
    (bytes : List ℕ)
    → All IsByte bytes
    → All (λ c. hex_char_value c ≢ none) (bytes_to_hex_buf bytes)
unfolding bytes_to_hex_buf
bytes_to_hex_buf-digits [] h = tt
bytes_to_hex_buf-digits (b ∷ bytes) h = (
  λ e. cc (e, high_digit-value b h.0),
  (λ e. cc (e, low_digit-value b), bytes_to_hex_buf-digits bytes h.1),
)

pub bytes_to_hex_lem :
    (bytes text : List ℕ) → bytes_to_hex true bytes ≡ some text → bytes_to_hex_buf bytes ≡ text
unfolding bytes_to_hex
bytes_to_hex_lem bytes text e = ground arith

pub bytes_to_hex_of_buf :
    (bytes text : List ℕ) → bytes_to_hex_buf bytes ≡ text → bytes_to_hex true bytes ≡ some text
unfolding bytes_to_hex
bytes_to_hex_of_buf bytes text e = ap (λ (t : List ℕ). some t) e
