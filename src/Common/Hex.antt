-- ===== src/Common/Hex.antt =====
-- The hex conversion of src/common.c. A C string is the list of its characters before the NUL, and
-- a read of the NUL gives 0. Whether a `malloc` succeeds is an argument of the functions that call it.
pub mod Laws
pub mod Bounds
use shardingsim.Prelude.{
  ℕ, zero, suc, ◌-◌, ◌+◌, ◌/◌, ◌%◌, bit_and, bit_or, Bool, true, false, ◌&&◌, Option, none, some,
  List, [], ◌∷◌, length, get_or, drop, leb, ◌==◌, if◌then◌else◌, u8, ◌<<<◌, ◌>>>◌,
}

abbrev pub hex_chars : List ℕ
hex_chars =
    b'0' ∷ b'1' ∷ b'2' ∷ b'3' ∷ b'4' ∷ b'5' ∷ b'6' ∷ b'7' ∷ b'8' ∷ b'9' ∷ b'a' ∷ b'b' ∷ b'c' ∷ b'd'
    ∷ b'e' ∷ b'f' ∷ []

high_digit : ℕ → ℕ
high_digit b = get_or hex_chars (bit_and (b >>> 4) 0x0f) 0

low_digit : ℕ → ℕ
low_digit b = get_or hex_chars (bit_and b 0x0f) 0

-- The text that the loop leaves in `hex`, before the NUL.
unfoldable pub bytes_to_hex_buf : List ℕ → List ℕ
unfolding high_digit low_digit
bytes_to_hex_buf [] = []
bytes_to_hex_buf (b ∷ bytes) = high_digit b ∷ low_digit b ∷ bytes_to_hex_buf bytes

-- The same loop into a new block, or NULL if there is none.
unfoldable pub bytes_to_hex : Bool → List ℕ → Option (List ℕ)
bytes_to_hex alloc bytes = if alloc then some (bytes_to_hex_buf bytes) else none

-- `none` is the value -1.
unfoldable pub hex_char_value : ℕ → Option ℕ
hex_char_value c =
    if leb b'0' c && leb c b'9'
    then some (c - b'0')
    else if leb b'a' c && leb c b'f'
    then some (c - b'a' + 10)
    else if leb b'A' c && leb c b'F'
    then some (c - b'A' + 10)
    else none

-- The two digits at the front of `s`, as the byte that the loops store.
infixl 5 ◌>>=◌
abbrev ◌>>=◌ {ℓ κ} : {A : Type ℓ} {B : Type κ} → Option A → (A → Option B) → Option B
none >>= f = none
some a >>= f = f a

pub byte_value : List ℕ → Option ℕ
byte_value s = do
  high ← hex_char_value (get_or s 0 0)
  low ← hex_char_value (get_or s 1 0)
  some (u8 (bit_or (high <<< 4) low))

-- The loop of `hex_to_bytes` with `n` rounds left; a bad digit gives NULL.
pub hex_to_bytes_loop : ℕ → List ℕ → Option (List ℕ)
hex_to_bytes_loop zero s = some []
hex_to_bytes_loop (suc n) s = do
  b ← byte_value s
  bytes ← hex_to_bytes_loop n (drop 2 s)
  some (b ∷ bytes)

-- The length that goes out through `out_len` is that of the result.
pub hex_to_bytes : Bool → List ℕ → Option (List ℕ)
hex_to_bytes alloc hex =
    if length hex % 2 == 0
    then (if alloc then hex_to_bytes_loop (length hex / 2) hex else none)
    else none

-- `n` rounds over the caller's buffer, which keeps what was stored before a bad digit.
pub hex_to_bytes_buf : List ℕ → List ℕ → ℕ → Bool × List ℕ
hex_to_bytes_buf hex bytes zero = (true, bytes)
hex_to_bytes_buf hex [] (suc n) = (true, [])
hex_to_bytes_buf hex (old ∷ bytes) (suc n) =
    let rest = hex_to_bytes_buf (drop 2 hex) bytes n in
    elim (byte_value hex) [ none ↦ (false, old ∷ bytes) | some b ↦ (rest.0, b ∷ rest.1) ]
