-- ===== src/Wallet/Address/Laws.antt =====
-- Reading and printing addresses.
use shardingsim.Prelude.{
  ◌==◌, ℕ, ◌≡◌, refl, sym, ◌∙◌, ◌≢◌, ◌↔◌, true, false, none, some, List, [], ◌∷◌, length, map, All,
  IsBytes, Bool-cases, inl, inr, arith,
}
use shardingsim.Common.Hex.{bytes_to_hex_buf, hex_char_value, hex_to_bytes_buf}
use shardingsim.Common.Hex.Bounds.{length-hex_to_bytes_buf, All-hex_to_bytes_buf}
use shardingsim.Common.Hex.Laws.{
  to_lower, hex_to_bytes_loop-IsSome, hex_to_bytes_loop-text, hex_to_bytes_buf_ok,
  hex_to_bytes_buf-bytes_to_hex_buf, bytes_to_hex_buf-digits, length-bytes_to_hex_buf,
}
use shardingsim.Common.Compare.Laws.{same_bytes_iff}
use shardingsim.Common.Strings.{is_blank}
use shardingsim.Common.Hash.{OpenSsl, IsOpenSsl, hash160-IsBytes}
use shardingsim.Wallet.Address.{
  is_hex_digit, all_hex_digits, wallet_is_hex_address, wallet_name_to_address, address_to_hex,
  hex_to_address, wallet_parse_address, address_equals,
}

-- The two tables of digits, that of the test and that of the decoder, agree.
is_hex_digit-value : (c : ℕ) → is_hex_digit c ≡ true → hex_char_value c ≢ none
unfolding hex_char_value
is_hex_digit-value c h e = ground arith

all_hex_digits-values :
    (s : List ℕ) → all_hex_digits s ≡ true → All (λ c. hex_char_value c ≢ none) s
unfolding all_hex_digits
all_hex_digits-values [] h = tt
all_hex_digits-values (c ∷ s) h =
    let (here, rest) = parts in (is_hex_digit-value c here, all_hex_digits-values s rest)
  where
    parts : (is_hex_digit c ≡ true) × (all_hex_digits s ≡ true)
    parts = ground arith

value-is_hex_digit : (c : ℕ) → hex_char_value c ≢ none → is_hex_digit c ≡ true
unfolding hex_char_value
value-is_hex_digit c h = ground arith

all_hex_digits_of_values :
    (s : List ℕ) → All (λ c. hex_char_value c ≢ none) s → all_hex_digits s ≡ true
unfolding all_hex_digits
all_hex_digits_of_values [] h = refl
all_hex_digits_of_values (c ∷ s) h = rw (value-is_hex_digit c h.0, all_hex_digits_of_values s h.1)

-- Forty digits are recognised, and nothing else is.
hex_address_cases :
    (s : List ℕ)
    → wallet_is_hex_address (some s) ≡ true
    → (length s ≡ 40) × (all_hex_digits s ≡ true)
unfolding wallet_is_hex_address
hex_address_cases s h = ground arith

hex_to_address_forty :
    (s old : List ℕ) → length s ≡ 40 → hex_to_address (some s) old ≡ hex_to_bytes_buf s old 20
unfolding hex_to_address
hex_to_address_forty s old h = ground arith

-- The decoder takes every text that the test recognises.
hex_to_address-ok :
    (s old : List ℕ)
    → wallet_is_hex_address (some s) ≡ true
    → length old ≡ 20
    → (a : List ℕ) × (hex_to_address (some s) old ≡ (true, a))
      × IsBytes 20 a
      × (address_to_hex a ≡ map to_lower s)
unfolding address_to_hex
hex_to_address-ok s old h hl =
    let (forty, digits) = hex_address_cases s h in
    let (a, decoded) =
      hex_to_bytes_loop-IsSome 20 s (omega arith) (all_hex_digits-values s digits) in
    let (bytes, text) = hex_to_bytes_loop-text 20 s a (omega arith) decoded in
    (a, hex_to_address_forty s old forty ∙ hex_to_bytes_buf_ok 20 s old a hl decoded, bytes, text)

pub wallet_name_to_address-IsBytes :
    {o : OpenSsl} → IsOpenSsl o → (name : List ℕ) → IsBytes 20 (wallet_name_to_address o name)
unfolding wallet_name_to_address
wallet_name_to_address-IsBytes laws name = hash160-IsBytes laws name

-- `wallet_parse_address` never fails on a text and a buffer of 20 bytes: it leaves 20 bytes in the
-- buffer, which print as the text in lower case if the text is an address in hex, and which are the
-- hash of the text otherwise.
pub wallet_parse_address_lem :
    {o : OpenSsl}
    → IsOpenSsl o
    → (str old : List ℕ) → length old ≡ 20
    → (a : List ℕ) × (wallet_parse_address o (some str) (some old) ≡ (true, some a))
      × IsBytes 20 a
      × (wallet_is_hex_address (some str) ≡ true → address_to_hex a ≡ map to_lower str)
      × (wallet_is_hex_address (some str) ≡ false → a ≡ wallet_name_to_address o str)
unfolding wallet_parse_address wallet_name_to_address
wallet_parse_address_lem {o} laws str old hl =
    elim (Bool-cases (wallet_is_hex_address (some str))) [
      | inl hex ↦
          let (a, parsed, bytes, text) = hex_to_address-ok str old hex hl in
          (a, ground (arith, parsed), bytes, λ e. text, λ e. cc (e, hex))
      | inr named ↦ (
        wallet_name_to_address o str,
        rw named,
        hash160-IsBytes laws str,
        λ e. cc (e, named),
        λ e. refl,
      )
    ]

address_to_hex-recognised :
    (a : List ℕ) → IsBytes 20 a → wallet_is_hex_address (some (address_to_hex a)) ≡ true
unfolding wallet_is_hex_address address_to_hex
address_to_hex-recognised a h =
    let forty : length (bytes_to_hex_buf a) ≡ 40 = omega (arith, length-bytes_to_hex_buf a) in
    rw (forty, all_hex_digits_of_values (bytes_to_hex_buf a) (bytes_to_hex_buf-digits a h.1))

pub length-address_to_hex : (a : List ℕ) → IsBytes 20 a → length (address_to_hex a) ≡ 40
unfolding address_to_hex
length-address_to_hex a h = omega (arith, length-bytes_to_hex_buf a)

decode_printed :
    (a old : List ℕ)
    → IsBytes 20 a
    → length old ≡ 20
    → hex_to_bytes_buf (address_to_hex a) old 20 ≡ (true, a)
unfolding address_to_hex
decode_printed a old h hl = rw (← h.0) (hex_to_bytes_buf-bytes_to_hex_buf a old h.1 (hl ∙ sym h.0))

-- An address that is printed by `address_to_hex` is read back by `wallet_parse_address`.
pub wallet_parse_address-address_to_hex :
    (o : OpenSsl) (a old : List ℕ)
    → IsBytes 20 a
    → length old ≡ 20
    → wallet_parse_address o (some (address_to_hex a)) (some old) ≡ (true, some a)
unfolding wallet_parse_address
wallet_parse_address-address_to_hex o a old h hl = rw (address_to_hex-recognised a h, decoded)
  where
    decoded : hex_to_address (some (address_to_hex a)) old ≡ (true, a)
    decoded =
        hex_to_address_forty (address_to_hex a) old (length-address_to_hex a h)
        ∙ decode_printed a old h hl

-- `address_equals` decides equality of addresses.
address_equals_iff :
    (a b : List ℕ) → IsBytes 20 a → IsBytes 20 b → (address_equals a b ≡ true) ↔ (a ≡ b)
unfolding address_equals
address_equals_iff a b ha hb = same_bytes_iff 20 a b ha.0 hb.0

digit-dark : (c : ℕ) → hex_char_value c ≢ none → is_blank c ≡ false
unfolding hex_char_value
digit-dark c h = ground arith

-- The text of an address has no blanks in it.
pub address_to_hex-dark :
    (a : List ℕ) → IsBytes 20 a → All (λ (c : ℕ). is_blank c ≡ false) (address_to_hex a)
unfolding address_to_hex
address_to_hex-dark a h = dark (bytes_to_hex_buf a) (bytes_to_hex_buf-digits a h.1)
  where
    dark :
        (s : List ℕ) → All (λ c. hex_char_value c ≢ none) s → All (λ (c : ℕ). is_blank c ≡ false) s
    dark [] h = tt
    dark (c ∷ s) (first, others) = (digit-dark c first, dark s others)

pub hex_to_address-address_to_hex :
    (a old : List ℕ)
    → IsBytes 20 a
    → length old ≡ 20
    → hex_to_address (some (address_to_hex a)) old ≡ (true, a)
unfolding hex_to_address
hex_to_address-address_to_hex a old h hl =
    rw (length-address_to_hex a h) (decode_printed a old h hl)

pub hex_to_address-IsBytes :
    (hex old : List ℕ) → IsBytes 20 old → IsBytes 20 (hex_to_address (some hex) old).1
unfolding hex_to_address
hex_to_address-IsBytes hex old h = elim (Bool-cases (length hex == 40)) [
  | inl e ↦ rw e (length-hex_to_bytes_buf 20 hex old ∙ h.0, All-hex_to_bytes_buf 20 hex old h.1)
  | inr e ↦ rw e h
]
