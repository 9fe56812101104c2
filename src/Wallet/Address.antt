-- ===== src/Wallet/Address.antt =====
-- The address utilities of src/wallet.c. Every text and every array that a caller may give as NULL is
-- an option.
pub mod Laws
use shardingsim.Prelude.{
  ℕ, zero, suc, Bool, true, false, not, ◌&&◌, ◌||◌, Option, none, some, List, [], ◌∷◌, length, leb,
  ◌==◌, if◌then◌else◌,
}
use shardingsim.Common.Hex.{bytes_to_hex_buf, hex_to_bytes_buf}
use shardingsim.Common.Compare.{is_zero, same_bytes}
use shardingsim.Common.Hash.{OpenSsl, hash160}

pub wallet_derive_address : OpenSsl → List ℕ → List ℕ
wallet_derive_address o pubkey = hash160 o pubkey

pub wallet_name_to_address : OpenSsl → List ℕ → List ℕ
wallet_name_to_address o name = hash160 o name

-- The test of the loop on one character.
abbrev pub is_hex_digit : ℕ → Bool
is_hex_digit c =
    (leb b'0' c && leb c b'9') || (leb b'a' c && leb c b'f') || (leb b'A' c && leb c b'F')

all_hex_digits : List ℕ → Bool
all_hex_digits [] = true
all_hex_digits (c ∷ str) =
    let rest = all_hex_digits str in if not (is_hex_digit c) then false else rest

unfoldable pub wallet_is_hex_address : Option (List ℕ) → Bool
unfolding all_hex_digits
wallet_is_hex_address none = false
wallet_is_hex_address (some str) = if not (length str == 40) then false else all_hex_digits str

pub address_to_hex : List ℕ → List ℕ
address_to_hex address = bytes_to_hex_buf address

-- The answer, and what is in `address` afterwards.
unfoldable pub hex_to_address : Option (List ℕ) → List ℕ → Bool × List ℕ
hex_to_address none address = (false, address)
hex_to_address (some hex) address =
    if not (length hex == 40) then (false, address) else hex_to_bytes_buf hex address 20

pub wallet_parse_address : OpenSsl → Option (List ℕ) → Option (List ℕ) → Bool × Option (List ℕ)
wallet_parse_address o none address = (false, address)
wallet_parse_address o (some str) none = (false, none)
wallet_parse_address o (some str) (some address) =
    let parsed = hex_to_address (some str) address in
    if wallet_is_hex_address (some str)
    then (parsed.0, some parsed.1)
    else (true, some (wallet_name_to_address o str))

pub txhash_to_hex : List ℕ → List ℕ
txhash_to_hex hash = bytes_to_hex_buf hash

pub address_is_valid : List ℕ → Bool
address_is_valid address = not (is_zero address)

pub address_equals : List ℕ → List ℕ → Bool
address_equals a b = same_bytes 20 a b
