-- ===== src/Tests/Files.antt =====
-- The file of a wallet.
use shardingsim.Prelude.{
  ◌++◌, ◌<◌, ◌%◌, ◌^◌, ℕ, ◌+◌, ◌-◌, ◌≡◌, refl, true, Option, some, List, [], ◌∷◌, arith, replicate,
}
use shardingsim.Common.Strings.{safe_strcpy, starts_with, trim}
use shardingsim.Wallet.{Wallet}
use shardingsim.Wallet.Address.{address_to_hex, hex_to_address}
use shardingsim.Wallet.Files.{
  newline, name_tag, address_tag, blank_wallet, load_lines, load_line, load_header, load_key,
  read_line, contains, loaded, wallet_save, wallet_load,
}
use shardingsim.Wallet.Files.Laws.{pem_of}
use shardingsim.Wallet.Files.Bounds.{Fits, wallet_load-Fits}
use shardingsim.Wallet.Files.RoundTrip.{wallet_load-wallet_save}

-- A printer and a reader of numbers below 10, and a reader of keys.
print_digit : ℕ → List ℕ
print_digit n = (b'0' + n) ∷ []

read_digit : List ℕ → ℕ
read_digit [] = 0
read_digit (c ∷ rest) = c - b'0'

read_handle : List ℕ → Option ℕ
read_handle pem = some 9

-- "KEY:" and "-----END"
abbrev first_line : List ℕ
first_line = b'K' ∷ b'E' ∷ b'Y' ∷ b':' ∷ []

abbrev last_line : List ℕ
last_line = b'-' ∷ b'-' ∷ b'-' ∷ b'-' ∷ b'-' ∷ b'E' ∷ b'N' ∷ b'D' ∷ []

abbrev kept : Wallet
kept = record {
  name = b'a' ∷ b'l' ∷ [];
  address = replicate 20 7;
  address_hex = address_to_hex (replicate 20 7);
  public_key = replicate 65 4;
  public_key_len = 65;
  evp_key = some 9;
  private_key_pem = pem_of (first_line ∷ last_line ∷ []);
  nonce = 3;
}

wallet_load-wallet_save_example :
    wallet_load read_digit read_handle (wallet_save print_digit true (some kept) (some [])).1
    ≡ loaded (record kept { public_key = replicate 65 0; public_key_len = 0 })
unfolding print_digit read_digit read_handle trim contains starts_with pem_of
wallet_load-wallet_save_example =
    wallet_load-wallet_save print_digit read_digit read_handle kept [] first_line (last_line ∷ [])
      (refl, tt) (omega arith) refl (refl, (refl, tt)) refl (omega arith) (omega arith) refl refl
      (
        (refl, (refl, (refl, (refl, tt)))),
        omega arith,
        refl,
        ((refl, (refl, (refl, (refl, (refl, (refl, (refl, (refl, tt)))))))), omega arith),
      )
      (omega arith) refl

-- "NAME: b", "ADDRESS:no" and a line that is no text of a wallet, "x".
abbrev damaged : List ℕ
damaged =
    (name_tag ++ (b' ' ∷ b'b' ∷ newline ∷ []))
    ++ ((address_tag ++ (b'n' ∷ b'o' ∷ newline ∷ [])) ++ (b'x' ∷ []))

damaged_wallet : Wallet
damaged_wallet = record blank_wallet { name = b'b' ∷ []; address_hex = b'n' ∷ b'o' ∷ [] }

damaged_loads :
    wallet_load (λ (s : List ℕ). read_digit s % 256) read_handle (some damaged)
    ≡ loaded damaged_wallet
unfolding wallet_load load_lines load_line load_header load_key read_line safe_strcpy hex_to_address
    starts_with trim damaged_wallet
damaged_loads = refl

small : (s : List ℕ) → read_digit s % 256 < 2 ^ 64
small s = omega arith

wallet_load-Fits_example : Fits damaged_wallet
wallet_load-Fits_example =
    wallet_load-Fits (λ (s : List ℕ). read_digit s % 256) read_handle (some damaged) damaged_wallet
      small damaged_loads
