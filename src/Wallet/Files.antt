-- ===== src/Wallet/Files.antt =====
-- wallet_save and wallet_load of src/wallet.c. A file is its bytes, none of them 0. `decimal` is what
-- "%lu" prints, `strtoull` reads a number, `read_key` is PEM_read_bio_PrivateKey on a text.
pub mod Laws
pub mod RoundTrip
pub mod Bounds
use shardingsim.Prelude.{
  ℕ, zero, suc, Bool, true, false, not, ◌||◌, Option, none, some, List, [], ◌∷◌, ◌++◌, length, drop,
  replicate, leb, ltb, ◌==◌, if◌then◌else◌,
}
use shardingsim.Common.Strings.{safe_strcpy, starts_with, trim}
use shardingsim.Wallet.{Wallet}
use shardingsim.Wallet.Address.{hex_to_address}

abbrev pub newline : ℕ
newline = 10

-- "NAME:", "ADDRESS:", "NONCE:", "PRIVATE_KEY:" and "-----END"
abbrev pub name_tag : List ℕ
name_tag = b'N' ∷ b'A' ∷ b'M' ∷ b'E' ∷ b':' ∷ []

abbrev pub address_tag : List ℕ
address_tag = b'A' ∷ b'D' ∷ b'D' ∷ b'R' ∷ b'E' ∷ b'S' ∷ b'S' ∷ b':' ∷ []

abbrev pub nonce_tag : List ℕ
nonce_tag = b'N' ∷ b'O' ∷ b'N' ∷ b'C' ∷ b'E' ∷ b':' ∷ []

abbrev pub key_tag : List ℕ
key_tag = b'P' ∷ b'R' ∷ b'I' ∷ b'V' ∷ b'A' ∷ b'T' ∷ b'E' ∷ b'_' ∷ b'K' ∷ b'E' ∷ b'Y' ∷ b':' ∷ []

abbrev pub end_mark : List ℕ
end_mark = b'-' ∷ b'-' ∷ b'-' ∷ b'-' ∷ b'-' ∷ b'E' ∷ b'N' ∷ b'D' ∷ []

-- The four calls of `fprintf`.
pub wallet_text : (ℕ → List ℕ) → Wallet → List ℕ
wallet_text decimal wallet =
    (name_tag ++ (wallet.name ++ (newline ∷ [])))
    ++ ((address_tag ++ (wallet.address_hex ++ (newline ∷ [])))
        ++ ((nonce_tag ++ (decimal wallet.nonce ++ (newline ∷ [])))
            ++ ((key_tag ++ (newline ∷ [])) ++ wallet.private_key_pem)))

-- `opened` tells whether `fopen` succeeds. The answer, and the file if it was written.
pub wallet_save : (ℕ → List ℕ) → Bool → Option Wallet → Option (List ℕ) → Bool × Option (List ℕ)
wallet_save decimal opened none filepath = (false, none)
wallet_save decimal opened (some wallet) none = (false, none)
wallet_save decimal opened (some wallet) (some filepath) =
    if opened then (true, some (wallet_text decimal wallet)) else (false, none)

-- `fgets` with room for `n` characters: to the end of the line, of the room or of the file.
unfoldable pub read_line : ℕ → List ℕ → List ℕ × List ℕ
read_line zero bytes = ([], bytes)
read_line (suc n) [] = ([], [])
read_line (suc n) (c ∷ bytes) =
    let (line, rest) = read_line n bytes in
    if c == newline then (newline ∷ [], bytes) else (c ∷ line, rest)

-- `line[2048]`, its last byte for the end of the string.
abbrev pub line_room : ℕ
line_room = 2047

-- `strstr(text, pattern) != NULL`
unfoldable pub contains : List ℕ → List ℕ → Bool
contains [] pattern = starts_with [] pattern
contains (c ∷ text) pattern = starts_with (c ∷ text) pattern || contains text pattern

-- `overrun` is set when `strcat` writes behind `pem_buffer`, of 2048 bytes.
pub record LoadState : Type 0 where
  pub wallet : Wallet
  pub reading_key : Bool
  pub pem_buffer : List ℕ
  pub overrun : Bool

-- `memset(wallet, 0, sizeof(Wallet))`
abbrev pub blank_wallet : Wallet
blank_wallet = record {
  name = [];
  address = replicate 20 0;
  address_hex = [];
  public_key = replicate 65 0;
  public_key_len = 0;
  evp_key = none;
  private_key_pem = [];
  nonce = 0;
}

abbrev pub start_load : LoadState
start_load = record { wallet = blank_wallet; reading_key = false; pem_buffer = []; overrun = false }

-- The lines before the key.
unfoldable pub load_header : (List ℕ → ℕ) → LoadState → List ℕ → LoadState
load_header strtoull s line =
    let w = s.wallet in
    let name = trim (drop 5 line) in
    let hex = trim (drop 8 line) in
    if starts_with line name_tag
    then record s { wallet = record w { name = safe_strcpy w.name name 64 } }
    else if starts_with line address_tag
    then record s {
      wallet = record w {
        address_hex = safe_strcpy w.address_hex hex 41;
        address = (hex_to_address (some hex) w.address).1;
      };
    }
    else if starts_with line nonce_tag
    then record s { wallet = record w { nonce = strtoull (drop 6 line) } }
    else if starts_with line key_tag
    then record s { reading_key = true }
    else s

-- The body of the loop.
unfoldable pub load_line : (List ℕ → ℕ) → LoadState → List ℕ → LoadState
unfolding load_header contains
load_line strtoull s line =
    if s.reading_key
    then record s {
      pem_buffer = s.pem_buffer ++ line;
      overrun = s.overrun || leb 2048 (length (s.pem_buffer ++ line));
      reading_key = not (contains line end_mark);
    }
    else load_header strtoull s line

-- The loop, on fuel: each turn takes a byte at least.
unfoldable pub load_lines : ℕ → (List ℕ → ℕ) → LoadState → List ℕ → LoadState
load_lines fuel strtoull s [] = s
load_lines zero strtoull s (c ∷ bytes) = s
load_lines (suc fuel) strtoull s (c ∷ bytes) =
    let (line, rest) = read_line line_room (c ∷ bytes) in
    load_lines fuel strtoull (load_line strtoull s line) rest

-- The key after the loop.
unfoldable pub load_key : (List ℕ → Option ℕ) → Wallet → List ℕ → Wallet
load_key read_key wallet pem_buffer =
    if ltb 0 (length pem_buffer)
    then record wallet {
      private_key_pem = safe_strcpy wallet.private_key_pem pem_buffer 2048;
      evp_key = read_key pem_buffer;
    }
    else wallet

-- No file, a write behind `pem_buffer`, or a wallet.
pub data Loaded : Type 0 where
  no_file : Loaded
  overran : Loaded
  loaded : Wallet → Loaded

unfoldable pub wallet_load : (List ℕ → ℕ) → (List ℕ → Option ℕ) → Option (List ℕ) → Loaded
wallet_load strtoull read_key none = no_file
wallet_load strtoull read_key (some bytes) =
    let last = load_lines (length bytes) strtoull start_load bytes in
    if last.overrun then overran else loaded (load_key read_key last.wallet last.pem_buffer)
