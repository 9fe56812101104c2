-- ===== src/Wallet/Files/Bounds.antt =====
-- What `wallet_load` makes of any file, one that `wallet_save` did not write too.
use shardingsim.Prelude.{
  ℕ, zero, suc, ◌≤◌, ◌<◌, ◌^◌, ◌≡◌, refl, Bool, true, false, Option, none, some, List, [], ◌∷◌,
  length, arith, IsBytes, Bool-cases, inl, inr, if◌then◌else◌, ltb,
}
use shardingsim.Common.Strings.{length-safe_strcpy, starts_with}
use shardingsim.Wallet.{Wallet}
use shardingsim.Wallet.Address.Laws.{hex_to_address-IsBytes}
use shardingsim.Wallet.Files.{
  LoadState, name_tag, address_tag, nonce_tag, key_tag, blank_wallet, start_load, read_line,
  line_room, load_header, load_line, load_lines, load_key, loaded, wallet_load,
}

-- The members fit the arrays of `struct Wallet`, the strings with their NUL.
pub record Fits (w : Wallet) : Type 0 where
  pub name : length w.name ≤ 63
  pub address : IsBytes 20 w.address
  pub address_hex : length w.address_hex ≤ 40
  pub public_key : length w.public_key ≡ 65
  pub public_key_len : w.public_key_len ≤ 65
  pub private_key_pem : length w.private_key_pem ≤ 2047
  pub nonce : w.nonce < 2 ^ 64

blank_wallet-Fits : Fits blank_wallet
blank_wallet-Fits = record {
  name = omega arith;
  address = omega arith;
  address_hex = omega arith;
  public_key = refl;
  public_key_len = omega arith;
  private_key_pem = omega arith;
  nonce = omega arith;
}

if-Fits :
    (b : Bool) (s t : LoadState) → Fits s.wallet → Fits t.wallet → Fits (if b then s else t).wallet
if-Fits true s t hs ht = hs
if-Fits false s t hs ht = ht

module _ (strtoull : List ℕ → ℕ) (reads : (s : List ℕ) → strtoull s < 2 ^ 64) where
  load_header-Fits :
      (s : LoadState) (line : List ℕ) → Fits s.wallet → Fits (load_header strtoull s line).wallet
  unfolding load_header
  load_header-Fits s line h =
      if-Fits (starts_with line name_tag) _ _
        (record {
          name = length-safe_strcpy s.wallet.name _ 63;
          address = h.address;
          address_hex = h.address_hex;
          public_key = h.public_key;
          public_key_len = h.public_key_len;
          private_key_pem = h.private_key_pem;
          nonce = h.nonce;
        })
        (if-Fits (starts_with line address_tag) _ _
          (record {
            name = h.name;
            address = hex_to_address-IsBytes _ s.wallet.address h.address;
            address_hex = length-safe_strcpy s.wallet.address_hex _ 40;
            public_key = h.public_key;
            public_key_len = h.public_key_len;
            private_key_pem = h.private_key_pem;
            nonce = h.nonce;
          })
          (if-Fits (starts_with line nonce_tag) _ _
            (record {
              name = h.name;
              address = h.address;
              address_hex = h.address_hex;
              public_key = h.public_key;
              public_key_len = h.public_key_len;
              private_key_pem = h.private_key_pem;
              nonce = reads _;
            })
            (if-Fits (starts_with line key_tag) _ _ h h)))

  load_line-Fits :
      (s : LoadState) (line : List ℕ) → Fits s.wallet → Fits (load_line strtoull s line).wallet
  unfolding load_line
  load_line-Fits s line h = if-Fits s.reading_key _ _ h (load_header-Fits s line h)

  load_lines-Fits :
      (fuel : ℕ) (s : LoadState) (bytes : List ℕ)
      → Fits s.wallet
      → Fits (load_lines fuel strtoull s bytes).wallet
  unfolding load_lines
  load_lines-Fits fuel s [] h = h
  load_lines-Fits zero s (c ∷ bytes) h = h
  load_lines-Fits (suc fuel) s (c ∷ bytes) h =
      let read = read_line line_room (c ∷ bytes) in
      load_lines-Fits fuel (load_line strtoull s read.0) read.1 (load_line-Fits s read.0 h)

load_key-Fits :
    (read_key : List ℕ → Option ℕ) (w : Wallet) (pem : List ℕ)
    → Fits w
    → Fits (load_key read_key w pem)
unfolding load_key
load_key-Fits read_key w pem h = elim (Bool-cases (ltb 0 (length pem))) [
  | inl e ↦ rw e (record {
    name = h.name;
    address = h.address;
    address_hex = h.address_hex;
    public_key = h.public_key;
    public_key_len = h.public_key_len;
    private_key_pem = length-safe_strcpy w.private_key_pem pem 2047;
    nonce = h.nonce;
  })
  | inr e ↦ rw e h
]

-- Whatever bytes stand in the file: where `strtoull` answers with 64 bits, a wallet that
-- `wallet_load` returns fits the arrays of its struct, the strings with their NUL, and has an
-- address of 20 bytes.
pub wallet_load-Fits :
    (strtoull : List ℕ → ℕ) (read_key : List ℕ → Option ℕ) (file : Option (List ℕ)) (w : Wallet)
    → ((s : List ℕ) → strtoull s < 2 ^ 64)
    → wallet_load strtoull read_key file ≡ loaded w
    → Fits w
unfolding wallet_load
wallet_load-Fits strtoull read_key none w reads e = absurd (cc e)
wallet_load-Fits strtoull read_key (some bytes) w reads e =
    let last = load_lines (length bytes) strtoull start_load bytes in
    let fits =
      load_key-Fits read_key last.wallet last.pem_buffer
        (load_lines-Fits strtoull reads (length bytes) start_load bytes blank_wallet-Fits) in
    elim (Bool-cases last.overrun) [
      | inl over ↦ absurd (cc (rw over at e))
      | inr fine ↦
          let same : load_key read_key last.wallet last.pem_buffer ≡ w = cc (rw fine at e) in
          rw⁻¹ same fits
    ]
