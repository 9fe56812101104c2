-- ===== src/Wallet/Keys.antt =====
-- The creation of wallets in src/wallet.c, and their nonce counter. What OpenSSL's calls give for a
-- new key is a parameter.
pub mod Laws
use shardingsim.Prelude.{
  ℕ, zero, suc, ◌+◌, ◌-◌, Option, none, some, List, [], ◌∷◌, length, replicate, memcpy, take, ltb,
  if◌then◌else◌, u64,
}
use shardingsim.Common.Hash.{OpenSsl}
use shardingsim.Wallet.{Wallet}
use shardingsim.Wallet.Address.{wallet_derive_address, wallet_name_to_address, address_to_hex}

-- How the generation of a key on secp256k1 ends.
pub data KeyGen : Type 0 where
  no_key_context : KeyGen
  keygen_init_failed : KeyGen
  curve_failed : KeyGen
  keygen_failed : KeyGen
  generated : ℕ → KeyGen

-- `public_key_of` is the octet string of a key, if it can be had; `pem_of` is the text that is read
-- from the memory `BIO`, and `none` if there is no `BIO`.
pub record Keys : Type 0 where
  pub key_gen : KeyGen
  pub public_key_of : ℕ → Option (List ℕ)
  pub pem_of : ℕ → Option (List ℕ)

-- `private_key_pem` has 2048 bytes, the last for the end of the text.
stored_pem : Option (List ℕ) → List ℕ
stored_pem none = []
stored_pem (some pem) = take 2047 pem

-- The buffer of 65 bytes, and `public_key_len`.
stored_public_key : Option (List ℕ) → List ℕ × ℕ
stored_public_key none = (replicate 65 0, 65)
stored_public_key (some pubkey) = (
  memcpy (replicate 65 0) 0 pubkey (length pubkey),
  if ltb 0 (length pubkey) then length pubkey else 65,
)

pub wallet_create : OpenSsl → Keys → Option Wallet
unfolding stored_pem stored_public_key
wallet_create o keys = elim keys.key_gen [
  | generated key ↦
      let (public_key, public_key_len) = stored_public_key (keys.public_key_of key) in
      let address = wallet_derive_address o (take public_key_len public_key) in
      some (record {
        name = [];
        address = address;
        address_hex = address_to_hex address;
        public_key = public_key;
        public_key_len = public_key_len;
        evp_key = some key;
        private_key_pem = stored_pem (keys.pem_of key);
        nonce = 0;
      })
  | _ ↦ none
]

-- The wallet of a name: the name is cut to 63 characters in `name`, and hashed whole.
named_wallet : OpenSsl → Keys → List ℕ → ℕ → Wallet
unfolding stored_pem
named_wallet o keys name key = record {
  name = take 63 name;
  address = wallet_name_to_address o name;
  address_hex = address_to_hex (wallet_name_to_address o name);
  public_key = replicate 65 0;
  public_key_len = 65;
  evp_key = some key;
  private_key_pem = stored_pem (keys.pem_of key);
  nonce = 0;
}

pub wallet_create_named : OpenSsl → Keys → List ℕ → Option Wallet
unfolding named_wallet
wallet_create_named o keys name = elim keys.key_gen [
  | generated key ↦ some (named_wallet o keys name key)
  | _ ↦ none
]

pub wallet_get_address : Option Wallet → Option (List ℕ)
wallet_get_address none = none
wallet_get_address (some wallet) = some wallet.address

pub wallet_get_address_hex : Option Wallet → Option (List ℕ)
wallet_get_address_hex none = none
wallet_get_address_hex (some wallet) = some wallet.address_hex

pub wallet_get_nonce : Option Wallet → ℕ
wallet_get_nonce none = 0
wallet_get_nonce (some wallet) = wallet.nonce

-- The answer, and the wallet afterwards.
pub wallet_get_next_nonce : Option Wallet → ℕ × Option Wallet
wallet_get_next_nonce none = (0, none)
wallet_get_next_nonce (some wallet) =
    (wallet.nonce, some (record wallet { nonce = u64 (wallet.nonce + 1) }))

pub wallet_set_nonce : Option Wallet → ℕ → Option Wallet
wallet_set_nonce none nonce = none
wallet_set_nonce (some wallet) nonce = some (record wallet { nonce = nonce })
