-- ===== src/Wallet.antt =====
-- src/wallet.c and include/wallet.h.
pub mod Address
pub mod Keys
pub mod Sign
pub mod Files
pub mod Destroy
use shardingsim.Prelude.{ℕ, ◌+◌, ◌%◌, ◌^◌, List, Option, none, some, u64}

-- The C strings are their characters before the NUL; `evp_key` is the handle of an OpenSSL key, which
-- may be NULL.
pub record Wallet : Type 0 where
  pub name : List ℕ
  pub address : List ℕ
  pub address_hex : List ℕ
  pub public_key : List ℕ
  pub public_key_len : ℕ
  pub evp_key : Option ℕ
  pub private_key_pem : List ℕ
  pub nonce : ℕ
