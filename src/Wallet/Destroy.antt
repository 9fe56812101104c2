-- ===== src/Wallet/Destroy.antt =====
-- wallet_destroy of src/wallet.c. The compiler lays `struct Wallet` out: `content` is the block.
use shardingsim.Prelude.{ℕ, ◌≡◌, refl, Option, none, some, List, length, replicate}
use shardingsim.Common.Log.{secure_free, secure_free-cleared}

-- The key that OpenSSL frees, and the block when it is freed.
pub record Destroyed : Type 0 where
  pub freed_key : Option ℕ
  pub freed_block : Option (List ℕ)

-- A wallet is the key's handle and its block, of `sizeof(Wallet)` bytes.
pub wallet_destroy : Option (Option ℕ × List ℕ) → ℕ → Destroyed
wallet_destroy none size = record { freed_key = none; freed_block = none }
wallet_destroy (some (evp_key, content)) size = record {
  freed_key = evp_key;
  freed_block = secure_free (some content) size;
}

-- The key is freed if there is one, and nothing of its text is left in the block.
wallet_destroy-cleared :
    (evp_key : Option ℕ) (content : List ℕ) (size : ℕ)
    → length content ≡ size
    → wallet_destroy (some (evp_key, content)) size
      ≡ record { freed_key = evp_key; freed_block = some (replicate size 0) }
unfolding wallet_destroy
wallet_destroy-cleared evp_key content size h = rw (secure_free-cleared content size h) refl
