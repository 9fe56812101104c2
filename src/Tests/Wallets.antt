-- ===== src/Tests/Wallets.antt =====
-- The theorems on wallets.
use shardingsim.Prelude.{
  ℕ, ◌^◌, ◌-◌, ◌≡◌, refl, true, false, some, List, [], ◌∷◌, arith, replicate, inl, inr,
}
use shardingsim.Wallet.{Wallet}
use shardingsim.Wallet.Address.{wallet_is_hex_address, wallet_parse_address}
use shardingsim.Wallet.Keys.{wallet_create_named, wallet_set_nonce}
use shardingsim.Wallet.Keys.Laws.{
  wallet_create_named-wallet_parse_address, next_nonces, nonces_from, next_nonces-wallet_set_nonce,
}
use shardingsim.Wallet.Sign.{wallet_sign, wallet_verify, wallet_sign-wallet_verify}
use shardingsim.Transaction.Sign.Create.{FallsBack}
use shardingsim.Tests.Values.{failing, keys, openssl, openssl-IsOpenSsl, wallet}

-- "al"
abbrev name : List ℕ
name = 97 ∷ 108 ∷ []

name_is_plain : wallet_is_hex_address (some name) ≡ false
unfolding wallet_is_hex_address
name_is_plain = refl

wallet_create_named-wallet_parse_address_example :
    (w : Wallet) × (wallet_create_named openssl keys name ≡ some w)
    × (wallet_parse_address openssl (some name) (some (replicate 20 0)) ≡ (true, some w.address))
    × (wallet_parse_address openssl (some w.address_hex) (some (replicate 20 0))
        ≡ (true, some w.address))
wallet_create_named-wallet_parse_address_example =
    wallet_create_named-wallet_parse_address openssl-IsOpenSsl keys name (replicate 20 0) 1 refl
      name_is_plain refl

next_nonces-wallet_set_nonce_example :
    next_nonces 3 (wallet_set_nonce (some wallet) (2 ^ 64 - 2)) ≡ nonces_from (2 ^ 64 - 2) 3
next_nonces-wallet_set_nonce_example =
    next_nonces-wallet_set_nonce wallet (2 ^ 64 - 2) 3 (omega arith)

nonces_from_run : nonces_from (2 ^ 64 - 2) 3 ≡ (2 ^ 64 - 2) ∷ (2 ^ 64 - 1) ∷ 0 ∷ []
unfolding nonces_from
nonces_from_run = refl

falls_back : FallsBack (failing (some 1) (1 ∷ []))
unfolding FallsBack
falls_back = inr (inr (inl refl))

wallet_sign-wallet_verify_example :
    (signature : List ℕ) × (wallet_sign failing
        (some wallet)
        (some (1 ∷ []))
        (some (replicate 48 9))
      ≡ (false, some signature))
    × (wallet_verify signature ≡ false)
wallet_sign-wallet_verify_example =
    wallet_sign-wallet_verify failing wallet 1 (1 ∷ []) (replicate 48 9) refl falls_back
