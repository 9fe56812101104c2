-- ===== src/Wallet/Keys/Laws.antt =====
-- Wallets by name, and the nonces that they hand out.
use shardingsim.Prelude.{
  ℕ, zero, suc, ◌+◌, ◌^◌, ◌<◌, ◌≡◌, refl, sym, ap, ap₂, ◌∙◌, true, false, Option, none, some, List,
  [], ◌∷◌, length, arith, IsBytes, u64,
}
use shardingsim.Common.Hash.{OpenSsl, IsOpenSsl}
use shardingsim.Wallet.{Wallet}
use shardingsim.Wallet.Address.{wallet_is_hex_address, wallet_name_to_address, wallet_parse_address}
use shardingsim.Wallet.Address.Laws.{
  wallet_name_to_address-IsBytes, wallet_parse_address_lem, wallet_parse_address-address_to_hex,
}
use shardingsim.Wallet.Keys.{
  KeyGen, no_key_context, keygen_init_failed, curve_failed, keygen_failed, generated, Keys,
  named_wallet, wallet_create_named, wallet_get_next_nonce, wallet_set_nonce,
}

wallet_create_named-generated :
    (o : OpenSsl) (keys : Keys) (name : List ℕ) (key : ℕ)
    → keys.key_gen ≡ generated key
    → wallet_create_named o keys name ≡ some (named_wallet o keys name key)
unfolding wallet_create_named
wallet_create_named-generated o keys name key e =
    ap
      (λ (outcome : KeyGen). elim outcome as (λ _. Option Wallet) [
        | generated k ↦ some (named_wallet o keys name k)
        | _ ↦ none
      ])
      e

-- The wallet of a name has an address of 20 bytes.
pub wallet_create_named_ok :
    {o : OpenSsl}
    → IsOpenSsl o
    → (keys : Keys) (name : List ℕ) (key : ℕ) → keys.key_gen ≡ generated key
    → (wallet : Wallet) × (wallet_create_named o keys name ≡ some wallet)
      × IsBytes 20 wallet.address
unfolding named_wallet
wallet_create_named_ok {o} laws keys name key e = (
  named_wallet o keys name key,
  wallet_create_named-generated o keys name key e,
  wallet_name_to_address-IsBytes laws name,
)

-- Every wallet of a name has an address of 20 bytes.
pub wallet_create_named-some :
    {o : OpenSsl}
    → IsOpenSsl o
    → (keys : Keys) (name : List ℕ) (wallet : Wallet)
    → wallet_create_named o keys name ≡ some wallet
    → IsBytes 20 wallet.address
unfolding wallet_create_named named_wallet
wallet_create_named-some {o} laws keys name wallet = cases keys.key_gen
  where
    made : KeyGen → Option Wallet
    made outcome = elim outcome as (λ _. Option Wallet) [
      | generated k ↦ some (named_wallet o keys name k)
      | _ ↦ none
    ]

    cases : (outcome : KeyGen) → made outcome ≡ some wallet → IsBytes 20 wallet.address
    cases (generated k) e =
        let same : named_wallet o keys name k ≡ wallet = cc e in
        rw (sym same) (wallet_name_to_address-IsBytes laws name)
    cases no_key_context e = absurd (cc e)
    cases keygen_init_failed e = absurd (cc e)
    cases curve_failed e = absurd (cc e)
    cases keygen_failed e = absurd (cc e)

-- When a key can be generated, the wallet of a name that is no address in hex has the address that
-- `wallet_parse_address` gives for the name, and its hex text is parsed as that address too; the
-- address does not depend on the key.
pub wallet_create_named-wallet_parse_address :
    {o : OpenSsl}
    → IsOpenSsl o
    → (keys : Keys) (name old : List ℕ) (key : ℕ) → keys.key_gen ≡ generated key
    → wallet_is_hex_address (some name) ≡ false
    → length old ≡ 20
    → (wallet : Wallet) × (wallet_create_named o keys name ≡ some wallet)
      × (wallet_parse_address o (some name) (some old) ≡ (true, some wallet.address))
      × (wallet_parse_address o (some wallet.address_hex) (some old) ≡ (true, some wallet.address))
unfolding named_wallet
wallet_create_named-wallet_parse_address {o} laws keys name old key e plain size =
    let (address, parsed, well, hex, same) = wallet_parse_address_lem laws name old size in
    let name_address : address ≡ wallet_name_to_address o name = same plain in
    (
      named_wallet o keys name key,
      wallet_create_named-generated o keys name key e,
      parsed ∙ ap (λ (a : List ℕ). (true, some a)) name_address,
      wallet_parse_address-address_to_hex o (wallet_name_to_address o name) old
          (rw (sym name_address) well) size,
    )

-- The nonces of `n` calls in a row.
unfoldable pub next_nonces : ℕ → Option Wallet → List ℕ
next_nonces zero wallet = []
next_nonces (suc n) wallet =
    let taken = wallet_get_next_nonce wallet in taken.0 ∷ next_nonces n taken.1

-- `from`, `from + 1`, … as 64-bit numbers.
unfoldable pub nonces_from : ℕ → ℕ → List ℕ
nonces_from from zero = []
nonces_from from (suc n) = u64 from ∷ nonces_from (from + 1) n

-- Numbers that agree modulo 2^64 count alike.
nonces_from-u64 :
    (from start n : ℕ) → u64 from ≡ u64 start → nonces_from from n ≡ nonces_from start n
unfolding nonces_from
nonces_from-u64 from start zero e = refl
nonces_from-u64 from start (suc n) e =
    let next : u64 (from + 1) ≡ u64 (start + 1) = omega arith in
    ap₂ ◌∷◌ e (nonces_from-u64 (from + 1) (start + 1) n next)

-- After `wallet_set_nonce` the calls of `wallet_get_next_nonce` hand out the nonce that was set and
-- its successors, modulo 2^64.
pub next_nonces-wallet_set_nonce :
    (wallet : Wallet) (nonce n : ℕ)
    → nonce < 2 ^ 64
    → next_nonces n (wallet_set_nonce (some wallet) nonce) ≡ nonces_from nonce n
unfolding next_nonces nonces_from wallet_set_nonce wallet_get_next_nonce
next_nonces-wallet_set_nonce wallet nonce zero h = refl
next_nonces-wallet_set_nonce wallet nonce (suc n) h =
    let same : nonce ≡ u64 nonce = omega arith in
    let later = next_nonces-wallet_set_nonce wallet (u64 (nonce + 1)) n (omega arith) in
    ap₂ ◌∷◌ same (later ∙ nonces_from-u64 (u64 (nonce + 1)) (nonce + 1) n (omega arith))
