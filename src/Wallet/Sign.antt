-- ===== src/Wallet/Sign.antt =====
-- wallet_sign and wallet_verify of src/wallet.c.
use shardingsim.Prelude.{
  ℕ, zero, suc, ◌≡◌, refl, ap, ◌∙◌, Bool, true, false, not, Option, none, some, List, [], ◌∷◌,
  length, replicate, memcpy, ltb, ◌==◌, if◌then◌else◌, inl, inr,
}
use shardingsim.Wallet.{Wallet}
use shardingsim.Transaction.Sign.{Signing, no_context, signed, Signer}
use shardingsim.Transaction.Sign.Create.{FallsBack}

-- The loop over the 48 bytes.
pub wallet_verify : List ℕ → Bool
wallet_verify [] = false
wallet_verify (b ∷ signature) =
    let rest = wallet_verify signature in if not (b == 0) then true else rest

-- What each outcome of OpenSSL leaves in `signature`.
finish_wallet_sign : List ℕ → Signing → Bool × List ℕ
finish_wallet_sign signature no_context = (false, signature)
finish_wallet_sign signature (signed sig_buf) = (
  true,
  memcpy (replicate 48 0) 0 sig_buf (if ltb 48 (length sig_buf) then 48 else length sig_buf),
)
finish_wallet_sign signature _ = (false, replicate 48 0)

sign_with_key : Signer → Option ℕ → List ℕ → List ℕ → Bool × List ℕ
unfolding finish_wallet_sign
sign_with_key signer none message signature = (false, signature)
sign_with_key signer (some key) message signature =
    finish_wallet_sign signature (signer (some key) message)

-- The answer, and the signature afterwards. The wallet, the message and the signature may be NULL.
pub wallet_sign :
    Signer → Option Wallet → Option (List ℕ) → Option (List ℕ) → Bool × Option (List ℕ)
unfolding sign_with_key
wallet_sign signer (some wallet) (some message) (some signature) =
    let result = sign_with_key signer wallet.evp_key message signature in (result.0, some result.1)
wallet_sign signer wallet message signature = (false, signature)

zeros-wallet_verify : (n : ℕ) → wallet_verify (replicate n 0) ≡ false
unfolding wallet_verify
zeros-wallet_verify zero = refl
zeros-wallet_verify (suc n) = zeros-wallet_verify n

finish_wallet_sign_fails :
    (signature : List ℕ) (outcome : Signing)
    → FallsBack outcome
    → finish_wallet_sign signature outcome ≡ (false, replicate 48 0)
unfolding FallsBack finish_wallet_sign
finish_wallet_sign_fails signature outcome (inl e) = rw (e)
finish_wallet_sign_fails signature outcome (inr (inl e)) = rw (e)
finish_wallet_sign_fails signature outcome (inr (inr (inl e))) = rw (e)
finish_wallet_sign_fails signature outcome (inr (inr (inr (inl e)))) = rw (e)
finish_wallet_sign_fails signature outcome (inr (inr (inr (inr e)))) = rw (e)

-- When a call of OpenSSL after the context fails, `wallet_sign` answers false and leaves a signature
-- that `wallet_verify` rejects, whatever the caller's buffer held.
pub wallet_sign-wallet_verify :
    (signer : Signer) (wallet : Wallet) (key : ℕ) (message old : List ℕ)
    → wallet.evp_key ≡ some key
    → FallsBack (signer (some key) message)
    → (signature : List ℕ) × (wallet_sign signer (some wallet) (some message) (some old)
        ≡ (false, some signature))
      × (wallet_verify signature ≡ false)
unfolding wallet_sign sign_with_key
wallet_sign-wallet_verify signer wallet key message old e fails = (
  replicate 48 0,
  ap
        (λ (k : Option ℕ).
          let result = sign_with_key signer k message old in (result.0, some result.1))
        e
      ∙ ap (λ (result : Bool × List ℕ). (result.0, some result.1))
          (finish_wallet_sign_fails old (signer (some key) message) fails),
  zeros-wallet_verify 48,
)
