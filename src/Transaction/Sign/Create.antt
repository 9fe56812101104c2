-- ===== src/Transaction/Sign/Create.antt =====
-- What `transaction_create` returns for each way in which signing can end.
use shardingsim.Prelude.{
  ℕ, ◌^◌, ◌<◌, ◌≡◌, refl, sym, ◌∙◌, ◌≢◌, ◌⊎◌, false, Option, none, some, List, [], length, ◌==◌,
  IsBytes, inl, inr, arith,
}
use shardingsim.Blake3.Hasher.{Hasher}
use shardingsim.Wallet.{Wallet}
use shardingsim.Transaction.{Transaction, IsTransaction, transaction_verify, coinbase_address}
use shardingsim.Transaction.Laws.{transaction_verify_iff}
use shardingsim.Transaction.Layout.{transaction_compute_hash, signing_bytes}
use shardingsim.Transaction.Sign.{
  Signing, no_context, init_failed, update_failed, length_failed, no_memory, final_failed, Signer,
  deterministic_sign, finish_sign, sign_with, unsigned, transaction_create,
  transaction_create_from_address,
}
use shardingsim.Transaction.Sign.Laws.{
  SignsBytes, sign_with-IsBytes, unsigned-IsTransaction, with_signature, transaction_create_lem,
}

with_signature-IsTransaction :
    (tx : Transaction) (o : Option (List ℕ))
    → IsTransaction tx
    → ((signature : List ℕ) → o ≡ some signature → IsBytes 48 signature)
    → IsTransaction (with_signature tx o)
unfolding with_signature
with_signature-IsTransaction tx none h hs = h
with_signature-IsTransaction tx (some signature) h hs = record {
  nonce_fits = h.nonce_fits;
  expiry_fits = h.expiry_fits;
  source_bytes = h.source_bytes;
  dest_bytes = h.dest_bytes;
  value_fits = h.value_fits;
  fee_fits = h.fee_fits;
  signature_bytes = hs signature refl;
}

-- A signature does not change the bytes that are hashed.
pub signing_bytes-with_signature :
    (tx : Transaction) (o : Option (List ℕ))
    → signing_bytes (with_signature tx o) ≡ signing_bytes tx
unfolding signing_bytes with_signature
signing_bytes-with_signature tx none = refl
signing_bytes-with_signature tx (some signature) = refl

nonce-with_signature :
    (tx : Transaction) (o : Option (List ℕ)) → (with_signature tx o).nonce ≡ tx.nonce
unfolding with_signature
nonce-with_signature tx none = refl
nonce-with_signature tx (some signature) = refl

-- However OpenSSL answers, `transaction_create` returns a transaction in range, with the nonce that it
-- was given, and whose hashed bytes are those of the members that it was given.
pub transaction_create-IsTransaction :
    (memory : Hasher) (signer : Signer) (wallet : Wallet) (dest_address : List ℕ)
    → (value fee nonce expiry_block : ℕ) → SignsBytes signer
    → IsBytes 20 wallet.address
    → IsBytes 20 dest_address
    → value < 2 ^ 64
    → fee < 2 ^ 32
    → nonce < 2 ^ 64
    → expiry_block < 2 ^ 32
    → (tx : Transaction) × (transaction_create memory signer wallet dest_address value fee nonce
          expiry_block
        ≡ some tx)
      × IsTransaction tx
      × (tx.nonce ≡ nonce)
      × (signing_bytes tx
          ≡ signing_bytes (record {
            nonce = nonce;
            expiry_block = expiry_block;
            source_address = wallet.address;
            dest_address = dest_address;
            value = value;
            fee = fee;
            signature = [];
          }))
unfolding signing_bytes unsigned
transaction_create-IsTransaction memory signer wallet dest_address value fee nonce expiry_block hs
      hw hd hv hf hn he =
    (
      with_signature tx outcome,
      transaction_create_lem memory signer wallet dest_address value fee nonce expiry_block,
      with_signature-IsTransaction tx outcome facts.0 (λ signature.
          sign_with-IsBytes memory signer tx wallet signature hs facts.0.signature_bytes),
      nonce-with_signature tx outcome,
      signing_bytes-with_signature tx outcome ∙ rw (facts.1, facts.2),
    )
  where
    tx : Transaction
    tx = unsigned wallet.address dest_address value fee nonce expiry_block

    outcome : Option (List ℕ)
    outcome = sign_with memory signer tx wallet

    facts :
        IsTransaction tx × (tx.source_address ≡ wallet.address) × (tx.dest_address ≡ dest_address)
    facts =
        unsigned-IsTransaction wallet.address dest_address value fee nonce expiry_block hw hd hv hf
          hn he

-- A failure of OpenSSL after its context is made, that is, in `EVP_DigestSignInit`,
-- `EVP_DigestSignUpdate` or `EVP_DigestSignFinal`, or of `malloc`.
unfoldable pub FallsBack : Signing → Type 0
FallsBack outcome =
    (outcome ≡ init_failed)
    ⊎ ((outcome ≡ update_failed)
        ⊎ ((outcome ≡ length_failed) ⊎ ((outcome ≡ no_memory) ⊎ (outcome ≡ final_failed))))

finish_sign_fallback :
    (memory : Hasher) (address tx_hash signature : List ℕ) (outcome : Signing)
    → FallsBack outcome
    → finish_sign memory address tx_hash signature outcome
      ≡ some (deterministic_sign memory address tx_hash signature)
unfolding FallsBack finish_sign
finish_sign_fallback memory address tx_hash signature outcome (inl e) = rw (e)
finish_sign_fallback memory address tx_hash signature outcome (inr (inl e)) = rw (e)
finish_sign_fallback memory address tx_hash signature outcome (inr (inr (inl e))) = rw (e)
finish_sign_fallback memory address tx_hash signature outcome (inr (inr (inr (inl e)))) = rw (e)
finish_sign_fallback memory address tx_hash signature outcome (inr (inr (inr (inr e)))) = rw (e)

pub sign_with_key :
    (memory : Hasher) (signer : Signer) (tx : Transaction) (wallet : Wallet)
    → 0 < length wallet.private_key_pem
    → let tx_hash = transaction_compute_hash memory tx in
      sign_with memory signer tx wallet
      ≡ finish_sign memory wallet.address tx_hash tx.signature (signer wallet.evp_key tx_hash)
unfolding sign_with
sign_with_key memory signer tx wallet h = rw (some_key)
  where
    some_key : (length wallet.private_key_pem == 0) ≡ false
    some_key = ground arith

-- A wallet with key material whose signing falls back makes the transaction that
-- `transaction_create_from_address` makes from the wallet's address alone.
pub transaction_create_fallback :
    (memory : Hasher) (signer : Signer) (wallet : Wallet) (dest_address : List ℕ)
    → (value fee nonce expiry_block : ℕ) → 0 < length wallet.private_key_pem
    → FallsBack (
        signer wallet.evp_key (
          transaction_compute_hash memory
            (unsigned wallet.address dest_address value fee nonce expiry_block)))
    → transaction_create memory signer wallet dest_address value fee nonce expiry_block
      ≡ some (
          transaction_create_from_address memory wallet.address dest_address value fee nonce
            expiry_block)
unfolding transaction_create_from_address with_signature
transaction_create_fallback memory signer wallet dest_address value fee nonce expiry_block hk hf =
    transaction_create_lem memory signer wallet dest_address value fee nonce expiry_block
    ∙ rw (outcome)
  where
    tx : Transaction
    tx = unsigned wallet.address dest_address value fee nonce expiry_block

    outcome :
        sign_with memory signer tx wallet
        ≡ some (
            deterministic_sign memory wallet.address
              (transaction_compute_hash memory tx)
              tx.signature)
    outcome =
        sign_with_key memory signer tx wallet hk
        ∙ finish_sign_fallback memory wallet.address (transaction_compute_hash memory tx)
            tx.signature _ hf

-- When OpenSSL has no memory for a context, `transaction_create` still returns a transaction, but
-- `transaction_verify` rejects it, the wallet's address not being the coinbase address.
pub transaction_create_no_context :
    (memory : Hasher) (signer : Signer) (wallet : Wallet) (dest_address : List ℕ)
    → (value fee nonce expiry_block : ℕ) → IsBytes 20 wallet.address
    → IsBytes 20 dest_address
    → value < 2 ^ 64
    → fee < 2 ^ 32
    → nonce < 2 ^ 64
    → expiry_block < 2 ^ 32
    → wallet.address ≢ coinbase_address
    → 0 < length wallet.private_key_pem
    → ((message : List ℕ) → signer wallet.evp_key message ≡ no_context)
    → (tx : Transaction) × (transaction_create memory signer wallet dest_address value fee nonce
          expiry_block
        ≡ some tx)
      × (transaction_verify tx ≡ false)
unfolding with_signature unsigned finish_sign
transaction_create_no_context memory signer wallet dest_address value fee nonce expiry_block hw hd
      hv hf hn he other hk hc =
    (
      tx,
      transaction_create_lem memory signer wallet dest_address value fee nonce expiry_block
          ∙ rw (outcome),
      (transaction_verify_iff tx facts.0).1 (λ s. other (sym facts.1 ∙ s), refl),
    )
  where
    tx : Transaction
    tx = unsigned wallet.address dest_address value fee nonce expiry_block

    facts :
        IsTransaction tx × (tx.source_address ≡ wallet.address) × (tx.dest_address ≡ dest_address)
    facts =
        unsigned-IsTransaction wallet.address dest_address value fee nonce expiry_block hw hd hv hf
          hn he

    outcome : sign_with memory signer tx wallet ≡ none
    outcome =
        sign_with_key memory signer tx wallet hk ∙ rw (hc (transaction_compute_hash memory tx))
