-- ===== src/Transaction/Sign.antt =====
-- Signing and the functions of src/transaction.c that make a signed transaction. `memory` is the stack
-- frame of the hashes, and OpenSSL's signer is a function from a key and a message to its outcome.
pub mod Laws
pub mod Create
pub mod Signed
use shardingsim.Prelude.{
  ℕ, ◌+◌, ◌-◌, Bool, true, false, not, Option, none, some, List, [], ◌∷◌, ◌++◌, length, take,
  memcpy, replicate, ltb, ◌==◌, if◌then◌else◌,
}
use shardingsim.Common.Hash.{blake3_hash}
use shardingsim.Blake3.Hasher.{Hasher}
use shardingsim.Wallet.{Wallet}
use shardingsim.Transaction.{Transaction, zeroed}
use shardingsim.Transaction.Layout.{transaction_compute_hash}

-- How a run of `EVP_DigestSign…` ends: at the context, at one of the calls, at the buffer for the
-- signature, or with the bytes of one.
pub data Signing : Type 0 where
  no_context : Signing
  init_failed : Signing
  update_failed : Signing
  length_failed : Signing
  no_memory : Signing
  final_failed : Signing
  signed : List ℕ → Signing

-- The key may be NULL.
abbrev pub Signer : Type 0
Signer = Option ℕ → List ℕ → Signing

-- `memcpy` of a digest and of half of the digest of it over the old signature.
pub two_rounds : Hasher → List ℕ → List ℕ → List ℕ
two_rounds memory combined signature =
    let hash1 = blake3_hash memory combined in
    let hash2 = blake3_hash memory hash1 in memcpy (memcpy signature 0 hash1 32) 32 hash2 16

-- The label `deterministic_sign`, and the body of `transaction_create_from_address`.
pub deterministic_sign : Hasher → List ℕ → List ℕ → List ℕ → List ℕ
deterministic_sign memory address tx_hash signature =
    two_rounds memory (take 20 address ++ take 28 tx_hash) signature

-- The branch for a wallet without key material: 80 bytes, the address in them twice.
demo_sign : Hasher → List ℕ → List ℕ → List ℕ → List ℕ
demo_sign memory address tx_hash signature =
    two_rounds memory (take 20 address ++ (take 28 tx_hash ++ (take 12 address ++ replicate 20 0)))
      signature

-- The first 48 bytes of OpenSSL's signature, or all of it and zeros.
fit_signature : List ℕ → List ℕ → List ℕ
fit_signature signature sig_buf =
    if not (ltb (length sig_buf) 48)
    then memcpy signature 0 sig_buf 48
    else memcpy (memcpy signature 0 sig_buf (length sig_buf)) (length sig_buf)
        (replicate (48 - length sig_buf) 0) (48 - length sig_buf)

-- What each outcome of OpenSSL leaves in the signature; `none` is the early return of `false`.
pub finish_sign : Hasher → List ℕ → List ℕ → List ℕ → Signing → Option (List ℕ)
finish_sign memory address tx_hash signature no_context = none
finish_sign memory address tx_hash signature (signed sig_buf) =
    some (fit_signature signature sig_buf)
finish_sign memory address tx_hash signature _ =
    some (deterministic_sign memory address tx_hash signature)

pub sign_with : Hasher → Signer → Transaction → Wallet → Option (List ℕ)
unfolding finish_sign fit_signature demo_sign
sign_with memory signer tx wallet =
    let tx_hash = transaction_compute_hash memory tx in
    if length wallet.private_key_pem == 0
    then some (demo_sign memory wallet.address tx_hash tx.signature)
    else finish_sign memory wallet.address tx_hash tx.signature (signer wallet.evp_key tx_hash)

-- The answer, and the transaction afterwards.
pub store_signature : Transaction → Option (List ℕ) → Bool × Option Transaction
store_signature tx none = (false, some tx)
store_signature tx (some signature) = (true, some (record tx { signature = signature }))

-- Either pointer may be NULL.
pub transaction_sign :
    Hasher → Signer → Option Transaction → Option Wallet → Bool × Option Transaction
unfolding sign_with store_signature
transaction_sign memory signer none wallet = (false, none)
transaction_sign memory signer (some tx) none = (false, some tx)
transaction_sign memory signer (some tx) (some wallet) =
    store_signature tx (sign_with memory signer tx wallet)

-- The members that both constructors set before they sign.
unfoldable pub unsigned : List ℕ → List ℕ → ℕ → ℕ → ℕ → ℕ → Transaction
unsigned source_address dest_address value fee nonce expiry_block = record zeroed {
  nonce = nonce;
  expiry_block = expiry_block;
  source_address = memcpy (replicate 20 0) 0 source_address 20;
  dest_address = memcpy (replicate 20 0) 0 dest_address 20;
  value = value;
  fee = fee;
}

-- The answer of `transaction_sign` is not looked at.
pub transaction_create : Hasher → Signer → Wallet → List ℕ → ℕ → ℕ → ℕ → ℕ → Option Transaction
unfolding transaction_sign unsigned
transaction_create memory signer wallet dest_address value fee nonce expiry_block =
    (transaction_sign memory signer
      (some (unsigned wallet.address dest_address value fee nonce expiry_block)) (some wallet)).1

pub transaction_create_from_address : Hasher → List ℕ → List ℕ → ℕ → ℕ → ℕ → ℕ → Transaction
unfolding unsigned
transaction_create_from_address memory source_address dest_address value fee nonce expiry_block =
    let tx = unsigned source_address dest_address value fee nonce expiry_block in
    record tx {
      signature =
          deterministic_sign memory source_address (transaction_compute_hash memory tx)
            tx.signature;
    }
