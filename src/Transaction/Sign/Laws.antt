-- ===== src/Transaction/Sign/Laws.antt =====
-- The transactions that the constructors return.
use shardingsim.Prelude.{
  ℕ, ◌-◌, ◌^◌, ◌<◌, ◌≡◌, refl, sym, ◌∙◌, Option, none, some, List, ◌++◌, length, take, memcpy,
  replicate, ltb, ◌==◌, All, IsByte, IsBytes, Bool-cases, inl, inr, arith, length-memcpy,
  All-memcpy, All-replicate, memcpy_all,
}
use mathlib.Core.Option.{some-injective}
use shardingsim.Blake3.Hasher.{Hasher}
use shardingsim.Common.Hash.{blake3_hash, blake3_hash-IsBytes}
use shardingsim.Wallet.{Wallet}
use shardingsim.Transaction.{Transaction, IsTransaction}
use shardingsim.Transaction.Layout.{transaction_compute_hash}
use shardingsim.Transaction.Sign.{
  Signing, no_context, signed, Signer, two_rounds, deterministic_sign, demo_sign, fit_signature,
  finish_sign, sign_with, store_signature, transaction_sign, unsigned, transaction_create,
}

-- OpenSSL's signatures consist of bytes.
abbrev pub SignsBytes : Signer → Type 0
SignsBytes signer =
    (key : Option ℕ) (message sig_buf : List ℕ)
    → signer key message ≡ signed sig_buf
    → All IsByte sig_buf

memcpy-IsBytes :
    (n : ℕ) (dst : List ℕ) (off : ℕ) (src : List ℕ) (k : ℕ)
    → IsBytes n dst
    → All IsByte src
    → IsBytes n (memcpy dst off src k)
memcpy-IsBytes n dst off src k hd hs =
    (length-memcpy dst off src k ∙ hd.0, All-memcpy IsByte dst off src k hd.1 hs)

two_rounds-IsBytes :
    (memory : Hasher) (combined signature : List ℕ)
    → IsBytes 48 signature
    → IsBytes 48 (two_rounds memory combined signature)
unfolding two_rounds
two_rounds-IsBytes memory combined signature h =
    memcpy-IsBytes 48 (memcpy signature 0 hash1 32) 32 (blake3_hash memory hash1) 16
      (memcpy-IsBytes 48 signature 0 hash1 32 h (blake3_hash-IsBytes memory combined).1)
      (blake3_hash-IsBytes memory hash1).1
  where
    hash1 : List ℕ
    hash1 = blake3_hash memory combined

fit_signature-IsBytes :
    (signature sig_buf : List ℕ)
    → IsBytes 48 signature
    → All IsByte sig_buf
    → IsBytes 48 (fit_signature signature sig_buf)
unfolding fit_signature
fit_signature-IsBytes signature sig_buf h hb = elim (Bool-cases (ltb (length sig_buf) 48)) [
  | inl short ↦ rw (short) (
      memcpy-IsBytes 48 (memcpy signature 0 sig_buf (length sig_buf)) (length sig_buf)
        (replicate (48 - length sig_buf) 0) (48 - length sig_buf)
        (memcpy-IsBytes 48 signature 0 sig_buf (length sig_buf) h hb)
        (All-replicate IsByte (48 - length sig_buf) 0 (omega arith)))
  | inr long ↦ rw (long) (memcpy-IsBytes 48 signature 0 sig_buf 48 h hb)
]

IsBytes-along :
    {made : List ℕ} (result : List ℕ)
    → some made ≡ some result
    → IsBytes 48 made
    → IsBytes 48 result
IsBytes-along {made} result e h = rw (sym (some-injective made result e)) h

finish_sign-IsBytes :
    (memory : Hasher) (address tx_hash signature : List ℕ) (outcome : Signing) (result : List ℕ)
    → IsBytes 48 signature
    → ((sig_buf : List ℕ) → outcome ≡ signed sig_buf → All IsByte sig_buf)
    → finish_sign memory address tx_hash signature outcome ≡ some result
    → IsBytes 48 result
unfolding finish_sign deterministic_sign
finish_sign-IsBytes memory address tx_hash signature no_context result h hb e = absurd (cc e)
finish_sign-IsBytes memory address tx_hash signature (signed sig_buf) result h hb e =
    IsBytes-along result e (fit_signature-IsBytes signature sig_buf h (hb sig_buf refl))
finish_sign-IsBytes memory address tx_hash signature _ result h hb e =
    IsBytes-along result e
      (two_rounds-IsBytes memory (take 20 address ++ take 28 tx_hash) signature h)

pub sign_with-IsBytes :
    (memory : Hasher) (signer : Signer) (tx : Transaction) (wallet : Wallet) (signature : List ℕ)
    → SignsBytes signer
    → IsBytes 48 tx.signature
    → sign_with memory signer tx wallet ≡ some signature
    → IsBytes 48 signature
unfolding sign_with demo_sign
sign_with-IsBytes memory signer tx wallet signature hs ht e =
    elim (Bool-cases (length wallet.private_key_pem == 0)) [
      | inl empty ↦
          let made : some
                (demo_sign memory wallet.address (transaction_compute_hash memory tx) tx.signature)
              ≡ some signature =
            rw (empty) at e in
          IsBytes-along signature made (two_rounds-IsBytes memory _ tx.signature ht)
      | inr key ↦
          finish_sign-IsBytes memory wallet.address (transaction_compute_hash memory tx)
            tx.signature (signer wallet.evp_key (transaction_compute_hash memory tx)) signature ht
            (hs wallet.evp_key (transaction_compute_hash memory tx)) (rw (key) at e)
    ]

pub unsigned-IsTransaction :
    (source_address dest_address : List ℕ) (value fee nonce expiry_block : ℕ)
    → IsBytes 20 source_address
    → IsBytes 20 dest_address
    → value < 2 ^ 64
    → fee < 2 ^ 32
    → nonce < 2 ^ 64
    → expiry_block < 2 ^ 32
    → IsTransaction (unsigned source_address dest_address value fee nonce expiry_block)
      × ((unsigned source_address dest_address value fee nonce expiry_block).source_address
          ≡ source_address)
      × ((unsigned source_address dest_address value fee nonce expiry_block).dest_address
          ≡ dest_address)
unfolding unsigned
unsigned-IsTransaction source_address dest_address value fee nonce expiry_block hs hd hv hf hn he =
    (well_formed, source, dest)
  where
    source : memcpy (replicate 20 0) 0 source_address 20 ≡ source_address
    source = memcpy_all 20 (replicate 20 0) source_address refl hs.0

    dest : memcpy (replicate 20 0) 0 dest_address 20 ≡ dest_address
    dest = memcpy_all 20 (replicate 20 0) dest_address refl hd.0

    well_formed : IsTransaction (unsigned source_address dest_address value fee nonce expiry_block)
    well_formed = record {
      nonce_fits = hn;
      expiry_fits = he;
      source_bytes = rw source hs;
      dest_bytes = rw dest hd;
      value_fits = hv;
      fee_fits = hf;
      signature_bytes = omega arith;
    }

-- The transaction with the signature that `transaction_sign` leaves in it, none standing for the old.
unfoldable pub with_signature : Transaction → Option (List ℕ) → Transaction
with_signature tx none = tx
with_signature tx (some signature) = record tx { signature = signature }

with_signature_lem :
    (tx : Transaction) (o : Option (List ℕ)) → (store_signature tx o).1 ≡ some (with_signature tx o)
unfolding store_signature with_signature
with_signature_lem tx none = refl
with_signature_lem tx (some signature) = refl

pub transaction_create_lem :
    (memory : Hasher) (signer : Signer) (wallet : Wallet) (dest_address : List ℕ)
    → (value fee nonce expiry_block : ℕ)
    → let tx = unsigned wallet.address dest_address value fee nonce expiry_block in
      transaction_create memory signer wallet dest_address value fee nonce expiry_block
      ≡ some (with_signature tx (sign_with memory signer tx wallet))
unfolding transaction_create transaction_sign
transaction_create_lem memory signer wallet dest_address value fee nonce expiry_block =
    with_signature_lem (unsigned wallet.address dest_address value fee nonce expiry_block) (
      sign_with memory signer (unsigned wallet.address dest_address value fee nonce expiry_block)
        wallet)
