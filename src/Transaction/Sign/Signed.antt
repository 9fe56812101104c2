-- ===== src/Transaction/Sign/Signed.antt =====
-- The signature in the transaction that `transaction_create` returns when OpenSSL signs.
use shardingsim.Prelude.{
  ℕ, zero, suc, ◌+◌, ◌-◌, ◌≤◌, ◌<◌, ◌≡◌, refl, sym, ap, ◌∙◌, Option, some, List, ◌∷◌, ◌++◌, length,
  take, drop, memcpy, replicate, ltb, Bool-cases, inl, inr, arith, memcpy_lem, drop-length,
  length-memcpy, length-replicate, take_all, take-append, take-append_left, take-append_right,
}
use mathlib.Core.List.{append-nil}
use shardingsim.Blake3.Hasher.{Hasher}
use shardingsim.Wallet.{Wallet}
use shardingsim.Transaction.{Transaction}
use shardingsim.Transaction.Layout.{transaction_compute_hash, signing_bytes}
use shardingsim.Transaction.Sign.{
  signed, Signer, fit_signature, finish_sign, sign_with, unsigned, transaction_create,
}
use shardingsim.Transaction.Sign.Laws.{with_signature, transaction_create_lem}
use shardingsim.Transaction.Sign.Create.{sign_with_key}

take-replicate : (k n : ℕ) → k ≤ n → take {A = ℕ} k (replicate n 0) ≡ replicate k 0
take-replicate zero n h = refl
take-replicate (suc k) zero h = absurd (omega arith)
take-replicate (suc k) (suc n) h = ap (λ (t : List ℕ). 0 ∷ t) (take-replicate k n (omega arith))

-- A signature of 48 bytes or more is cut.
cut_signature :
    (signature sig_buf : List ℕ)
    → length signature ≡ 48
    → 48 ≤ length sig_buf
    → memcpy signature 0 sig_buf 48 ≡ take 48 sig_buf
cut_signature signature sig_buf h long =
    memcpy_lem 48 signature 0 sig_buf (omega arith) long
    ∙ ap (λ (t : List ℕ). take 48 sig_buf ++ t) (drop-length 48 signature h)
    ∙ append-nil (take 48 sig_buf)

-- A shorter one is followed by zeros.
filled_signature :
    (signature sig_buf : List ℕ) (m : ℕ)
    → length signature ≡ 48
    → m ≡ length sig_buf
    → m < 48
    → memcpy (memcpy signature 0 sig_buf m) m (replicate (48 - m) 0) (48 - m)
      ≡ sig_buf ++ replicate (48 - m) 0
filled_signature signature sig_buf m h size short =
    let k = 48 - m in
    let front = memcpy signature 0 sig_buf m in
    let copied : front ≡ sig_buf ++ drop m signature =
      memcpy_lem m signature 0 sig_buf (omega arith) (omega arith)
      ∙ rw (take_all m sig_buf size) (ap (λ (n : ℕ). sig_buf ++ drop n signature) (omega arith)) in
    let sized : length front ≡ 48 = length-memcpy signature 0 sig_buf m ∙ h in
    let zeros = length-replicate {A = ℕ} k 0 in
    memcpy_lem k front m (replicate k 0) (omega (arith, sized)) (omega (arith, zeros))
    ∙ rw
        (
          drop-length (m + k) front (omega (arith, sized)),
          take_all k (replicate {A = ℕ} k 0) (sym zeros),
          append-nil (replicate {A = ℕ} k 0),
        )
        (ap (λ (t : List ℕ). t ++ replicate k 0)
          (ap (take m) copied ∙ take-append m sig_buf (drop m signature) size))

fit_signature_lem :
    (signature sig_buf : List ℕ)
    → length signature ≡ 48
    → fit_signature signature sig_buf ≡ take 48 (sig_buf ++ replicate 48 0)
unfolding fit_signature
fit_signature_lem signature sig_buf h = elim (Bool-cases (ltb (length sig_buf) 48)) [
  | inr long ↦
      let at_least : 48 ≤ length sig_buf = ground arith in
      rw long (
        cut_signature signature sig_buf h at_least
        ∙ sym (take-append_left 48 sig_buf (replicate 48 0) at_least))
  | inl short ↦
      let m = length sig_buf in
      let small : m < 48 = ground arith in
      rw short (
        filled_signature signature sig_buf m h refl small
        ∙ ap (λ (t : List ℕ). sig_buf ++ t) (sym (take-replicate (48 - m) 48 (omega arith)))
        ∙ sym (take-append_right 48 (48 - m) sig_buf (replicate 48 0) (omega arith)))
]

-- When OpenSSL makes a signature with the wallet's key, whatever the message is: the signature in the
-- transaction that `transaction_create` returns is OpenSSL's signature of the hash of that very
-- transaction, cut to 48 bytes or followed by zeros.
pub transaction_create_signed :
    (memory : Hasher) (signer : Signer) (wallet : Wallet) (dest_address : List ℕ)
    → (value fee nonce expiry_block : ℕ) (signature_of : List ℕ → List ℕ)
    → 0 < length wallet.private_key_pem
    → ((message : List ℕ) → signer wallet.evp_key message ≡ signed (signature_of message))
    → (tx : Transaction) × (transaction_create memory signer wallet dest_address value fee nonce
          expiry_block
        ≡ some tx)
      × (tx.signature
          ≡ take 48 (signature_of (transaction_compute_hash memory tx) ++ replicate 48 0))
unfolding with_signature finish_sign unsigned transaction_compute_hash signing_bytes
transaction_create_signed memory signer wallet dest_address value fee nonce expiry_block
      signature_of key signs =
    (
      with_signature tx (some signature),
      transaction_create_lem memory signer wallet dest_address value fee nonce expiry_block
          ∙ ap (λ (o : Option (List ℕ)). some (with_signature tx o)) outcome,
      fit_signature_lem tx.signature (signature_of tx_hash) refl
          ∙ ap (λ (t : List ℕ). take 48 (signature_of t ++ replicate 48 0)) (sym same_hash),
    )
  where
    tx : Transaction
    tx = unsigned wallet.address dest_address value fee nonce expiry_block

    tx_hash : List ℕ
    tx_hash = transaction_compute_hash memory tx

    signature : List ℕ
    signature = fit_signature tx.signature (signature_of tx_hash)

    outcome : sign_with memory signer tx wallet ≡ some signature
    outcome = sign_with_key memory signer tx wallet key ∙ rw (signs tx_hash) refl

    same_hash : transaction_compute_hash memory (with_signature tx (some signature)) ≡ tx_hash
    same_hash = refl
