-- ===== src/Transaction/Laws.antt =====
-- Creation, verification and expiry of transactions.
use shardingsim.Prelude.{
  ℕ, ◌+◌, ◌^◌, ◌≤◌, ◌<◌, ◌≡◌, refl, sym, ap, ◌∙◌, ◌≢◌, ◌↔◌, true, false, List, length, memcpy,
  replicate, if◌then◌else◌, IsBytes, Bool-cases, inl, inr, arith, memcpy_all,
}
use shardingsim.Common.Compare.{is_zero, same_bytes}
use shardingsim.Common.Compare.Laws.{is_zero_iff, same_bytes_iff}
use shardingsim.Transaction.{
  Transaction, IsTransaction, coinbase_address, tx_is_coinbase, transaction_create_coinbase,
  transaction_verify, transaction_is_expired,
}

coinbase-IsBytes : IsBytes 20 coinbase_address
coinbase-IsBytes = omega arith

tx_is_coinbase_iff :
    (tx : Transaction)
    → IsTransaction tx
    → (tx_is_coinbase tx ≡ true) ↔ (tx.source_address ≡ coinbase_address)
unfolding tx_is_coinbase
tx_is_coinbase_iff tx h =
    same_bytes_iff 20 tx.source_address coinbase_address h.source_bytes.0 coinbase-IsBytes.0

-- `transaction_verify` rejects a transaction exactly when it is no coinbase transaction and its
-- signature is 48 zeros.
pub transaction_verify_iff :
    (tx : Transaction)
    → IsTransaction tx
    → (transaction_verify tx ≡ false)
      ↔ ((tx.source_address ≢ coinbase_address) × (tx.signature ≡ replicate 48 0))
unfolding transaction_verify
transaction_verify_iff tx h = (to, from)
  where
    zeros : (is_zero tx.signature ≡ true) ↔ (tx.signature ≡ replicate (length tx.signature) 0)
    zeros = is_zero_iff tx.signature

    size : replicate {A = ℕ} (length tx.signature) 0 ≡ replicate {A = ℕ} 48 0
    size = ap (λ (n : ℕ). replicate {A = ℕ} n 0) h.signature_bytes.0

    to :
        (if tx_is_coinbase tx then true else if is_zero tx.signature then false else true) ≡ false
        → (tx.source_address ≢ coinbase_address) × (tx.signature ≡ replicate 48 0)
    to e = (λ s. cc ((tx_is_coinbase_iff tx h).1 s, parts.0), zeros.0 parts.1 ∙ size)
      where
        parts : (tx_is_coinbase tx ≡ false) × (is_zero tx.signature ≡ true)
        parts = ground arith

    from :
        (tx.source_address ≢ coinbase_address) × (tx.signature ≡ replicate 48 0)
        → (if tx_is_coinbase tx then true else if is_zero tx.signature then false else true) ≡ false
    from (other, zero_sig) = elim (Bool-cases (tx_is_coinbase tx)) [
      | inl c ↦ absurd (other ((tx_is_coinbase_iff tx h).0 c))
      | inr c ↦ rw (c, zeros.1 (zero_sig ∙ sym size))
    ]

-- A coinbase transaction to a farmer's address is in range, pays the reward and the fees, is accepted
-- by `transaction_verify`, and does not expire at any height.
pub transaction_create_coinbase_lem :
    (farmer : List ℕ) (reward fees height : ℕ)
    → IsBytes 20 farmer
    → height < 2 ^ 32
    → reward + fees < 2 ^ 64
    → let tx = transaction_create_coinbase farmer reward fees height in
      IsTransaction tx
      × (tx.dest_address ≡ farmer)
      × (tx.value ≡ reward + fees)
      × (transaction_verify tx ≡ true)
      × ((now : ℕ) → transaction_is_expired tx now ≡ false)
unfolding transaction_create_coinbase transaction_verify transaction_is_expired
transaction_create_coinbase_lem farmer reward fees height hf hh hv =
    (well_formed, dest, omega arith, rw (same_coinbase), λ now. refl)
  where
    dest : memcpy (replicate 20 0) 0 farmer 20 ≡ farmer
    dest = memcpy_all 20 (replicate 20 0) farmer refl hf.0

    same_coinbase : same_bytes 20 coinbase_address coinbase_address ≡ true
    same_coinbase = (same_bytes_iff 20 coinbase_address coinbase_address refl refl).1 refl

    well_formed : IsTransaction (transaction_create_coinbase farmer reward fees height)
    well_formed = record {
      nonce_fits = omega arith;
      expiry_fits = omega arith;
      source_bytes = omega arith;
      dest_bytes = rw dest hf;
      value_fits = omega arith;
      fee_fits = omega arith;
      signature_bytes = omega arith;
    }

-- A transaction that has expired at one height has expired at every later one, and a transaction that
-- can expire has not done so at the height of its expiry block, but at the next.
transaction_is_expired_mono :
    (tx : Transaction) (now later : ℕ)
    → now ≤ later
    → (transaction_is_expired tx now ≡ true → transaction_is_expired tx later ≡ true)
      × (transaction_is_expired tx tx.expiry_block ≡ false)
      × (0 < tx.expiry_block → transaction_is_expired tx (tx.expiry_block + 1) ≡ true)
unfolding transaction_is_expired
transaction_is_expired_mono tx now later h = (λ e. ground arith, ground arith, λ p. ground arith)
