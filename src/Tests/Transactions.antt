-- ===== src/Tests/Transactions.antt =====
-- The theorems on transactions and addresses.
use shardingsim.Prelude.{
  ℕ, ◌≡◌, ◌≢◌, ◌↔◌, refl, true, false, some, List, [], ◌∷◌, ◌++◌, take, map, arith, replicate,
  IsBytes, inl, inr,
}
use shardingsim.Common.Hex.{bytes_to_hex, bytes_to_hex_buf}
use shardingsim.Common.Hex.Laws.{to_lower}
use shardingsim.Wallet.Address.{
  wallet_parse_address, wallet_is_hex_address, address_to_hex, wallet_name_to_address,
}
use shardingsim.Wallet.Address.Laws.{wallet_parse_address_lem}
use shardingsim.Transaction.{
  Transaction, IsTransaction, coinbase_address, transaction_verify, transaction_create_coinbase,
  transaction_is_expired,
}
use shardingsim.Transaction.Laws.{transaction_verify_iff, transaction_create_coinbase_lem}
use shardingsim.Transaction.Layout.{
  transaction_compute_hash, signing_bytes, struct_bytes, transaction_serialize,
  transaction_deserialize,
}
use shardingsim.Transaction.Layout.Laws.{signing_bytes_iff}
use shardingsim.Transaction.Layout.Legacy.{
  transaction_deserialize-transaction_serialize, transaction_serialize-transaction_deserialize,
}
use shardingsim.Transaction.Sign.Signed.{transaction_create_signed}
use shardingsim.Transaction.Sign.{
  Signer, signed, unsigned, transaction_create, transaction_create_from_address,
}
use shardingsim.Transaction.Sign.Create.{
  FallsBack, transaction_create-IsTransaction, transaction_create_fallback,
  transaction_create_no_context,
}
use shardingsim.Tests.Values.{
  memory, alice, bob, payment, payment-IsTransaction, wallet, signing, signing-SignsBytes, failing,
  starving, openssl, openssl-IsOpenSsl,
}

-- The 224 digits of the payment.
abbrev payment_text : List ℕ
payment_text =
    48 ∷ 55 ∷ 48 ∷ 48 ∷ 48 ∷ 48 ∷ 48 ∷ 48 ∷ 48 ∷ 48 ∷ 48 ∷ 48 ∷ 48 ∷ 48 ∷ 48 ∷ 48 ∷ 101 ∷ 56 ∷ 48
    ∷ 51 ∷ 48 ∷ 48 ∷ 48 ∷ 48 ∷ 49 ∷ 49 ∷ 48 ∷ 51 ∷ 48 ∷ 51 ∷ 48 ∷ 51 ∷ 48 ∷ 51 ∷ 48 ∷ 51 ∷ 48 ∷ 51
    ∷ 48 ∷ 51 ∷ 48 ∷ 51 ∷ 48 ∷ 51 ∷ 48 ∷ 51 ∷ 48 ∷ 51 ∷ 48 ∷ 51 ∷ 48 ∷ 51 ∷ 48 ∷ 51 ∷ 48 ∷ 51 ∷ 48
    ∷ 51 ∷ 48 ∷ 51 ∷ 48 ∷ 51 ∷ 48 ∷ 51 ∷ 49 ∷ 50 ∷ 102 ∷ 102 ∷ 102 ∷ 102 ∷ 102 ∷ 102 ∷ 102 ∷ 102
    ∷ 102 ∷ 102 ∷ 102 ∷ 102 ∷ 102 ∷ 102 ∷ 102 ∷ 102 ∷ 102 ∷ 102 ∷ 102 ∷ 102 ∷ 102 ∷ 102 ∷ 102 ∷ 102
    ∷ 102 ∷ 102 ∷ 102 ∷ 102 ∷ 102 ∷ 102 ∷ 102 ∷ 102 ∷ 102 ∷ 102 ∷ 102 ∷ 102 ∷ 102 ∷ 102 ∷ 48 ∷ 48
    ∷ 48 ∷ 48 ∷ 48 ∷ 49 ∷ 48 ∷ 48 ∷ 48 ∷ 48 ∷ 48 ∷ 48 ∷ 48 ∷ 48 ∷ 48 ∷ 48 ∷ 48 ∷ 49 ∷ 48 ∷ 48 ∷ 48
    ∷ 48 ∷ 48 ∷ 48 ∷ 48 ∷ 48 ∷ 48 ∷ 48 ∷ 48 ∷ 48 ∷ 48 ∷ 48 ∷ 48 ∷ 48 ∷ 48 ∷ 48 ∷ 48 ∷ 48 ∷ 48 ∷ 48
    ∷ 48 ∷ 48 ∷ 48 ∷ 48 ∷ 48 ∷ 48 ∷ 48 ∷ 48 ∷ 48 ∷ 48 ∷ 48 ∷ 48 ∷ 48 ∷ 48 ∷ 48 ∷ 48 ∷ 48 ∷ 48 ∷ 48
    ∷ 48 ∷ 48 ∷ 48 ∷ 48 ∷ 48 ∷ 48 ∷ 48 ∷ 48 ∷ 48 ∷ 48 ∷ 48 ∷ 48 ∷ 48 ∷ 48 ∷ 48 ∷ 48 ∷ 48 ∷ 48 ∷ 48
    ∷ 48 ∷ 48 ∷ 48 ∷ 48 ∷ 48 ∷ 48 ∷ 48 ∷ 48 ∷ 48 ∷ 48 ∷ 48 ∷ 48 ∷ 48 ∷ 48 ∷ 48 ∷ 48 ∷ 48 ∷ 48 ∷ 48
    ∷ 48 ∷ 48 ∷ 48 ∷ 48 ∷ 48 ∷ 48 ∷ 48 ∷ 48 ∷ 48 ∷ 48 ∷ 48 ∷ 48 ∷ 48 ∷ 48 ∷ 48 ∷ 48 ∷ 48 ∷ 48 ∷ 48
    ∷ 48 ∷ 48 ∷ 56 ∷ 48 ∷ []

payment_text-serialize : transaction_serialize true payment ≡ some payment_text
unfolding transaction_serialize bytes_to_hex bytes_to_hex_buf struct_bytes
payment_text-serialize = refl

transaction_deserialize-transaction_serialize_example :
    transaction_deserialize (replicate 112 0) payment_text ≡ some payment
transaction_deserialize-transaction_serialize_example =
    transaction_deserialize-transaction_serialize (replicate 112 0) payment payment_text refl
      payment-IsTransaction payment_text-serialize

transaction_serialize-transaction_deserialize_example :
    IsTransaction payment × (transaction_serialize true payment ≡ some (map to_lower payment_text))
transaction_serialize-transaction_deserialize_example =
    transaction_serialize-transaction_deserialize (replicate 112 0) payment_text payment refl
      transaction_deserialize-transaction_serialize_example

signing_bytes_iff_example :
    (signing_bytes payment ≡ signing_bytes payment)
    ↔ (record payment { signature = payment.signature } ≡ payment)
signing_bytes_iff_example =
    signing_bytes_iff payment payment payment-IsTransaction payment-IsTransaction

transaction_create-IsTransaction_example :
    (tx : Transaction) × (transaction_create memory signing wallet bob 5 1 7 1000 ≡ some tx)
    × IsTransaction tx
    × (tx.nonce ≡ 7)
    × (signing_bytes tx
        ≡ signing_bytes (record {
          nonce = 7;
          expiry_block = 1000;
          source_address = alice;
          dest_address = bob;
          value = 5;
          fee = 1;
          signature = [];
        }))
transaction_create-IsTransaction_example =
    transaction_create-IsTransaction memory signing wallet bob 5 1 7 1000 signing-SignsBytes
      (omega arith) (omega arith) (omega arith) (omega arith) (omega arith) (omega arith)

-- A signer that puts 8 before the message.
abbrev echoing : Signer
echoing key message = signed (8 ∷ message)

transaction_create_signed_example :
    (tx : Transaction) × (transaction_create memory echoing wallet bob 5 1 7 1000 ≡ some tx)
    × (tx.signature ≡ take 48 ((8 ∷ transaction_compute_hash memory tx) ++ replicate 48 0))
transaction_create_signed_example =
    transaction_create_signed memory echoing wallet bob 5 1 7 1000 (λ message. 8 ∷ message)
      (omega arith) (λ message. refl)

falls_back : (message : List ℕ) → FallsBack (failing (some 1) message)
unfolding FallsBack
falls_back message = inr (inr (inl refl))

transaction_create_fallback_example :
    transaction_create memory failing wallet bob 5 1 7 1000
    ≡ some (transaction_create_from_address memory alice bob 5 1 7 1000)
transaction_create_fallback_example =
    transaction_create_fallback memory failing wallet bob 5 1 7 1000 (omega arith)
      (falls_back (transaction_compute_hash memory (unsigned wallet.address bob 5 1 7 1000)))

alice_is_no_coinbase : alice ≢ coinbase_address
alice_is_no_coinbase e = absurd (cc e)

transaction_create_no_context_example :
    (tx : Transaction) × (transaction_create memory starving wallet bob 5 1 7 1000 ≡ some tx)
    × (transaction_verify tx ≡ false)
transaction_create_no_context_example =
    transaction_create_no_context memory starving wallet bob 5 1 7 1000 (omega arith) (omega arith)
      (omega arith) (omega arith) (omega arith) (omega arith) alice_is_no_coinbase (omega arith)
      (λ message. refl)

transaction_verify_iff_example :
    (transaction_verify payment ≡ false)
    ↔ ((payment.source_address ≢ coinbase_address) × (payment.signature ≡ replicate 48 0))
transaction_verify_iff_example = transaction_verify_iff payment payment-IsTransaction

transaction_create_coinbase_lem_example :
    let tx = transaction_create_coinbase bob 100 5 12 in
    IsTransaction tx
    × (tx.dest_address ≡ bob)
    × (tx.value ≡ 105)
    × (transaction_verify tx ≡ true)
    × ((now : ℕ) → transaction_is_expired tx now ≡ false)
transaction_create_coinbase_lem_example =
    transaction_create_coinbase_lem bob 100 5 12 (omega arith) (omega arith) (omega arith)

wallet_parse_address_lem_example :
    (a : List ℕ) × (wallet_parse_address openssl (some (97 ∷ 98 ∷ [])) (some (replicate 20 0))
      ≡ (true, some a))
    × IsBytes 20 a
    × (wallet_is_hex_address (some (97 ∷ 98 ∷ [])) ≡ true
        → address_to_hex a ≡ map to_lower (97 ∷ 98 ∷ []))
    × (wallet_is_hex_address (some (97 ∷ 98 ∷ [])) ≡ false
        → a ≡ wallet_name_to_address openssl (97 ∷ 98 ∷ []))
wallet_parse_address_lem_example =
    wallet_parse_address_lem openssl-IsOpenSsl (97 ∷ 98 ∷ []) (replicate 20 0) refl
