-- ===== src/Transaction/Layout.antt =====
-- The packed struct of include/transaction.h as 112 bytes on a little-endian machine, the 64 bytes
-- that are hashed, and the legacy hex form.
pub mod Laws
pub mod Legacy
use shardingsim.Prelude.{
  ℕ, zero, suc, ◌+◌, ◌*◌, ◌/◌, ◌%◌, Bool, true, false, not, Option, none, some, List, [], ◌∷◌, ◌++◌,
  length, take, drop, replicate, ◌==◌, if◌then◌else◌,
}
use shardingsim.Common.Hex.{bytes_to_hex, hex_to_bytes_buf}
use shardingsim.Common.Hash.{blake3_hash_truncated}
use shardingsim.Blake3.Hasher.{Hasher}
use shardingsim.Transaction.{Transaction, tx_hash_size, tx_total_size}

-- An integer of `n` bytes in memory, and back.
pub to_le : ℕ → ℕ → List ℕ
to_le zero x = []
to_le (suc n) x = x % 256 ∷ to_le n (x / 256)

pub from_le : List ℕ → ℕ
from_le [] = 0
from_le (b ∷ bytes) = b + 256 * from_le bytes

-- The `buffer` of `transaction_compute_hash`.
unfoldable pub signing_bytes : Transaction → List ℕ
unfolding to_le
signing_bytes tx =
    to_le 8 tx.nonce
    ++ (to_le 4 tx.expiry_block
        ++ (tx.source_address ++ (tx.dest_address ++ (to_le 8 tx.value ++ to_le 4 tx.fee))))

unfoldable pub transaction_compute_hash : Hasher → Transaction → List ℕ
transaction_compute_hash memory tx = blake3_hash_truncated memory (signing_bytes tx) tx_hash_size

pub transaction_get_hash_hex : Hasher → Bool → Transaction → Option (List ℕ)
transaction_get_hash_hex memory alloc tx = bytes_to_hex alloc (transaction_compute_hash memory tx)

-- `(const uint8_t *) tx`
unfoldable pub struct_bytes : Transaction → List ℕ
unfolding signing_bytes
struct_bytes tx = signing_bytes tx ++ tx.signature

-- A block of 112 bytes as the struct.
pub of_struct_bytes : List ℕ → Transaction
unfolding from_le
of_struct_bytes bytes = record {
  nonce = from_le (take 8 bytes);
  expiry_block = from_le (take 4 (drop 8 bytes));
  source_address = take 20 (drop 12 bytes);
  dest_address = take 20 (drop 32 bytes);
  value = from_le (take 8 (drop 52 bytes));
  fee = from_le (take 4 (drop 60 bytes));
  signature = take 48 (drop 64 bytes);
}

unfoldable pub transaction_serialize : Bool → Transaction → Option (List ℕ)
transaction_serialize alloc tx = bytes_to_hex alloc (struct_bytes tx)

-- `memory` is what the new block holds before it is written.
pub transaction_deserialize : List ℕ → List ℕ → Option Transaction
transaction_deserialize memory hex_data =
    let decoded = hex_to_bytes_buf hex_data memory tx_total_size in
    if not (length hex_data == 224)
    then none
    else if not decoded.0
    then none
    else some (of_struct_bytes decoded.1)
