-- ===== src/Transaction.antt =====
-- src/transaction.c and include/transaction.h: the transaction, its hash, signature and expiry.
pub mod Layout
pub mod Sign
pub mod Laws
pub mod Wire
pub mod Destroy
use Prim.Native.Nat.{Ordering}
use shardingsim.Prelude.{
  ℕ, zero, suc, ◌+◌, ◌-◌, ◌*◌, ◌/◌, ◌%◌, ◌^◌, Bool, true, false, List, [], ◌∷◌, ◌++◌, replicate,
  take, memcpy, length, ltb, ◌==◌, if◌then◌else◌, u64, ◌<◌, IsBytes,
}
use shardingsim.Common.Compare.{is_zero, same_bytes}

-- `uint64_t` and `uint32_t` members are numbers, arrays are lists of bytes.
pub record Transaction : Type 0 where
  pub nonce : ℕ
  pub expiry_block : ℕ
  pub source_address : List ℕ
  pub dest_address : List ℕ
  pub value : ℕ
  pub fee : ℕ
  pub signature : List ℕ

abbrev pub tx_address_length : ℕ
tx_address_length = 20

abbrev pub tx_signature_length : ℕ
tx_signature_length = 48

abbrev pub tx_total_size : ℕ
tx_total_size = 112

abbrev pub tx_hash_size : ℕ
tx_hash_size = 28

-- "COINBASE" and twelve zeros.
abbrev pub coinbase_address : List ℕ
coinbase_address = b'C' ∷ b'O' ∷ b'I' ∷ b'N' ∷ b'B' ∷ b'A' ∷ b'S' ∷ b'E' ∷ replicate 12 0

-- `memset(tx, 0, sizeof(Transaction))`
abbrev pub zeroed : Transaction
zeroed = record {
  nonce = 0;
  expiry_block = 0;
  source_address = replicate 20 0;
  dest_address = replicate 20 0;
  value = 0;
  fee = 0;
  signature = replicate 48 0;
}

pub tx_is_coinbase : Transaction → Bool
tx_is_coinbase tx = same_bytes 20 tx.source_address coinbase_address

pub transaction_create_coinbase : List ℕ → ℕ → ℕ → ℕ → Transaction
transaction_create_coinbase farmer_address base_reward total_fees block_height = record zeroed {
  nonce = block_height;
  expiry_block = 0;
  source_address = memcpy (replicate 20 0) 0 coinbase_address 20;
  dest_address = memcpy (replicate 20 0) 0 farmer_address 20;
  value = u64 (base_reward + total_fees);
  fee = 0;
}

pub transaction_verify : Transaction → Bool
unfolding tx_is_coinbase
transaction_verify tx =
    if tx_is_coinbase tx then true else if is_zero tx.signature then false else true

pub transaction_is_expired : Transaction → ℕ → Bool
transaction_is_expired tx current_block_height =
    if tx.expiry_block == 0 then false else ltb tx.expiry_block current_block_height

-- The members as the program's types have them.
pub record IsTransaction (tx : Transaction) : Type 0 where
  pub nonce_fits : tx.nonce < 2 ^ 64
  pub expiry_fits : tx.expiry_block < 2 ^ 32
  pub source_bytes : IsBytes 20 tx.source_address
  pub dest_bytes : IsBytes 20 tx.dest_address
  pub value_fits : tx.value < 2 ^ 64
  pub fee_fits : tx.fee < 2 ^ 32
  pub signature_bytes : IsBytes 48 tx.signature
