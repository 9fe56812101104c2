-- ===== src/Proto.antt =====
-- The messages of proto/blockchain.proto as protobuf-c's structs (proto/blockchain.pb-c.h), and what
-- the program relies on of the generated code, which is a parameter of the development.
use shardingsim.Prelude.{
  ℕ, ◌+◌, ◌^◌, ◌*◌, ◌≤◌, ◌<◌, ◌≡◌, Option, none, some, List, length, All, IsByte,
}

-- `ProtobufCBinaryData`; `data` may be NULL.
pub record BinaryData : Type 0 where
  pub len : ℕ
  pub bytes : Option (List ℕ)

-- `Blockchain__Transaction`
pub record PbTransaction : Type 0 where
  pub nonce : ℕ
  pub expiry_block : ℕ
  pub source_address : BinaryData
  pub dest_address : BinaryData
  pub value : ℕ
  pub fee : ℕ
  pub signature : BinaryData

-- `Blockchain__TransactionBatch`
pub record PbBatch : Type 0 where
  pub transactions : List PbTransaction
  pub count : ℕ

-- Proto3 does not send an empty field, and a field that is not sent is NULL.
pub data IsField : BinaryData → Type 0 where
  absent : IsField (record { len = 0; bytes = none })
  present :
      (data_len : ℕ) (content : List ℕ)
      → 0 < data_len
      → length content ≡ data_len
      → All IsByte content
      → IsField (record { len = data_len; bytes = some content })

pub record IsPbTransaction (m : PbTransaction) : Type 0 where
  pub nonce_fits : m.nonce < 2 ^ 64
  pub expiry_fits : m.expiry_block < 2 ^ 32
  pub source_field : IsField m.source_address
  pub dest_field : IsField m.dest_address
  pub value_fits : m.value < 2 ^ 64
  pub fee_fits : m.fee < 2 ^ 32
  pub signature_field : IsField m.signature

-- No field is longer than an address or a signature.
pub record IsSmall (m : PbTransaction) : Type 0 where
  pub source_small : m.source_address.len ≤ 20
  pub dest_small : m.dest_address.len ≤ 20
  pub signature_small : m.signature.len ≤ 48

-- The generated packers and unpackers, which are protobuf-c's on the descriptors.
pub record Protobuf : Type 0 where
  pub transaction_pack : PbTransaction → List ℕ
  pub transaction_unpack : List ℕ → Option PbTransaction
  pub batch_pack : PbBatch → List ℕ
  pub batch_unpack : List ℕ → Option PbBatch

-- Unpacking what was packed gives the message back; a message with a field to send is not empty; and
-- the wire format takes at most 131 bytes for a transaction in a batch and 6 for the count.
pub record IsProtobuf (p : Protobuf) : Type 0 where
  pub transaction_round :
      (m : PbTransaction) → IsPbTransaction m → p.transaction_unpack (p.transaction_pack m) ≡ some m
  pub transaction_sent :
      (m : PbTransaction) → 0 < m.source_address.len → 0 < length (p.transaction_pack m)
  pub batch_round :
      (m : PbBatch)
      → All IsPbTransaction m.transactions
      → m.count < 2 ^ 32
      → p.batch_unpack (p.batch_pack m) ≡ some m
  pub batch_sent : (m : PbBatch) → 0 < m.count → 0 < length (p.batch_pack m)
  pub batch_size :
      (m : PbBatch)
      → All IsPbTransaction m.transactions
      → All IsSmall m.transactions
      → m.count < 2 ^ 32
      → length (p.batch_pack m) ≤ 131 * length m.transactions + 6
