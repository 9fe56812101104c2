-- ===== src/Transaction/Wire.antt =====
-- The protobuf form of a transaction, in src/transaction.c.
pub mod Laws
use shardingsim.Prelude.{
  ℕ, Bool, Option, none, some, List, [], ◌∷◌, length, replicate, memcpy, ltb, leb, not, ◌&&◌, ◌==◌,
  if◌then◌else◌,
}
use shardingsim.Common.Compare.{is_zero}
use shardingsim.Proto.{BinaryData, PbTransaction, Protobuf}
use shardingsim.Transaction.{Transaction, zeroed}

-- A signature of zeros is not sent.
pub signature_field : List ℕ → BinaryData
signature_field signature =
    if not (is_zero signature)
    then record { len = 48; bytes = some signature }
    else record { len = 0; bytes = none }

-- The message that `transaction_serialize_pb` fills in, and main.c for each transaction of a batch.
pub to_pb : Transaction → PbTransaction
unfolding signature_field
to_pb tx = record {
  nonce = tx.nonce;
  expiry_block = tx.expiry_block;
  source_address = record { len = 20; bytes = some tx.source_address };
  dest_address = record { len = 20; bytes = some tx.dest_address };
  value = tx.value;
  fee = tx.fee;
  signature = signature_field tx.signature;
}

pub transaction_serialize_pb : Protobuf → Transaction → List ℕ
transaction_serialize_pb p tx = p.transaction_pack (to_pb tx)

-- `memcpy(dst, src, n)` between two arrays of a known size. Out of the bounds of either one C leaves it
-- undefined: that is the empty list here, which no array of a `Transaction` is.
copy_within : List ℕ → List ℕ → ℕ → List ℕ
copy_within dst src n = if leb n (length dst) && leb n (length src) then memcpy dst 0 src n else []

-- An address of at least 20 bytes is copied, another one leaves the zeros.
pub copy_address : List ℕ → ℕ → Option (List ℕ) → List ℕ
unfolding copy_within
copy_address address len none = address
copy_address address len (some content) =
    if leb 20 len then copy_within address content 20 else address

-- At most 48 bytes of a signature are copied.
pub copy_signature : List ℕ → ℕ → Option (List ℕ) → List ℕ
unfolding copy_within
copy_signature signature len none = signature
copy_signature signature len (some content) =
    if ltb 0 len then copy_within signature content (if ltb len 48 then len else 48) else signature

pub from_pb : PbTransaction → Transaction
unfolding copy_address copy_signature
from_pb pb_tx = record zeroed {
  nonce = pb_tx.nonce;
  expiry_block = pb_tx.expiry_block;
  source_address =
      copy_address (replicate 20 0) pb_tx.source_address.len pb_tx.source_address.bytes;
  dest_address = copy_address (replicate 20 0) pb_tx.dest_address.len pb_tx.dest_address.bytes;
  value = pb_tx.value;
  fee = pb_tx.fee;
  signature = copy_signature (replicate 48 0) pb_tx.signature.len pb_tx.signature.bytes;
}

unpacked : Option PbTransaction → Option Transaction
unpacked none = none
unpacked (some pb_tx) = some (from_pb pb_tx)

pub transaction_deserialize_pb : Protobuf → List ℕ → Option Transaction
unfolding unpacked
transaction_deserialize_pb p content =
    if length content == 0 then none else unpacked (p.transaction_unpack content)
