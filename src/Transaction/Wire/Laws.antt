-- ===== src/Transaction/Wire/Laws.antt =====
-- A transaction survives the way through its protobuf form.
use shardingsim.Prelude.{
  ℕ, memcpy, All, ◌≤◌, ◌≡◌, refl, sym, ap, ◌∙◌, true, false, some, List, length, replicate, ltb,
  leb, ◌==◌, if◌then◌else◌, IsByte, IsBytes, Bool-cases, inl, inr, arith, length-memcpy, All-memcpy,
  memcpy_all,
}
use shardingsim.Common.Compare.{is_zero}
use shardingsim.Common.Compare.Laws.{is_zero_iff}
use shardingsim.Proto.{
  BinaryData, PbTransaction, IsField, absent, present, IsPbTransaction, IsSmall, Protobuf,
  IsProtobuf,
}
use shardingsim.Transaction.{Transaction, IsTransaction}
use shardingsim.Transaction.Wire.{
  signature_field, to_pb, transaction_serialize_pb, copy_within, copy_address, copy_signature,
  from_pb, unpacked, transaction_deserialize_pb,
}

copy_within_lem :
    (dst src : List ℕ) (n : ℕ)
    → n ≤ length dst
    → n ≤ length src
    → copy_within dst src n ≡ memcpy dst 0 src n
unfolding copy_within
copy_within_lem dst src n hd hs =
    let to : leb n (length dst) ≡ true = ground arith in
    let from : leb n (length src) ≡ true = ground arith in rw (to, from) refl

copy_within_all :
    (n : ℕ) (dst src : List ℕ) → length dst ≡ n → length src ≡ n → copy_within dst src n ≡ src
copy_within_all n dst src hd hs =
    copy_within_lem dst src n (omega arith) (omega arith) ∙ memcpy_all n dst src hd hs

copy_within-IsBytes :
    (size : ℕ) (dst src : List ℕ) (n : ℕ)
    → IsBytes size dst
    → All IsByte src
    → n ≤ size
    → n ≤ length src
    → IsBytes size (copy_within dst src n)
copy_within-IsBytes size dst src n hd hs to from =
    rw (copy_within_lem dst src n (omega (arith, hd.0)) from)
      (length-memcpy dst 0 src n ∙ hd.0, All-memcpy IsByte dst 0 src n hd.1 hs)

copy_signature-signature_field :
    (signature : List ℕ)
    → IsBytes 48 signature
    → IsField (signature_field signature)
      × (copy_signature
            (replicate 48 0)
            (signature_field signature).len
            (signature_field signature).bytes
          ≡ signature)
unfolding signature_field copy_signature
copy_signature-signature_field signature h = elim (Bool-cases (is_zero signature)) [
  | inl zeros ↦
      rw (zeros)
        (absent, sym ((is_zero_iff signature).0 zeros ∙ ap (λ (n : ℕ). replicate {A = ℕ} n 0) h.0))
  | inr other ↦ rw (other) (
    present 48 signature (omega arith) h.0 h.1,
    copy_within_all 48 (replicate 48 0) signature refl h.0,
  )
]

pub to_pb-IsPbTransaction : (tx : Transaction) → IsTransaction tx → IsPbTransaction (to_pb tx)
unfolding to_pb
to_pb-IsPbTransaction tx h = record {
  nonce_fits = h.nonce_fits;
  expiry_fits = h.expiry_fits;
  source_field = present 20 tx.source_address (omega arith) h.source_bytes.0 h.source_bytes.1;
  dest_field = present 20 tx.dest_address (omega arith) h.dest_bytes.0 h.dest_bytes.1;
  value_fits = h.value_fits;
  fee_fits = h.fee_fits;
  signature_field = (copy_signature-signature_field tx.signature h.signature_bytes).0;
}

signature_field-small : (signature : List ℕ) → (signature_field signature).len ≤ 48
unfolding signature_field
signature_field-small signature = elim (Bool-cases (is_zero signature)) [
  | inl zeros ↦ rw (zeros) (omega arith)
  | inr other ↦ rw (other) (omega arith)
]

pub to_pb-IsSmall : (tx : Transaction) → IsSmall (to_pb tx)
unfolding to_pb
to_pb-IsSmall tx = record {
  source_small = omega arith;
  dest_small = omega arith;
  signature_small = signature_field-small tx.signature;
}

pub from_pb-to_pb : (tx : Transaction) → IsTransaction tx → from_pb (to_pb tx) ≡ tx
unfolding from_pb to_pb copy_address
from_pb-to_pb tx h = λ i. record tx {
  source_address = copy_within_all 20 (replicate 20 0) tx.source_address refl h.source_bytes.0 i;
  dest_address = copy_within_all 20 (replicate 20 0) tx.dest_address refl h.dest_bytes.0 i;
  signature = (copy_signature-signature_field tx.signature h.signature_bytes).1 i;
}

-- Through protobuf, a transaction in range comes back as it was, whether or not its signature is the
-- zeros that are not sent.
pub transaction_deserialize_pb-transaction_serialize_pb :
    {p : Protobuf}
    → IsProtobuf p
    → (tx : Transaction) → IsTransaction tx
    → transaction_deserialize_pb p (transaction_serialize_pb p tx) ≡ some tx
unfolding transaction_deserialize_pb transaction_serialize_pb unpacked to_pb
transaction_deserialize_pb-transaction_serialize_pb {p} laws tx h =
    rw (sent, laws.transaction_round (to_pb tx) (to_pb-IsPbTransaction tx h), from_pb-to_pb tx h)
  where
    sent : (length (p.transaction_pack (to_pb tx)) == 0) ≡ false
    sent = ground (arith, laws.transaction_sent (to_pb tx) (omega arith))

copy_address-IsBytes :
    (address : List ℕ) (field : BinaryData)
    → IsBytes 20 address
    → IsField field
    → IsBytes 20 (copy_address address field.len field.bytes)
unfolding copy_address
copy_address-IsBytes address field h absent = h
copy_address-IsBytes address field h (present len content pos size ok) =
    elim (Bool-cases (leb 20 len)) [
      | inl enough ↦
          let long : 20 ≤ length content = ground arith in
          rw (enough) (copy_within-IsBytes 20 address content 20 h ok (omega arith) long)
      | inr short ↦ rw (short) h
    ]

copy_signature-IsBytes :
    (signature : List ℕ) (field : BinaryData)
    → IsBytes 48 signature
    → IsField field
    → IsBytes 48 (copy_signature signature field.len field.bytes)
unfolding copy_signature
copy_signature-IsBytes signature field h absent = h
copy_signature-IsBytes signature field h (present len content pos size ok) =
    let there : ltb 0 len ≡ true = ground arith in
    let n : ℕ = if ltb len 48 then len else 48 in
    let small : n ≤ 48 = ground arith in
    let from : n ≤ length content = ground arith in
    rw there (copy_within-IsBytes 48 signature content n h ok small from)

-- Whatever lengths the addresses and the signature of a message have, no copy from them reads or writes
-- out of bounds, and the transaction made from it is in range.
pub from_pb-IsTransaction : (m : PbTransaction) → IsPbTransaction m → IsTransaction (from_pb m)
unfolding from_pb
from_pb-IsTransaction m h = record {
  nonce_fits = h.nonce_fits;
  expiry_fits = h.expiry_fits;
  source_bytes =
      copy_address-IsBytes (replicate 20 0) m.source_address (omega arith) h.source_field;
  dest_bytes = copy_address-IsBytes (replicate 20 0) m.dest_address (omega arith) h.dest_field;
  value_fits = h.value_fits;
  fee_fits = h.fee_fits;
  signature_bytes =
      copy_signature-IsBytes (replicate 48 0) m.signature (omega arith) h.signature_field;
}
