-- ===== src/Tests/Codec.antt =====
-- A stand-in for the generated code, on which the theorems with `IsProtobuf` are run: a message is
-- the list of its numbers, each field of bytes behind its length.
use shardingsim.Prelude.{
  ℕ, zero, suc, ◌+◌, ◌*◌, ◌≤◌, ◌<◌, ◌≡◌, refl, sym, ap, ◌∙◌, false, Option, none, some, List, [],
  ◌∷◌, ◌++◌, length, take, drop, ◌==◌, if◌then◌else◌, All, arith, take-append, drop-append,
  length-append,
}
use shardingsim.Proto.{
  BinaryData, PbTransaction, PbBatch, IsField, absent, present, IsPbTransaction, IsSmall, Protobuf,
  IsProtobuf,
}

content_of : Option (List ℕ) → List ℕ
content_of none = []
content_of (some content) = content

put_field : BinaryData → List ℕ → List ℕ
unfolding content_of
put_field field rest = field.len ∷ (content_of field.bytes ++ rest)

get_field : List ℕ → BinaryData × List ℕ
get_field [] = (record { len = 0; bytes = none }, [])
get_field (n ∷ rest) =
    if n == 0
    then (record { len = 0; bytes = none }, rest)
    else (record { len = n; bytes = some (take n rest) }, drop n rest)

get_field-put_field :
    (field : BinaryData) (rest : List ℕ)
    → IsField field
    → get_field (put_field field rest) ≡ (field, rest)
unfolding get_field put_field content_of
get_field-put_field field rest absent = refl
get_field-put_field field rest (present n content filled size ok) =
    let some_bytes : (n == 0) ≡ false = ground arith in
    rw (some_bytes, take-append n content rest (sym size), drop-append n content rest (sym size))

length-put_field :
    (field : BinaryData) (rest : List ℕ)
    → IsField field
    → length (put_field field rest) ≡ 1 + field.len + length rest
unfolding put_field content_of
length-put_field field rest absent = omega arith
length-put_field field rest (present n content filled size ok) =
    omega (arith, length-append content rest, size)

put_transaction : PbTransaction → List ℕ → List ℕ
unfolding put_field
put_transaction m rest =
    m.nonce
    ∷ m.expiry_block
    ∷ m.value
    ∷ m.fee
    ∷ put_field m.source_address (put_field m.dest_address (put_field m.signature rest))

get_transaction : List ℕ → Option (PbTransaction × List ℕ)
unfolding get_field
get_transaction (nonce ∷ expiry ∷ value ∷ fee ∷ content) =
    let (source, after_source) = get_field content in
    let (dest, after_dest) = get_field after_source in
    let (signature, rest) = get_field after_dest in
    some (
      record {
        nonce = nonce;
        expiry_block = expiry;
        source_address = source;
        dest_address = dest;
        value = value;
        fee = fee;
        signature = signature;
      },
      rest,
    )
get_transaction _ = none

get_transaction-put_transaction :
    (m : PbTransaction) (rest : List ℕ)
    → IsPbTransaction m
    → get_transaction (put_transaction m rest) ≡ some (m, rest)
unfolding get_transaction put_transaction
get_transaction-put_transaction m rest h = rw (
  get_field-put_field m.source_address (put_field m.dest_address (put_field m.signature rest))
      h.source_field,
  get_field-put_field m.dest_address (put_field m.signature rest) h.dest_field,
  get_field-put_field m.signature rest h.signature_field,
)

length-put_transaction :
    (m : PbTransaction) (rest : List ℕ)
    → IsPbTransaction m
    → length (put_transaction m rest)
      ≡ 7 + m.source_address.len + m.dest_address.len + m.signature.len + length rest
unfolding put_transaction
length-put_transaction m rest h = omega (
  arith,
  length-put_field m.source_address (put_field m.dest_address (put_field m.signature rest))
      h.source_field,
  length-put_field m.dest_address (put_field m.signature rest) h.dest_field,
  length-put_field m.signature rest h.signature_field,
)

put_all : List PbTransaction → List ℕ
unfolding put_transaction
put_all [] = []
put_all (m ∷ rest) = put_transaction m (put_all rest)

prepend : PbTransaction → Option (List PbTransaction) → Option (List PbTransaction)
prepend m none = none
prepend m (some batch) = some (m ∷ batch)

get_all : ℕ → List ℕ → Option (List PbTransaction)
unfolding get_transaction prepend
get_all zero content = some []
get_all (suc n) content = elim (get_transaction content) [
  | none ↦ none
  | some (m, rest) ↦ prepend m (get_all n rest)
]

get_all-suc :
    (n : ℕ) (content : List ℕ) (m : PbTransaction) (rest : List ℕ)
    → get_transaction content ≡ some (m, rest)
    → get_all (suc n) content ≡ prepend m (get_all n rest)
unfolding get_all
get_all-suc n content m rest e =
    ap
      (λ (o : Option (PbTransaction × List ℕ)). elim o as (λ _. Option (List PbTransaction)) [
        | none ↦ none
        | some (next, left) ↦ prepend next (get_all n left)
      ])
      e

get_all-put_all :
    (batch : List PbTransaction)
    → All IsPbTransaction batch
    → get_all (length batch) (put_all batch) ≡ some batch
unfolding get_all put_all prepend
get_all-put_all [] h = refl
get_all-put_all (m ∷ batch) (head, tail) =
    get_all-suc (length batch) (put_transaction m (put_all batch)) m (put_all batch)
      (get_transaction-put_transaction m (put_all batch) head)
    ∙ ap (prepend m) (get_all-put_all batch tail)

length-put_all :
    (batch : List PbTransaction)
    → All IsPbTransaction batch
    → All IsSmall batch
    → length (put_all batch) ≤ 131 * length batch
unfolding put_all
length-put_all [] h small = omega arith
length-put_all (m ∷ batch) (head, tail) (small, others) = omega (
  arith,
  length-put_transaction m (put_all batch) head,
  length-put_all batch tail others,
  small.source_small,
  small.dest_small,
  small.signature_small,
)

message_only : Option (PbTransaction × List ℕ) → Option PbTransaction
message_only none = none
message_only (some (m, rest)) = some m

with_count : ℕ → Option (List PbTransaction) → Option PbBatch
with_count count none = none
with_count count (some batch) = some (record { transactions = batch; count = count })

unpack_batch : List ℕ → Option PbBatch
unfolding get_all with_count
unpack_batch (count ∷ n ∷ content) = with_count count (get_all n content)
unpack_batch _ = none

pub codec : Protobuf
unfolding put_transaction put_all get_transaction message_only unpack_batch
codec = record {
  transaction_pack = λ m. put_transaction m [];
  transaction_unpack = λ content. message_only (get_transaction content);
  batch_pack = λ m. m.count ∷ length m.transactions ∷ put_all m.transactions;
  batch_unpack = unpack_batch;
}

sent : (m : PbTransaction) → 0 < length (put_transaction m [])
unfolding put_transaction
sent m = omega arith

pub codec-IsProtobuf : IsProtobuf codec
unfolding codec message_only unpack_batch with_count
codec-IsProtobuf = record {
  transaction_round = λ m h. ap message_only (get_transaction-put_transaction m [] h);
  transaction_sent = λ m h. sent m;
  batch_round = λ m h fits. ap (with_count m.count) (get_all-put_all m.transactions h);
  batch_sent = λ m h. omega arith;
  batch_size = λ m h small fits. omega (arith, length-put_all m.transactions h small);
}
