-- ===== src/Tests/Values.antt =====
-- The data of the runs.
use shardingsim.Prelude.{
  ℕ, none, some, List, [], ◌∷◌, ◌++◌, replicate, length, pos, ◌≡◌, refl, sym, ap, ◌%◌, arith,
}
use shardingsim.Common.Hash.{OpenSsl, IsOpenSsl}
use shardingsim.Blake3.Hasher.{Hasher}
use shardingsim.Wallet.{Wallet}
use shardingsim.Wallet.Keys.{Keys, generated}
use shardingsim.Transaction.{Transaction, IsTransaction}
use shardingsim.Transaction.Sign.{Signing, no_context, length_failed, signed, Signer}
use shardingsim.Transaction.Sign.Laws.{SignsBytes}
use shardingsim.Generator.Batch.{Job}
use shardingsim.Generator.Batch.Laws.{IsJob}
use shardingsim.Proto.{PbTransaction, PbBatch, IsPbTransaction, present}

-- A stack frame of zeros.
abbrev pub memory : Hasher
memory = record {
  cv = replicate 8 0;
  chunk_buf = replicate 1024 0;
  cv_stack = replicate 1728 0;
  cv_stack_len = 0;
  chunk_counter = 0;
  buf_len = 0;
  flags = 0;
}

abbrev pub alice : List ℕ
alice = 17 ∷ replicate 19 3

abbrev pub bob : List ℕ
bob = 18 ∷ replicate 19 255

abbrev pub payment : Transaction
payment = record {
  nonce = 7;
  expiry_block = 1000;
  source_address = alice;
  dest_address = bob;
  value = 65536;
  fee = 1;
  signature = replicate 47 0 ++ (128 ∷ []);
}

pub payment-IsTransaction : IsTransaction payment
payment-IsTransaction = record {
  nonce_fits = omega arith;
  expiry_fits = omega arith;
  source_bytes = omega arith;
  dest_bytes = omega arith;
  value_fits = omega arith;
  fee_fits = omega arith;
  signature_bytes = omega arith;
}

-- A wallet with a key, and OpenSSL signing with 70 bytes, failing, or without memory.
abbrev pub wallet : Wallet
wallet = record {
  name = 97 ∷ [];
  address = alice;
  address_hex = [];
  public_key = [];
  public_key_len = 0;
  evp_key = some 1;
  private_key_pem = 45 ∷ [];
  nonce = 0;
}

abbrev pub signing : Signer
signing key message = signed (replicate 70 48)

abbrev pub failing : Signer
failing key message = length_failed

abbrev pub starving : Signer
starving key message = no_context

signed_content : Signing → List ℕ
signed_content (signed sig_buf) = sig_buf
signed_content _ = []

pub signing-SignsBytes : SignsBytes signing
unfolding signed_content
signing-SignsBytes key message sig_buf e =
    let same : replicate 70 48 ≡ sig_buf = ap signed_content e in rw (sym same) (omega arith)

-- Three transactions in batches of two.
abbrev pub job : Job
job = record {
  memory = memory;
  signer = signing;
  thread_wallets = λ tid. wallet;
  to_addr = bob;
  amount = 5;
  base_nonce = pos 40;
  total_count = 3;
  batch_size = 2;
}

pub job-IsJob : IsJob job
job-IsJob = record {
  signs = signing-SignsBytes;
  wallets = λ tid. omega arith;
  to_bytes = omega arith;
  amount_fits = omega arith;
  batch_pos = omega arith;
  batch_small = omega arith;
  sum_fits = omega arith;
}

-- Digests of the right lengths.
abbrev pub openssl : OpenSsl
openssl = record {
  sha256 = λ message. replicate 32 (length message % 256);
  ripemd160 = λ message. replicate 20 (length message % 256);
}

pub openssl-IsOpenSsl : IsOpenSsl openssl
openssl-IsOpenSsl = record {
  sha256-IsBytes = λ message. omega arith;
  ripemd160-IsBytes = λ message. omega arith;
}

-- A received message: a short address and a short signature.
abbrev pub odd_message : PbTransaction
odd_message = record {
  nonce = 1;
  expiry_block = 2;
  source_address = record { len = 3; bytes = some (1 ∷ 2 ∷ 3 ∷ []) };
  dest_address = record { len = 20; bytes = some (replicate 20 9) };
  value = 4;
  fee = 5;
  signature = record { len = 2; bytes = some (6 ∷ 7 ∷ []) };
}

pub odd_message-IsPbTransaction : IsPbTransaction odd_message
odd_message-IsPbTransaction = record {
  nonce_fits = omega arith;
  expiry_fits = omega arith;
  source_field = present 3 (1 ∷ 2 ∷ 3 ∷ []) (omega arith) refl (omega arith);
  dest_field = present 20 (replicate 20 9) (omega arith) refl (omega arith);
  value_fits = omega arith;
  fee_fits = omega arith;
  signature_field = present 2 (6 ∷ 7 ∷ []) (omega arith) refl (omega arith);
}

abbrev pub odd_batch : PbBatch
odd_batch = record { transactions = odd_message ∷ []; count = 1 }

-- OpenSSL generating a key whose octets cannot be had.
abbrev pub keys : Keys
keys = record { key_gen = generated 1; public_key_of = λ key. none; pem_of = λ key. some (45 ∷ []) }
