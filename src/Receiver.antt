-- ===== src/Receiver.antt =====
-- src/receiver.c: the loop that answers batches. ZeroMQ delivers a message or an error, protobuf-c
-- unpacks, and `decimal` is what `%d` prints; the pause before a batch has no effect on the state.
pub mod Laws
pub mod Serve
use shardingsim.Prelude.{
  ℕ, zero, suc, ◌+◌, ◌-◌, ◌*◌, Bool, true, false, not, ◌&&◌, Option, none, some, List, [], ◌∷◌,
  ◌++◌, length, take, drop, ltb, leb, if◌then◌else◌, u64,
}
use shardingsim.Common.Compare.{same_bytes, streq}
use shardingsim.Proto.{PbTransaction, PbBatch, Protobuf}
use shardingsim.Transaction.{Transaction, transaction_verify}
use shardingsim.Transaction.Wire.{from_pb}

-- "SUBMIT_BATCH_PB:"
abbrev pub submit_batch_pb_prefix : List ℕ
submit_batch_pb_prefix =
    b'S' ∷ b'U' ∷ b'B' ∷ b'M' ∷ b'I' ∷ b'T' ∷ b'_' ∷ b'B' ∷ b'A' ∷ b'T' ∷ b'C' ∷ b'H' ∷ b'_' ∷ b'P'
    ∷ b'B' ∷ b':' ∷ []

abbrev pub recv_buf_size : ℕ
recv_buf_size = 2 * 1024 * 1024

-- The same statements as in `transaction_deserialize_pb`.
pub pb_to_tx : PbTransaction → Transaction
pb_to_tx pt = from_pb pt

-- What the command line sets.
pub record Settings : Type 0 where
  pub bind_addr : List ℕ
  pub sleep_ms : ℕ
  pub verify : Bool

-- "tcp://*:5557"
abbrev pub default_settings : Settings
default_settings = record {
  bind_addr =
      b't' ∷ b'c' ∷ b'p' ∷ b':' ∷ b'/' ∷ b'/' ∷ b'*' ∷ b':' ∷ b'5' ∷ b'5' ∷ b'5' ∷ b'7' ∷ [];
  sleep_ms = 0;
  verify = false;
}

-- "--bind", "--sleep-ms" and "--verify"
abbrev bind_option : List ℕ
bind_option = b'-' ∷ b'-' ∷ b'b' ∷ b'i' ∷ b'n' ∷ b'd' ∷ []

abbrev sleep_option : List ℕ
sleep_option = b'-' ∷ b'-' ∷ b's' ∷ b'l' ∷ b'e' ∷ b'e' ∷ b'p' ∷ b'-' ∷ b'm' ∷ b's' ∷ []

abbrev pub verify_option : List ℕ
verify_option = b'-' ∷ b'-' ∷ b'v' ∷ b'e' ∷ b'r' ∷ b'i' ∷ b'f' ∷ b'y' ∷ []

-- The loop over the arguments. `to_unsigned` is `(unsigned int) atoi`; an option at the end of the
-- line that lacks its argument is passed over.
pub parse_settings : (List ℕ → ℕ) → List (List ℕ) → Settings → Settings
parse_settings to_unsigned [] settings = settings
parse_settings to_unsigned (arg ∷ []) settings =
    if streq arg verify_option then record settings { verify = true } else settings
parse_settings to_unsigned (arg ∷ value ∷ rest) settings = elim (streq arg bind_option) [
  | true ↦ parse_settings to_unsigned rest (record settings { bind_addr = value })
  | false ↦ elim (streq arg sleep_option) [
    | true ↦ parse_settings to_unsigned rest (record settings { sleep_ms = to_unsigned value })
    | false ↦ elim (streq arg verify_option) [
      | true ↦ parse_settings to_unsigned (value ∷ rest) (record settings { verify = true })
      | false ↦ parse_settings to_unsigned (value ∷ rest) settings
    ]
  ]
]

-- The loop over a batch, which counts the accepted and the rejected transactions.
pub check_batch : Bool → List PbTransaction → ℕ → ℕ → ℕ × ℕ
check_batch verify [] accepted rejected = (accepted, rejected)
check_batch verify (pt ∷ rest) accepted rejected =
    let rejects = verify && not (transaction_verify (pb_to_tx pt)) in
    check_batch verify rest (if rejects then accepted else accepted + 1)
      (if rejects then rejected + 1 else rejected)

-- "OK:%d|%d" in a buffer of 64 bytes, its last for the end of the string.
unfoldable pub ok_response : (ℕ → List ℕ) → ℕ → ℕ → List ℕ
ok_response decimal accepted rejected =
    take 63 (b'O' ∷ b'K' ∷ b':' ∷ (decimal accepted ++ b'|' ∷ decimal rejected))

-- "UNKNOWN"
abbrev pub unknown_response : List ℕ
unknown_response = b'U' ∷ b'N' ∷ b'K' ∷ b'N' ∷ b'O' ∷ b'W' ∷ b'N' ∷ []

-- How an iteration ends: after an error of `zmq_recv`, with a read behind the bytes that were
-- received (the size of a longer message is that of the message and not of the buffer), or with an
-- answer and the new `total_received`.
pub data Outcome : Type 0 where
  retried : Outcome
  overread : Outcome
  answered : List ℕ → ℕ → Outcome

answer_batch : (ℕ → List ℕ) → Bool → ℕ → Option PbBatch → Outcome
unfolding check_batch ok_response
answer_batch decimal verify total none = answered (ok_response decimal 0 0) total
answer_batch decimal verify total (some batch) =
    let counts = check_batch verify batch.transactions 0 0 in
    answered (ok_response decimal counts.0 counts.1) (u64 (total + (counts.0 + counts.1)))

pub is_submission : List ℕ → Bool
is_submission message = ltb 16 (length message) && same_bytes 16 message submit_batch_pb_prefix

-- One iteration of the loop.
pub receive : Protobuf → (ℕ → List ℕ) → Bool → ℕ → Option (List ℕ) → Outcome
unfolding answer_batch is_submission
receive p decimal verify total none = retried
receive p decimal verify total (some message) =
    if is_submission message
    then if leb (length message) (recv_buf_size - 1)
      then answer_batch decimal verify total (p.batch_unpack (drop 16 message))
      else overread
    else answered unknown_response total
