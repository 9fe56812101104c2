-- ===== src/Receiver/Serve.antt =====
-- src/receiver.c: `main`, with its endless loop seen after any number of messages. Whether `zmq_bind`
-- succeeds at an address is the argument `bind`; `none` is an error of `zmq_recv`.
pub mod Laws
use shardingsim.Prelude.{
  ℕ, Bool, true, false, Option, none, some, List, [], ◌∷◌, ◌++◌, map, if◌then◌else◌,
}
use shardingsim.Proto.{Protobuf}
use shardingsim.Receiver.{
  Settings, default_settings, parse_settings, Outcome, retried, overread, answered, receive,
}

-- The answers and `total_received`; an iteration that reads behind its message is the last.
pub serve : Protobuf → (ℕ → List ℕ) → Bool → ℕ → List (Option (List ℕ)) → List (List ℕ) × ℕ
serve p decimal verify total [] = ([], total)
serve p decimal verify total (found ∷ later) = elim (receive p decimal verify total found) [
  | retried ↦ serve p decimal verify total later
  | overread ↦ ([], total)
  | answered resp next ↦ let rest = serve p decimal verify next later in (resp ∷ rest.0, rest.1)
]

-- The calls of ZeroMQ that have an effect.
pub data Call : Type 0 where
  zmq_ctx_new zmq_socket zmq_close zmq_ctx_destroy : Call
  zmq_bind : List ℕ → Call
  zmq_send : List ℕ → Call

-- The exit code, if `main` has returned, and the calls so far.
pub record Served : Type 0 where
  pub code : Option ℕ
  pub calls : List Call
  pub total_received : ℕ

-- `argv` without the name of the program.
pub receiver_main :
    Protobuf
    → (ℕ → List ℕ)
    → (List ℕ → ℕ)
    → (List ℕ → Bool)
    → List (List ℕ)
    → List (Option (List ℕ))
    → Served
unfolding serve
receiver_main p decimal to_unsigned bind argv found =
    let settings = parse_settings to_unsigned argv default_settings in
    let opened = zmq_ctx_new ∷ zmq_socket ∷ zmq_bind settings.bind_addr ∷ [] in
    let (answers, total) = serve p decimal settings.verify 0 found in
    if bind settings.bind_addr
    then record { code = none; calls = opened ++ map zmq_send answers; total_received = total }
    else record {
      code = some 1;
      calls = opened ++ (zmq_close ∷ zmq_ctx_destroy ∷ []);
      total_received = 0;
    }
