-- ===== src/Receiver/Serve/Laws.antt =====
-- The receiver answers what it receives, once each.
use shardingsim.Prelude.{
  ℕ, suc, ◌+◌, ◌-◌, ◌<◌, ◌^◌, ◌≡◌, refl, ap, ◌∙◌, Bool, true, false, Option, none, some, List, [],
  ◌∷◌, map, length, drop, All, arith, leb, if◌then◌else◌, u64, ◌⊎◌, inl, inr, Bool-cases,
  Option-cases,
}
use shardingsim.Proto.{Protobuf}
use shardingsim.Receiver.{
  recv_buf_size, unknown_response, ok_response, is_submission, answer_batch, check_batch, answered,
  receive, default_settings, parse_settings,
}
use shardingsim.Receiver.Laws.{check_batch_lem}
use shardingsim.Receiver.Serve.{
  serve, Call, zmq_send, zmq_ctx_new, zmq_socket, zmq_close, zmq_ctx_destroy, zmq_bind, Served,
  receiver_main,
}

-- The messages, without the errors between them.
unfoldable pub arrived : List (Option (List ℕ)) → List (List ℕ)
arrived [] = []
arrived (none ∷ later) = arrived later
arrived (some message ∷ later) = message ∷ arrived later

-- The transactions of a message: none, unless it is a submission that can be unpacked.
unfoldable pub transactions_in : Protobuf → List ℕ → ℕ
transactions_in p message =
    if is_submission message
    then elim (p.batch_unpack (drop 16 message)) [
      | none ↦ 0
      | some batch ↦ length batch.transactions
    ]
    else 0

unfoldable pub all_transactions : Protobuf → List (List ℕ) → ℕ
unfolding transactions_in
all_transactions p [] = 0
all_transactions p (message ∷ later) = transactions_in p message + all_transactions p later

-- The two forms of an answer.
abbrev pub IsAnswer : (ℕ → List ℕ) → List ℕ → Type 0
IsAnswer decimal resp =
    (resp ≡ unknown_response)
    ⊎ ((accepted : ℕ) × (rejected : ℕ) × (resp ≡ ok_response decimal accepted rejected))

-- A message that fits the buffer is answered, and its transactions are counted.
receive-answered :
    (p : Protobuf) (decimal : ℕ → List ℕ) (verify : Bool) (total : ℕ) (message : List ℕ)
    → length message < recv_buf_size
    → total < 2 ^ 64
    → (resp : List ℕ) × (receive p decimal verify total (some message)
        ≡ answered resp (u64 (total + transactions_in p message)))
      × IsAnswer decimal resp
unfolding receive answer_batch transactions_in
receive-answered p decimal verify total message fits small =
    let short : leb (length message) (recv_buf_size - 1) ≡ true = ground arith in
    let same : total ≡ u64 (total + 0) = omega arith in
    elim (Bool-cases (is_submission message)) [
      | inr other ↦ (unknown_response, rw other (ap (answered unknown_response) same), inl refl)
      | inl submits ↦ elim (Option-cases (p.batch_unpack (drop 16 message))) [
        | inl bad ↦ (
          ok_response decimal 0 0,
          rw (submits, short, bad) (ap (answered (ok_response decimal 0 0)) same),
          inr (0, 0, refl),
        )
        | inr (batch, good) ↦
            let counts = check_batch verify batch.transactions 0 0 in
            (
              ok_response decimal counts.0 counts.1,
              rw (submits, short, good)
                  (ap
                    (λ (n : ℕ). answered (ok_response decimal counts.0 counts.1) (u64 (total + n)))
                    (check_batch_lem verify batch.transactions).0),
              inr (counts.0, counts.1, refl),
            )
      ]
    ]

-- Errors of `zmq_recv`, and messages that fit the buffer.
abbrev pub Fits : Option (List ℕ) → Type 0
Fits none = Unit
Fits (some message) = length message < recv_buf_size

serve-retried :
    (p : Protobuf) (decimal : ℕ → List ℕ) (verify : Bool) (total : ℕ)
    (later : List (Option (List ℕ)))
    → serve p decimal verify total (none ∷ later) ≡ serve p decimal verify total later
unfolding serve receive
serve-retried p decimal verify total later = refl

serve-answered :
    (p : Protobuf) (decimal : ℕ → List ℕ) (verify : Bool) (total : ℕ) (found : Option (List ℕ))
    (later : List (Option (List ℕ))) (resp : List ℕ) (next : ℕ)
    → receive p decimal verify total found ≡ answered resp next
    → serve p decimal verify total (found ∷ later)
      ≡ (resp ∷ (serve p decimal verify next later).0, (serve p decimal verify next later).1)
unfolding serve
serve-answered p decimal verify total found later resp next e = rw (e, serve) refl

pub serve_lem :
    (p : Protobuf) (decimal : ℕ → List ℕ) (verify : Bool) (total : ℕ)
    (found : List (Option (List ℕ)))
    → All Fits found
    → total < 2 ^ 64
    → let served = serve p decimal verify total found in
      (length served.0 ≡ length (arrived found))
      × All (IsAnswer decimal) served.0
      × (served.1 ≡ u64 (total + all_transactions p (arrived found)))
unfolding serve arrived all_transactions
serve_lem p decimal verify total [] fits small = (refl, tt, omega arith)
serve_lem p decimal verify total (none ∷ later) (first, others) small =
    rw (serve-retried p decimal verify total later)
      (serve_lem p decimal verify total later others small)
serve_lem p decimal verify total (some message ∷ later) (first, others) small =
    let (resp, e, form) = receive-answered p decimal verify total message first small in
    let (many, forms, sum) =
      serve_lem p decimal verify (u64 (total + transactions_in p message)) later others
        (omega arith) in
    rw (serve-answered p decimal verify total (some message) later resp _ e)
      (ap suc many, (form, forms), sum ∙ omega arith)

-- What was sent, and which of the two resources are still held.
unfoldable pub sent : List Call → List (List ℕ)
sent [] = []
sent (zmq_send resp ∷ calls) = resp ∷ sent calls
sent (zmq_ctx_new ∷ calls) = sent calls
sent (zmq_socket ∷ calls) = sent calls
sent (zmq_close ∷ calls) = sent calls
sent (zmq_ctx_destroy ∷ calls) = sent calls
sent (zmq_bind bind_addr ∷ calls) = sent calls

sent_map : (answers : List (List ℕ)) → sent (map zmq_send answers) ≡ answers
unfolding sent
sent_map [] = refl
sent_map (resp ∷ answers) = ap (λ (t : List (List ℕ)). resp ∷ t) (sent_map answers)

-- What `main` has done, by whether the address could be bound.
abbrev pub Serves : Protobuf → (ℕ → List ℕ) → List (Option (List ℕ)) → Bool → Served → Type 0
Serves p decimal found true served =
    (served.code ≡ none)
    × (length (sent served.calls) ≡ length (arrived found))
    × All (IsAnswer decimal) (sent served.calls)
    × (served.total_received ≡ u64 (all_transactions p (arrived found)))
Serves p decimal found false served =
    (served.code ≡ some 1)
    × (sent served.calls ≡ [])
    × (drop 3 served.calls ≡ zmq_close ∷ zmq_ctx_destroy ∷ [])

-- Where every message fits the buffer: bound to its address, the receiver is still in its loop after any
-- number of messages and errors, has sent one answer for each message, each of one of the two forms, and
-- has counted the transactions of every submission that could be unpacked, modulo 2^64; else it closes
-- what it opened and returns 1, with nothing sent.
pub receiver_main-Serves :
    (p : Protobuf) (decimal : ℕ → List ℕ) (to_unsigned : List ℕ → ℕ) (bind : List ℕ → Bool)
    (argv : List (List ℕ)) (found : List (Option (List ℕ)))
    → All Fits found
    → Serves p decimal found
        (bind (parse_settings to_unsigned argv default_settings).bind_addr)
        (receiver_main p decimal to_unsigned bind argv found)
unfolding receiver_main sent
receiver_main-Serves p decimal to_unsigned bind argv found fits =
    let settings = parse_settings to_unsigned argv default_settings in
    let (many, forms, sum) = serve_lem p decimal settings.verify 0 found fits (omega arith) in
    let answers = (serve p decimal settings.verify 0 found).0 in
    elim (Bool-cases (bind settings.bind_addr)) [
      | inl bound ↦ rw (bound, sent_map answers) (refl, many, forms, sum ∙ ap u64 (omega arith))
      | inr unbound ↦ rw unbound (refl, refl, refl)
    ]
