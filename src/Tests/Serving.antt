-- ===== src/Tests/Serving.antt =====
-- The receiver after an error, a text that is no submission, and a submission that is cut off.
use shardingsim.Prelude.{ℕ, ◌+◌, Bool, true, Option, none, some, List, [], ◌∷◌, ◌++◌, All, arith}
use shardingsim.Receiver.{submit_batch_pb_prefix}
use shardingsim.Receiver.Serve.{receiver_main}
use shardingsim.Receiver.Serve.Laws.{Fits, Serves, receiver_main-Serves}
use shardingsim.Tests.Codec.{codec}

abbrev decimal : ℕ → List ℕ
decimal n = (b'0' + n) ∷ []

abbrev found : List (Option (List ℕ))
found = none ∷ some (b'h' ∷ b'i' ∷ []) ∷ some (submit_batch_pb_prefix ++ (1 ∷ [])) ∷ []

found-Fits : All Fits found
found-Fits = (tt, (omega arith, (omega arith, tt)))

abbrev bind : List ℕ → Bool
bind bind_addr = true

receiver_main-Serves_example :
    Serves codec decimal found true (receiver_main codec decimal (λ text. 0) bind [] found)
receiver_main-Serves_example =
    receiver_main-Serves codec decimal (λ text. 0) bind [] found found-Fits
