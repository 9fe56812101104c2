-- ===== src/Transaction/Destroy.antt =====
-- transaction_destroy of src/transaction.c: what is left of a transaction in the memory that is freed.
use shardingsim.Prelude.{ℕ, ◌≡◌, Option, none, some, List, replicate}
use shardingsim.Common.Log.{secure_free, secure_free-cleared}
use shardingsim.Transaction.{Transaction, IsTransaction, tx_total_size}
use shardingsim.Transaction.Layout.{struct_bytes}
use shardingsim.Transaction.Layout.Laws.{struct_bytes-IsBytes}

pub transaction_destroy : Option Transaction → Option (List ℕ)
transaction_destroy none = none
transaction_destroy (some tx) = secure_free (some (struct_bytes tx)) tx_total_size

-- Nothing of a transaction, its signature included, is left.
transaction_destroy-cleared :
    (tx : Transaction)
    → IsTransaction tx
    → transaction_destroy (some tx) ≡ some (replicate tx_total_size 0)
unfolding transaction_destroy
transaction_destroy-cleared tx h =
    secure_free-cleared (struct_bytes tx) tx_total_size (struct_bytes-IsBytes tx h).0
