-- ===== src/Blake3/Absorb.antt =====
-- The loop that src/blake3.c runs twice, in `chunk_state_update` and in `blake3_hasher_update`:
-- empty a full buffer, then copy as much of the input as fits. It works on any state `S` with a
-- buffer of `size` bytes; `flush` empties the buffer and `store s input n` copies `n` bytes to its end.

pub mod Laws
use shardingsim.Prelude.{ℕ, zero, suc, ◌-◌, List, [], ◌∷◌, length, drop, ltb, ◌==◌, if◌then◌else◌}

module _ {S : Type 0} (size : ℕ) (buf_len : S → ℕ) (flush : S → S)
    (store : S → List ℕ → ℕ → S) where
  -- `if (self->buf_len == SIZE) …`
  pub make_room : S → S
  make_room s = if buf_len s == size then flush s else s

  -- The count `take` of bytes that fit.
  pub amount : S → ℕ → ℕ
  amount s input_len = if ltb input_len (size - buf_len s) then input_len else size - buf_len s

  -- `while (input_len > 0)`, on fuel; every round takes a byte at least.
  pub absorb_loop : ℕ → S → List ℕ → S
  absorb_loop fuel s [] = s
  absorb_loop zero s (x ∷ input) = s
  absorb_loop (suc fuel) s (x ∷ input) =
      let s' = make_room s in
      let n = amount s' (length (x ∷ input)) in
      absorb_loop fuel (store s' (x ∷ input) n) (drop n (x ∷ input))

  pub absorb : S → List ℕ → S
  absorb s input = absorb_loop (length input) s input
