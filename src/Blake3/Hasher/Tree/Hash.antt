-- ===== src/Blake3/Hasher/Tree/Hash.antt =====
-- `blake3` computes the hash of the tree.
use shardingsim.Prelude.{
  ℕ, zero, suc, ◌+◌, ◌-◌, ◌^◌, ◌≤◌, ◌<◌, ◌≡◌, refl, sym, ap, ◌∙◌, inl, inr, List, [], ◌∷◌, length,
  take, drop, leb, arith, false, true, Bool-cases, IsBytes, length-drop, length-take_le,
  take-append-drop,
}
use shardingsim.Blake3.Absorb.Laws.{absorb_keeps}
use mathlib.Core.List.{append-nil}
use shardingsim.Blake3.Hasher.{
  Hasher, chunk_len, chunk_fill, finish_chunk, fill_chunk, chunk_value, collapse, root_words,
  root_bytes, extend, blake3, blake3_hasher_init, blake3_hasher_update, blake3_hasher_finalize,
}
use shardingsim.Blake3.Hasher.Stream.{blake3_hasher_update-append}
use shardingsim.Blake3.Hasher.Stack.{fold_stack, collapse-stack_of}
use shardingsim.Blake3.Hasher.Tree.Blocks.{block_values-pieces}
use shardingsim.Blake3.Hasher.Tree.{pieces, chunk_values, tree, tree_hash}
use shardingsim.Blake3.Hasher.Tree.Laws.{through, through_stack, through-tree}
use shardingsim.Blake3.Hasher.Tree.Refine.{
  finish_chunk_keeps, IsAt, IsShallow-room, blake3_hasher_init-IsAt, first_piece-IsAt,
  next_piece-IsAt,
}

-- The value of a hasher that got its whole message.
value_of : Hasher → List ℕ
value_of self =
    collapse self.cv_stack_len self
      (chunk_value self.chunk_counter self.flags (take self.buf_len self.chunk_buf))

value_of-IsAt :
    (self : Hasher) (counter : ℕ) (stack : List (List ℕ)) (piece : List ℕ)
    → IsAt self counter stack piece
    → value_of self ≡ fold_stack 0 (chunk_value counter 0 piece) stack
unfolding value_of
value_of-IsAt self counter stack piece h =
    let room = IsShallow-room self h.shallow in
    collapse-stack_of self
      (chunk_value self.chunk_counter self.flags (take self.buf_len self.chunk_buf)) h.memory
      (omega arith)
    ∙ rw (h.stacked, h.filled, h.held, h.no_flags, h.counted) refl

abbrev values_from : ℕ → List ℕ → List ℕ → ℕ → List (List ℕ)
values_from counter piece rest fuel =
    chunk_value counter 0 piece ∷ chunk_values (suc counter) (pieces fuel rest)

value_of-update :
    (fuel : ℕ) (self : Hasher) (counter : ℕ) (stack : List (List ℕ)) (piece rest : List ℕ)
    → IsAt self counter stack piece
    → length piece ≡ chunk_len
    → 0 < length rest
    → length rest ≤ fuel
    → suc counter + length rest < 2 ^ 64
    → value_of (blake3_hasher_update self rest)
      ≡ through counter stack (values_from counter piece rest fuel)
unfolding pieces chunk_values through through_stack
value_of-update zero self counter stack piece rest h full some enough small = absurd (omega arith)
value_of-update (suc fuel) self counter stack piece rest h full some enough small =
    elim (Bool-cases (leb (length rest) chunk_len)) [
      | inl last ↦
          let after =
            next_piece-IsAt self counter stack piece rest h full (omega arith) some
              (ground arith) in
          rw last (value_of-IsAt _ _ _ rest after)
      | inr more ↦
          let long : chunk_len < length rest = ground arith in
          let size : length (take chunk_len rest) ≡ chunk_len =
            length-take_le chunk_len rest (omega arith) in
          let left = length-drop chunk_len rest in
          let after =
            next_piece-IsAt self counter stack piece (take chunk_len rest) h full (omega arith)
              (omega arith) (omega arith) in
          let later =
            value_of-update fuel _ (suc counter) _ (take chunk_len rest) (drop chunk_len rest) after
              size (omega arith) (omega arith) (omega arith) in
          let split =
            ap (blake3_hasher_update self) (sym (take-append-drop chunk_len rest))
            ∙ blake3_hasher_update-append self (take chunk_len rest) (drop chunk_len rest)
                (omega (arith, h.filled)) in
          rw more (ap value_of split ∙ later)
    ]

pieces_one : (fuel : ℕ) (input : List ℕ) → length input ≤ chunk_len → pieces fuel input ≡ input ∷ []
unfolding pieces
pieces_one zero input h = refl
pieces_one (suc fuel) input h =
    let short : leb (length input) chunk_len ≡ true = ground arith in rw short refl

pieces_more :
    (fuel : ℕ) (input : List ℕ)
    → chunk_len < length input
    → 0 < fuel
    → pieces fuel input ≡ take chunk_len input ∷ pieces (fuel - 1) (drop chunk_len input)
unfolding pieces
pieces_more zero input h some = absurd (omega arith)
pieces_more (suc fuel) input h some =
    let long : leb (length input) chunk_len ≡ false = ground arith in
    let rest : suc fuel - 1 ≡ fuel = omega arith in rw (long, rest) refl

single : (v : List ℕ) → fold_stack 0 v [] ≡ tree (v ∷ [])
unfolding fold_stack tree
single v = refl

-- The value of a whole message.
value_of-message :
    (memory : Hasher) (input : List ℕ)
    → IsBytes 1728 memory.cv_stack
    → length input < 2 ^ 64
    → value_of (blake3_hasher_update (blake3_hasher_init memory) input)
      ≡ tree (chunk_values 0 (pieces (length input) input))
unfolding chunk_values
value_of-message memory input h small = elim (Bool-cases (leb (length input) chunk_len)) [
  | inl short ↦
      let fits : length input ≤ chunk_len = ground arith in
      value_of-IsAt (blake3_hasher_update start input) 0 [] input
        (first_piece-IsAt start input begin fits)
      ∙ single (chunk_value 0 0 input)
      ∙ ap of_pieces (sym (pieces_one (length input) input fits))
  | inr more ↦
      let long : chunk_len < length input = ground arith in
      let first : List ℕ = take chunk_len input in
      let rest : List ℕ = drop chunk_len input in
      let size : length first ≡ chunk_len = length-take_le chunk_len input (omega arith) in
      let left = length-drop chunk_len input in
      let split =
        ap (blake3_hasher_update start) (sym (take-append-drop chunk_len input))
        ∙ blake3_hasher_update-append start first rest (omega (arith, begin.filled)) in
      ap value_of split
      ∙ value_of-update (length input - 1) (blake3_hasher_update start first) 0 [] first rest
          (first_piece-IsAt start first begin (omega arith)) size (omega arith) (omega arith)
          (omega arith)
      ∙ through-tree (values_from 0 first rest (length input - 1))
      ∙ ap of_pieces (sym (pieces_more (length input) input long (omega arith)))
]
  where
    start : Hasher
    start = blake3_hasher_init memory

    begin : IsAt start 0 [] []
    begin = blake3_hasher_init-IsAt memory h

    of_pieces : List (List ℕ) → List ℕ
    of_pieces all = tree (chunk_values 0 all)

-- An update of a fresh hasher leaves its flags 0.
flags-update :
    (memory : Hasher) (input : List ℕ)
    → (blake3_hasher_update (blake3_hasher_init memory) input).flags ≡ 0
unfolding blake3_hasher_update blake3_hasher_init
flags-update memory input =
    absorb_keeps chunk_len chunk_fill finish_chunk fill_chunk (λ (s : Hasher). s.flags ≡ 0)
      (λ s h. (finish_chunk_keeps s).0 ∙ h) (λ s xs n h. unfold fill_chunk in h)
      (blake3_hasher_init memory) input refl

-- The hash of a message of less than 2^64 bytes is that of the tree over its chunks of 1024 bytes, the
-- value of a chunk being the compression function over its blocks of 64 bytes, whatever the memory of
-- the hasher held before.
pub blake3-tree_hash :
    (memory : Hasher) (input : List ℕ)
    → IsBytes 1728 memory.cv_stack
    → length input < 2 ^ 64
    → blake3 memory input ≡ tree_hash input
unfolding blake3 blake3_hasher_finalize tree_hash value_of extend root_bytes
blake3-tree_hash memory input h small =
    let value =
      value_of-message memory input h small
      ∙ ap tree (block_values-pieces (length input) 0 input (omega arith)) in
    let final : Hasher = blake3_hasher_update (blake3_hasher_init memory) input in
    append-nil (root_bytes 32 0 (root_words (value_of final) final.flags))
    ∙ ap (λ (flags : ℕ). root_bytes 32 0 (root_words (value_of final) flags))
        (flags-update memory input)
    ∙ ap (λ (value : List ℕ). root_bytes 32 0 (root_words value 0)) value
