-- ===== src/Blake3/Hasher/Tree/Laws.antt =====
-- Absorbing a message chunk by chunk computes the tree.
use shardingsim.Prelude.{ℕ, suc, ◌%◌, ◌≡◌, refl, List, [], ◌∷◌, ◌==◌, arith, false}
use shardingsim.Prelude.Bits.{bit_and_mask}
use shardingsim.Blake3.Hasher.Stack.{merge, fold_stack}
use shardingsim.Blake3.Hasher.Tree.{node, chain, tree}

-- The values in turn through the stack: all but the last are pushed, the last one is merged down.
unfoldable pub through_stack : ℕ → List (List ℕ) → List ℕ → List (List ℕ) → List ℕ
through_stack counter stack v [] = fold_stack 0 v stack
through_stack counter stack v (w ∷ rest) =
    through_stack (suc counter) (merge 0 counter v stack) w rest

-- The same on a list of values that is not empty.
unfoldable pub through : ℕ → List (List ℕ) → List (List ℕ) → List ℕ
unfolding through_stack
through counter stack [] = []
through counter stack (v ∷ rest) = through_stack counter stack v rest

-- Before a chunk of even number that is not the first the stack holds one value.
merge_even :
    (counter : ℕ) (v x : List ℕ) → counter % 2 ≡ 0 → merge 0 counter v (x ∷ []) ≡ v ∷ x ∷ []
unfolding merge
merge_even counter v x h = rw (bit_and_mask 1 counter, h) refl

merge_odd :
    (counter : ℕ) (v x : List ℕ) → counter % 2 ≡ 1 → merge 0 counter v (x ∷ []) ≡ node x v ∷ []
unfolding merge node
merge_odd counter v x h = rw (bit_and_mask 1 counter, h) refl

merge_odd_two :
    (counter : ℕ) (v w x : List ℕ)
    → counter % 2 ≡ 1
    → merge 0 counter w (v ∷ x ∷ []) ≡ node x (node v w) ∷ []
unfolding merge node
merge_odd_two counter v w x h =
    let some : (counter % 4 == 0) ≡ false = ground arith in
    rw (bit_and_mask 2 counter, some, bit_and_mask 1 counter, h) refl

-- From an even chunk on, with one value on the stack.
through_stack-chain :
    (counter : ℕ) (x v : List ℕ) (rest : List (List ℕ))
    → counter % 2 ≡ 0
    → through_stack counter (x ∷ []) v rest ≡ chain x (v ∷ rest)
unfolding through_stack chain fold_stack node
through_stack-chain counter x v [] even = refl
through_stack-chain counter x v (w ∷ []) even = rw (merge_even counter v x even) refl
through_stack-chain counter x v (w ∷ u ∷ rest) even =
    rw (merge_even counter v x even, merge_odd_two (suc counter) v w x (omega arith))
      (through_stack-chain (suc (suc counter)) (node x (node v w)) u rest (omega arith))

-- The whole stack machine computes the tree.
through_stack-tree :
    (v : List ℕ) (rest : List (List ℕ)) → through_stack 0 [] v rest ≡ tree (v ∷ rest)
unfolding through_stack tree chain fold_stack merge node
through_stack-tree v [] = refl
through_stack-tree v (w ∷ []) = refl
through_stack-tree v (w ∷ u ∷ rest) =
    rw (merge_odd 1 w v refl) (through_stack-chain 2 (node v w) u rest refl)

pub through-tree : (values : List (List ℕ)) → through 0 [] values ≡ tree values
unfolding through tree
through-tree [] = refl
through-tree (v ∷ rest) = through_stack-tree v rest
