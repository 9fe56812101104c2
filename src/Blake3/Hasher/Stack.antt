-- ===== src/Blake3/Hasher/Stack.antt =====
-- The stack of chaining values in `cv_stack`, as a list of values with the top first.
use shardingsim.Prelude.{
  ℕ, zero, suc, ◌+◌, ◌-◌, ◌*◌, ◌^◌, ◌≤◌, ◌<◌, ◌≡◌, refl, sym, ap, ap₂, ◌∙◌, inl, inr, List, [], ◌∷◌,
  length, IsByte, IsBytes, take, take_all, bit_and, u8, u64, ltb, not, ◌==◌, if◌then◌else◌, ◌<<<◌,
  Bool-cases, true, arith,
}
use shardingsim.Blake3.Words.{load_words, store_words}
use shardingsim.Blake3.Words.Loops.{
  load_words-store_words, load_words-store_words_ne, length-store_words, store_words-IsByte,
}
use shardingsim.Blake3.Compress.{iv}
use shardingsim.Blake3.Compress.Laws.{IsWords, iv-IsWords}
use shardingsim.Blake3.Chunk.{parent_cv}
use shardingsim.Blake3.Chunk.Laws.{parent_cv-IsWords}
use shardingsim.Blake3.Hasher.{
  Hasher, push_cv, pop_cv, must_merge, merge_loop, add_chunk_cv, collapse,
}

-- 54 values of 32 bytes.
abbrev pub max_depth : ℕ
max_depth = 54

-- The memory of a hasher: its stack's bytes, and flags of eight bits.
pub record IsMemory (self : Hasher) : Type 0 where
  pub stack_bytes : IsBytes 1728 self.cv_stack
  pub flags_byte : IsByte self.flags

-- The values in the first `n` slots, the last one first.
unfoldable pub slots : ℕ → List ℕ → List (List ℕ)
slots zero bytes = []
slots (suc n) bytes = load_words 8 bytes (n * 32) ∷ slots n bytes

unfoldable pub stack_of : Hasher → List (List ℕ)
unfolding slots
stack_of self = slots self.cv_stack_len self.cv_stack

pub length-slots : (n : ℕ) (bytes : List ℕ) → length (slots n bytes) ≡ n
unfolding slots
length-slots zero bytes = refl
length-slots (suc n) bytes = ap suc (length-slots n bytes)

-- A write to a slot leaves those under it.
slots-store_words :
    (k n : ℕ) (bytes value : List ℕ)
    → k ≤ n
    → length value ≡ 8
    → n * 32 + 32 ≤ length bytes
    → slots k (store_words bytes (n * 32) value) ≡ slots k bytes
unfolding slots
slots-store_words zero n bytes value h size fits = refl
slots-store_words (suc k) n bytes value h size fits =
    ap₂ ◌∷◌
      (load_words-store_words_ne 8 bytes (n * 32) value (k * 32) (omega arith) (inl (omega arith)))
      (slots-store_words k n bytes value (omega arith) size fits)

-- Pushing eight words on a stack that is not full puts them on top and keeps the values under them.
pub stack_of-push_cv :
    (self : Hasher) (value : List ℕ)
    → IsMemory self
    → IsWords 8 value
    → self.cv_stack_len < max_depth
    → (stack_of (push_cv self value) ≡ value ∷ stack_of self) × IsMemory (push_cv self value)
unfolding stack_of push_cv slots
stack_of-push_cv self value h words room =
    let n = self.cv_stack_len in
    let next : u8 (n + 1) ≡ suc n = omega arith in
    let whole : take 8 value ≡ value = take_all 8 value (sym words.0) in
    let fits : n * 32 + 32 ≤ length self.cv_stack = omega (arith, h.stack_bytes.0) in
    (
      rw (next, whole)
          (ap₂ ◌∷◌
            (load_words-store_words self.cv_stack (n * 32) value 8 words.0 h.stack_bytes.1 fits
              words.1)
            (slots-store_words n n self.cv_stack value (omega arith) words.0 fits)),
      record {
        stack_bytes = (
          length-store_words self.cv_stack (n * 32) (take 8 value) ∙ h.stack_bytes.0,
          store_words-IsByte self.cv_stack (n * 32) (take 8 value) h.stack_bytes.1,
        );
        flags_byte = h.flags_byte;
      },
    )

length-push_cv :
    (self : Hasher) (value : List ℕ)
    → self.cv_stack_len < max_depth
    → (push_cv self value).cv_stack_len ≡ suc self.cv_stack_len
unfolding push_cv
length-push_cv self value h = omega arith

stack_of-empty : (self : Hasher) → self.cv_stack_len ≡ 0 → stack_of self ≡ []
unfolding stack_of slots
stack_of-empty self h = rw h refl

pub length-stack_of : (self : Hasher) → length (stack_of self) ≡ self.cv_stack_len
unfolding stack_of
length-stack_of self = length-slots self.cv_stack_len self.cv_stack

-- A stack that is not empty gives its top away.
stack_of-pop_cv :
    (self : Hasher)
    → IsMemory self
    → 0 < self.cv_stack_len
    → self.cv_stack_len ≤ max_depth
    → (stack_of self ≡ (pop_cv self).1 ∷ stack_of (pop_cv self).0)
      × (suc (pop_cv self).0.cv_stack_len ≡ self.cv_stack_len)
      × ((pop_cv self).0.flags ≡ self.flags)
      × IsMemory (pop_cv self).0
unfolding stack_of pop_cv slots
stack_of-pop_cv self h some few =
    let below : ℕ = u8 (self.cv_stack_len + 2 ^ 8 - 1) in
    let one_less : suc below ≡ self.cv_stack_len = omega arith in
    (
      ap (λ (n : ℕ). slots n self.cv_stack) (sym one_less),
      one_less,
      refl,
      record { stack_bytes = h.stack_bytes; flags_byte = h.flags_byte },
    )

-- The value that was pushed last is popped first, and the stack is then as it was before.
pop_cv-push_cv :
    (self : Hasher) (value : List ℕ)
    → IsMemory self
    → IsWords 8 value
    → self.cv_stack_len < max_depth
    → let popped = pop_cv (push_cv self value) in
      (popped.1 ≡ value)
      × (stack_of popped.0 ≡ stack_of self)
      × (popped.0.cv_stack_len ≡ self.cv_stack_len)
pop_cv-push_cv self value h words room =
    let (pushed, kept) = stack_of-push_cv self value h words room in
    let size = length-push_cv self value room in
    let (popped, len, flags, same) =
      stack_of-pop_cv (push_cv self value) kept (omega (arith, size)) (omega (arith, size)) in
    let both : value ∷ stack_of self
        ≡ (pop_cv (push_cv self value)).1 ∷ stack_of (pop_cv (push_cv self value)).0 =
      sym pushed ∙ popped in
    (ap (top_or []) (sym both), ap rest (sym both), omega (arith, len, size))
  where
    top_or : List ℕ → List (List ℕ) → List ℕ
    top_or d [] = d
    top_or d (top ∷ stack) = top

    rest : List (List ℕ) → List (List ℕ)
    rest [] = []
    rest (top ∷ stack) = stack

-- `add_chunk_cv` on the stack as a list: the values that it merges, and the push.
unfoldable pub merge : ℕ → ℕ → List ℕ → List (List ℕ) → List (List ℕ)
merge flags counter value [] = value ∷ []
merge flags counter value (top ∷ stack) =
    let rest = merge flags counter (parent_cv top value iv flags) stack in
    if bit_and counter (u64 (1 <<< suc (length stack)) - 1) == 0 then value ∷ top ∷ stack else rest

merge_step :
    (flags counter : ℕ) (value top : List ℕ) (stack : List (List ℕ)) (n : ℕ)
    → n ≡ suc (length stack)
    → merge flags counter value (top ∷ stack) ≡ (
        if bit_and counter (u64 (1 <<< n) - 1) == 0
        then value ∷ top ∷ stack
        else merge flags counter (parent_cv top value iv flags) stack)
unfolding merge
merge_step flags counter value top stack n e = rw e refl

must_merge_more :
    (self : Hasher) (counter : ℕ)
    → 0 < self.cv_stack_len
    → must_merge self counter ≡ not (bit_and counter (u64 (1 <<< self.cv_stack_len) - 1) == 0)
unfolding must_merge
must_merge_more self counter h = ground arith

-- The loop and the push after it do to the array what `merge` does to the list.
merge_loop-merge :
    (fuel : ℕ) (self : Hasher) (value : List ℕ) (counter : ℕ)
    → IsMemory self
    → IsWords 8 value
    → self.cv_stack_len ≡ fuel
    → self.cv_stack_len < max_depth
    → let merged = merge_loop fuel self value counter in
      (stack_of (push_cv merged.0 merged.1) ≡ merge self.flags counter value (stack_of self))
      × IsMemory (push_cv merged.0 merged.1)
unfolding merge_loop merge
merge_loop-merge zero self value counter h words full room =
    let (pushed, kept) = stack_of-push_cv self value h words room in
    (pushed ∙ rw (stack_of-empty self full) refl, kept)
merge_loop-merge (suc fuel) self value counter h words full room =
    let (popped, len, flags, same) = stack_of-pop_cv self h (omega arith) (omega arith) in
    let size = length-stack_of (pop_cv self).0 in
    let test = must_merge_more self counter (omega arith) in
    let step =
      merge_step self.flags counter value (pop_cv self).1 (stack_of (pop_cv self).0)
        self.cv_stack_len (omega (arith, len, size)) in
    elim (Bool-cases (bit_and counter (u64 (1 <<< self.cv_stack_len) - 1) == 0)) [
      | inl free ↦
          let (pushed, kept) = stack_of-push_cv self value h words room in
          rw (test, free)
            (
              pushed
                  ∙ ap (λ (t : List (List ℕ)). value ∷ t) popped
                  ∙ sym (rw free at step)
                  ∙ ap (merge self.flags counter value) (sym popped),
              kept,
            )
      | inr busy ↦
          let (merged, kept) =
            merge_loop-merge fuel (pop_cv self).0 (parent_cv (pop_cv self).1 value iv self.flags)
              counter same
              (parent_cv-IsWords (pop_cv self).1 value iv self.flags iv-IsWords.1 h.flags_byte)
              (omega (arith, len)) (omega (arith, len)) in
          rw (test, busy) (merged ∙ rw (flags, popped) (sym (rw busy at step)), kept)
    ]

-- `add_chunk_cv` merges and pushes as the list does, in a stack that is not full.
pub stack_of-add_chunk_cv :
    (self : Hasher) (value : List ℕ) (counter : ℕ)
    → IsMemory self
    → IsWords 8 value
    → self.cv_stack_len < max_depth
    → (stack_of (add_chunk_cv self value counter) ≡ merge self.flags counter value (stack_of self))
      × IsMemory (add_chunk_cv self value counter)
unfolding add_chunk_cv
stack_of-add_chunk_cv self value counter h words room =
    merge_loop-merge self.cv_stack_len self value counter h words refl room

-- The values that are left, merged from the top down.
unfoldable pub fold_stack : ℕ → List ℕ → List (List ℕ) → List ℕ
fold_stack flags value [] = value
fold_stack flags value (top ∷ stack) = fold_stack flags (parent_cv top value iv flags) stack

collapse-fold_stack :
    (fuel : ℕ) (self : Hasher) (value : List ℕ)
    → IsMemory self
    → self.cv_stack_len ≡ fuel
    → self.cv_stack_len ≤ max_depth
    → collapse fuel self value ≡ fold_stack self.flags value (stack_of self)
unfolding collapse fold_stack
collapse-fold_stack zero self value h full room = rw (stack_of-empty self full) refl
collapse-fold_stack (suc fuel) self value h full room =
    let (popped, len, flags, same) = stack_of-pop_cv self h (omega arith) room in
    let some : ltb 0 self.cv_stack_len ≡ true = ground arith in
    let rest =
      collapse-fold_stack fuel (pop_cv self).0 (parent_cv (pop_cv self).1 value iv self.flags) same
        (omega (arith, len)) (omega (arith, len)) in
    rw (some, popped) (rest ∙ rw flags refl)

pub collapse-stack_of :
    (self : Hasher) (value : List ℕ)
    → IsMemory self
    → self.cv_stack_len ≤ max_depth
    → collapse self.cv_stack_len self value ≡ fold_stack self.flags value (stack_of self)
collapse-stack_of self value h room = collapse-fold_stack self.cv_stack_len self value h refl room
