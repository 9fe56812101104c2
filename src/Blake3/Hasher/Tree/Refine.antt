-- ===== src/Blake3/Hasher/Tree/Refine.antt =====
-- The hasher, a chunk at a time: what it holds after a message, and that its hash is the tree's.
use shardingsim.Prelude.{
  ℕ, zero, suc, ◌+◌, ◌^◌, ◌≤◌, ◌<◌, ◌≡◌, refl, ap, ◌∙◌, inl, List, [], ◌∷◌, ◌++◌, length, take,
  drop, u64, arith, memcpy_lem, length-memcpy, take-append, take_all, length-replicate, IsBytes,
  ◌≢◌,
}
use shardingsim.Blake3.Compress.{iv}
use shardingsim.Blake3.Compress.Laws.{IsWords, iv-IsWords}
use shardingsim.Blake3.Chunk.{parent_cv, chunk_state_init}
use shardingsim.Blake3.Chunk.Laws.{
  chunk_state_init-IsReady, chunk_state_update-IsReady, chunk_state_output-IsWords,
}
use shardingsim.Blake3.Hasher.{
  Hasher, chunk_len, push_cv, pop_cv, merge_loop, add_chunk_cv, chunk_value, finish_chunk,
  fill_chunk, chunk_fill, blake3_hasher_init, blake3_hasher_update,
}
use shardingsim.Blake3.Hasher.Stream.{hasher-IsBuffer}
use shardingsim.Blake3.Absorb.Laws.{absorb_once, absorb-foldl, make_room_full, make_room_free}
use shardingsim.Blake3.Hasher.Stack.{
  IsMemory, stack_of, merge, stack_of-add_chunk_cv, max_depth, slots,
}
use shardingsim.Blake3.Hasher.Depth.{IsShallow, finish_chunk-IsShallow}

chunk_value-IsWords : (counter : ℕ) (piece : List ℕ) → IsWords 8 (chunk_value counter 0 piece)
unfolding chunk_value
chunk_value-IsWords counter piece = chunk_state_output-IsWords _ (
    chunk_state_update-IsReady (chunk_state_init iv counter 0) piece
      (chunk_state_init-IsReady iv counter 0 iv-IsWords (omega arith)))

-- The hasher before chunk `counter`, of which it holds the bytes `piece`, with `stack` on its stack.
pub record IsAt (self : Hasher) (counter : ℕ) (stack : List (List ℕ)) (piece : List ℕ)
    : Type 0 where
  pub memory : IsMemory self
  pub shallow : IsShallow self
  pub no_flags : self.flags ≡ 0
  pub counted : self.chunk_counter ≡ counter
  pub stacked : stack_of self ≡ stack
  pub buffer : length self.chunk_buf ≡ chunk_len
  pub filled : self.buf_len ≡ length piece
  pub held : take (length piece) self.chunk_buf ≡ piece

-- The stack is all that `add_chunk_cv` changes.
merge_loop_keeps :
    (fuel : ℕ) (self : Hasher) (value : List ℕ) (counter : ℕ)
    → let after = (merge_loop fuel self value counter).0 in
      (after.flags ≡ self.flags) × (after.chunk_buf ≡ self.chunk_buf)
unfolding merge_loop pop_cv
merge_loop_keeps zero self value counter = (refl, refl)
merge_loop_keeps (suc fuel) self value counter = ground (
  arith,
  merge_loop_keeps fuel (pop_cv self).0 (parent_cv (pop_cv self).1 value iv self.flags) counter,
)

pub finish_chunk_keeps :
    (self : Hasher)
    → ((finish_chunk self).flags ≡ self.flags)
      × ((finish_chunk self).chunk_buf ≡ self.chunk_buf)
      × ((finish_chunk self).buf_len ≡ 0)
      × ((finish_chunk self).chunk_counter ≡ u64 (self.chunk_counter + 1))
unfolding finish_chunk add_chunk_cv push_cv
finish_chunk_keeps self =
    let (flags, buf) =
      merge_loop_keeps self.cv_stack_len self
        (chunk_value self.chunk_counter self.flags (take chunk_len self.chunk_buf))
        self.chunk_counter in
    (flags, buf, refl, refl)

pub IsShallow-room : (self : Hasher) → IsShallow self → self.cv_stack_len < max_depth
IsShallow-room self h = ground arith

stack_of-finish_chunk :
    (self : Hasher) (value : List ℕ)
    → IsMemory self
    → IsShallow self
    → IsWords 8 value
    → chunk_value self.chunk_counter self.flags (take chunk_len self.chunk_buf) ≡ value
    → (stack_of (finish_chunk self) ≡ merge self.flags self.chunk_counter value (stack_of self))
      × IsMemory (finish_chunk self)
unfolding finish_chunk stack_of
stack_of-finish_chunk self value h shallow words same =
    let (stack, kept) =
      stack_of-add_chunk_cv self value self.chunk_counter h words (IsShallow-room self shallow) in
    rw same (stack, record { stack_bytes = kept.stack_bytes; flags_byte = kept.flags_byte })

-- A full chunk goes to the stack.
finish_chunk-IsAt :
    (self : Hasher) (counter : ℕ) (stack : List (List ℕ)) (piece : List ℕ)
    → IsAt self counter stack piece
    → length piece ≡ chunk_len
    → suc counter < 2 ^ 64
    → IsAt
        (finish_chunk self)
        (suc counter)
        (merge 0 counter (chunk_value counter 0 piece) stack)
        []
finish_chunk-IsAt self counter stack piece h full small =
    let (flags, buf, empty, next) = finish_chunk_keeps self in
    let held : take chunk_len self.chunk_buf ≡ piece = rw full at h.held in
    let (pushed, kept) =
      stack_of-finish_chunk self (chunk_value counter 0 piece) h.memory h.shallow
        (chunk_value-IsWords counter piece) (rw (h.counted, h.no_flags, held) refl) in
    record {
      memory = kept;
      shallow = finish_chunk-IsShallow self h.shallow;
      no_flags = flags ∙ h.no_flags;
      counted = omega (arith, next, h.counted);
      stacked = pushed ∙ rw (h.stacked, h.no_flags, h.counted) refl;
      buffer = ap length buf ∙ h.buffer;
      filled = empty;
      held = refl;
    }

-- Bytes that fit the empty buffer are held by it.
fill_chunk-IsAt :
    (self : Hasher) (counter : ℕ) (stack : List (List ℕ)) (piece : List ℕ)
    → IsAt self counter stack []
    → length piece ≤ chunk_len
    → IsAt (fill_chunk self piece (length piece)) counter stack piece
unfolding fill_chunk stack_of
fill_chunk-IsAt self counter stack piece h fits =
    let start : self.buf_len ≡ 0 = h.filled in
    let size : u64 (self.buf_len + length piece) ≡ length piece = omega (arith, start) in
    record {
      memory = record { stack_bytes = h.memory.stack_bytes; flags_byte = h.memory.flags_byte };
      shallow = h.shallow;
      no_flags = h.no_flags;
      counted = h.counted;
      stacked = h.stacked;
      buffer = length-memcpy self.chunk_buf self.buf_len piece (length piece) ∙ h.buffer;
      filled = size;
      held = rw start (
          ap (take (length piece)) (
            memcpy_lem (length piece) self.chunk_buf 0 piece (omega (arith, h.buffer))
              (omega arith))
          ∙ ap (λ (t : List ℕ). take (length piece) (t ++ drop (0 + length piece) self.chunk_buf))
              (take_all (length piece) piece refl)
          ∙ take-append (length piece) piece (drop (0 + length piece) self.chunk_buf) refl);
    }

not_full :
    (self : Hasher) {counter : ℕ} {stack : List (List ℕ)}
    → IsAt self counter stack []
    → chunk_fill self ≢ chunk_len
unfolding chunk_fill
not_full self h = λ e. omega (arith, h.filled)

is_full :
    (self : Hasher) {counter : ℕ} {stack : List (List ℕ)} {piece : List ℕ}
    → IsAt self counter stack piece
    → length piece ≡ chunk_len
    → chunk_fill self ≡ chunk_len
unfolding chunk_fill
is_full self h full = h.filled ∙ full

room_empty :
    (self : Hasher) {counter : ℕ} {stack : List (List ℕ)} (n : ℕ)
    → IsAt self counter stack []
    → n ≤ chunk_len
    → chunk_fill self + n ≤ chunk_len
unfolding chunk_fill
room_empty self n h fits = omega (arith, h.filled)

-- The first piece of a message.
pub blake3_hasher_init-IsAt :
    (memory : Hasher) → IsBytes 1728 memory.cv_stack → IsAt (blake3_hasher_init memory) 0 [] []
unfolding blake3_hasher_init stack_of slots
blake3_hasher_init-IsAt memory h = record {
  memory = record { stack_bytes = h; flags_byte = omega arith };
  shallow = inl (omega arith);
  no_flags = refl;
  counted = refl;
  stacked = refl;
  buffer = length-replicate {A = ℕ} chunk_len 0;
  filled = refl;
  held = refl;
}

pub first_piece-IsAt :
    (self : Hasher) (piece : List ℕ)
    → IsAt self 0 [] []
    → length piece ≤ chunk_len
    → IsAt (blake3_hasher_update self piece) 0 [] piece
unfolding blake3_hasher_update
first_piece-IsAt self [] h fits =
    rw (absorb-foldl hasher-IsBuffer self [] (omega (arith, room_empty self 0 h (omega arith)))) h
first_piece-IsAt self (x ∷ piece) h fits =
    let free = make_room_free hasher-IsBuffer self (not_full self h) in
    rw
      (
        absorb_once chunk_len chunk_fill finish_chunk fill_chunk self x piece
            (rw free (room_empty self (suc (length piece)) h fits)),
        free,
      )
      (fill_chunk-IsAt self 0 [] (x ∷ piece) h fits)

-- A piece behind a full chunk.
pub next_piece-IsAt :
    (self : Hasher) (counter : ℕ) (stack : List (List ℕ)) (piece next : List ℕ)
    → IsAt self counter stack piece
    → length piece ≡ chunk_len
    → suc counter < 2 ^ 64
    → 0 < length next
    → length next ≤ chunk_len
    → IsAt
        (blake3_hasher_update self next)
        (suc counter)
        (merge 0 counter (chunk_value counter 0 piece) stack)
        next
unfolding blake3_hasher_update
next_piece-IsAt self counter stack piece [] h full small some fits = absurd (omega arith)
next_piece-IsAt self counter stack piece (x ∷ next) h full small some fits =
    let after = finish_chunk-IsAt self counter stack piece h full small in
    let made = make_room_full hasher-IsBuffer self (is_full self h full) in
    rw
      (
        absorb_once chunk_len chunk_fill finish_chunk fill_chunk self x next
            (rw made (room_empty (finish_chunk self) (suc (length next)) after fits)),
        made,
      )
      (fill_chunk-IsAt (finish_chunk self) (suc counter) _ (x ∷ next) after fits)
