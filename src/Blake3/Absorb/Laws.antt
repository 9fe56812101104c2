-- ===== src/Blake3/Absorb/Laws.antt =====
-- The absorbing loop takes its input byte by byte, however much is handed over at once.
use mathlib.Core.List.{foldl, foldl-append}
use shardingsim.Prelude.{
  ℕ, zero, suc, ◌+◌, ◌≤◌, ◌<◌, ◌≡◌, refl, sym, ap, ◌∙◌, ◌≢◌, List, [], ◌∷◌, ◌++◌, length, take,
  drop, arith, length-drop, take-append-drop, drop-length,
}
use shardingsim.Blake3.Absorb.{make_room, amount, absorb_loop, absorb}

-- What the two buffers have in common.
pub record IsBuffer {S : Type 0} (size : ℕ) (buf_len : S → ℕ) (flush : S → S)
    (store : S → List ℕ → ℕ → S) : Type 0 where
  pub size_pos : 0 < size
  pub buf_len-flush : (s : S) → buf_len (flush s) ≡ 0
  pub buf_len-store :
      (s : S) (xs : List ℕ) (n : ℕ) → buf_len s + n ≤ size → buf_len (store s xs n) ≡ buf_len s + n
  pub store-zero : (s : S) (xs : List ℕ) → buf_len s ≤ size → store s xs 0 ≡ s
  pub store-suc :
      (s : S) (x : ℕ) (xs : List ℕ) (n : ℕ)
      → buf_len s + suc n ≤ size
      → store s (x ∷ xs) (suc n) ≡ store (store s (x ∷ []) 1) xs n

module _ {S : Type 0} {size : ℕ} {buf_len : S → ℕ} {flush : S → S} {store : S → List ℕ → ℕ → S}
    (laws : IsBuffer size buf_len flush store) where
  open laws use {size_pos, buf_len-flush, buf_len-store, store-zero, store-suc}

  -- One byte: room is made first where the buffer is full.
  pub absorb_byte : S → ℕ → S
  absorb_byte s x = store (make_room size buf_len flush store s) (x ∷ []) 1

  pub make_room_full : (s : S) → buf_len s ≡ size → make_room size buf_len flush store s ≡ flush s
  unfolding make_room
  make_room_full s h = ground arith

  pub make_room_free : (s : S) → buf_len s ≢ size → make_room size buf_len flush store s ≡ s
  unfolding make_room
  make_room_free s h = ground arith

  -- There is room after `make_room`, and making it again changes nothing.
  buf_len-make_room :
      (s : S) → buf_len s ≤ size → buf_len (make_room size buf_len flush store s) < size
  unfolding make_room
  buf_len-make_room s h = ground (arith, buf_len-flush s)

  absorb_byte-make_room :
      (s : S) (x : ℕ)
      → buf_len s ≤ size
      → absorb_byte (make_room size buf_len flush store s) x ≡ absorb_byte s x
  unfolding absorb_byte
  absorb_byte-make_room s x h =
      let room = buf_len-make_room s h in
      rw (make_room_free (make_room size buf_len flush store s) (λ e. omega arith))

  pub absorb_byte-le : (s : S) (x : ℕ) → buf_len s ≤ size → buf_len (absorb_byte s x) ≤ size
  unfolding absorb_byte
  absorb_byte-le s x h = omega (
    arith,
    buf_len-make_room s h,
    buf_len-store (make_room size buf_len flush store s) (x ∷ []) 1
        (omega (arith, buf_len-make_room s h)),
  )

  -- Within the room that is left a block copy is a copy byte by byte.
  store-foldl :
      (n : ℕ) (s : S) (xs : List ℕ)
      → n ≤ length xs
      → buf_len s + n ≤ size
      → store s xs n ≡ foldl absorb_byte s (take n xs)
  unfolding absorb_byte
  store-foldl zero s xs hl h = store-zero s xs (omega arith)
  store-foldl (suc n) s [] hl h = absurd (omega arith)
  store-foldl (suc n) s (x ∷ xs) hl h =
      store-suc s x xs n h
      ∙ store-foldl n (store s (x ∷ []) 1) xs (omega arith)
          (omega (arith, buf_len-store s (x ∷ []) 1 (omega arith)))
      ∙ ap (λ (t : S). foldl absorb_byte (store t (x ∷ []) 1) (take n xs))
          (sym (make_room_free s (λ e. omega arith)))

  amount_bounds :
      (s : S) (n : ℕ)
      → buf_len s < size
      → 0 < n
      → (amount size buf_len flush store s n ≤ n)
        × (0 < amount size buf_len flush store s n)
        × (buf_len s + amount size buf_len flush store s n ≤ size)
  unfolding amount
  amount_bounds s n h pos = ground arith

  -- A copy and then the bytes that it left are all the bytes in turn.
  absorb_round :
      (n : ℕ) (s : S) (xs : List ℕ)
      → n ≤ length xs
      → buf_len s + n ≤ size
      → foldl absorb_byte (store s xs n) (drop n xs) ≡ foldl absorb_byte s xs
  absorb_round n s xs hl h =
      ap (λ (t : S). foldl absorb_byte t (drop n xs)) (store-foldl n s xs hl h)
      ∙ sym (foldl-append absorb_byte s (take n xs) (drop n xs))
      ∙ ap (λ (t : List ℕ). foldl absorb_byte s t) (take-append-drop n xs)

  -- With enough fuel the loop consumes the whole input.
  absorb_loop-foldl :
      (fuel : ℕ) (s : S) (input : List ℕ)
      → buf_len s ≤ size
      → length input ≤ fuel
      → absorb_loop size buf_len flush store fuel s input ≡ foldl absorb_byte s input
  unfolding absorb_loop
  absorb_loop-foldl fuel s [] h hf = refl
  absorb_loop-foldl zero s (x ∷ input) h hf = absurd (omega arith)
  absorb_loop-foldl (suc fuel) s (x ∷ input) h hf =
      let s' : S = make_room size buf_len flush store s in
      let n : ℕ = amount size buf_len flush store s' (suc (length input)) in
      let room : buf_len s' < size = buf_len-make_room s h in
      let (few, some, fits) = amount_bounds s' (suc (length input)) room (omega arith) in
      let stored : buf_len (store s' (x ∷ input) n) ≡ buf_len s' + n =
        buf_len-store s' (x ∷ input) n fits in
      absorb_loop-foldl fuel (store s' (x ∷ input) n) (drop n (x ∷ input)) (omega arith)
        (omega (arith, length-drop n (x ∷ input)))
      ∙ absorb_round n s' (x ∷ input) few fits
      ∙ ap (λ (t : S). foldl absorb_byte t input) (absorb_byte-make_room s x h)

  -- Absorbing is a fold over the bytes.
  pub absorb-foldl :
      (s : S) (input : List ℕ)
      → buf_len s ≤ size
      → absorb size buf_len flush store s input ≡ foldl absorb_byte s input
  unfolding absorb
  absorb-foldl s input h = absorb_loop-foldl (length input) s input h (omega arith)

  pub foldl-le :
      (s : S) (input : List ℕ) → buf_len s ≤ size → buf_len (foldl absorb_byte s input) ≤ size
  foldl-le s [] h = h
  foldl-le s (x ∷ input) h = foldl-le (absorb_byte s x) input (absorb_byte-le s x h)

  -- Input handed over in two pieces has the effect of the whole.
  pub absorb-append :
      (s : S) (xs ys : List ℕ)
      → buf_len s ≤ size
      → absorb size buf_len flush store s (xs ++ ys)
        ≡ absorb size buf_len flush store (absorb size buf_len flush store s xs) ys
  absorb-append s xs ys h =
      absorb-foldl s (xs ++ ys) h
      ∙ foldl-append absorb_byte s xs ys
      ∙ sym (absorb-foldl (foldl absorb_byte s xs) ys (foldl-le s xs h))
      ∙ ap (λ (t : S). absorb size buf_len flush store t ys) (sym (absorb-foldl s xs h))

-- A map between states that respects the buffer commutes with absorbing.
module _ {S : Type 0} (size : ℕ) (buf_len : S → ℕ) (flush : S → S) (store : S → List ℕ → ℕ → S)
    (φ : S → S) (same_len : (s : S) → buf_len (φ s) ≡ buf_len s)
    (φ-flush : (s : S) → flush (φ s) ≡ φ (flush s))
    (φ-store : (s : S) (xs : List ℕ) (n : ℕ) → store (φ s) xs n ≡ φ (store s xs n)) where
  map-make_room :
      (s : S) → make_room size buf_len flush store (φ s) ≡ φ (make_room size buf_len flush store s)
  unfolding make_room
  map-make_room s = ground (arith, same_len s, φ-flush s)

  map-amount :
      (s : S) (n : ℕ)
      → amount size buf_len flush store (φ s) n ≡ amount size buf_len flush store s n
  unfolding amount
  map-amount s n = rw (same_len s)

  map-absorb_loop :
      (fuel : ℕ) (s : S) (input : List ℕ)
      → absorb_loop size buf_len flush store fuel (φ s) input
        ≡ φ (absorb_loop size buf_len flush store fuel s input)
  unfolding absorb_loop
  map-absorb_loop fuel s [] = refl
  map-absorb_loop zero s (x ∷ input) = refl
  map-absorb_loop (suc fuel) s (x ∷ input) =
      let s' : S = make_room size buf_len flush store s in
      let n : ℕ = amount size buf_len flush store s' (suc (length input)) in
      let xs : List ℕ = x ∷ input in
      ap (λ (t : S). go t (amount size buf_len flush store t (length xs))) (map-make_room s)
      ∙ ap (λ (m : ℕ). go (φ s') m) (map-amount s' (length xs))
      ∙ ap (λ (t : S). absorb_loop size buf_len flush store fuel t (drop n xs)) (φ-store s' xs n)
      ∙ map-absorb_loop fuel (store s' xs n) (drop n xs)
    where
      go : S → ℕ → S
      go t m =
          absorb_loop size buf_len flush store fuel (store t (x ∷ input) m) (drop m (x ∷ input))

  pub map-absorb :
      (s : S) (input : List ℕ)
      → absorb size buf_len flush store (φ s) input ≡ φ (absorb size buf_len flush store s input)
  unfolding absorb
  map-absorb s input = map-absorb_loop (length input) s input

-- What the emptying of a buffer and every copy keep, absorbing keeps.
module _ {S : Type 0} (size : ℕ) (buf_len : S → ℕ) (flush : S → S) (store : S → List ℕ → ℕ → S)
    (P : S → Type 0) (flush-P : (s : S) → P s → P (flush s))
    (store-P : (s : S) (xs : List ℕ) (n : ℕ) → P s → P (store s xs n)) where
  make_room-P : (s : S) → P s → P (make_room size buf_len flush store s)
  unfolding make_room
  make_room-P s h = ground (arith, flush-P s)

  absorb_loop-P :
      (fuel : ℕ) (s : S) (input : List ℕ)
      → P s
      → P (absorb_loop size buf_len flush store fuel s input)
  unfolding absorb_loop
  absorb_loop-P fuel s [] h = h
  absorb_loop-P zero s (x ∷ input) h = h
  absorb_loop-P (suc fuel) s (x ∷ input) h =
      absorb_loop-P fuel _ _ (store-P _ (x ∷ input) _ (make_room-P s h))

  pub absorb_keeps : (s : S) (input : List ℕ) → P s → P (absorb size buf_len flush store s input)
  unfolding absorb
  absorb_keeps s input h = absorb_loop-P (length input) s input h

-- What fits behind the bytes that are kept is copied in one round.
module _ {S : Type 0} (size : ℕ) (buf_len : S → ℕ) (flush : S → S)
    (store : S → List ℕ → ℕ → S) where
  all_fit : (s : S) (n : ℕ) → buf_len s + n ≤ size → amount size buf_len flush store s n ≡ n
  unfolding amount
  all_fit s n h = ground arith

  pub absorb_once :
      (s : S) (x : ℕ) (input : List ℕ)
      → buf_len (make_room size buf_len flush store s) + suc (length input) ≤ size
      → absorb size buf_len flush store s (x ∷ input)
        ≡ store (make_room size buf_len flush store s) (x ∷ input) (suc (length input))
  unfolding absorb absorb_loop
  absorb_once s x input h =
      let s' : S = make_room size buf_len flush store s in
      let xs : List ℕ = x ∷ input in
      ap
        (λ (n : ℕ). absorb_loop size buf_len flush store (length input) (store s' xs n) (drop n xs))
        (all_fit s' (length xs) h)
      ∙ ap (absorb_loop size buf_len flush store (length input) (store s' xs (length xs)))
          (drop-length (length input) input refl)
