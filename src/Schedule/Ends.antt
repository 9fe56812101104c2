-- ===== src/Schedule/Ends.antt =====
-- The parallel loop over the batches ends, with each batch done once.
use mathlib.Core.List.{Perm, append-nil}
use mathlib.Core.List.Perm
use native.Mathlib.Decide.{dec_lt}
use shardingsim.Prelude.{
  ℕ, zero, suc, ◌+◌, ◌-◌, ◌*◌, ◌≤◌, ◌<◌, ◌≡◌, refl, sym, ap, ◌∙◌, ◌⊎◌, inl, inr, Option, none, some,
  List, [], ◌∷◌, ◌++◌, length, get_or, replicate, arith, All, length-replicate,
}
use shardingsim.Generator.Bounds.{count_from, length-count_from}
use shardingsim.System.Laws.{batches_of, threads_of}
use shardingsim.Schedule.{
  Loop, begin, Label, takes, does, cons_done, Step, taken, worked, Run, stop, later, IsOver,
}
use shardingsim.Schedule.Laws.{
  held_batches-replicate, todo, steps_left, run-todo, run-steps_left, run-threads_of, Perm_of_eq,
  IsOver-todo, Step-steps_left, Step-length_held,
}

-- Some thread has a batch, or none has.
some_held :
    (held : List (Option ℕ))
    → ((tid : ℕ) × (b : ℕ) × (tid < length held) × (get_or held tid none ≡ some b))
      ⊎ (held ≡ replicate (length held) none)
some_held [] = inr refl
some_held (some b ∷ held) = inl (0, b, omega arith, refl)
some_held (none ∷ held) = elim (some_held held) [
  | inl (tid, b, h, has) ↦ inl (suc tid, b, omega arith, has)
  | inr idle ↦ inr (ap (λ (t : List (Option ℕ)). none ∷ t) idle)
]

get_or-replicate : (n tid : ℕ) → get_or {A = Option ℕ} (replicate n none) tid none ≡ none
get_or-replicate zero tid = refl
get_or-replicate (suc n) zero = refl
get_or-replicate (suc n) (suc tid) = get_or-replicate n tid

module _ {S : Type 0} (Work : S → ℕ → ℕ → S → Type 0) (num_batches : ℕ) where
  -- As long as there is something to do a step is possible, where every body comes to an end.
  progress :
      (l : Loop S)
      → 0 < length l.held
      → ((s : S) (tid b : ℕ) → (s' : S) × Work s tid b s')
      → IsOver Work num_batches l
        ⊎ ((label : Label) × (m : Loop S) × Step Work num_batches l label m)
  progress l threads ends = elim (some_held l.held) [
    | inl (tid, b, h, has) ↦
        let (s, moved) = ends l.shared tid b in inr (does tid b, _, worked tid b h has moved)
    | inr idle ↦ elim (dec_lt l.next num_batches) [
      | yes more ↦ inr (
        takes,
        _,
        taken 0 threads
            (ap (λ (t : List (Option ℕ)). get_or t 0 none) idle
              ∙ get_or-replicate (length l.held) 0)
            more,
      )
      | no done ↦ inl (omega arith, idle)
    ]
  ]

  -- A state from which the loop can be run to its end.
  abbrev Completes : Loop S → Type 0
  Completes l =
      (n : ℕ) × (done : List (ℕ × ℕ)) × (k : Loop S) × Run Work num_batches l n done k
      × IsOver Work num_batches k

  complete :
      (fuel : ℕ) (l : Loop S)
      → steps_left Work num_batches l ≤ fuel
      → 0 < length l.held
      → ((s : S) (tid b : ℕ) → (s' : S) × Work s tid b s')
      → Completes l
  complete zero l enough threads ends = elim (progress l threads ends) [
    | inl over ↦ (0, [], l, stop, over)
    | inr (label, m, step) ↦ absurd (omega (arith, Step-steps_left Work num_batches step))
  ]
  complete (suc fuel) l enough threads ends = elim (progress l threads ends) [
    | inl over ↦ (0, [], l, stop, over)
    | inr (label, m, step) ↦
        let (n, done, k, rest, over) =
          complete fuel m (omega (arith, Step-steps_left Work num_batches step))
            (omega (arith, Step-length_held Work num_batches step)) ends in
        (suc n, cons_done label done, k, later step rest, over)
  ]

  -- If every body of the loop comes to an end, the loop can be run to its end from every state with a
  -- thread: it never gets stuck.
  pub run_completes :
      (l : Loop S)
      → 0 < length l.held
      → ((s : S) (tid b : ℕ) → (s' : S) × Work s tid b s')
      → (n : ℕ) × (done : List (ℕ × ℕ)) × (k : Loop S) × Run Work num_batches l n done k
        × IsOver Work num_batches k
  run_completes l threads ends =
      complete (steps_left Work num_batches l) l (omega arith) threads ends

  pub todo-begin :
      (num_threads : ℕ) (s : S)
      → todo Work num_batches (begin num_threads s) ≡ count_from 0 num_batches
  unfolding todo
  todo-begin num_threads s =
      let e : num_batches - 0 ≡ num_batches = omega arith in
      rw (held_batches-replicate num_threads, e) refl

  -- After `n` steps from the start of the loop, whatever the threads do, `2 * num_batches - n` are left,
  -- so that no run has more than two for each batch.
  pub run_bounded :
      (num_threads : ℕ) (s : S) {n : ℕ} {done : List (ℕ × ℕ)} {k : Loop S}
      → Run Work num_batches (begin num_threads s) n done k
      → (n + steps_left Work num_batches k ≡ 2 * num_batches) × (n ≤ 2 * num_batches)
  unfolding steps_left
  run_bounded num_threads s r =
      let left = run-steps_left Work num_batches r in
      let all : length (todo Work num_batches (begin num_threads s)) ≡ num_batches =
        ap length (todo-begin num_threads s) ∙ length-count_from 0 num_batches in
      (omega (arith, left, all), omega (arith, left, all))

  -- In every run of the loop to its end each batch is done once, by one of the threads.
  pub run_once :
      (num_threads : ℕ) (s : S) {n : ℕ} {done : List (ℕ × ℕ)} {k : Loop S}
      → Run Work num_batches (begin num_threads s) n done k
      → IsOver Work num_batches k
      → Perm (batches_of done) (count_from 0 num_batches)
        × All (λ (tid : ℕ). tid < num_threads) (threads_of done)
  run_once num_threads s {done = done} {k} r over = (
    Perm.trans
        (Perm_of_eq (
          sym (append-nil (batches_of done))
          ∙ ap (λ (t : List ℕ). batches_of done ++ t) (sym (IsOver-todo Work num_batches k over))))
        (Perm.trans (run-todo Work num_batches r) (Perm_of_eq (todo-begin num_threads s))),
    run-threads_of Work num_batches num_threads (length-replicate num_threads none) r,
  )
