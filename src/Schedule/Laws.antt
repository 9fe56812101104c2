-- ===== src/Schedule/Laws.antt =====
-- The dynamic schedule does each batch once, and comes to its end.
use mathlib.Core.List.{Perm, Permᴰ, perm_middle}
use mathlib.Core.Logic.{∥∥₁_elim}
use native.Mathlib.Nat.{ℕ_set}
use mathlib.Core.List.Perm
use shardingsim.Prelude.{
  ℕ, zero, suc, ◌+◌, ◌-◌, ◌<◌, ◌≡◌, refl, ap, ◌∙◌, Option, none, some, List, [], ◌∷◌, ◌++◌, length,
  get_or, set, replicate, All, arith, length-set,
}
use shardingsim.Generator.Bounds.{count_from}
use shardingsim.System.Laws.{batches_of, threads_of}
use shardingsim.Schedule.{
  Loop, Label, takes, does, cons_done, Step, taken, worked, Run, stop, later, IsOver,
}

-- The batches in the hands of the threads.
unfoldable pub held_batches : List (Option ℕ) → List ℕ
held_batches [] = []
held_batches (none ∷ held) = held_batches held
held_batches (some b ∷ held) = b ∷ held_batches held

pub Perm_of_eq : {xs ys : List ℕ} → xs ≡ ys → Perm xs ys
Perm_of_eq {ys = ys} e = rw e (Perm.refl ys)

length-Permᴰ : {xs ys : List ℕ} → Permᴰ xs ys → length xs ≡ length ys
length-Permᴰ Permᴰ.nil = refl
length-Permᴰ (Permᴰ.cons e d) = ap suc (length-Permᴰ d)
length-Permᴰ (Permᴰ.swap e e') = refl
length-Permᴰ (Permᴰ.trans d d') = length-Permᴰ d ∙ length-Permᴰ d'

length-Perm : {xs ys : List ℕ} → Perm xs ys → length xs ≡ length ys
length-Perm h = ∥∥₁_elim h (ℕ_set _ _) length-Permᴰ

held_batches-take :
    (held : List (Option ℕ)) (tid b : ℕ)
    → tid < length held
    → get_or held tid none ≡ none
    → Perm (held_batches (set held tid (some b))) (b ∷ held_batches held)
unfolding held_batches
held_batches-take [] tid b h free = absurd (omega arith)
held_batches-take (none ∷ held) zero b h free = Perm.refl (b ∷ held_batches held)
held_batches-take (some c ∷ held) zero b h free = absurd (cc free)
held_batches-take (none ∷ held) (suc tid) b h free = held_batches-take held tid b (omega arith) free
held_batches-take (some c ∷ held) (suc tid) b h free =
    Perm.trans (Perm.cons c (held_batches-take held tid b (omega arith) free)) (Perm.swap _ _ _)

held_batches-work :
    (held : List (Option ℕ)) (tid b : ℕ)
    → tid < length held
    → get_or held tid none ≡ some b
    → Perm (held_batches held) (b ∷ held_batches (set held tid none))
unfolding held_batches
held_batches-work [] tid b h has = absurd (omega arith)
held_batches-work (none ∷ held) zero b h has = absurd (cc has)
held_batches-work (some c ∷ held) zero b h has =
    let same : c ≡ b = cc has in rw same (Perm.refl (b ∷ held_batches held))
held_batches-work (none ∷ held) (suc tid) b h has = held_batches-work held tid b (omega arith) has
held_batches-work (some c ∷ held) (suc tid) b h has =
    Perm.trans (Perm.cons c (held_batches-work held tid b (omega arith) has)) (Perm.swap _ _ _)

pub held_batches-replicate : (n : ℕ) → held_batches (replicate n none) ≡ []
unfolding held_batches
held_batches-replicate zero = refl
held_batches-replicate (suc n) = held_batches-replicate n

count_from-suc : (from n : ℕ) → 0 < n → count_from from n ≡ from ∷ count_from (suc from) (n - 1)
unfolding count_from
count_from-suc from zero h = absurd (omega arith)
count_from-suc from (suc n) h = let e : suc n - 1 ≡ n = omega arith in rw e refl

module _ {S : Type 0} (Work : S → ℕ → ℕ → S → Type 0) (num_batches : ℕ) where
  -- What is still to be done: the batches of the threads, and those that no thread has.
  unfoldable pub todo : Loop S → List ℕ
  todo l = held_batches l.held ++ count_from l.next (num_batches - l.next)

  -- The steps that are left: two for a batch that no thread has, one for the others.
  unfoldable pub steps_left : Loop S → ℕ
  unfolding todo
  steps_left l = length (todo l) + (num_batches - l.next)

  -- A step moves a batch along.
  done_of : Label → List ℕ
  done_of takes = []
  done_of (does tid b) = b ∷ []

  one_less :
      (l : Loop S)
      → held_batches l.held ++ l.next ∷ count_from (suc l.next) (num_batches - suc l.next)
        ≡ held_batches l.held ++ l.next ∷ count_from (suc l.next) (num_batches - l.next - 1)
  one_less l =
      let e : num_batches - suc l.next ≡ num_batches - l.next - 1 = omega arith in
      ap (λ (n : ℕ). held_batches l.held ++ l.next ∷ count_from (suc l.next) n) e

  batches_of-cons :
      (label : Label) (done : List (ℕ × ℕ)) (rest : List ℕ)
      → batches_of (cons_done label done) ++ rest ≡ done_of label ++ (batches_of done ++ rest)
  unfolding done_of
  batches_of-cons takes done rest = refl
  batches_of-cons (does tid b) done rest = refl

  Step-todo :
      {l m : Loop S} {label : Label}
      → Step Work num_batches l label m
      → Perm (done_of label ++ todo m) (todo l)
  unfolding todo done_of
  Step-todo {l} (taken tid h free more) =
      rw (count_from-suc l.next (num_batches - l.next) (omega arith)) (
        Perm.trans
          (Perm.append (held_batches-take l.held tid l.next h free)
            (Perm.refl (count_from (suc l.next) (num_batches - suc l.next))))
          (Perm.trans
            (Perm.symm (
              perm_middle (held_batches l.held)
                (count_from (suc l.next) (num_batches - suc l.next))))
            (Perm_of_eq (one_less l))))
  Step-todo {l} (worked tid b h has moved) = Perm.symm (
      Perm.append (held_batches-work l.held tid b h has)
        (Perm.refl (count_from l.next (num_batches - l.next))))

  -- A run does what it takes off the list of things to do.
  pub run-todo :
      {l k : Loop S} {n : ℕ} {done : List (ℕ × ℕ)}
      → Run Work num_batches l n done k
      → Perm (batches_of done ++ todo k) (todo l)
  run-todo stop = Perm.refl _
  run-todo {l} {k} {n} {done} (later {label} {m = m} {done = others} step rest) =
      Perm.trans
        (Perm.trans (Perm_of_eq (batches_of-cons label others (todo k)))
          (Perm.append_left (done_of label) (run-todo rest)))
        (Step-todo step)

  -- Each step brings the end nearer.
  Step-length :
      {l m : Loop S} {label : Label}
      → Step Work num_batches l label m
      → length (done_of label ++ todo m) ≡ length (todo l)
      → suc (steps_left m) ≡ steps_left l
  unfolding steps_left done_of
  Step-length (taken tid h free more) size = omega arith
  Step-length (worked tid b h has moved) size = omega arith

  pub Step-steps_left :
      {l m : Loop S} {label : Label}
      → Step Work num_batches l label m
      → suc (steps_left m) ≡ steps_left l
  Step-steps_left step = Step-length step (length-Perm (Step-todo step))

  pub run-steps_left :
      {l k : Loop S} {n : ℕ} {done : List (ℕ × ℕ)}
      → Run Work num_batches l n done k
      → n + steps_left k ≡ steps_left l
  run-steps_left stop = omega arith
  run-steps_left (later step rest) = omega (arith, Step-steps_left step, run-steps_left rest)

  -- The threads stay as many, and only they do batches.
  pub Step-length_held :
      {l m : Loop S} {label : Label}
      → Step Work num_batches l label m
      → length m.held ≡ length l.held
  Step-length_held {l} (taken tid h free more) = length-set l.held tid (some l.next)
  Step-length_held {l} (worked tid b h has moved) = length-set l.held tid none

  pub run-length_held :
      {l k : Loop S} {n : ℕ} {done : List (ℕ × ℕ)}
      → Run Work num_batches l n done k
      → length k.held ≡ length l.held
  run-length_held stop = refl
  run-length_held (later step rest) = run-length_held rest ∙ Step-length_held step

  does_thread :
      {l m : Loop S} {tid b : ℕ} → Step Work num_batches l (does tid b) m → tid < length l.held
  does_thread (worked tid b h has moved) = h

  pub run-threads_of :
      {l k : Loop S} {n : ℕ} {done : List (ℕ × ℕ)} (num_threads : ℕ)
      → length l.held ≡ num_threads
      → Run Work num_batches l n done k
      → All (λ (tid : ℕ). tid < num_threads) (threads_of done)
  run-threads_of num_threads size stop = tt
  run-threads_of num_threads size (later {label = takes} step rest) =
      run-threads_of num_threads (Step-length_held step ∙ size) rest
  run-threads_of num_threads size (later {label = does tid b} step rest) = (
    omega (arith, size, does_thread step),
    run-threads_of num_threads (Step-length_held step ∙ size) rest,
  )

  -- Nothing is left when the loop is over.
  pub IsOver-todo : (l : Loop S) → IsOver Work num_batches l → todo l ≡ []
  unfolding todo count_from
  IsOver-todo l (none_left, idle) =
      let z : num_batches - l.next ≡ 0 = omega arith in
      rw (idle, held_batches-replicate (length l.held), z) refl
