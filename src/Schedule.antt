-- ===== src/Schedule.antt =====
-- main.c: `#pragma omp for schedule(dynamic)` over the batches. The OpenMP runtime hands the next
-- number to a thread that has none; the threads run the body of the loop side by side, in any order.
-- A body is a relation `Work`, so that what a thread gets from outside may be left open.
pub mod Laws
pub mod Ends
pub mod Delivery
pub mod Completion
use shardingsim.Prelude.{
  ℕ, zero, suc, ◌+◌, ◌-◌, ◌<◌, ◌≤◌, ◌≡◌, Option, none, some, List, [], ◌∷◌, ◌++◌, length, get_or,
  set, replicate,
}

-- `next` is the first batch that no thread has; `held` is what each thread works on; `shared` is the
-- state that the body of the loop changes.
pub record Loop (S : Type 0) : Type 0 where
  pub next : ℕ
  pub held : List (Option ℕ)
  pub shared : S

abbrev pub begin : {S : Type 0} → ℕ → S → Loop S
begin num_threads s = record { next = 0; held = replicate num_threads none; shared = s }

-- What a step shows: a batch that is taken, or the thread and the batch that it has done.
pub data Label : Type 0 where
  takes : Label
  does : ℕ → ℕ → Label

-- The batches and their threads, in the order in which they were done.
abbrev pub cons_done : Label → List (ℕ × ℕ) → List (ℕ × ℕ)
cons_done takes done = done
cons_done (does tid b) done = (tid, b) ∷ done

module _ {S : Type 0} (Work : S → ℕ → ℕ → S → Type 0) (num_batches : ℕ) where
  pub data Step (l : Loop S) : Label → Loop S → Type 0 where
    taken :
        (tid : ℕ)
        → tid < length l.held
        → get_or l.held tid none ≡ none
        → l.next < num_batches
        → Step l takes (record l { next = suc l.next; held = set l.held tid (some l.next) })
    worked :
        (tid b : ℕ) {s : S}
        → tid < length l.held
        → get_or l.held tid none ≡ some b
        → Work l.shared tid b s
        → Step l (does tid b) (record l { held = set l.held tid none; shared = s })

  -- A run of `n` steps.
  pub data Run : Loop S → ℕ → List (ℕ × ℕ) → Loop S → Type 0 where
    stop : {l : Loop S} → Run l 0 [] l
    later :
        {label : Label} {l m k : Loop S} {n : ℕ} {done : List (ℕ × ℕ)}
        → Step l label m
        → Run m n done k
        → Run l (suc n) (cons_done label done) k

  -- The implicit barrier at the end of the loop: no batch is left, and no thread has one.
  abbrev pub IsOver : Loop S → Type 0
  IsOver l = (num_batches ≤ l.next) × (l.held ≡ replicate (length l.held) none)
