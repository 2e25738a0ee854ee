-- ===== src/Pthread/Tests/Entry.antt =====
-- A thread whose function returns while another waits for it, and the calls around the scheduler.
use osdesign.Base.{
  false, ℕ, ◌+◌, ◌≡◌, refl, Option, none, some, List, [], ◌∷◌, arith, count, ◌==◌, if◌then◌else◌,
}
use osdesign.Pthread.{System, Sthread, new_thread, join_result, join_wait}
use osdesign.Pthread.Wake.{ready}
use osdesign.Pthread.Entry.{thread_run, join_result-thread_run}

abbrev log : ℕ → List ℕ → List ℕ
log id ids = id ∷ ids

abbrev awaited : Sthread
awaited = record (new_thread 2 101 7 8) { wait_join = some (0 ∷ []) }

-- The thread 1 runs the function 7 on 8, the thread 0 waits for its end, and the thread 2 is ready.
abbrev started : System (List ℕ)
started = record {
  threads =
      record (new_thread 1 100 0 0) { wait_join = none } ∷ awaited ∷ new_thread 3 102 7 8 ∷ [];
  locks = [];
  run = 2 ∷ [];
  running = 1;
  n_schedulings = 10;
  next_id = 4;
  timer = 25000;
  stacks = λ p. 0;
  cleared = false;
  vm = [];
}

-- The function returns at once, with the sum of its number and its argument.
abbrev sums : ℕ → ℕ → System (List ℕ) → Option (Option ℕ × System (List ℕ))
sums f a s = some (some (f + a), s)

-- Behind the pointer 15 stands 9.
abbrev behind : ℕ → Option (Option ℕ)
behind p = if p == 15 then some (some 9) else none

join_result-thread_run_example :
    (s : System (List ℕ)) × (thread_run log sums behind 600 1 started ≡ some s)
    × (join_wait log 1 s ≡ some (false, s))
    × (join_result 1 s ≡ some 9)
    × ((a : ℕ) → ready log a s ≡ count a (0 ∷ []) + count a (2 ∷ []))
join_result-thread_run_example =
    join_result-thread_run log sums behind 600 1 started started awaited awaited (0 ∷ []) 0 15 9
      refl refl refl refl refl refl (omega arith)
