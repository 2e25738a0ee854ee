-- ===== src/Pthread/Tests/Waiting.antt =====
-- A thread with a high priority number that two others run in front of.
use osdesign.Base.{false, ℕ, ◌≤◌, ◌≡◌, refl, none, some, List, [], ◌∷◌, arith}
use osdesign.Pthread.{System, new_thread}
use osdesign.Pthread.Places.History.{IsPlaced}
use osdesign.Pthread.Waiting.{run_ticks, run_ticks-running}
use osdesign.Pthread.Waiting.Turn.{Waits}

abbrev log : ℕ → List ℕ → List ℕ
log id ids = id ∷ ids

-- The thread 0 runs, the thread 1 is next, and the thread 2 has to wait.
abbrev three : System (List ℕ)
three = record {
  threads =
      record (new_thread 1 100 0 0) { wait_join = none; priority = 3 }
      ∷ record (new_thread 2 101 7 8) { priority = 1 }
      ∷ record (new_thread 3 102 7 8) { priority = 4 }
      ∷ [];
  locks = [];
  run = 1 ∷ 2 ∷ [];
  running = 0;
  n_schedulings = 10;
  next_id = 4;
  timer = 25000;
  stacks = λ p. 0;
  cleared = false;
  vm = [];
}

three-IsPlaced : IsPlaced log log three
three-IsPlaced = record { once = λ a. ground arith; known = λ a k. ground arith }

three-Waits : Waits log log 4 2 (1 ∷ []) three
three-Waits = record {
  placed = three-IsPlaced;
  rest = [];
  queue = refl;
  small = (omega arith, (omega arith, (omega arith, tt)));
}

run_ticks-running_example :
    (k : ℕ) × (s' : System (List ℕ)) × (k ≤ 6)
    × (run_ticks log k three ≡ some s')
    × (s'.running ≡ 2)
run_ticks-running_example =
    run_ticks-running log log 6 three 4 2 (1 ∷ []) (omega arith) (omega arith) (omega arith)
      three-Waits
