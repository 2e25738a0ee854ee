-- ===== src/Pthread/Tests/Wake.antt =====
-- A thread that ends while another waits for it and a third is ready.
use osdesign.Base.{false, ℕ, none, some, List, [], ◌∷◌}
use osdesign.Pthread.{System, Sthread, new_thread}

abbrev log : ℕ → List ℕ → List ℕ
log id ids = id ∷ ids

abbrev awaited : Sthread
awaited = record (new_thread 2 101 7 8) { wait_join = some (0 ∷ []) }

-- The thread 1 runs, the thread 0 waits for its end, and the thread 2 is ready.
abbrev joined : System (List ℕ)
joined = record {
  threads =
      record (new_thread 1 100 0 0) { wait_join = none } ∷ awaited ∷ new_thread 3 102 7 8 ∷ [];
  locks = [];
  run = 2 ∷ [];
  running = 1;
  n_schedulings = 10;
  next_id = 4;
  timer = 25000;
  stacks = λ p. 0;
  cleared = false;
  vm = [];
}
