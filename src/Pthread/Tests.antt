-- ===== src/Pthread/Tests.antt =====
-- Runs of the thread library, and each property at two threads.
mod Switch
mod Waiting
mod Wake
mod Entry
mod Pages
use osdesign.Base.{
  Option, false, ℕ, ◌≡◌, refl, none, some, List, [], ◌∷◌, arith, ◌==◌, if◌then◌else◌, get_elem?,
}
use osdesign.LinkedList.Spec.{insert_ordered}
use osdesign.Pthread.{
  System, get_priority, new_thread, init_os, scheduler, yield_cpu, take_lock, test_and_set,
  lock_wait, thread_exit,
}
use osdesign.Pthread.Places.History.{ticks}
use osdesign.Pthread.Mutex.{start, step, wins, elsewhere, mutual_exclusion}
use osdesign.Pthread.Mutex.State.{state_of}
use osdesign.Pthread.Mutex.Race.{test_and_set-races}
use osdesign.Pthread.Priority.{Scheduled, scheduler-Scheduled, yield_cpu-priority}

-- vm.c as a log of the ids that it was called with
abbrev log : ℕ → List ℕ → List ℕ
log id ids = id ∷ ids

abbrev booted : System (List ℕ)
booted = record {
  threads = record (new_thread 1 100 0 0) { wait_join = none } ∷ [];
  locks = [];
  run = [];
  running = 0;
  n_schedulings = 0;
  next_id = 2;
  timer = 25000;
  stacks = λ p. 0;
  cleared = false;
  vm = 1 ∷ [];
}

booted_lem : init_os log 100 [] ≡ booted
unfolding init_os
booted_lem = refl

-- main has made a thread and a mutex
abbrev ready : System (List ℕ)
ready = record booted {
  threads = record (new_thread 1 100 0 0) { wait_join = none } ∷ new_thread 2 101 7 8 ∷ [];
  locks = record { state = 0; wait = [] } ∷ [];
  run = 1 ∷ [];
  next_id = 3;
  vm = 2 ∷ 1 ∷ [];
}

-- after main took the mutex and a tick came
abbrev ticked : System (List ℕ)
ticked = record ready {
  threads =
      record (new_thread 1 100 0 0) { wait_join = none; priority = 1 } ∷ new_thread 2 101 7 8 ∷ [];
  locks = record { state = 1; wait = [] } ∷ [];
  run = 0 ∷ [];
  running = 1;
  n_schedulings = 1;
  vm = 1 ∷ 2 ∷ 1 ∷ [];
}

abbrev taken : System (List ℕ)
taken = record ready { locks = record { state = 1; wait = [] } ∷ [] }

took : test_and_set 0 ready ≡ some (0, taken)
unfolding test_and_set
took = refl

ran : scheduler log taken ≡ some ticked
unfolding scheduler insert_ordered
ran = refl

lost : test_and_set 0 ticked ≡ some (1, ticked)
unfolding test_and_set
lost = refl

-- With nobody else to run, waiting for a mutex dereferences NULL.
wait_alone : lock_wait log 0 (record taken { run = [] }) ≡ none
unfolding lock_wait
wait_alone = refl

-- `initOS` gives the main thread no list for joins, so its end dereferences a wild pointer.
main_exits : thread_exit log 600 none booted ≡ none
unfolding thread_exit
main_exits = refl

mutual_exclusion_example : ◌≡◌ {A = ℕ} 1 1
mutual_exclusion_example =
    mutual_exclusion log log 0 ready ticked ticked 0 1
      (step (step start (wins 0 took (omega arith))) (elsewhere (ticks ran) tt)) lost

-- The first thread has read the mutex as free when the tick comes, and the other one takes it.
abbrev read_ticked : System (List ℕ)
read_ticked = record ticked { locks = record { state = 0; wait = [] } ∷ [] }

abbrev twice : System (List ℕ)
twice = record ticked {
  threads =
      record (new_thread 1 100 0 0) { wait_join = none; priority = 1 }
      ∷ record (new_thread 2 101 7 8) { priority = 1 }
      ∷ [];
  run = 1 ∷ [];
  running = 0;
  n_schedulings = 2;
  vm = 2 ∷ 1 ∷ 2 ∷ 1 ∷ [];
}

interrupted : scheduler log ready ≡ some read_ticked
unfolding scheduler insert_ordered
interrupted = refl

other_took : test_and_set 0 read_ticked ≡ some (0, ticked)
unfolding test_and_set
other_took = refl

back : scheduler log ticked ≡ some twice
unfolding scheduler insert_ordered
back = refl

test_and_set-races_example :
    (◌≡◌ {A = ℕ} 0 0)
    × (◌≡◌ {A = Option ℕ} (some 1) (some 1))
    × ((s : System (List ℕ)) × (take_lock 0 twice ≡ some s) × (state_of 0 s ≡ some 1))
test_and_set-races_example =
    test_and_set-races log 0 0 ready read_ticked ticked twice refl interrupted other_took back

scheduler-Scheduled_example :
    (s' : System (List ℕ)) × (scheduler log taken ≡ some s')
    × Scheduled log taken s'
    × ((t : ℕ)
        → get_elem? s'.threads t ≡ (
            if 0 == t
            then some (record (new_thread 1 100 0 0) { wait_join = none; priority = 1 })
            else get_elem? taken.threads t))
scheduler-Scheduled_example =
    scheduler-Scheduled log taken (record (new_thread 1 100 0 0) { wait_join = none }) refl
      (λ late. absurd (omega (arith, late)))

yielded : yield_cpu log taken ≡ some ticked
unfolding yield_cpu scheduler insert_ordered
yielded = refl

yield_cpu-priority_example :
    (s' : System (List ℕ)) × (yield_cpu log taken ≡ some s') × (get_priority s'.threads 0 ≡ 1)
yield_cpu-priority_example =
    yield_cpu-priority log taken (record (new_thread 1 100 0 0) { wait_join = none }) refl
      (λ late. absurd (omega (arith, late))) (omega arith)
