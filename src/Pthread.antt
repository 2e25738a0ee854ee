-- ===== src/Pthread.antt =====
-- my_pthread.c and my_pthread_t.h: threads, the scheduler and the mutexes of the library. A thread
-- and a mutex are positions in the tables; the queues are the sequences that the module LinkedList
-- implements. `setcontext` and `swapcontext` only change `running`: what the switched thread then
-- executes is the next call of a history. A NULL or wild dereference is `none`.
pub mod Places
pub mod Mutex
pub mod Priority
pub mod Switch
pub mod Waiting
pub mod Wake
pub mod Entry
pub mod Pages
mod Tests
use osdesign.Base.{
  ℕ, ◌+◌, ◌-◌, ◌%◌, Bool, true, false, Option, none, some, List, [], ◌∷◌, ◌++◌, ltb, ◌==◌,
  if◌then◌else◌, length, get_elem?, set,
}
use osdesign.LinkedList.{two32, goes_before}
use osdesign.LinkedList.Spec.{insert_ordered, insert_all}

-- `struct sthread`, less the saved context. `wait_join` and `res` are `none` where the pointer was
-- never set; `res` holds an address on a stack.
pub record Sthread : Type 0 where
  pub id : ℕ
  pub priority : ℕ
  pub born : ℕ
  pub function : ℕ
  pub arg : ℕ
  pub res : Option ℕ
  pub finished : Bool
  pub wait_join : Option (List ℕ)

-- `struct lock`
pub record Lock : Type 0 where
  pub state : ℕ
  pub wait : List ℕ

-- The globals of my_pthread_t.h. `vm` is the state of vm.c. `stacks` is what stands on the stacks of
-- the threads, by address; `cleared` says whether the bytes that malloc has for the list of the next
-- `orderByOldest` are zero.
pub record System (V : Type 0) : Type 0 where
  pub threads : List Sthread
  pub locks : List Lock
  pub run : List ℕ
  pub running : ℕ
  pub n_schedulings : ℕ
  pub next_id : ℕ
  pub timer : ℕ
  pub stacks : ℕ → ℕ
  pub cleared : Bool
  pub vm : V

abbrev pub quantum : ℕ
quantum = 25000

infixl 5 ◌>>=◌
abbrev pub ◌>>=◌ : {A B : Type 0} → Option A → (A → Option B) → Option B
none >>= f = none
some a >>= f = f a

-- A field of a thread, 0 where there is no such thread.
abbrev field_of : (Sthread → ℕ) → Option Sthread → ℕ
field_of f none = 0
field_of f (some t) = f t

-- `getPriority` and `getTimeCreated`; the second cuts a long to an unsigned int.
abbrev pub get_priority : List Sthread → ℕ → ℕ
get_priority ts t = field_of (λ x. x.priority) (get_elem? ts t)

abbrev pub get_time_created : List Sthread → ℕ → ℕ
get_time_created ts t = field_of (λ x. x.born % two32) (get_elem? ts t)

-- the test by which `pushOrdered` compares, for its first argument
abbrev pub comes_first : List Sthread → ℕ → ℕ → ℕ → Bool
comes_first ts order = goes_before (get_priority ts) (get_time_created ts) order

abbrev pub pop : List ℕ → Option (ℕ × List ℕ)
pop [] = none
pop (t ∷ ts) = some (t, ts)

abbrev is_empty : List ℕ → Bool
is_empty [] = true
is_empty (t ∷ ts) = false

-- The read of `testAndSet`, and its write. The signals are not blocked in it, so that a tick can come
-- between the two.
abbrev pub read_lock : {V : Type 0} → ℕ → System V → Option ℕ
read_lock m s = do l ← get_elem? s.locks m; some l.state

abbrev pub take_lock : {V : Type 0} → ℕ → System V → Option (System V)
take_lock m s = do
  l ← get_elem? s.locks m
  some (record s { locks = set s.locks m (record l { state = 1 }) })

-- `testAndSet`, the loop test of `my_pthread_mutex_lock`, where no tick comes between the read and
-- the write: 1 if the mutex is taken.
pub test_and_set : {V : Type 0} → ℕ → System V → Option (ℕ × System V)
test_and_set m s = do b ← read_lock m s; s' ← take_lock m s; some (b, s')

-- The end of `my_pthread_join`: `*value_ptr = *thread->res`.
pub join_result : {V : Type 0} → ℕ → System V → Option ℕ
join_result t s = do th ← get_elem? s.threads t; p ← th.res; some (s.stacks p)

-- `my_pthread_mutex_init`, with the list of waiters taken as cleared
pub mutex_init : {V : Type 0} → System V → ℕ × System V
mutex_init s =
    (length s.locks, record s { locks = s.locks ++ record { state = 0; wait = [] } ∷ [] })

-- `my_pthread_mutex_unlock` hands no lock over: it wakes one thread and clears the state.
pub mutex_unlock : {V : Type 0} → ℕ → System V → Option (System V)
mutex_unlock m s = do
  l ← get_elem? s.locks m
  let first = comes_first s.threads 0
  elim l.wait [
    | [] ↦ some (record s { locks = set s.locks m (record l { state = 0 }) })
    | t ∷ rest ↦ some (record s {
      locks = set s.locks m (record { state = 0; wait = rest });
      run = insert_ordered first t s.run;
    })
  ]

-- `my_pthread_mutex_destroy`, less the two calls of `free`
pub mutex_destroy : {V : Type 0} → ℕ → System V → Option (System V)
mutex_destroy m s = do
  l ← get_elem? s.locks m
  some (record s {
    locks = set s.locks m (record { state = 0; wait = [] });
    run = insert_all (comes_first s.threads 0) l.wait s.run;
  })

-- What `threadExit` leaves in its thread: it stores `param`, the address of its own parameter.
abbrev pub ended : ℕ → Option ℕ → Sthread → Sthread
ended param res th = record th {
  finished = true;
  res = elim res [ none ↦ th.res | some v ↦ some param ];
  wait_join = some [];
}

-- The word of a pointer, 0 for NULL, and the stacks with a pointer at an address.
abbrev word : Option ℕ → ℕ
word none = 0
word (some v) = v

abbrev pub pushed : ℕ → Option ℕ → (ℕ → ℕ) → ℕ → ℕ
pushed param res stacks p = if p == param then word res else stacks p

-- Whether a tick can follow the list that `orderByOldest` makes without clearing it.
abbrev pub is_ordered : {V : Type 0} → System V → Bool
is_ordered s = if ltb 150 ((s.n_schedulings + 1) % two32) then s.cleared else true

-- The order of the run queue at a tick: every 151st run sorts it by age, into a cleared list.
abbrev pub aged : {V : Type 0} → System V → System V
aged s =
    if ltb 150 ((s.n_schedulings + 1) % two32)
    then record s {
      run = insert_all (comes_first s.threads 1) s.run [];
      n_schedulings = 0;
      timer = quantum;
    }
    else record s { n_schedulings = (s.n_schedulings + 1) % two32; timer = quantum }

abbrev pub raised : Sthread → Sthread
raised th = record th { priority = (th.priority + 1) % two32 }

abbrev pub new_thread : ℕ → ℕ → ℕ → ℕ → Sthread
new_thread id now function arg = record {
  id = id;
  priority = 0;
  born = now;
  function = function;
  arg = arg;
  res = none;
  finished = false;
  wait_join = some [];
}

-- `setMyScheduler`, less the handler that it installs
abbrev pub set_my_scheduler : {V : Type 0} → System V → System V
set_my_scheduler s = record s { n_schedulings = 0; timer = quantum }

-- `reserve` stands for the call `myallocate(0, ..., t->id)`, by which a new thread gets its page.
module _ {V : Type 0} (reserve : ℕ → V → V) where
  -- `initOS` at the time `now`: the main thread gets no list for joins. The timer counts as stopped
  -- before; the stacks and what malloc has change in any way later.
  pub init_os : ℕ → V → System V
  init_os now v = set_my_scheduler (record {
    threads = record (new_thread 1 now 0 0) { wait_join = none } ∷ [];
    locks = [];
    run = [];
    running = 0;
    n_schedulings = 0;
    next_id = 2;
    timer = 0;
    stacks = λ p. 0;
    cleared = false;
    vm = reserve 1 v;
  })

  -- `createNewThread`, at the time `now`. The list for joins is taken as cleared.
  create_new_thread : ℕ → ℕ → ℕ → System V → System V
  create_new_thread now function arg s = record s {
    threads = s.threads ++ new_thread s.next_id now function arg ∷ [];
    next_id = (s.next_id + 1) % two32;
    vm = reserve s.next_id s.vm;
  }

  -- `my_pthread_create`, with a NULL `thread` as `false`: the status and the new thread.
  pub create : Bool → ℕ → ℕ → ℕ → System V → ℕ × System V
  unfolding create_new_thread
  create false now function arg s = (1, s)
  create true now function arg s =
      let t = length s.threads in
      let s' = create_new_thread now function arg s in
      (0, record s' { run = insert_ordered (comes_first s'.threads 0) t s.run })

-- `virtual_memory` stands for the calls into vm.c of the function `virtualMemory`, with the id of
-- the thread that leaves the processor.
module _ {V : Type 0} (virtual_memory : ℕ → V → V) where
  leave : Sthread → System V → System V
  leave th s = record s { vm = virtual_memory th.id s.vm }

  -- `*running = *pop(run)`
  switch : System V → Option (System V)
  switch s = do (t, rest) ← pop s.run; some (record s { running = t; run = rest })

  -- `threadExit`, with its parameter at the address `param`. The waiting threads go to the run queue;
  -- with no other thread the call returns.
  pub thread_exit : ℕ → Option ℕ → System V → Option (System V)
  unfolding leave switch
  thread_exit param res s = do
    th ← get_elem? s.threads s.running
    waiting ← th.wait_join
    let ts = set s.threads s.running (ended param res th)
    let run = insert_all (comes_first ts 0) waiting s.run
    let s' = record s { threads = ts; run = run; stacks = pushed param res s.stacks }
    if is_empty run
        then some s'
        else do s'' ← switch (leave th s'); some (record s'' { timer = quantum })

  -- `scheduler`. An ordering into a list that is not cleared is not followed: it is `none`.
  pub scheduler : System V → Option (System V)
  unfolding leave
  scheduler s = do
    th ← get_elem? s.threads s.running
    let ts = set s.threads s.running (raised th)
    let s' = record (aged s) { threads = ts }
    if is_ordered s
        then elim s'.run [
          | [] ↦ some s'
          | next ∷ rest ↦ some (record (leave th s') {
            run = insert_ordered (comes_first ts 0) s.running rest;
            running = next;
          })
        ]
        else none

  -- `interrupt`, less the context of its own in which it runs the scheduler
  abbrev pub interrupt : System V → Option (System V)
  interrupt s = scheduler s

  -- `my_pthread_yield`
  pub yield_cpu : System V → Option (System V)
  unfolding scheduler
  yield_cpu s = do
    th ← get_elem? s.threads s.running
    interrupt (
        if ltb 0 th.priority
        then record s {
          threads = set s.threads s.running (record th { priority = th.priority - 1 });
        }
        else s)

  -- The first part of `my_pthread_join`, up to the switch: `true` if the caller waits. With no
  -- other thread it goes on at once, and gives back what the library holds.
  pub join_wait : ℕ → System V → Option (Bool × System V)
  unfolding leave switch
  join_wait t s = do
    th ← get_elem? s.threads t
    if th.finished then some (false, s) else do
      waiting ← th.wait_join
      let ts = set s.threads t (record th {
        wait_join = some (insert_ordered (comes_first s.threads 0) s.running waiting);
      })
      let s' = record s { threads = ts }
      if is_empty s.run
          then some (false, s')
          else do me ← get_elem? s.threads s.running; s'' ← switch (leave me s'); some (true, s'')

  -- The part of `my_pthread_mutex_lock` behind a lost test, with signals blocked: `true` if the
  -- caller waits. The state is tested again, since a tick may have come before.
  pub lock_wait : ℕ → System V → Option (Bool × System V)
  unfolding leave switch
  lock_wait m s = do
    l ← get_elem? s.locks m
    if l.state == 1
        then (do
          me ← get_elem? s.threads s.running
          let waits = record l { wait = l.wait ++ s.running ∷ [] }
          s' ← switch (leave me (record s { locks = set s.locks m waits; timer = quantum }))
          some (true, s'))
        else some (false, s)
