-- ===== src/Pthread/Priority.antt =====
-- What a tick and a yield do to the threads' priorities, and who runs next.
use osdesign.Base.{
  ℕ, ◌+◌, ◌-◌, ◌%◌, ◌^◌, true, ◌<◌, ◌≡◌, refl, ◌⊎◌, inl, inr, some, List, [], ◌∷◌, arith, ltb, ◌==◌,
  if◌then◌else◌, Bool-cases, get_elem?, set, get_elem?-set, lt-length_of_get_elem?,
}
use osdesign.LinkedList.{two32}
use osdesign.LinkedList.Spec.{insert_ordered, insert_all}
use osdesign.Pthread.{
  Sthread, System, comes_first, get_priority, aged, raised, scheduler, yield_cpu,
}

module _ {V : Type 0} (virtual_memory : ℕ → V → V) where
  -- The queue that a tick takes from: after 150 ticks without one it is ordered by age.
  abbrev pub queue : System V → List ℕ
  queue s =
      if ltb 150 ((s.n_schedulings + 1) % 2 ^ 32)
      then insert_all (comes_first s.threads 1) s.run []
      else s.run

  -- No ordering by age is due, or its list is cleared.
  abbrev pub IsCleared : System V → Type 0
  IsCleared s = 150 < (s.n_schedulings + 1) % 2 ^ 32 → s.cleared ≡ true

  -- The running thread has its number raised, and the other threads are as before.
  abbrev pub Raised : System V → Sthread → System V → Type 0
  Raised s th s' =
      (t : ℕ)
      → get_elem? s'.threads t ≡ (
          if s.running == t
          then some (record th { priority = (th.priority + 1) % 2 ^ 32 })
          else get_elem? s.threads t)

  -- Who is on the processor after a tick, and what the run queue then holds.
  abbrev pub Scheduled : System V → System V → Type 0
  Scheduled s s' =
      ((queue s ≡ []) × (s'.running ≡ s.running) × (s'.run ≡ []))
      ⊎ ((t : ℕ) × (rest : List ℕ) × (queue s ≡ t ∷ rest)
          × (s'.running ≡ t)
          × (s'.run ≡ insert_ordered (comes_first s'.threads 0) s.running rest))

  scheduler-changes :
      (s s' : System V) (th : Sthread)
      → get_elem? s.threads s.running ≡ some th
      → scheduler virtual_memory s ≡ some s'
      → Scheduled s s' × Raised s th s'
  unfolding scheduler
  scheduler-changes s s' th z e = by_run (queue s) refl
    where
      Goal : Type 0
      Goal = Scheduled s s' × Raised s th s'

      table :
          (t : ℕ)
          → get_elem? (set s.threads s.running (raised th)) t
            ≡ (if s.running == t then some (raised th) else get_elem? s.threads t)
      table t = ground (
        arith,
        get_elem?-set s.threads s.running t (raised th),
        lt-length_of_get_elem? s.threads s.running th z,
      )

      by_run : (ws : List ℕ) → queue s ≡ ws → Goal
      by_run [] w =
          (inl (w, ground (arith, w, z), ground (arith, w, z)), λ t. ground (arith, w, z, table t))
      by_run (n ∷ rest) w = (
        inr (n, rest, w, ground (arith, w, z), ground (arith, w, z)),
        λ t. ground (arith, w, z, table t),
      )

  scheduler-runs :
      (s : System V) (th : Sthread)
      → get_elem? s.threads s.running ≡ some th
      → IsCleared s
      → (s' : System V) × (scheduler virtual_memory s ≡ some s')
  unfolding scheduler
  scheduler-runs s th z clear = by_run (queue s) refl
    where
      raised_in : System V → System V
      raised_in u = record u { threads = set s.threads s.running (raised th) }

      by_run :
          (ws : List ℕ) → queue s ≡ ws → (s' : System V) × (scheduler virtual_memory s ≡ some s')
      by_run [] w = (raised_in (aged s), ground (arith, w, z, clear))
      by_run (n ∷ rest) w = (
        record (raised_in (aged s)) {
          run = insert_ordered (comes_first (set s.threads s.running (raised th)) 0) s.running rest;
          running = n;
          vm = virtual_memory th.id s.vm;
        },
        ground (arith, w, z, clear),
      )

  -- With a running thread in the table, where no ordering by age is due or the list that it makes is
  -- cleared, a tick returns. It takes the first thread of the queue, which it orders by age first if
  -- with this one more than 150 ticks have passed, and puts the running thread back with a priority
  -- number raised by one (modulo 2^32); with an empty queue the same thread goes on. No other thread's
  -- data change.
  pub scheduler-Scheduled :
      (s : System V) (th : Sthread)
      → get_elem? s.threads s.running ≡ some th
      → IsCleared s
      → (s' : System V) × (scheduler virtual_memory s ≡ some s') × Scheduled s s' × Raised s th s'
  scheduler-Scheduled s th z clear =
      let (s', e) = scheduler-runs s th z clear in
      let (goes_on, others) = scheduler-changes s s' th z e in (s', e, goes_on, others)

  -- With a running thread in the table, whose priority number fits 32 bits, where no ordering by age is
  -- due or the list that it makes is cleared, a yield returns, and the thread that yielded keeps its
  -- number, unless that was 0: then it is 1 afterwards, a lower priority.
  pub yield_cpu-priority :
      (s : System V) (th : Sthread)
      → get_elem? s.threads s.running ≡ some th
      → IsCleared s
      → th.priority < two32
      → (s' : System V) × (yield_cpu virtual_memory s ≡ some s')
        × (get_priority s'.threads s.running ≡ (if th.priority == 0 then 1 else th.priority))
  unfolding yield_cpu
  yield_cpu-priority s th z clear small = elim (Bool-cases (ltb 0 th.priority)) [
    | inl above ↦
        let (s', ran, _, after) = scheduler-Scheduled lowered lower there clear in
        (s', ground (arith, z, above, ran), ground (arith, after s.running, above))
    | inr zero' ↦
        let (s', ran, _, after) = scheduler-Scheduled s th z clear in
        (s', ground (arith, z, zero', ran), ground (arith, after s.running, zero'))
  ]
    where
      lower : Sthread
      lower = record th { priority = th.priority - 1 }

      lowered : System V
      lowered = record s { threads = set s.threads s.running lower }

      there : get_elem? (set s.threads s.running lower) s.running ≡ some lower
      there = ground (
        arith,
        get_elem?-set s.threads s.running s.running lower,
        lt-length_of_get_elem? s.threads s.running th z,
      )
