-- ===== src/Pthread/Places.antt =====
-- Where the threads of the library stand: one runs, the others are in the run queue or wait for a
-- mutex or for the end of a thread.
pub mod Threads
pub mod Table
pub mod History
use osdesign.Base.{
  ℕ, ◌+◌, ◌≡◌, refl, Bool, Option, none, some, List, [], ◌∷◌, ◌++◌, arith, ◌==◌, if◌then◌else◌,
  count, count-append, get_elem?, set, total, total-set, total-append,
}
use osdesign.LinkedList.Spec.{count-insert_ordered, count-insert_all}
use osdesign.Pthread.{
  Sthread, Lock, System, comes_first, aged, raised, take_lock, test_and_set, mutex_init,
  mutex_unlock, mutex_destroy, scheduler, lock_wait,
}

abbrev pub joining : ℕ → Sthread → ℕ
joining a th = elim th.wait_join [ none ↦ 0 | some ts ↦ count a ts ]

abbrev pub waiting : ℕ → Lock → ℕ
waiting a l = count a l.wait

-- How many places the thread `a` has.
abbrev pub places : {V : Type 0} → ℕ → System V → ℕ
places a s =
    (if s.running == a then 1 else 0)
    + count a s.run
    + total (waiting a) s.locks
    + total (joining a) s.threads

module _ {V : Type 0} where
  pub places-take_lock :
      (m a : ℕ) (s s' : System V) → take_lock m s ≡ some s' → places a s' ≡ places a s
  places-take_lock m a s s' e = go (get_elem? s.locks m) refl
    where
      go : (o : Option Lock) → get_elem? s.locks m ≡ o → places a s' ≡ places a s
      go none z = ground arith
      go (some l) z = ground (arith, total-set (waiting a) s.locks m l (record l { state = 1 }) z)

  pub places-test_and_set :
      (m a : ℕ) (s s' : System V) (b : ℕ)
      → test_and_set m s ≡ some (b, s')
      → places a s' ≡ places a s
  unfolding test_and_set
  places-test_and_set m a s s' b e = go (get_elem? s.locks m) refl
    where
      go : (o : Option Lock) → get_elem? s.locks m ≡ o → places a s' ≡ places a s
      go none z = ground arith
      go (some l) z = ground (arith, total-set (waiting a) s.locks m l (record l { state = 1 }) z)

  -- `my_pthread_mutex_unlock` moves at most one thread, from the mutex to the run queue.
  pub places-mutex_unlock :
      (m a : ℕ) (s s' : System V) → mutex_unlock m s ≡ some s' → places a s' ≡ places a s
  unfolding mutex_unlock
  places-mutex_unlock m a s s' e = go (get_elem? s.locks m) refl
    where
      go : (o : Option Lock) → get_elem? s.locks m ≡ o → places a s' ≡ places a s
      go none z = ground arith
      go (some l) z = by_wait l.wait refl
        where
          by_wait : (ws : List ℕ) → l.wait ≡ ws → places a s' ≡ places a s
          by_wait [] w =
              ground (arith, w, total-set (waiting a) s.locks m l (record l { state = 0 }) z)
          by_wait (t ∷ rest) w = ground (
            arith,
            w,
            total-set (waiting a) s.locks m l (record { state = 0; wait = rest }) z,
            count-insert_ordered (comes_first s.threads 0) a t s.run,
          )

  pub places-mutex_destroy :
      (m a : ℕ) (s s' : System V) → mutex_destroy m s ≡ some s' → places a s' ≡ places a s
  unfolding mutex_destroy
  places-mutex_destroy m a s s' e = go (get_elem? s.locks m) refl
    where
      go : (o : Option Lock) → get_elem? s.locks m ≡ o → places a s' ≡ places a s
      go none z = ground arith
      go (some l) z = ground (
        arith,
        total-set (waiting a) s.locks m l (record { state = 0; wait = [] }) z,
        count-insert_all (comes_first s.threads 0) a l.wait s.run,
      )

  pub places-mutex_init : (a : ℕ) (s : System V) → places a (mutex_init s).1 ≡ places a s
  unfolding mutex_init
  places-mutex_init a s =
      ground (arith, total-append (waiting a) s.locks (record { state = 0; wait = [] } ∷ []))

  count-aged : (a : ℕ) (s : System V) → count a (aged s).run ≡ count a s.run
  count-aged a s = ground (arith, count-insert_all (comes_first s.threads 1) a s.run [])

module _ {V : Type 0} (virtual_memory : ℕ → V → V) where
  -- A tick of the scheduler, the ordering by age included.
  pub places-scheduler :
      (a : ℕ) (s s' : System V) → scheduler virtual_memory s ≡ some s' → places a s' ≡ places a s
  unfolding scheduler
  places-scheduler a s s' e = go (get_elem? s.threads s.running) refl
    where
      go : (o : Option Sthread) → get_elem? s.threads s.running ≡ o → places a s' ≡ places a s
      go none z = ground arith
      go (some th) z = by_run (aged s).run refl
        where
          by_run : (ws : List ℕ) → (aged s).run ≡ ws → places a s' ≡ places a s
          by_run [] w = ground (
            arith,
            w,
            z,
            count-aged a s,
            total-set (joining a) s.threads s.running th (raised th) z,
          )
          by_run (t ∷ rest) w = ground (
            arith,
            w,
            z,
            count-aged a s,
            total-set (joining a) s.threads s.running th (raised th) z,
            count-insert_ordered (comes_first (set s.threads s.running (raised th)) 0) a s.running
                rest,
          )

  -- A thread that has to wait for a mutex moves from the processor to its queue, and the first
  -- thread of the run queue to the processor.
  pub places-lock_wait :
      (m a : ℕ) (w : Bool) (s s' : System V)
      → lock_wait virtual_memory m s ≡ some (w, s')
      → places a s' ≡ places a s
  unfolding lock_wait
  places-lock_wait m a w s s' e = go (get_elem? s.locks m) refl
    where
      go : (o : Option Lock) → get_elem? s.locks m ≡ o → places a s' ≡ places a s
      go none z = ground arith
      go (some l) z = by_run s.run refl
        where
          by_run : (ws : List ℕ) → s.run ≡ ws → places a s' ≡ places a s
          by_run [] w = ground (arith, w, z)
          by_run (t ∷ rest) w = ground (
            arith,
            w,
            z,
            total-set (waiting a) s.locks m l (record l { wait = l.wait ++ s.running ∷ [] }) z,
            count-append a l.wait (s.running ∷ []),
          )
