-- ===== src/Pthread/Places/Table.antt =====
-- No call but `my_pthread_create` changes the number of threads in the table.
use osdesign.Base.{
  ℕ, ◌+◌, ◌-◌, ◌≡◌, refl, Bool, true, Option, none, some, List, [], ◌∷◌, arith, length,
  length-append, get_elem?, set, length-set,
}
use osdesign.LinkedList.Spec.{insert_ordered}
use osdesign.Pthread.{
  Sthread, Lock, System, comes_first, ended, raised, new_thread, aged, take_lock, test_and_set,
  mutex_init, mutex_unlock, mutex_destroy, create, thread_exit, scheduler, yield_cpu, join_wait,
  lock_wait,
}

module _ {V : Type 0} (virtual_memory : ℕ → V → V) where
  pub length-scheduler :
      (s s' : System V)
      → scheduler virtual_memory s ≡ some s'
      → length s'.threads ≡ length s.threads
  unfolding scheduler
  length-scheduler s s' e = go (get_elem? s.threads s.running) refl
    where
      go :
          (o : Option Sthread)
          → get_elem? s.threads s.running ≡ o
          → length s'.threads ≡ length s.threads
      go none z = ground arith
      go (some th) z = by_run (aged s).run refl
        where
          by_run : (ws : List ℕ) → (aged s).run ≡ ws → length s'.threads ≡ length s.threads
          by_run [] w = ground (arith, w, z, length-set s.threads s.running (raised th))
          by_run (t ∷ rest) w = ground (arith, w, z, length-set s.threads s.running (raised th))

  pub length-yield_cpu :
      (s s' : System V)
      → yield_cpu virtual_memory s ≡ some s'
      → length s'.threads ≡ length s.threads
  unfolding yield_cpu
  length-yield_cpu s s' e = go (get_elem? s.threads s.running) refl
    where
      go :
          (o : Option Sthread)
          → get_elem? s.threads s.running ≡ o
          → length s'.threads ≡ length s.threads
      go none z = ground arith
      go (some th) z =
          let lower = record th { priority = th.priority - 1 } in
          ground (
            arith,
            z,
            length-scheduler s s',
            length-scheduler (record s { threads = set s.threads s.running lower }) s',
            length-set s.threads s.running lower,
          )

  pub length-thread_exit :
      (param : ℕ) (res : Option ℕ) (s s' : System V)
      → thread_exit virtual_memory param res s ≡ some s'
      → length s'.threads ≡ length s.threads
  unfolding thread_exit
  length-thread_exit param res s s' e = go (get_elem? s.threads s.running) refl
    where
      go :
          (o : Option Sthread)
          → get_elem? s.threads s.running ≡ o
          → length s'.threads ≡ length s.threads
      go none z = ground arith
      go (some th) z = ground (arith, z, length-set s.threads s.running (ended param res th))

  -- `my_pthread_join` changes the table at one thread only.
  pub length-join_wait :
      (t : ℕ) (w : Bool) (s s' : System V)
      → join_wait virtual_memory t s ≡ some (w, s')
      → length s'.threads ≡ length s.threads
  unfolding join_wait
  length-join_wait t w s s' e = go (get_elem? s.threads t) refl
    where
      go : (o : Option Sthread) → get_elem? s.threads t ≡ o → length s'.threads ≡ length s.threads
      go none z = ground arith
      go (some th) z = by_list th.wait_join refl
        where
          by_list : (o : Option (List ℕ)) → th.wait_join ≡ o → length s'.threads ≡ length s.threads
          by_list none q = ground (arith, z, q)
          by_list (some js) q = ground (
            arith,
            z,
            q,
            length-set s.threads t (record th {
              wait_join = some (insert_ordered (comes_first s.threads 0) s.running js);
            }),
          )

  pub length-lock_wait :
      (m : ℕ) (w : Bool) (s s' : System V)
      → lock_wait virtual_memory m s ≡ some (w, s')
      → length s'.threads ≡ length s.threads
  unfolding lock_wait
  length-lock_wait m w s s' e = ground arith

module _ {V : Type 0} where
  pub length-take_lock :
      (m : ℕ) (s s' : System V) → take_lock m s ≡ some s' → length s'.threads ≡ length s.threads
  length-take_lock m s s' e = ground arith

  pub length-test_and_set :
      (m b : ℕ) (s s' : System V)
      → test_and_set m s ≡ some (b, s')
      → length s'.threads ≡ length s.threads
  unfolding test_and_set
  length-test_and_set m b s s' e = ground arith

  pub length-mutex_init : (s : System V) → length (mutex_init s).1.threads ≡ length s.threads
  unfolding mutex_init
  length-mutex_init s = refl

  pub length-mutex_unlock :
      (m : ℕ) (s s' : System V) → mutex_unlock m s ≡ some s' → length s'.threads ≡ length s.threads
  unfolding mutex_unlock
  length-mutex_unlock m s s' e = go (get_elem? s.locks m) refl
    where
      go : (o : Option Lock) → get_elem? s.locks m ≡ o → length s'.threads ≡ length s.threads
      go none z = ground arith
      go (some l) z = by_wait l.wait refl
        where
          by_wait : (ws : List ℕ) → l.wait ≡ ws → length s'.threads ≡ length s.threads
          by_wait [] w = ground (arith, z, w)
          by_wait (t ∷ rest) w = ground (arith, z, w)

  pub length-mutex_destroy :
      (m : ℕ) (s s' : System V) → mutex_destroy m s ≡ some s' → length s'.threads ≡ length s.threads
  unfolding mutex_destroy
  length-mutex_destroy m s s' e = ground arith

module _ {V : Type 0} (reserve : ℕ → V → V) where
  pub length-create :
      (now function arg : ℕ) (s : System V)
      → length (create reserve true now function arg s).1.threads ≡ length s.threads + 1
  unfolding create
  length-create now function arg s =
      omega (arith, length-append s.threads (new_thread s.next_id now function arg ∷ []))
