-- ===== src/Pthread/Mutex/State.antt =====
-- The field `state` of a mutex, and which calls leave it alone.
use osdesign.Base.{
  ℕ, zero, suc, ◌-◌, ◌≡◌, refl, ◌≢◌, Bool, true, Option, none, some, List, [], ◌∷◌, ◌++◌, arith,
  get_elem?, set, get_elem?-set, lt-length_of_get_elem?,
}
use osdesign.Pthread.{
  Sthread, Lock, System, aged, take_lock, test_and_set, mutex_init, mutex_unlock, mutex_destroy,
  create, thread_exit, scheduler, yield_cpu, join_wait, lock_wait,
}

abbrev pub lock_state : List Lock → ℕ → Option ℕ
lock_state ls m = elim (get_elem? ls m) [ none ↦ none | some l ↦ some l.state ]

abbrev pub state_of : {V : Type 0} → ℕ → System V → Option ℕ
state_of m s = lock_state s.locks m

lock_state-append :
    (xs ys : List Lock) (m b : ℕ) → lock_state xs m ≡ some b → lock_state (xs ++ ys) m ≡ some b
lock_state-append [] ys m b e = cc
lock_state-append (x ∷ xs) ys zero b e = e
lock_state-append (x ∷ xs) ys (suc m) b e = lock_state-append xs ys m b e

lock_state-set_ne :
    (ls : List Lock) (n m : ℕ) (l : Lock) → n ≢ m → lock_state (set ls n l) m ≡ lock_state ls m
lock_state-set_ne ls n m l ne = ground (arith, get_elem?-set ls n m l)

-- A write of a lock with the same state.
lock_state-set_same :
    (ls : List Lock) (n m : ℕ) (l l' : Lock)
    → get_elem? ls n ≡ some l
    → l'.state ≡ l.state
    → lock_state (set ls n l') m ≡ lock_state ls m
lock_state-set_same ls n m l l' z same =
    ground (arith, z, get_elem?-set ls n m l', lt-length_of_get_elem? ls n l z)

module _ {V : Type 0} where
  pub test_and_set-state :
      (m b : ℕ) (s s' : System V)
      → test_and_set m s ≡ some (b, s')
      → (state_of m s ≡ some b) × (state_of m s' ≡ some 1)
  unfolding test_and_set
  test_and_set-state m b s s' e = go (get_elem? s.locks m) refl
    where
      go :
          (o : Option Lock)
          → get_elem? s.locks m ≡ o
          → (state_of m s ≡ some b) × (state_of m s' ≡ some 1)
      go none z = ground arith
      go (some l) z = ground (
        arith,
        z,
        get_elem?-set s.locks m m (record l { state = 1 }),
        lt-length_of_get_elem? s.locks m l z,
      )

  -- The calls at another mutex.
  pub take_lock-other :
      (n m : ℕ) (s s' : System V) → take_lock n s ≡ some s' → n ≢ m → state_of m s' ≡ state_of m s
  take_lock-other n m s s' e ne = go (get_elem? s.locks n) refl
    where
      go : (o : Option Lock) → get_elem? s.locks n ≡ o → state_of m s' ≡ state_of m s
      go none z = ground arith
      go (some l) z = ground (arith, z, lock_state-set_ne s.locks n m (record l { state = 1 }) ne)

  pub test_and_set-other :
      (n m b : ℕ) (s s' : System V)
      → test_and_set n s ≡ some (b, s')
      → n ≢ m
      → state_of m s' ≡ state_of m s
  unfolding test_and_set
  test_and_set-other n m b s s' e ne = go (get_elem? s.locks n) refl
    where
      go : (o : Option Lock) → get_elem? s.locks n ≡ o → state_of m s' ≡ state_of m s
      go none z = ground arith
      go (some l) z = ground (arith, z, lock_state-set_ne s.locks n m (record l { state = 1 }) ne)

  pub mutex_unlock-other :
      (n m : ℕ) (s s' : System V)
      → mutex_unlock n s ≡ some s'
      → n ≢ m
      → state_of m s' ≡ state_of m s
  unfolding mutex_unlock
  mutex_unlock-other n m s s' e ne = go (get_elem? s.locks n) refl
    where
      go : (o : Option Lock) → get_elem? s.locks n ≡ o → state_of m s' ≡ state_of m s
      go none z = ground arith
      go (some l) z = by_wait l.wait refl
        where
          by_wait : (ws : List ℕ) → l.wait ≡ ws → state_of m s' ≡ state_of m s
          by_wait [] w =
              ground (arith, z, w, lock_state-set_ne s.locks n m (record l { state = 0 }) ne)
          by_wait (t ∷ rest) w =
              ground
                (arith, z, w, lock_state-set_ne s.locks n m (record { state = 0; wait = rest }) ne)

  pub mutex_destroy-other :
      (n m : ℕ) (s s' : System V)
      → mutex_destroy n s ≡ some s'
      → n ≢ m
      → state_of m s' ≡ state_of m s
  unfolding mutex_destroy
  mutex_destroy-other n m s s' e ne =
      ground (arith, lock_state-set_ne s.locks n m (record { state = 0; wait = [] }) ne)

  pub mutex_init-other :
      (m b : ℕ) (s : System V) → state_of m s ≡ some b → state_of m (mutex_init s).1 ≡ some b
  unfolding mutex_init
  mutex_init-other m b s e = lock_state-append s.locks (record { state = 0; wait = [] } ∷ []) m b e

module _ {V : Type 0} (virtual_memory : ℕ → V → V) where
  pub lock_wait-state :
      (n m : ℕ) (w : Bool) (s s' : System V)
      → lock_wait virtual_memory n s ≡ some (w, s')
      → state_of m s' ≡ state_of m s
  unfolding lock_wait
  lock_wait-state n m w s s' e = go (get_elem? s.locks n) refl
    where
      go : (o : Option Lock) → get_elem? s.locks n ≡ o → state_of m s' ≡ state_of m s
      go none z = ground arith
      go (some l) z =
          let waits' = record l { wait = l.wait ++ s.running ∷ [] } in
          ground (arith, z, lock_state-set_same s.locks n m l waits' z refl)

  pub scheduler-locks :
      (s s' : System V) → scheduler virtual_memory s ≡ some s' → s'.locks ≡ s.locks
  unfolding scheduler
  scheduler-locks s s' e = go (get_elem? s.threads s.running) refl
    where
      go : (o : Option Sthread) → get_elem? s.threads s.running ≡ o → s'.locks ≡ s.locks
      go none z = ground arith
      go (some th) z = by_run (aged s).run refl
        where
          by_run : (ws : List ℕ) → (aged s).run ≡ ws → s'.locks ≡ s.locks
          by_run [] w = ground (arith, w, z)
          by_run (t ∷ rest) w = ground (arith, w, z)

  pub yield_cpu-locks :
      (s s' : System V) → yield_cpu virtual_memory s ≡ some s' → s'.locks ≡ s.locks
  unfolding yield_cpu
  yield_cpu-locks s s' e = go (get_elem? s.threads s.running) refl
    where
      go : (o : Option Sthread) → get_elem? s.threads s.running ≡ o → s'.locks ≡ s.locks
      go none z = ground arith
      go (some th) z =
          let lower = record th { priority = th.priority - 1 } in
          ground (
            arith,
            z,
            scheduler-locks s s',
            scheduler-locks (record s { threads = set s.threads s.running lower }) s',
          )

  pub thread_exit-locks :
      (param : ℕ) (res : Option ℕ) (s s' : System V)
      → thread_exit virtual_memory param res s ≡ some s'
      → s'.locks ≡ s.locks
  unfolding thread_exit
  thread_exit-locks param res s s' e = ground arith

  pub join_wait-locks :
      (t : ℕ) (w : Bool) (s s' : System V)
      → join_wait virtual_memory t s ≡ some (w, s')
      → s'.locks ≡ s.locks
  unfolding join_wait
  join_wait-locks t w s s' e = ground arith

module _ {V : Type 0} (reserve : ℕ → V → V) where
  pub create-locks :
      (now function arg : ℕ) (s : System V)
      → (create reserve true now function arg s).1.locks ≡ s.locks
  unfolding create
  create-locks now function arg s = refl
