-- ===== src/Pthread/Mutex/Race.antt =====
-- A tick between the read and the write of `testAndSet` in my_pthread.c.
use osdesign.Base.{
  ℕ, ◌≡◌, refl, sym, ap, ◌∙◌, Option, none, some, arith, get_elem?, set, get_elem?-set,
  lt-length_of_get_elem?,
}
use osdesign.Pthread.{Lock, System, read_lock, take_lock, test_and_set, scheduler}
use osdesign.Pthread.Mutex.State.{lock_state, state_of, test_and_set-state, scheduler-locks}

module _ {V : Type 0} (virtual_memory : ℕ → V → V) where
  read_lock-state : (m b : ℕ) (s : System V) → read_lock m s ≡ some b → state_of m s ≡ some b
  read_lock-state m b s e = go (get_elem? s.locks m) refl
    where
      go : (o : Option Lock) → get_elem? s.locks m ≡ o → state_of m s ≡ some b
      go none z = ground arith
      go (some l) z = ground (arith, z)

  take_lock-runs :
      (m b : ℕ) (s : System V)
      → state_of m s ≡ some b
      → (s' : System V) × (take_lock m s ≡ some s') × (state_of m s' ≡ some 1)
  take_lock-runs m b s e = go (get_elem? s.locks m) refl
    where
      go :
          (o : Option Lock)
          → get_elem? s.locks m ≡ o
          → (s' : System V) × (take_lock m s ≡ some s') × (state_of m s' ≡ some 1)
      go none z = ground arith
      go (some l) z =
          let l' = record l { state = 1 } in
          (
            record s { locks = set s.locks m l' },
            rw z refl,
            ground (arith, z, get_elem?-set s.locks m m l', lt-length_of_get_elem? s.locks m l z),
          )

  -- If a thread reads a mutex as free in a test, a tick comes before its write, another thread tests
  -- the mutex, and a second tick comes, then the test of the other thread returns 0 too, and the
  -- write of the first one, which then also returns 0, goes through on the taken mutex.
  pub test_and_set-races :
      (m c : ℕ) (s s1 s2 s3 : System V)
      → read_lock m s ≡ some 0
      → scheduler virtual_memory s ≡ some s1
      → test_and_set m s1 ≡ some (c, s2)
      → scheduler virtual_memory s2 ≡ some s3
      → (c ≡ 0)
        × (state_of m s3 ≡ some 1)
        × ((s4 : System V) × (take_lock m s3 ≡ some s4) × (state_of m s4 ≡ some 1))
  test_and_set-races m c s s1 s2 s3 reads tick tests tick' =
      let (before, after) = test_and_set-state m c s1 s2 tests in
      let free : state_of m s1 ≡ some 0 =
        ap (λ ls. lock_state ls m) (scheduler-locks virtual_memory s s1 tick)
        ∙ read_lock-state m 0 s reads in
      let taken : state_of m s3 ≡ some 1 =
        ap (λ ls. lock_state ls m) (scheduler-locks virtual_memory s2 s3 tick') ∙ after in
      (same (sym before ∙ free), taken, take_lock-runs m 1 s3 taken)
    where
      same : {a b : ℕ} → some a ≡ some b → a ≡ b
      same q = cc q
