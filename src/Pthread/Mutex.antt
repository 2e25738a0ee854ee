-- ===== src/Pthread/Mutex.antt =====
-- Mutual exclusion. The code keeps no owner of a mutex, so a history carries one beside the state:
-- the thread whose test was the last to win, until it unlocks.
pub mod State
pub mod Race
use osdesign.Base.{ℕ, ◌≡◌, refl, ap, sym, ◌∙◌, ◌≢◌, Option, none, some, arith}
use osdesign.Pthread.{System, test_and_set, mutex_unlock}
use osdesign.Pthread.Places.History.{
  Step, ticks, yields, exits, creates, joins, inits, tests, waits, unlocks, destroys, takes, writes,
}
use State.{
  lock_state, state_of, test_and_set-state, test_and_set-other, take_lock-other, mutex_unlock-other,
  mutex_destroy-other, mutex_init-other, lock_wait-state, scheduler-locks, yield_cpu-locks,
  thread_exit-locks, join_wait-locks, create-locks,
}

module _ {V : Type 0} (virtual_memory reserve : ℕ → V → V) (m : ℕ) where
  -- Not a test, a late write of one, an unlock or a destruction of the mutex `m`.
  abbrev pub Elsewhere : {s s' : System V} → Step virtual_memory reserve s s' → Type 0
  Elsewhere (ticks e) = Unit {0}
  Elsewhere (tests n b e) = n ≢ m
  Elsewhere (unlocks n e) = n ≢ m
  Elsewhere (destroys n e) = n ≢ m
  Elsewhere (takes n e) = n ≢ m
  Elsewhere _ = Unit {0}

  -- A step with the owner of `m`: a test that wins makes the running thread the owner, and only the
  -- owner unlocks.
  pub data Turn (s : System V) (owner : Option ℕ) (s' : System V) : Option ℕ → Type 0 where
    wins : (b : ℕ) → test_and_set m s ≡ some (b, s') → b ≢ 1 → Turn s owner s' (some s.running)
    loses : test_and_set m s ≡ some (1, s') → Turn s owner s' owner
    releases : owner ≡ some s.running → mutex_unlock m s ≡ some s' → Turn s owner s' none
    elsewhere : (st : Step virtual_memory reserve s s') → Elsewhere st → Turn s owner s' owner

  pub data History (s : System V) (owner : Option ℕ) : System V → Option ℕ → Type 0 where
    start : History s owner s owner
    step :
        {t u : System V} {o p : Option ℕ} → History s owner t o → Turn t o u p → History s owner u p

  -- An owned mutex is taken.
  abbrev pub IsOwned : System V → Option ℕ → Type 0
  IsOwned s owner = (t : ℕ) → owner ≡ some t → state_of m s ≡ some 1

  by_locks : (s s' : System V) → s'.locks ≡ s.locks → state_of m s ≡ some 1 → state_of m s' ≡ some 1
  by_locks s s' e h = ap (λ ls. lock_state ls m) e ∙ h

  Step-state :
      {s s' : System V} (st : Step virtual_memory reserve s s')
      → Elsewhere st
      → state_of m s ≡ some 1
      → state_of m s' ≡ some 1
  Step-state {s} {s'} (ticks e) ok = by_locks s s' (scheduler-locks virtual_memory s s' e)
  Step-state {s} {s'} (yields e) ok = by_locks s s' (yield_cpu-locks virtual_memory s s' e)
  Step-state {s} {s'} (exits p r e) ok = by_locks s s' (thread_exit-locks virtual_memory p r s s' e)
  Step-state {s} {s'} (creates n f a e) ok =
      by_locks s s' (ap (λ x. x.locks) (sym e) ∙ create-locks reserve n f a s)
  Step-state {s} {s'} (joins t w e ne) ok =
      by_locks s s' (join_wait-locks virtual_memory t w s s' e)
  Step-state {s} {s'} (inits e) ok = λ h. ap (state_of m) (sym e) ∙ mutex_init-other m 1 s h
  Step-state {s} {s'} (tests n b e) ok = λ h. test_and_set-other n m b s s' e ok ∙ h
  Step-state {s} {s'} (waits n w e) ok = λ h. lock_wait-state virtual_memory n m w s s' e ∙ h
  Step-state {s} {s'} (unlocks n e) ok = λ h. mutex_unlock-other n m s s' e ok ∙ h
  Step-state {s} {s'} (destroys n e) ok = λ h. mutex_destroy-other n m s s' e ok ∙ h
  Step-state {s} {s'} (takes n e) ok = λ h. take_lock-other n m s s' e ok ∙ h
  Step-state {s} {s'} (writes f c e) ok = by_locks s s' (ap (λ x. x.locks) (sym e))

  Turn-IsOwned : {s s' : System V} {o p : Option ℕ} → Turn s o s' p → IsOwned s o → IsOwned s' p
  Turn-IsOwned {s} {s'} (wins b e ne) h = λ t q. (test_and_set-state m b s s' e).1
  Turn-IsOwned {s} {s'} (loses e) h = λ t q. (test_and_set-state m 1 s s' e).1
  Turn-IsOwned (releases own e) h = λ t q. ground arith
  Turn-IsOwned (elsewhere st ok) h = λ t q. Step-state st ok (h t q)

  History-IsOwned :
      {s : System V} {o : Option ℕ} {t : System V} {p : Option ℕ}
      → IsOwned s o
      → History s o t p
      → IsOwned t p
  History-IsOwned h start = h
  History-IsOwned h (step hist turn) = Turn-IsOwned turn (History-IsOwned h hist)

  -- Whatever the interleaving of ticks and calls, joins with an empty run queue apart, in which no
  -- tick comes between the read and the write of a test of the mutex: while the mutex has an owner
  -- that has not unlocked it, every test of it returns 1. The history starts with nobody owning the
  -- mutex, only the owner unlocks it and nobody destroys it.
  pub mutual_exclusion :
      (s t u : System V) (owner b : ℕ)
      → History s none t (some owner)
      → test_and_set m t ≡ some (b, u)
      → b ≡ 1
  mutual_exclusion s t u owner b hist e =
      some_one (
        sym (test_and_set-state m b t u e).0
        ∙ History-IsOwned (λ x q. ground arith) hist owner refl)
    where
      some_one : {c : ℕ} → some c ≡ some 1 → c ≡ 1
      some_one q = cc q
