-- ===== src/Pthread/Places/History.antt =====
-- Any interleaving of the calls and of the timer's ticks: a thread has one place at most.
use mathlib.Core.Path.{subst}
use osdesign.Base.{ℕ, ◌≤◌, ◌≡◌, ◌≢◌, inl, inr, Bool, true, Option, some, [], arith, length}
use osdesign.Pthread.{
  System, take_lock, test_and_set, mutex_init, mutex_unlock, mutex_destroy, create, thread_exit,
  scheduler, yield_cpu, join_wait, lock_wait,
}
use osdesign.Pthread.Places.{
  places, places-take_lock, places-test_and_set, places-mutex_init, places-mutex_unlock,
  places-mutex_destroy, places-scheduler, places-lock_wait,
}
use osdesign.Pthread.Places.Threads.{
  places-join_wait, places-thread_exit, places-yield_cpu, places-create,
}
use osdesign.Pthread.Places.Table.{
  length-scheduler, length-yield_cpu, length-thread_exit, length-join_wait, length-lock_wait,
  length-take_lock, length-test_and_set, length-mutex_unlock, length-mutex_destroy, length-create,
  length-mutex_init,
}

module _ {V : Type 0} (virtual_memory reserve : ℕ → V → V) where
  -- A call of the running thread, up to its next switch, or a tick; `takes` is the write of a test
  -- whose read came before a tick, and `writes` what the code around the library does to the stacks
  -- and to the bytes that malloc has. A join with an empty run queue is left out: it gives the
  -- library's data back.
  pub data Step (s s' : System V) : Type 0 where
    ticks : scheduler virtual_memory s ≡ some s' → Step s s'
    yields : yield_cpu virtual_memory s ≡ some s' → Step s s'
    exits :
        (param : ℕ) (res : Option ℕ) → thread_exit virtual_memory param res s ≡ some s' → Step s s'
    creates : (now function arg : ℕ) → (create reserve true now function arg s).1 ≡ s' → Step s s'
    joins :
        (t : ℕ) (w : Bool) → join_wait virtual_memory t s ≡ some (w, s') → s.run ≢ [] → Step s s'
    inits : (mutex_init s).1 ≡ s' → Step s s'
    tests : (m b : ℕ) → test_and_set m s ≡ some (b, s') → Step s s'
    waits : (m : ℕ) (w : Bool) → lock_wait virtual_memory m s ≡ some (w, s') → Step s s'
    unlocks : (m : ℕ) → mutex_unlock m s ≡ some s' → Step s s'
    destroys : (m : ℕ) → mutex_destroy m s ≡ some s' → Step s s'
    takes : (m : ℕ) → take_lock m s ≡ some s' → Step s s'
    writes :
        (stacks : ℕ → ℕ) (cleared : Bool)
        → record s { stacks = stacks; cleared = cleared } ≡ s'
        → Step s s'

  pub data Reach (s : System V) : System V → Type 0 where
    here : Reach s s
    next : {t u : System V} → Reach s t → Step t u → Reach s u

  -- Each thread has one place at most, and only threads of the table have one.
  pub record IsPlaced (s : System V) : Type 0 where
    pub once : (a : ℕ) → places a s ≤ 1
    pub known : (a : ℕ) → length s.threads ≤ a → places a s ≡ 0

  -- A step that makes no thread.
  record Moves (s s' : System V) : Type 0 where
    table : length s'.threads ≡ length s.threads
    fewer : (a : ℕ) → places a s' ≤ places a s

  Moves-IsPlaced : {s s' : System V} → Moves s s' → IsPlaced s → IsPlaced s'
  Moves-IsPlaced mv p = record {
    once = λ a. omega (arith, mv.fewer a, p.once a);
    known = λ a k. omega (arith, mv.fewer a, p.known a (omega (arith, mv.table)));
  }

  kept :
      {s s' : System V}
      → length s'.threads ≡ length s.threads
      → ((a : ℕ) → places a s' ≡ places a s)
      → IsPlaced s
      → IsPlaced s'
  kept table same = Moves-IsPlaced (record { table = table; fewer = λ a. omega (arith, same a) })

  exit-le :
      (param : ℕ) (res : Option ℕ) (a : ℕ) (s s' : System V)
      → thread_exit virtual_memory param res s ≡ some s'
      → places a s' ≤ places a s
  exit-le param res a s s' e = elim (places-thread_exit virtual_memory param res a s s' e) [
    | inl gone ↦ omega (arith, gone)
    | inr (_, _, same) ↦ omega (arith, same)
  ]

  create-IsPlaced :
      (now function arg : ℕ) (s : System V)
      → IsPlaced s
      → IsPlaced (create reserve true now function arg s).1
  create-IsPlaced now function arg s p = record { once = once_more; known = λ a k. none_yet a k }
    where
      once_more : (a : ℕ) → places a (create reserve true now function arg s).1 ≤ 1
      once_more a = ground (arith, places-create reserve a now function arg s, p.once a, p.known a)

      none_yet :
          (a : ℕ)
          → length (create reserve true now function arg s).1.threads ≤ a
          → places a (create reserve true now function arg s).1 ≡ 0
      none_yet a k = ground (
        arith,
        places-create reserve a now function arg s,
        length-create reserve now function arg s,
        p.known a,
      )

  pub Step-IsPlaced : {s s' : System V} → Step s s' → IsPlaced s → IsPlaced s'
  Step-IsPlaced {s} {s'} (ticks e) =
      kept (length-scheduler virtual_memory s s' e) (λ a. places-scheduler virtual_memory a s s' e)
  Step-IsPlaced {s} {s'} (yields e) =
      kept (length-yield_cpu virtual_memory s s' e) (λ a. places-yield_cpu virtual_memory a s s' e)
  Step-IsPlaced {s} {s'} (exits param res e) = Moves-IsPlaced (record {
    table = length-thread_exit virtual_memory param res s s' e;
    fewer = λ a. exit-le param res a s s' e;
  })
  Step-IsPlaced {s} {s'} (creates now function arg e) =
      λ p. subst IsPlaced e (create-IsPlaced now function arg s p)
  Step-IsPlaced {s} {s'} (joins t w e ne) =
      kept (length-join_wait virtual_memory t w s s' e)
        (λ a. places-join_wait virtual_memory t a w s s' e ne)
  Step-IsPlaced {s} {s'} (inits e) =
      λ p. subst IsPlaced e (kept (length-mutex_init s) (λ a. places-mutex_init a s) p)
  Step-IsPlaced {s} {s'} (tests m b e) =
      kept (length-test_and_set m b s s' e) (λ a. places-test_and_set m a s s' b e)
  Step-IsPlaced {s} {s'} (waits m w e) =
      kept (length-lock_wait virtual_memory m w s s' e)
        (λ a. places-lock_wait virtual_memory m a w s s' e)
  Step-IsPlaced {s} {s'} (unlocks m e) =
      kept (length-mutex_unlock m s s' e) (λ a. places-mutex_unlock m a s s' e)
  Step-IsPlaced {s} {s'} (destroys m e) =
      kept (length-mutex_destroy m s s' e) (λ a. places-mutex_destroy m a s s' e)
  Step-IsPlaced {s} {s'} (takes m e) =
      kept (length-take_lock m s s' e) (λ a. places-take_lock m a s s' e)
  Step-IsPlaced {s} {s'} (writes stacks cleared e) =
      λ p. subst IsPlaced e (record { once = p.once; known = p.known })
