-- ===== src/Pthread/Places/Threads.antt =====
-- The calls that end a thread, wait for one or make one.
use osdesign.Base.{
  ℕ, ◌+◌, ◌-◌, ◌≡◌, refl, ◌≢◌, ◌⊎◌, Bool, true, Option, none, some, List, [], ◌∷◌, ◌++◌, arith,
  ◌==◌, if◌then◌else◌, length, get_elem?, set, total-set, total-append,
}
use osdesign.LinkedList.Spec.{insert_ordered, insert_all, count-insert_ordered, count-insert_all}
use osdesign.Pthread.{
  Sthread, System, comes_first, ended, new_thread, thread_exit, create, join_wait, yield_cpu,
}
use osdesign.Pthread.Places.{joining, places, places-scheduler}

module _ {V : Type 0} (virtual_memory : ℕ → V → V) where
  pub places-join_wait :
      (t a : ℕ) (w : Bool) (s s' : System V)
      → join_wait virtual_memory t s ≡ some (w, s')
      → s.run ≢ []
      → places a s' ≡ places a s
  unfolding join_wait
  places-join_wait t a w s s' e ne = go (get_elem? s.threads t) refl
    where
      go : (o : Option Sthread) → get_elem? s.threads t ≡ o → places a s' ≡ places a s
      go none z = ground arith
      go (some th) z = by_list th.wait_join refl s.run refl
        where
          by_list :
              (o : Option (List ℕ))
              → th.wait_join ≡ o
              → (ws : List ℕ) → s.run ≡ ws
              → places a s' ≡ places a s
          by_list o q [] w = absurd (ne w)
          by_list none q (r ∷ rest) w = ground (arith, z, q, w)
          by_list (some js) q (r ∷ rest) w = ground (
            arith,
            z,
            q,
            w,
            total-set (joining a) s.threads t th
                (record th {
                  wait_join = some (insert_ordered (comes_first s.threads 0) s.running js);
                })
                z,
            count-insert_ordered (comes_first s.threads 0) a s.running js,
          )

  -- A thread that ends leaves the processor to another one, and those that waited for its end go to
  -- the run queue; if there is no other, it stays.
  pub places-thread_exit :
      (param : ℕ) (res : Option ℕ) (a : ℕ) (s s' : System V)
      → thread_exit virtual_memory param res s ≡ some s'
      → (places a s' + (if s.running == a then 1 else 0) ≡ places a s)
        ⊎ ((s'.run ≡ []) × (s'.running ≡ s.running) × (places a s' ≡ places a s))
  unfolding thread_exit
  places-thread_exit param res a s s' e = go (get_elem? s.threads s.running) refl
    where
      Goal : Type 0
      Goal =
          (places a s' + (if s.running == a then 1 else 0) ≡ places a s)
          ⊎ ((s'.run ≡ []) × (s'.running ≡ s.running) × (places a s' ≡ places a s))

      go : (o : Option Sthread) → get_elem? s.threads s.running ≡ o → Goal
      go none z = ground arith
      go (some th) z = by_list th.wait_join refl
        where
          ts : List Sthread
          ts = set s.threads s.running (ended param res th)

          by_run :
              (js : List ℕ)
              → th.wait_join ≡ some js
              → (ws : List ℕ) → insert_all (comes_first ts 0) js s.run ≡ ws
              → Goal
          by_run js q [] w = ground (
            arith,
            z,
            q,
            w,
            total-set (joining a) s.threads s.running th (ended param res th) z,
            count-insert_all (comes_first ts 0) a js s.run,
          )
          by_run js q (t ∷ rest) w = ground (
            arith,
            z,
            q,
            w,
            total-set (joining a) s.threads s.running th (ended param res th) z,
            count-insert_all (comes_first ts 0) a js s.run,
          )

          by_list : (o : Option (List ℕ)) → th.wait_join ≡ o → Goal
          by_list none q = ground arith
          by_list (some js) q = by_run js q _ refl

  pub places-yield_cpu :
      (a : ℕ) (s s' : System V) → yield_cpu virtual_memory s ≡ some s' → places a s' ≡ places a s
  unfolding yield_cpu
  places-yield_cpu a s s' e = go (get_elem? s.threads s.running) refl
    where
      go : (o : Option Sthread) → get_elem? s.threads s.running ≡ o → places a s' ≡ places a s
      go none z = ground arith
      go (some th) z =
          let lower = record th { priority = th.priority - 1 } in
          ground (
            arith,
            z,
            places-scheduler virtual_memory a s s',
            places-scheduler virtual_memory a (record s { threads = set s.threads s.running lower })
                s',
            total-set (joining a) s.threads s.running th lower z,
          )

module _ {V : Type 0} (reserve : ℕ → V → V) where
  -- `my_pthread_create` puts the new thread in the run queue, and nothing else.
  pub places-create :
      (a now function arg : ℕ) (s : System V)
      → places a (create reserve true now function arg s).1
        ≡ places a s + (if length s.threads == a then 1 else 0)
  unfolding create
  places-create a now function arg s =
      let new = new_thread s.next_id now function arg in
      ground (
        arith,
        total-append (joining a) s.threads (new ∷ []),
        count-insert_ordered (comes_first (s.threads ++ new ∷ []) 0) a (length s.threads) s.run,
      )
