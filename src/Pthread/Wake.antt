-- ===== src/Pthread/Wake.antt =====
-- The end of a thread, and the threads that wait for it.
use osdesign.Base.{
  ℕ, ◌+◌, ◌≤◌, ◌≡◌, refl, ap, ◌∙◌, sym, true, Option, none, some, List, [], ◌∷◌, arith, ◌==◌,
  if◌then◌else◌, count, get_elem?, set, get_elem?-set, lt-length_of_get_elem?,
}
use osdesign.LinkedList.Spec.{insert_all, count-insert_all}
use osdesign.Pthread.{Sthread, System, comes_first, ended, pushed, thread_exit}

module _ {V : Type 0} (virtual_memory : ℕ → V → V) where
  -- How often the thread `a` runs or is ready.
  abbrev pub ready : ℕ → System V → ℕ
  ready a s = (if s.running == a then 1 else 0) + count a s.run

  -- What a thread that ends leaves: its place in the table says that it has finished, where its
  -- result stands, if it has one, and that nobody waits for it, and the processor has gone to the
  -- first of the threads that waited for it or were ready.
  abbrev pub Woken : ℕ → Option ℕ → Sthread → List ℕ → System V → System V → Type 0
  Woken param res th ws s s' =
      (get_elem? s'.threads s.running
        ≡ some (record th {
          finished = true;
          res = elim res [ none ↦ th.res | some v ↦ some param ];
          wait_join = some [];
        }))
      × (s'.stacks param ≡ elim res [ none ↦ 0 | some v ↦ v ])
      × ((a : ℕ) → ready a s' ≡ count a ws + count a s.run)

  pub thread_exit-Woken :
      (param : ℕ) (res : Option ℕ) (s : System V) (th : Sthread) (ws : List ℕ) (b : ℕ)
      → get_elem? s.threads s.running ≡ some th
      → th.wait_join ≡ some ws
      → 1 ≤ count b ws + count b s.run
      → (s' : System V) × (thread_exit virtual_memory param res s ≡ some s')
        × Woken param res th ws s s'
  unfolding thread_exit
  thread_exit-Woken param res s th ws b z w some' =
      by_queue (insert_all (comes_first ts 0) ws s.run) refl
    where
      ts : List Sthread
      ts = set s.threads s.running (ended param res th)

      table : get_elem? ts s.running ≡ some (ended param res th)
      table = ground (
        arith,
        get_elem?-set s.threads s.running s.running (ended param res th),
        lt-length_of_get_elem? s.threads s.running th z,
      )

      stands : (o : Option ℕ) → pushed param o s.stacks param ≡ elim o [ none ↦ 0 | some v ↦ v ]
      stands none = ground arith
      stands (some v) = ground arith

      by_queue :
          (q : List ℕ)
          → insert_all (comes_first ts 0) ws s.run ≡ q
          → (s' : System V) × (thread_exit virtual_memory param res s ≡ some s')
            × Woken param res th ws s s'
      by_queue [] e =
          absurd
            (omega (arith, some', count-insert_all (comes_first ts 0) b ws s.run, ap (count b) e))
      by_queue (t ∷ rest) e = (
        record s {
          threads = ts;
          run = rest;
          running = t;
          timer = 25000;
          stacks = pushed param res s.stacks;
          vm = virtual_memory th.id s.vm;
        },
        rw (z, w, e) refl,
        (
          table,
          stands res,
          λ a. ap (count a) (sym e) ∙ count-insert_all (comes_first ts 0) a ws s.run,
        ),
      )
