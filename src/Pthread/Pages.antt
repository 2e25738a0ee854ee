-- ===== src/Pthread/Pages.antt =====
-- The thread library over vm.c: what the pages of a thread are open to when it leaves the processor.
use osdesign.Base.{
  ℕ, ◌+◌, ◌%◌, ◌^◌, ◌<◌, ◌≡◌, refl, ap, ◌∙◌, true, some, List, ◌∷◌, arith, length, get_elem?, set,
}
use osdesign.Base.Command.{Run, ok, go_on, ◌>>◌}
use osdesign.LinkedList.Spec.{insert_ordered}
use osdesign.Vm.Memory.{Vm}
use osdesign.Vm.Space.{update_reference}
use osdesign.Vm.Space.Find.{Entry, first}
use osdesign.Vm.Alloc.{memory_protect}
use osdesign.Vm.Alloc.Table.{Table, update_reference-Table}
use osdesign.Vm.Alloc.Guard.{Owns, Guards, Guards-behind, memory_protect-Guards}
use osdesign.Pthread.{System, Sthread, aged, comes_first, raised, scheduler}

-- The memory of vm.c as the thread library passes it on: after a fault of vm.c there is none.
abbrev pub Memory : Type 0
Memory = Run Vm (Unit {0})

module _ (rounds : ℕ) where
  -- `virtualMemory` for `VIRTUAL_MEMORY` 1, where the thread `pid` runs
  unfoldable pub virtual_memory : ℕ → Memory → Memory
  virtual_memory pid m = go_on (λ done. update_reference rounds >> memory_protect rounds pid) m

  virtual_memory-Guards :
      (pid m : ℕ) (es : List Entry) (v : Vm)
      → Table v.slots es
      → v.mem ≡ first es
      → Owns es pid 1 m
      → length es < rounds
      → m < rounds
      → (v' : Vm) × (virtual_memory pid (ok tt v) ≡ ok tt v') × Guards true es pid 1 m v v'
  unfolding virtual_memory
  virtual_memory-Guards pid m es v t top owns enough fuel =
      let (w, runs, t', re) = update_reference-Table rounds es v t top enough in
      let top' : w.mem ≡ first es = ap (λ u. u.mem) re ∙ top in
      let (v', on, done) = memory_protect-Guards rounds pid m es w t' top' owns enough fuel in
      (v', rw runs on, Guards-behind true es pid 1 m v w v' re done)

  -- At a tick, where the queue, ordered by age into a cleared list if that is due, begins with `next`: if the memory has a
  -- table of pages, with more rounds than pages, of which the running thread has `m`, with the orders
  -- from 1 to `m`, then the tick returns, `next` runs, and the bytes of these pages are guarded; the
  -- other bytes keep their guard, and the table its pages, but for the marks of the swap strategies.
  pub scheduler-Guards :
      (s : System Memory) (th : Sthread) (next m : ℕ) (rest : List ℕ) (es : List Entry) (v : Vm)
      → get_elem? s.threads s.running ≡ some th
      → (150 < (s.n_schedulings + 1) % 2 ^ 32 → s.cleared ≡ true)
      → (aged s).run ≡ next ∷ rest
      → s.vm ≡ ok tt v
      → Table v.slots es
      → v.mem ≡ first es
      → Owns es th.id 1 m
      → length es < rounds
      → m < rounds
      → (s' : System Memory) × (scheduler virtual_memory s ≡ some s')
        × (s'.running ≡ next)
        × ((v' : Vm) × (s'.vm ≡ ok tt v') × Guards true es th.id 1 m v v')
  unfolding scheduler
  scheduler-Guards s th next m rest es v z clear w mem t top owns enough fuel =
      let (v', runs, done) = virtual_memory-Guards th.id m es v t top owns enough fuel in
      let ts = set s.threads s.running (raised th) in
      (
        record (aged s) {
          threads = ts;
          run = insert_ordered (comes_first ts 0) s.running rest;
          running = next;
          vm = virtual_memory th.id s.vm;
        },
        ground (arith, w, z, clear),
        refl,
        (v', ap (virtual_memory th.id) mem ∙ runs, done),
      )
