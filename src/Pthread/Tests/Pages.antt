-- ===== src/Pthread/Tests/Pages.antt =====
-- A tick over a memory in which each of two threads has a page.
use osdesign.Base.{◌≡◌, refl, true, false, none, some, List, [], ◌∷◌, arith, ◌==◌, if◌then◌else◌}
use osdesign.Base.Command.{ok}
use osdesign.Vm.Memory.{SpaceNode, header, raw, Vm}
use osdesign.Vm.Space.{one_space}
use osdesign.Vm.Space.Find.{Entry}
use osdesign.Vm.Alloc.Guard.{Guards}
use osdesign.Pthread.{System, new_thread, scheduler}
use osdesign.Pthread.Pages.{Memory, virtual_memory, scheduler-Guards}

abbrev page_1 : SpaceNode
page_1 = record (one_space 0 0) { pid = 1; free = 0; start = 1000; size = 1000; next = 120 }

abbrev page_2 : SpaceNode
page_2 = record (one_space 0 0) { pid = 2; free = 0; start = 2000; size = 1000; prev = 64 }

abbrev two_pages : List Entry
two_pages = (64, page_1) ∷ (120, page_2) ∷ []

abbrev paged : Vm
paged = record {
  slots = λ p. if p == 64 then header page_1 else if p == 120 then header page_2 else raw p;
  mem = 64;
  shared_memory_start = 4096;
  page_size = 1000;
  swap = 0;
  move_swap = 20000000;
  file = none;
  writable = true;
  room = 4000000;
  guarded = λ p. false;
  in_handler = false;
}

-- The thread with the id 1 runs, and the thread with the id 2 is ready.
abbrev sharing : System Memory
sharing = record {
  threads = new_thread 1 100 0 0 ∷ new_thread 2 101 7 8 ∷ [];
  locks = [];
  run = 1 ∷ [];
  running = 0;
  n_schedulings = 10;
  next_id = 3;
  timer = 25000;
  stacks = λ p. 0;
  cleared = false;
  vm = ok tt paged;
}

scheduler-Guards_example :
    (s : System Memory) × (scheduler (virtual_memory 3) sharing ≡ some s)
    × (s.running ≡ 1)
    × ((v : Vm) × (s.vm ≡ ok tt v) × Guards true two_pages 1 1 1 paged v)
scheduler-Guards_example =
    scheduler-Guards 3 sharing (new_thread 1 100 0 0) 1 1 [] two_pages paged refl
      (λ late. absurd (omega (arith, late))) refl refl
      (omega arith, (0, 0, refl), refl, (omega arith, (0, 0, refl), refl, tt)) refl
      (((64, page_1), refl), refl) (omega arith) (omega arith)
