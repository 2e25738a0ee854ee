-- ===== src/Pthread/Tests/Switch.antt =====
-- The switch on a heap with one queued thread.
use osdesign.Base.{◌≡◌, refl, none, List, [], ◌∷◌, arith}
use osdesign.LinkedList.Memory.{node, Heap, ok, update}
use osdesign.LinkedList.Spec.{insert_ordered}
use osdesign.LinkedList.Chain.{Cell}
use osdesign.LinkedList.{LinkedList, linked_list}
use osdesign.Pthread.{Sthread, comes_first, new_thread}
use osdesign.Pthread.Switch.{Holds, switch_threads, switch_threads-Holds}

abbrev two_threads : List Sthread
two_threads = new_thread 1 100 0 0 ∷ new_thread 2 101 7 8 ∷ []

abbrev queued : Cell
queued = record { at = 10; slot = 11; thread = 1 }

-- The thread 0 runs, in the cell 30.
abbrev heap : Heap
heap = record {
  nodes = update (λ a. none) 10 (node 11 0);
  threads = update (update (λ a. none) 11 1) 30 0;
}

heap-Holds : Holds heap (linked_list 10 10 1) 30 (queued ∷ []) (1 ∷ []) 0
heap-Holds = record {
  list = record { head = refl; tail = refl; nitems = refl; chain = ground arith };
  queue = refl;
  apart = (omega arith, tt);
  cell = refl;
  ne_null = omega arith;
}

switch_threads-Holds_example :
    (h' : Heap) × (run' : LinkedList) × (ds : List Cell) × (switch_threads two_threads 1
        (40, 41)
        (linked_list 10 10 1)
        30
        heap
      ≡ ok run' h')
    × Holds h' run' 30 ds (insert_ordered (comes_first two_threads 0) 0 []) 1
switch_threads-Holds_example =
    switch_threads-Holds two_threads 1 (40, 41) heap (linked_list 10 10 1) 30 queued [] 1 [] 0
      heap-Holds (ground arith) (omega arith)
