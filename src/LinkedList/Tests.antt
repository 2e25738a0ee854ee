-- ===== src/LinkedList/Tests.antt =====
-- Runs of the list, and each property at a list of two threads.
use osdesign.Base.{ℕ, ◌≡◌, refl, none, List, [], ◌∷◌, arith, leb}
use osdesign.LinkedList.Memory.{null, node, Heap, ok, fault, update}
use osdesign.LinkedList.Spec.{insert_ordered, insert_all}
use osdesign.LinkedList.Chain.{Cell}
use osdesign.LinkedList.{
  LinkedList, linked_list, Blocks, push, push_ordered, pop, front, order_by_oldest,
}
use osdesign.LinkedList.Queue.{
  IsList, IsFresh, new_cell, cell_before, Inserted, push-Inserted, push_ordered-Inserted, pop-cons,
  pop-nil,
}
use osdesign.LinkedList.Oldest.{
  AllFresh, older, Ordered, order_by_oldest-Ordered, order_by_oldest-garbage,
}

abbrev cells : List Cell
cells = record { at = 10; slot = 11; thread = 5 } ∷ record { at = 20; slot = 21; thread = 7 } ∷ []

abbrev no_nodes : Heap
no_nodes = record { nodes = λ a. none; threads = λ a. none }

-- thread 6 waits in a cell of its own
abbrev heap : Heap
heap = record {
  nodes = update (update (λ a. none) 10 (node 11 20)) 20 (node 21 null);
  threads = update (update (update (λ a. none) 11 5) 21 7) 30 6;
}

abbrev list : LinkedList
list = linked_list 20 10 2

abbrev blocks : Blocks
blocks = (40, 41)

-- a thread's number is its priority and its time of creation
abbrev number : ℕ → ℕ
number t = t

list-IsList : IsList heap list cells
list-IsList = record { head = refl; tail = refl; nitems = refl; chain = ground arith }

blocks-IsFresh : IsFresh heap blocks
blocks-IsFresh = ground arith

push-Inserted_example : Inserted heap cells blocks (push blocks list 30) (
    record { at = 10; slot = 11; thread = 5 }
    ∷ record { at = 20; slot = 21; thread = 7 }
    ∷ new_cell blocks 6
    ∷ [])
push-Inserted_example =
    push-Inserted heap list blocks 30 6 blocks-IsFresh (omega arith) refl cells list-IsList

push_ordered-Inserted_example :
    Inserted heap cells blocks
      (push_ordered number number 3 blocks 0 list 30)
      (insert_ordered (cell_before number number 0) (new_cell blocks 6) cells)
push_ordered-Inserted_example =
    push_ordered-Inserted heap list blocks 30 6 blocks-IsFresh (omega arith) refl number number 0 3
      cells list-IsList (omega arith)

pop-cons_example :
    (l' : LinkedList) × (pop list heap ≡ ok (11, l') heap)
    × IsList heap l' (record { at = 20; slot = 21; thread = 7 } ∷ [])
pop-cons_example =
    pop-cons heap list (record { at = 10; slot = 11; thread = 5 })
      (record { at = 20; slot = 21; thread = 7 } ∷ []) list-IsList

pop-nil_example :
    (pop (linked_list null null 0) no_nodes ≡ fault)
    × (front (linked_list null null 0) no_nodes ≡ fault)
pop-nil_example =
    pop-nil no_nodes (linked_list null null 0)
      (record { head = refl; tail = refl; nitems = refl; chain = tt })

more : List Blocks
more = (40, 41) ∷ (50, 51) ∷ []

more-AllFresh : AllFresh heap more
unfolding more
more-AllFresh = (ground arith, refl, refl, (ground arith, refl, refl, tt))

order_by_oldest-Ordered_example :
    Ordered number number 3 heap
      (insert_all (older number number 3) (5 ∷ 7 ∷ []) [])
      (order_by_oldest number number 3 more (linked_list null null 0) list)
unfolding more
order_by_oldest-Ordered_example =
    order_by_oldest-Ordered number number 3 more cells heap list list-IsList more-AllFresh
      (omega arith) (omega arith)

order_by_oldest-garbage_example :
    order_by_oldest number number 3 (blocks ∷ []) (linked_list 99 99 0) list heap ≡ fault
order_by_oldest-garbage_example =
    order_by_oldest-garbage number number 3 blocks [] (record { at = 10; slot = 11; thread = 5 })
      (record { at = 20; slot = 21; thread = 7 } ∷ []) heap (linked_list 99 99 0) list list-IsList
      blocks-IsFresh (omega arith) (omega arith) (omega arith) refl (omega arith)

-- A thread of higher priority than the head's goes second.
push_ordered_behind_head : insert_ordered leb 3 (5 ∷ 7 ∷ []) ≡ 5 ∷ 3 ∷ 7 ∷ []
unfolding insert_ordered
push_ordered_behind_head = refl
