-- ===== src/Vm/Tests/Reserve.antt =====
-- A page for the new thread 7, in a memory of two pages, of which the second is free.
use osdesign.Base.{◌≡◌, refl, inl, true, false, none, [], arith, ◌==◌, if◌then◌else◌}
use osdesign.Base.Command.{ok}
use osdesign.Vm.Memory.{SpaceNode, raw, header, Vm}
use osdesign.Vm.Space.{one_space}
use osdesign.Vm.Pages.Exchange.Defs.{Exchanged}
use osdesign.Vm.Alloc.{page_req, myallocate}
use osdesign.Vm.Alloc.Handler.{in_memory}
use osdesign.Vm.Alloc.Reserve.{owned, prepared, myallocate-Exchanged}

abbrev page_a : SpaceNode
page_a = record (one_space 0 0) { pid = 5; free = 0; start = 3000000; size = 1000; next = 120 }

abbrev page_b : SpaceNode
page_b = record (one_space 0 0) { start = 3001000; size = 1000; prev = 64 }

abbrev element_a : SpaceNode
element_a = one_space 3000000 1000

abbrev half_used : Vm
half_used = record {
  slots = λ p.
      if p == 64
      then header page_a
      else if p == 120
      then header page_b
      else if p == 3000000
      then header element_a
      else raw p;
  mem = 64;
  shared_memory_start = 7000000;
  page_size = 1000;
  swap = 0;
  move_swap = 20000000;
  file = none;
  writable = true;
  room = 4000000;
  guarded = λ p. true;
  in_handler = false;
}

abbrev opened : Vm
opened = record half_used { guarded = λ a. if in_memory half_used a then false else true }

myallocate-Exchanged_example :
    (v' : Vm) × (myallocate 3 5 0 (page_req 7) half_used ≡ ok 64 v')
    × Exchanged
        (prepared 7 120 page_b opened)
        v'
        64
        120
        page_a
        (owned 7 page_b)
        element_a
        (one_space 3001000 1000)
        []
        []
myallocate-Exchanged_example =
    myallocate-Exchanged 3 5 7 0 half_used [] [] 64 120 page_a page_b element_a []
      (record {
        nodes = (omega arith, refl, refl, (omega arith, refl, refl, tt));
        top = refl;
        in_use = (refl, tt);
        free = omega arith;
        apart = omega arith;
        size1 = omega arith;
        size2 = omega arith;
        room = omega arith;
        small = omega arith;
        below11 = omega arith;
        below12 = omega arith;
        below21 = omega arith;
        below22 = omega arith;
        disjoint = inl (omega arith);
        tiled1 = (omega arith, omega arith, refl, omega arith);
      })
      (omega arith) (omega arith)
