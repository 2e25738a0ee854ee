-- ===== src/Vm/Tests/Malloc.antt =====
-- A call of `malloc` by the thread 5, whose page holds a used element and a free one.
use osdesign.Base.{◌≡◌, refl, true, false, none, [], ◌∷◌, arith, ◌==◌, if◌then◌else◌}
use osdesign.Base.Command.{ok}
use osdesign.Vm.Memory.{SpaceNode, raw, header, put, Vm}
use osdesign.Vm.Space.{one_space}
use osdesign.Vm.Space.Carve.{carved}
use osdesign.Vm.Alloc.{thread_req, myallocate}
use osdesign.Vm.Alloc.Table.{marked}
use osdesign.Vm.Alloc.Handler.{in_memory}
use osdesign.Vm.Alloc.Malloc.{myallocate-carved}

abbrev own_page : SpaceNode
own_page = record (one_space 0 0) { pid = 5; free = 0; start = 3000000; size = 1000 }

abbrev in_use : SpaceNode
in_use = record (one_space 3000000 156) { free = 0; next = 3000156 }

abbrev available : SpaceNode
available = record (one_space 3000156 844) { prev = 3000000 }

abbrev one_page : Vm
one_page = record {
  slots = λ p.
      if p == 64
      then header own_page
      else if p == 3000000
      then header in_use
      else if p == 3000156
      then header available
      else raw p;
  mem = 64;
  shared_memory_start = 7000000;
  page_size = 1000;
  swap = 0;
  move_swap = 20000000;
  file = none;
  writable = true;
  room = 4000000;
  guarded = λ p. true;
  in_handler = false;
}

myallocate-carved_example :
    myallocate 3 5 40 thread_req one_page
    ≡ ok 3000212 (
        carved 3000156 available 40 (
          put 64
            (marked own_page 1 0)
            (record one_page { guarded = λ a. if in_memory one_page a then false else true })))
myallocate-carved_example =
    myallocate-carved 3 5 40 one_page [] 64 own_page ((3000000, in_use) ∷ []) [] 3000156 available
      (record {
        pages = (omega arith, refl, refl, tt);
        top = refl;
        found = refl;
        no_other = refl;
        elements = (omega arith, refl, refl, (omega arith, refl, refl, tt));
        starts = refl;
        above = (omega arith, (omega arith, tt));
        no_fit = (refl, tt);
        free = omega arith;
        enough = omega arith;
        small = omega arith;
        start_ne_null = omega arith;
      })
      (omega arith) (omega arith)
