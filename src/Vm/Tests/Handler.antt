-- ===== src/Vm/Tests/Handler.antt =====
-- A fault of the thread 6, whose page is the second of two.
use osdesign.Base.{◌≡◌, refl, inl, true, false, none, [], ◌∷◌, arith, ◌==◌, if◌then◌else◌}
use osdesign.Base.Command.{ok}
use osdesign.Vm.Memory.{SpaceNode, raw, header, Vm}
use osdesign.Vm.Space.{one_space}
use osdesign.Vm.Alloc.{handler}
use osdesign.Vm.Alloc.Handler.{Served, handler-Served}

-- Two used pages of 1000 bytes with one element each, described by the entries at 64 and 120.
abbrev page_a : SpaceNode
page_a = record (one_space 0 0) { pid = 5; free = 0; start = 3000000; size = 1000; next = 120 }

abbrev page_b : SpaceNode
page_b = record (one_space 0 0) { pid = 6; free = 0; start = 3001000; size = 1000; prev = 64 }

abbrev element_a : SpaceNode
element_a = one_space 3000000 1000

abbrev element_b : SpaceNode
element_b = record (one_space 3001000 1000) { free = 0 }

abbrev two_pages : Vm
two_pages = record {
  slots = λ p.
      if p == 64
      then header page_a
      else if p == 120
      then header page_b
      else if p == 3000000
      then header element_a
      else if p == 3001000
      then header element_b
      else raw p;
  mem = 64;
  shared_memory_start = 7000000;
  page_size = 1000;
  swap = 0;
  move_swap = 20000000;
  file = none;
  writable = true;
  room = 4000000;
  guarded = λ p. true;
  in_handler = false;
}

handler-Served_example :
    (v' : Vm) × (handler 3 3000010 6 two_pages ≡ ok tt v')
    × Served two_pages v' 64 120 page_a page_b element_a element_b [] []
handler-Served_example =
    handler-Served 3 6 3000010 two_pages ((120, page_b) ∷ []) 64 120 page_a page_b element_a
      element_b [] []
      (record {
        nodes = (omega arith, refl, refl, (omega arith, refl, refl, tt));
        top = refl;
        found = refl;
        no_other = refl;
        below1 = (omega arith, (omega arith, tt));
        below2 = (omega arith, (omega arith, tt));
      })
      (record {
        ne_null1 = omega arith;
        ne_null2 = omega arith;
        apart = omega arith;
        holds1 = refl;
        holds2 = refl;
        size1 = omega arith;
        size2 = omega arith;
        below11 = omega arith;
        below12 = omega arith;
        below21 = omega arith;
        below22 = omega arith;
        disjoint = inl (omega arith);
        tiled1 = (omega arith, omega arith, refl, omega arith);
        tiled2 = (omega arith, omega arith, refl, omega arith);
      })
      (omega arith) (omega arith) (omega arith) refl (omega arith) (omega arith)
