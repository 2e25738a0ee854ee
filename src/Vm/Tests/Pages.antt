-- ===== src/Vm/Tests/Pages.antt =====
-- Pages on a small memory.
use osdesign.Base.{◌≡◌, refl, inl, true, false, none, [], arith, ◌==◌, if◌then◌else◌}
use osdesign.Base.Command.{ok}
use osdesign.Vm.Memory.{SpaceNode, raw, header, Vm}
use osdesign.Vm.Space.{one_space}
use osdesign.Vm.Pages.{swap_pages}
use osdesign.Vm.Pages.Exchange.{swap_pages-Exchanged}
use osdesign.Vm.Pages.Exchange.Defs.{Exchanged}

abbrev pub no_pages : Vm
no_pages = record {
  slots = λ p. raw 0;
  mem = 64;
  shared_memory_start = 4096;
  page_size = 4096;
  swap = 0;
  move_swap = 20000000;
  file = none;
  writable = true;
  room = 4000000;
  guarded = λ p. false;
  in_handler = false;
}

-- Two used pages of 1000 bytes with one element each, described by the entries at 64 and 120.
abbrev pub page_a : SpaceNode
page_a = record (one_space 0 0) { pid = 5; free = 0; start = 1000; size = 1000; next = 120 }

abbrev pub page_b : SpaceNode
page_b = record (one_space 0 0) { pid = 6; free = 0; start = 2000; size = 1000; prev = 64 }

abbrev pub element_a : SpaceNode
element_a = one_space 1000 1000

abbrev pub element_b : SpaceNode
element_b = record (one_space 2000 1000) { free = 0 }

abbrev pub paged : Vm
paged = record no_pages {
  slots = λ p.
      if p == 64
      then header page_a
      else if p == 120
      then header page_b
      else if p == 1000
      then header element_a
      else if p == 2000
      then header element_b
      else raw p;
  page_size = 1000;
}

swap_pages-Exchanged_example :
    (v' : Vm) × (swap_pages 2 64 120 paged ≡ ok tt v')
    × Exchanged paged v' 64 120 page_a page_b element_a element_b [] []
swap_pages-Exchanged_example =
    swap_pages-Exchanged paged 64 120 page_a page_b element_a element_b [] []
      (record {
        ne_null1 = omega arith;
        ne_null2 = omega arith;
        apart = omega arith;
        holds1 = refl;
        holds2 = refl;
        size1 = omega arith;
        size2 = omega arith;
        below11 = omega arith;
        below12 = omega arith;
        below21 = omega arith;
        below22 = omega arith;
        disjoint = inl (omega arith);
        tiled1 = (omega arith, omega arith, refl, omega arith);
        tiled2 = (omega arith, omega arith, refl, omega arith);
      })
      2 (omega arith) (omega arith)
