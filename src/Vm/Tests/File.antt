-- ===== src/Vm/Tests/File.antt =====
-- A swap array of two pages, written and read into another array.
use osdesign.Base.{◌≡◌, refl, inr, true, false, none, [], ◌∷◌, arith, ◌==◌, if◌then◌else◌}
use osdesign.Base.Command.{ok}
use osdesign.Vm.Memory.{SpaceNode, raw, header, Vm}
use osdesign.Vm.Boot.{empty_page}
use osdesign.Vm.Swap.{write_swap, get_swap}
use osdesign.Vm.Swap.File.{written, IsMoved, write_swap-get_swap}

abbrev first_page : SpaceNode
first_page = record (empty_page 0 1200000) { pid = 7; free = 0; start = 1000064; next = 120 }

abbrev second_page : SpaceNode
second_page = record (empty_page 0 1200000) { start = 2200064; prev = 64 }

abbrev two_pages : Vm
two_pages = record {
  slots =
      λ a. if a == 64 then header first_page else (if a == 120 then header second_page else raw a);
  mem = 8000000;
  shared_memory_start = 9000000;
  page_size = 1200000;
  swap = 64;
  move_swap = 20000000;
  file = none;
  writable = true;
  room = 4000000;
  guarded = λ p. false;
  in_handler = false;
}

write_swap-get_swap_example :
    (v' : Vm) × (write_swap 64 two_pages ≡ ok 0 (written 64 two_pages))
    × (get_swap 3 20000000 (written 64 two_pages) ≡ ok 0 v')
    × IsMoved two_pages v' 64 20000000 (first_page ∷ second_page ∷ [])
write_swap-get_swap_example =
    write_swap-get_swap 3 64 20000000 (first_page ∷ second_page ∷ []) two_pages refl (omega arith)
      (omega arith) (refl, (refl, tt))
      (omega arith, omega arith, (omega arith, omega arith, inr (omega arith))) (omega arith)
