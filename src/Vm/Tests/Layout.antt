-- ===== src/Vm/Tests/Layout.antt =====
-- `init` with pages of a million bytes, of which the memory and the swap array have room for two each.
use osdesign.Base.{◌≡◌, refl, inr, true, false, none, arith}
use osdesign.Base.Command.{ok, ◌>>◌}
use osdesign.Vm.Memory.{raw, Vm}
use osdesign.Vm.Boot.{init}
use osdesign.Vm.Alloc.{page_req, myallocate}
use osdesign.Vm.Alloc.Reserve.{prepared}
use osdesign.Vm.Alloc.First.{opened, first_page, init-myallocate}
use osdesign.Vm.Boot.Layout.{IsLaidOut, init-IsLaidOut}

abbrev unlaid : Vm
unlaid = record {
  slots = λ p. raw 0;
  mem = 0;
  shared_memory_start = 0;
  page_size = 0;
  swap = 64;
  move_swap = 20000000;
  file = none;
  writable = true;
  room = 4000000;
  guarded = λ p. false;
  in_handler = false;
}

init-IsLaidOut_example :
    (v' : Vm) × (init 5 5000000 1000000 unlaid ≡ ok tt v') × IsLaidOut unlaid v' 5000000 1000000 2 2
init-IsLaidOut_example =
    init-IsLaidOut 5 5000000 1000000 2 2 unlaid (omega arith) (omega arith) (omega arith)
      (omega arith) refl (omega arith)
      (omega arith, omega arith, (omega arith, omega arith, inr (omega arith)))
      (omega arith, omega arith, (omega arith, omega arith, inr (omega arith))) (omega arith)
      (omega arith) (omega arith)

init-myallocate_example :
    (w : Vm) × IsLaidOut unlaid w 5000000 1000000 2 2
    × ((init 5 5000000 1000000 >> myallocate 5 1 0 (page_req 1)) unlaid
        ≡ ok 5000000 (prepared 1 5000000 (first_page 1000000 1 5000000) (opened w)))
init-myallocate_example =
    init-myallocate 5 5000000 1000000 1 2 1 1 0 unlaid (omega arith) (omega arith) (omega arith)
      (omega arith) refl (omega arith)
      (omega arith, omega arith, (omega arith, omega arith, inr (omega arith)))
      (omega arith, omega arith, (omega arith, omega arith, inr (omega arith))) (omega arith)
      (omega arith) (omega arith)
