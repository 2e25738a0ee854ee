-- ===== src/Vm/Tests.antt =====
-- Runs of vm.c on a small memory, and its properties there.
mod File
mod Pages
mod Print
mod Handler
mod Malloc
mod Layout
mod Reserve
use osdesign.Base.{
  ℕ, ◌≡◌, refl, true, false, Option, none, some, [], ◌∷◌, arith, ◌==◌, if◌then◌else◌,
}
use osdesign.Base.Command.{Run, ok, pure, ◌>>=◌, ◌>>◌}
use osdesign.Vm.Memory.{Ptr, SpaceNode, raw, header, Vm, Cmd, load, store}
use osdesign.Vm.Space.{
  one_space, find_node, last_node, clear_references, get_last_page, update_reference,
  find_free_page, find_free_space, initialize_space, create_space, remove_page, remove_element,
}
use osdesign.Vm.Swap.Victim.{IsVictim, owners, victim_loop-IsVictim}
use osdesign.Vm.Swap.{
  fix_loop, fix_swap_ptrs, get_swap, write_swap, victim_loop, get_victim_page, free_swap_page,
  move_page_to_swap,
}
use osdesign.Vm.Pages.{
  restore_loop, restore_elements_pointers, swap_pages, find_page, get_free_page,
  get_contiguous_page, make_contiguous, load_loop, load_process_pages, last_process_loop,
  get_last_process_page, get_last_element,
}
use osdesign.Vm.Boot.{free_pages_loop, table_loop, initialize_free_pages, init}
use osdesign.Vm.Alloc.{
  page_req, thread_req, get_free_element_from, protect_loop, memory_protect, memory_allow,
  memory_allow_all, back_loop, join_free_space, reserve_another_page, element_loop, find_element,
  get_free_element, handler, myallocate, shalloc, mydeallocate,
}
use osdesign.Vm.Space.Free.{remove_element-create_space}

abbrev first_node : SpaceNode
first_node = record (one_space 64 100) { free = 0; next = 164 }

abbrev second_node : SpaceNode
second_node = record (one_space 164 1000) { prev = 64 }

-- Two spaces, at 64 and at 164, of which the second is free.
abbrev two_spaces : Vm
two_spaces = record {
  slots =
      λ p. if p == 64 then header first_node else (if p == 164 then header second_node else raw 0);
  mem = 64;
  shared_memory_start = 4096;
  page_size = 4096;
  swap = 0;
  move_swap = 20000000;
  file = none;
  writable = true;
  room = 4000000;
  guarded = λ p. false;
  in_handler = false;
}

-- Before `init`. The swap array stands behind the memory, and there is no swap file yet.
abbrev no_memory : Vm
no_memory = record {
  slots = λ p. raw 0;
  mem = 0;
  shared_memory_start = 0;
  page_size = 0;
  swap = 9000000;
  move_swap = 14000000;
  file = none;
  writable = true;
  room = 4000000;
  guarded = λ p. false;
  in_handler = false;
}

abbrev result_of : {A : Type 0} → Run Vm A → Option A
result_of (ok a v) = some a
result_of _ = none

-- With pages of 1 MiB: a page for the thread 1, two elements in it, and the first one again after
-- it was given back.
abbrev allocations : Cmd (Ptr × Ptr × Ptr)
allocations = do
  init 9 64 1048576
  page ← myallocate 9 1 0 (page_req 1)
  a ← myallocate 9 1 100 thread_req
  b ← myallocate 9 1 200 thread_req
  mydeallocate a thread_req
  c ← myallocate 9 1 50 thread_req
  pure (a, b, c)

allocations_lem : result_of (allocations no_memory) ≡ some (2097272, 2097428, 2097272)
unfolding load store find_node last_node clear_references get_last_page update_reference
    find_free_page find_free_space initialize_space create_space remove_page remove_element fix_loop
    fix_swap_ptrs get_swap write_swap victim_loop get_victim_page free_swap_page move_page_to_swap
    restore_loop restore_elements_pointers swap_pages find_page get_free_page get_contiguous_page
    make_contiguous load_loop load_process_pages last_process_loop get_last_process_page
    get_last_element free_pages_loop table_loop initialize_free_pages init get_free_element_from
    protect_loop memory_protect memory_allow memory_allow_all back_loop join_free_space
    reserve_another_page element_loop find_element get_free_element handler myallocate shalloc
    mydeallocate
allocations_lem = refl

-- The thread 2 gets a page, which takes the first place, and the thread 1 faults on its own data:
-- the handler swaps its page back, with the element and its value where they were.
abbrev faults : Cmd (ℕ × ℕ × ℕ)
faults = do
  init 9 64 1048576
  page ← myallocate 9 1 0 (page_req 1)
  a ← myallocate 9 1 100 thread_req
  store a (one_space 7 200)
  other ← myallocate 9 2 0 (page_req 2)
  memory_protect 9 2
  owner ← load 64
  handler 9 a 1
  memory_allow 9 1
  x ← load a
  back ← load 64
  pure (owner.pid, back.pid, x.size)

faults_lem : result_of (faults no_memory) ≡ some (2, 1, 144)
unfolding load store find_node last_node clear_references get_last_page update_reference
    find_free_page find_free_space initialize_space create_space remove_page remove_element fix_loop
    fix_swap_ptrs get_swap write_swap victim_loop get_victim_page free_swap_page move_page_to_swap
    restore_loop restore_elements_pointers swap_pages find_page get_free_page get_contiguous_page
    make_contiguous load_loop load_process_pages last_process_loop get_last_process_page
    get_last_element free_pages_loop table_loop initialize_free_pages init get_free_element_from
    protect_loop memory_protect memory_allow memory_allow_all back_loop join_free_space
    reserve_another_page element_loop find_element get_free_element handler myallocate shalloc
    mydeallocate
faults_lem = refl

-- Two pages of the thread 5, back to the first.
abbrev page_before : SpaceNode
page_before = record (one_space 64 100) { pid = 5; next = 164 }

abbrev page_last : SpaceNode
page_last = record (one_space 164 1000) { pid = 5; prev = 64 }

abbrev two_pages : Vm
two_pages = record two_spaces {
  slots =
      λ p. if p == 64 then header page_before else (if p == 164 then header page_last else raw 0);
}

victim_loop-IsVictim_example :
    IsVictim 5 ((164, 5) ∷ owners ((64, page_before) ∷ [])) (victim_loop 2 5 164 two_pages)
victim_loop-IsVictim_example =
    victim_loop-IsVictim ((64, page_before) ∷ []) 2 5 two_pages 164 page_last (omega arith) refl
      refl (omega arith) (omega arith, refl, refl, omega arith, refl, tt) (omega arith)

-- A free space of 944 bytes at 64.
abbrev lone_space : Vm
lone_space = record two_spaces {
  slots = λ p. if p == 64 then header (one_space 64 1000) else raw 0;
}

remove_element-create_space_example :
    (v1 : Vm) × (v2 : Vm) × (y : SpaceNode) × (create_space 64 500 lone_space ≡ ok 0 v1)
    × (remove_element 120 v1 ≡ ok tt v2)
    × (v2.slots 64 ≡ header y)
    × (y.prev ≡ 0)
    × (y.next ≡ 0)
    × (y.free ≡ 1)
    × (y.size ≡ 500)
remove_element-create_space_example =
    remove_element-create_space lone_space 64 (one_space 64 1000) 500
      (record {
        ne_null = omega arith;
        holds = refl;
        free = omega arith;
        enough = omega arith;
        small = omega arith;
        start_ne_null = omega arith;
      })
      refl refl refl (omega arith)
