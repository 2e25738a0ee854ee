-- ===== src/Vm/Boot.antt =====
-- `init` of vm.c: the memory, its pages and the swap file as they are laid out at first.
pub mod Table
pub mod Shared
pub mod Layout
use osdesign.Base.{ℕ, zero, suc, ◌+◌, ◌-◌, ◌*◌, ◌%◌, ◌^◌, ◌&&◌, ltb, leb, if◌then◌else◌}
use osdesign.Base.Command.{ok, out_of_fuel, pure, ◌>>=◌, ◌>>◌}
use osdesign.Vm.Memory.{Ptr, null, SpaceNode, sizeof_node, Cmd, get, store}
use osdesign.Vm.Swap.{swap_size, swap_memory_start, link_old, write_swap}

abbrev pub physical_size : ℕ
physical_size = 8000000

abbrev pub osreserved_start : ℕ
osreserved_start = 1000000

abbrev pub memory_start : ℕ
memory_start = 2097152

-- `initializeFreePages`; the fields that the C code leaves unset are taken as 0.
abbrev pub free_page : Ptr → Ptr → ℕ → SpaceNode
free_page start prev page = record {
  pid = 0;
  reference = 0;
  free = 1;
  order = 1;
  start = start + sizeof_node;
  size = (page + 2 ^ 64 - sizeof_node) % 2 ^ 32;
  next = null;
  prev = prev;
  data_starts_another_page = 0;
  swapclock = 0;
}

unfoldable pub free_pages_loop : ℕ → ℕ → (start prev : Ptr) → ℕ → Cmd (Unit {0})
free_pages_loop zero page start prev space = λ v. out_of_fuel
free_pages_loop (suc k) page start prev space =
    if leb page space
    then (do
      store start (free_page start prev page)
      link_old prev start
      free_pages_loop k page (start + page) start (space - page))
    else pure tt

-- The loops of `init` that lay out the headers of the pages, in memory and in the swap array.
unfoldable pub table_loop : ℕ → SpaceNode → ℕ → ℕ → ℕ → (node old ptr : Ptr) → ℕ → Cmd (Unit {0})
table_loop zero new max max_size page node old ptr s = λ v. out_of_fuel
table_loop (suc k) new max max_size page node old ptr s =
    if ltb node max && ltb s max_size
    then (do
      link_old old node
      store node (record new { start = ptr; prev = old })
      table_loop k new max max_size page (node + sizeof_node) node (ptr + page) (s + page))
    else pure tt

abbrev pub empty_page : ℕ → ℕ → SpaceNode
empty_page order page = record {
  pid = 0;
  reference = 0;
  free = 1;
  order = order;
  start = null;
  size = page;
  next = null;
  prev = null;
  data_starts_another_page = 0;
  swapclock = 0;
}

-- The space for the system's own data.
abbrev pub os_space : Ptr → SpaceNode
os_space mem = record {
  pid = 0;
  reference = 0;
  free = 1;
  order = 1;
  start = mem + osreserved_start + sizeof_node;
  size = memory_start - osreserved_start - sizeof_node;
  next = null;
  prev = null;
  data_starts_another_page = 0;
  swapclock = 0;
}

abbrev pub set_globals : Ptr → ℕ → Cmd (Unit {0})
set_globals mem page v =
    ok tt (record v {
      mem = mem;
      page_size = page;
      shared_memory_start = mem + physical_size - page * 4;
    })

module _ (rounds : ℕ) where
  unfoldable pub initialize_free_pages : Ptr → ℕ → Cmd (Unit {0})
  unfolding free_pages_loop
  initialize_free_pages start space = do
    v ← get
    free_pages_loop rounds v.page_size start null space

  -- `init`, with the block that `posix_memalign` gives and the page size that `sysconf` tells
  unfoldable pub init : Ptr → ℕ → Cmd (Unit {0})
  unfolding initialize_free_pages table_loop
  init mem page = do
    set_globals mem page
    initialize_free_pages (mem + physical_size - page * 4) (page * 4)
    store (mem + osreserved_start) (os_space mem)
    table_loop rounds (empty_page 1 page) (mem + osreserved_start - sizeof_node)
        (physical_size - page * 4 - memory_start) page mem null (mem + memory_start) 0
    v ← get
    table_loop rounds (empty_page 0 page) (v.swap + swap_memory_start - sizeof_node)
        (swap_size - (swap_memory_start + page)) page v.swap null (v.swap + swap_memory_start) 0
    write_swap v.swap >>= (λ failed. pure tt)
