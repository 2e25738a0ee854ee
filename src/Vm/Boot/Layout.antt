-- ===== src/Vm/Boot/Layout.antt =====
-- `init` as a whole: what the memory and the swap file hold before the first call.
use osdesign.Base.{
  ltb, false, ℕ, zero, suc, ◌+◌, ◌-◌, ◌*◌, ◌≤◌, ◌<◌, ◌≡◌, refl, sym, ap, ◌∙◌, ◌≢◌, inl, true, some,
  arith,
}
use mathlib.Core.Path.{subst}
use osdesign.Base.Command.{ok}
use osdesign.Vm.Memory.{Ptr, null, SpaceNode, sizeof_node, header, Vm, put}
use osdesign.Vm.Swap.{swap_size, swap_memory_start, write_swap}
use osdesign.Vm.Space.Find.{store-put}
use osdesign.Vm.Boot.{
  physical_size, osreserved_start, memory_start, empty_page, os_space, table_loop, free_pages_loop,
  initialize_free_pages, init,
}
use osdesign.Vm.Boot.Table.{IsTable, Room, Room-bound, Laid, table_loop-Laid}
use osdesign.Vm.Boot.Shared.{IsShared, IsShared-kept, Freed, free_pages_loop-Freed}

IsTable-kept :
    (v w : Vm) (new : SpaceNode) (page n : ℕ) (node old ptr : Ptr)
    → ((a : Ptr) → node ≤ a → w.slots a ≡ v.slots a)
    → IsTable v new page n node old ptr
    → IsTable w new page n node old ptr
IsTable-kept v w new page zero node old ptr same t = tt
IsTable-kept v w new page (suc n) node old ptr same (e, t) = (
  same node (omega arith) ∙ e,
  IsTable-kept v w new page n (node + sizeof_node) node (ptr + page)
      (λ a le. same a (omega (arith, le))) t,
)

-- The entry of a free page.
abbrev pub vacant : ℕ → ℕ → SpaceNode
vacant order page = record {
  pid = 0;
  reference = 0;
  free = 1;
  order = order;
  start = null;
  size = page;
  next = null;
  prev = null;
  data_starts_another_page = 0;
  swapclock = 0;
}

-- The free space of the system, from `osreserved_start` to `memory_start`, behind its header.
abbrev pub system_space : Ptr → SpaceNode
system_space mem = record {
  pid = 0;
  reference = 0;
  free = 1;
  order = 1;
  start = mem + 1000000 + 56;
  size = 1097096;
  next = null;
  prev = null;
  data_starts_another_page = 0;
  swapclock = 0;
}

-- The memory at `mem`, with pages of `page` bytes: `n` of them for the threads, four shared ones, the
-- space of the system between, and a swap array of `m` pages, which the swap file holds too.
pub record IsLaidOut (v v' : Vm) (mem page n m : ℕ) : Type 0 where
  pub pages : IsTable v' (vacant 1 page) page n mem null (mem + memory_start)
  pub system : v'.slots (mem + osreserved_start) ≡ header (system_space mem)
  pub shared : IsShared v' page 4 (mem + physical_size - page * 4) null
  pub swapped : IsTable v' (vacant 0 page) page m v.swap null (v.swap + swap_memory_start)
  pub file : v'.file ≡ some (record { length = 4000000; content = λ a. v'.slots (v.swap + a) })
  pub globals : v' ≡ record v {
    slots = v'.slots;
    mem = mem;
    page_size = page;
    shared_memory_start = mem + physical_size - page * 4;
    file = v'.file;
  }

module _ (rounds mem page n m : ℕ) (v : Vm) (some_page : 0 < page)
    (fits : page * 4 + memory_start ≤ physical_size) (swap' : v.swap ≢ null)
    (static : v.swap + swap_size ≤ mem) (can : v.writable ≡ true) (space : swap_size ≤ v.room)
    (room_n : Room
      (mem + osreserved_start - sizeof_node)
      (physical_size - page * 4 - memory_start)
      page
      n
      mem
      0)
    (room_m : Room
      (v.swap + swap_memory_start - sizeof_node)
      (swap_size - (swap_memory_start + page))
      page
      m
      v.swap
      0)
    (rounds_n : n < rounds) (rounds_m : m < rounds) (rounds_4 : 4 < rounds) where
  abbrev blank : Vm
  blank = record v {
    mem = mem;
    page_size = page;
    shared_memory_start = mem + physical_size - page * 4;
  }

  abbrev with_system : Vm → Vm
  with_system w = put (mem + osreserved_start) (os_space mem) w

  abbrev with_file : Ptr → Vm → Vm
  with_file q w = record w {
    file = some (record { length = swap_size; content = λ a. w.slots (q + a) });
  }

  module _ (w1 w3 w4 : Vm) (f : Freed blank w1 page 4 (mem + physical_size - page * 4) null)
      (l : Laid (with_system w1) w3 (empty_page 1 page) page n mem null (mem + memory_start))
      (r : Laid w3 w4 (empty_page 0 page) page m v.swap null (v.swap + swap_memory_start)) where
    -- The swap array stands below the memory, and the tables below the system's space.
    above : (a : Ptr) → mem ≤ a → w4.slots a ≡ w3.slots a
    above a le = r.behind a (
        omega (
          arith,
          le,
          static,
          Room-bound (v.swap + swap_memory_start - sizeof_node)
              (swap_size - (swap_memory_start + page)) page m v.swap 0 room_m (omega arith),
        ))

    behind : (a : Ptr) → mem + osreserved_start ≤ a → w3.slots a ≡ (with_system w1).slots a
    behind a le = l.behind a (
        omega (
          arith,
          le,
          Room-bound (mem + osreserved_start - sizeof_node)
              (physical_size - page * 4 - memory_start) page n mem 0 room_n (omega arith),
        ))

    shared_kept : (a : Ptr) → mem + physical_size - page * 4 ≤ a → w4.slots a ≡ w1.slots a
    shared_kept a le =
        above a (omega (arith, le, fits))
        ∙ behind a (omega (arith, le, fits))
        ∙ not_system a (omega (arith, le, fits))
      where
        not_system : (b : Ptr) → mem + osreserved_start < b → (with_system w1).slots b ≡ w1.slots b
        not_system b lt = ground (arith, lt)

    finished : Vm → Vm
    finished u = record u {
      slots = w4.slots;
      file = some (record { length = swap_size; content = λ a. w4.slots (v.swap + a) });
    }

    assembled : IsLaidOut v (with_file v.swap w4) mem page n m
    unfolding finished
    assembled = record {
      pages =
          IsTable-kept w3 w4 (empty_page 1 page) page n mem null (mem + memory_start) above l.table;
      system =
          above (mem + osreserved_start) (omega arith)
          ∙ behind (mem + osreserved_start) (omega arith)
          ∙ ground arith;
      shared = IsShared-kept w1 w4 page 4 (mem + physical_size - page * 4) null shared_kept f.pages;
      swapped = r.table;
      file = refl;
      globals = ap finished r.rest ∙ ap finished l.rest ∙ ap finished f.rest;
    }

  MemoryTable : Vm → Vm → Type 0
  MemoryTable w w' =
      table_loop rounds (empty_page 1 page) (mem + osreserved_start - sizeof_node)
        (physical_size - page * 4 - memory_start) page mem null (mem + memory_start) 0 w
      ≡ ok tt w'

  SwapTable : Ptr → Vm → Vm → Type 0
  SwapTable q w w' =
      table_loop rounds (empty_page 0 page) (q + swap_memory_start - sizeof_node)
        (swap_size - (swap_memory_start + page)) page q null (q + swap_memory_start) 0 w
      ≡ ok tt w'

  runs_through :
      (w1 w3 w4 : Vm)
      → free_pages_loop rounds page (mem + physical_size - page * 4) null (page * 4) blank
        ≡ ok tt w1
      → MemoryTable (with_system w1) w3
      → SwapTable w3.swap w3 w4
      → w4.writable ≡ true
      → swap_size ≤ w4.room
      → init rounds mem page v ≡ ok tt (with_file w3.swap w4)
  unfolding init initialize_free_pages write_swap MemoryTable SwapTable
  runs_through w1 w3 w4 runs1 runs3 runs4 can' space' =
      let there : mem + osreserved_start ≢ null = λ z. omega (arith, z) in
      let full : ltb w4.room swap_size ≡ false = ground (arith, space') in
      rw
        (
          runs1,
          store-put (mem + osreserved_start) (os_space mem) w1 there,
          runs3,
          runs4,
          can',
          full,
        )
        refl

  -- With pages of at least one byte, of which the shared ones fit behind `memory_start`, a swap array
  -- below the memory, a swap file to which all of it can be written, room for exactly n pages in the memory and m in
  -- the array, and more rounds than n, m and 4, `init` returns; then there are the table of the n
  -- pages, the free space of the system, the four linked shared pages and the table of the swap
  -- array, the file holds the array, and no global but those of the layout has changed.
  pub init-IsLaidOut : (v' : Vm) × (init rounds mem page v ≡ ok tt v') × IsLaidOut v v' mem page n m
  unfolding MemoryTable SwapTable
  init-IsLaidOut =
      let (w1, runs1, f) =
        free_pages_loop-Freed 4 rounds page (mem + physical_size - page * 4) null (page * 4) blank
          (omega (arith, fits)) (inl refl) some_page
          (omega arith, (omega arith, (omega arith, (omega arith, omega (arith, some_page)))))
          rounds_4 in
      let (w3, runs3, l) =
        table_loop-Laid n rounds (empty_page 1 page) (mem + osreserved_start - sizeof_node)
          (physical_size - page * 4 - memory_start) page mem null (mem + memory_start) 0
          (with_system w1) (omega (arith, static)) (inl refl) room_n rounds_n in
      let (w4, runs4, r) =
        table_loop-Laid m rounds (empty_page 0 page) (v.swap + swap_memory_start - sizeof_node)
          (swap_size - (swap_memory_start + page)) page v.swap null (v.swap + swap_memory_start) 0
          w3 (ground (arith, swap')) (inl refl) room_m rounds_m in
      let sw : w3.swap ≡ v.swap = ap (λ u. u.swap) l.rest ∙ ap (λ u. u.swap) f.rest in
      let can' : w4.writable ≡ true =
        ap (λ u. u.writable) r.rest
        ∙ ap (λ u. u.writable) l.rest
        ∙ ap (λ u. u.writable) f.rest
        ∙ can in
      let room' : w4.room ≡ v.room =
        ap (λ u. u.room) r.rest ∙ ap (λ u. u.room) l.rest ∙ ap (λ u. u.room) f.rest in
      (
        with_file v.swap w4,
        runs_through w1 w3 w4 runs1 runs3 (subst (λ q. SwapTable q w3 w4) (sym sw) runs4) can'
              (omega (arith, room', space))
            ∙ ap (λ q. ok tt (with_file q w4)) sw,
        assembled w1 w3 w4 f l r,
      )
