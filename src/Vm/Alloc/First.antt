-- ===== src/Vm/Alloc/First.antt =====
-- The first call of `myallocate`: `init`, and the page of the main thread.
use osdesign.Base.{
  ℕ, zero, suc, ◌+◌, ◌-◌, ◌*◌, ◌<◌, ◌≤◌, ◌≡◌, refl, ap, ◌∙◌, ◌≢◌, true, false, not, arith, ◌==◌,
  if◌then◌else◌,
}
use osdesign.Base.Command.{ok, ◌>>◌}
use osdesign.Vm.Memory.{Ptr, null, SpaceNode, sizeof_node, header, Vm, put}
use osdesign.Vm.Swap.{swap_size, swap_memory_start}
use osdesign.Vm.Space.{find_node, find_free_page, initialize_space}
use osdesign.Vm.Space.Find.{load-header, store-put}
use osdesign.Vm.Pages.{swap_pages, get_free_page}
use osdesign.Vm.Boot.{physical_size, osreserved_start, memory_start, init}
use osdesign.Vm.Boot.Table.{Room, entry}
use osdesign.Vm.Boot.Layout.{IsLaidOut, vacant, init-IsLaidOut}
use osdesign.Vm.Alloc.{memory_allow_all, page_req, myallocate}
use osdesign.Vm.Alloc.Handler.{in_memory}
use osdesign.Vm.Alloc.Reserve.{owned, free_element, prepared}

abbrev pub opened : Vm → Vm
opened v = record v { guarded = λ a. if in_memory v a then false else v.guarded a }

module _ (v : Vm) (p : Ptr) (x : SpaceNode) (top : v.mem ≡ p) (ne : p ≢ null)
    (at : v.slots p ≡ header x) (free : x.free ≢ 0) (start : x.start ≢ null) where
  finds : (k : ℕ) → find_node (suc k) (λ y. not (y.free == 0)) v.mem v ≡ ok p v
  unfolding find_node
  finds k =
      let some' : (p == null) ≡ false = ground (arith, ne) in
      let hit : not (x.free == 0) ≡ true = ground (arith, free) in
      ap (λ q. find_node (suc k) (λ y. not (y.free == 0)) q v) top
      ∙ rw (some', load-header v p x ne at, hit) refl

  gets :
      (rounds k id : ℕ) → 0 < rounds → get_free_page rounds (suc k) id v ≡ ok p (prepared id p x v)
  unfolding get_free_page initialize_space find_free_page swap_pages
  gets zero k id lt = absurd (omega arith)
  gets (suc r) k id lt =
      let some' : (p == null) ≡ false = ground (arith, ne) in
      let same : (v.mem == p) ≡ true = ground (arith, top) in
      rw
        (
          finds r,
          some',
          load-header v p x ne at,
          store-put p (owned id x) v ne,
          store-put x.start (free_element x.start x.size) (put p (owned id x) v) start,
          same,
        )
        (ap (λ q. ok q (prepared id p x v)) top)

-- The first page of the thread `id`, which `init` has laid out in front of `n` others.
abbrev pub first_page : (page n : ℕ) → (mem : Ptr) → SpaceNode
first_page page n mem = entry (vacant 1 page) n mem null (mem + memory_start)

first_page-free : (page n : ℕ) (mem : Ptr) → (first_page page n mem).free ≢ 0
first_page-free page zero mem e = omega (arith, e)
first_page-free page (suc n) mem e = omega (arith, e)

first_page-start : (page n : ℕ) (mem : Ptr) → (first_page page n mem).start ≢ null
first_page-start page zero mem e = omega (arith, e)
first_page-start page (suc n) mem e = omega (arith, e)

-- With pages of at least one byte, of which the shared ones fit behind `memory_start`, a swap array
-- below the memory, a swap file to which all of it can be written, room for exactly n + 1 pages in
-- the memory and m in the array, and more rounds than n + 1, m and 4, `init` lays out the memory,
-- and `myallocate` behind it for the page of the thread id returns, whatever the size, also 0, the
-- first entry of the table; this page then belongs to the thread and holds one free element, the
-- memory of the pages is open up to the next page boundary, and nothing else has changed since
-- `init`.
pub init-myallocate :
    (rounds mem page n m pid id size : ℕ) (v : Vm)
    → 0 < page
    → page * 4 + memory_start ≤ physical_size
    → v.swap ≢ null
    → v.swap + swap_size ≤ mem
    → v.writable ≡ true
    → swap_size ≤ v.room
    → Room
        (mem + osreserved_start - sizeof_node)
        (physical_size - page * 4 - memory_start)
        page
        (suc n)
        mem
        0
    → Room
        (v.swap + swap_memory_start - sizeof_node)
        (swap_size - (swap_memory_start + page))
        page
        m
        v.swap
        0
    → suc n < rounds
    → m < rounds
    → 4 < rounds
    → (w : Vm) × IsLaidOut v w mem page (suc n) m
      × ((init rounds mem page >> myallocate rounds pid size (page_req id)) v
          ≡ ok mem (prepared id mem (first_page page n mem) (opened w)))
unfolding myallocate memory_allow_all
init-myallocate rounds mem page n m pid id size v some_page fits swap' static can space room_n
      room_m r_n r_m r_4 =
    let (w, runs, laid) =
      init-IsLaidOut rounds mem page (suc n) m v some_page fits swap' static can space room_n room_m
        r_n r_m r_4 in
    let top : w.mem ≡ mem = ap (λ u. u.mem) laid.globals in
    (w, laid, rw runs (page_of_main rounds w top laid.pages.0 (omega (arith, r_4))))
  where
    page_of_main :
        (k : ℕ) (w : Vm)
        → w.mem ≡ mem
        → w.slots mem ≡ header (first_page page n mem)
        → 0 < k
        → myallocate k pid size (page_req id) w
          ≡ ok mem (prepared id mem (first_page page n mem) (opened w))
    page_of_main zero w top at lt = absurd (omega arith)
    page_of_main (suc k) w top at lt =
        gets (opened w) mem (first_page page n mem) top (omega (arith, static)) at
          (first_page-free page n mem) (first_page-start page n mem) (suc k) k id (omega arith)
