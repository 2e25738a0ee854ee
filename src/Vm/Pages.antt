-- ===== src/Vm/Pages.antt =====
-- The pages of vm.c: exchanging two, finding the pages of a thread, and putting them in a row.
pub mod Restore
pub mod Exchange
use osdesign.Base.{ℕ, zero, suc, ◌+◌, ◌-◌, ◌&&◌, ◌||◌, ltb, leb, ◌==◌, if◌then◌else◌}
use osdesign.Base.Command.{ok, out_of_fuel, pure, crash, ◌>>=◌, ◌>>◌}
use osdesign.Vm.Memory.{Ptr, null, sizeof_node, Slot, Cmd, get, load, store, memcpy}
use osdesign.Vm.Space.{find_node, last_node, find_free_page, initialize_space}
use osdesign.Vm.Swap.{move_page_to_swap}

-- The loop of `restorePointers` at elements: it walks by the sizes and writes the three pointers.
unfoldable pub restore_loop : ℕ → ℕ → (n old : Ptr) → ℕ → Cmd Ptr
restore_loop zero size n old s = λ v. out_of_fuel
restore_loop (suc k) size n old s =
    if ltb s size && ltb sizeof_node (size - s)
    then (do
      x ← load n
      let next = n + sizeof_node + x.size
      store n (record x { next = next; prev = old; start = n + sizeof_node })
      restore_loop k size next n (s + sizeof_node + x.size))
    else pure old

-- `memcpy(p2->start, buff, pageSize)`, where `buff` holds the `len` bytes that stood at `from`
abbrev pub copy_back : Ptr → Ptr → ℕ → (Ptr → Slot) → Cmd (Unit {0})
copy_back to from len buff v = ok tt (record v {
  slots = λ a. if leb to a && ltb a (to + len) then buff (from + (a - to)) else v.slots a;
})

module _ (rounds : ℕ) where
  -- `restoreElementsPointers`. Size 0 ends the process; with no room for a header the last write
  -- goes through NULL.
  unfoldable pub restore_elements_pointers : Ptr → ℕ → Cmd (Unit {0})
  unfolding restore_loop
  restore_elements_pointers n size = if size == 0 then crash else do
    old ← restore_loop rounds size n null 0
    x ← load old
    store old (record x { next = null })

  -- The loop of `restorePointers` at pages, which restores the elements of each page as well.
  restore_pages_loop : ℕ → ℕ → (n old : Ptr) → ℕ → Cmd Ptr
  restore_pages_loop zero size n old s = λ v. out_of_fuel
  restore_pages_loop (suc k) size n old s =
      if ltb s size && ltb sizeof_node (size - s)
      then (do
        x ← load n
        let next = n + sizeof_node + x.size
        store n (record x { next = next; prev = old; start = n + sizeof_node })
        restore_elements_pointers (n + sizeof_node) x.size
        restore_pages_loop k size next n (s + sizeof_node + x.size))
      else pure old

  -- `restorePagePointers`
  unfoldable pub restore_page_pointers : Ptr → ℕ → Cmd (Unit {0})
  unfolding restore_pages_loop restore_elements_pointers restore_loop load store
  restore_page_pointers n size = if size == 0 then crash else do
    old ← restore_pages_loop rounds size n null 0
    x ← load old
    store old (record x { next = null })

  -- `swapPages`, with the contents of the first page kept in `buff`
  unfoldable pub swap_pages : Ptr → Ptr → Cmd (Unit {0})
  unfolding restore_elements_pointers load store
  swap_pages p1 p2 = if p1 == p2 then pure tt else do
    v ← get
    page1 ← load p1
    page2 ← load p2
    memcpy page1.start page2.start v.page_size
    store p1 (record page2 { start = page1.start; next = page1.next; prev = page1.prev })
    copy_back page2.start page1.start v.page_size v.slots
    store p2 (record page1 { start = page2.start; next = page2.next; prev = page2.prev })
    restore_elements_pointers page1.start page2.size
    restore_elements_pointers page2.start page1.size

  -- `findPage`; the page that is found gets a new round of the clock.
  unfoldable pub find_page : ℕ → ℕ → Cmd Ptr
  unfolding find_node
  find_page pid order = do
    v ← get
    n ← find_node rounds (λ x. (pid == x.pid) && (order == x.order)) v.mem
    if n == null then pure null else (do x ← load n; store n (record x { swapclock = 0 }); pure n)

  -- `findProcessPage`
  unfoldable pub find_process_page : ℕ → Cmd Ptr
  unfolding find_page
  find_process_page pid = find_page pid 1

  -- `getFreePage` for `VIRTUAL_MEMORY` and `USE_SWAP_F` 1, with `tries` calls of itself
  unfoldable pub get_free_page : ℕ → ℕ → Cmd Ptr
  get_free_page zero pid = λ v. out_of_fuel
  get_free_page (suc tries) pid = do
    n ← find_free_page rounds
    if n == null
        then (do
          failed ← move_page_to_swap rounds pid
          if failed == 0 then get_free_page tries pid else pure null)
        else (do
          x ← load n
          store n (record x { free = 0; pid = pid })
          initialize_space x.start x.size
          v ← get
          swap_pages v.mem n
          pure v.mem)

  unfoldable pub get_contiguous_page : Ptr → Cmd Ptr
  unfolding find_node
  get_contiguous_page page = do
    v ← get
    p ← load page
    find_node rounds (λ x. x.start == p.start + v.page_size) v.mem

  unfoldable pub make_contiguous : Ptr → Ptr → Cmd (Unit {0})
  unfolding get_contiguous_page
  make_contiguous page1 page2 =
      if page1 == page2 then pure tt else do c ← get_contiguous_page page1; swap_pages c page2

  -- The loop of `loadProcessPages`: the pages of order 2, 3, … go behind the first.
  unfoldable pub load_loop : ℕ → ℕ → (p1 p2 : Ptr) → ℕ → Cmd (Unit {0})
  load_loop zero pid p1 p2 i = λ v. out_of_fuel
  load_loop (suc k) pid p1 p2 i =
      if p1 == null || p2 == null
      then pure tt
      else do make_contiguous p1 p2; next ← find_page pid i; load_loop k pid p2 next (i + 1)

  -- `loadProcessPages` for `USE_FIND_IN_SWAP` 0: a thread with no page in memory is a fault.
  unfoldable pub load_process_pages : ℕ → Cmd (Unit {0})
  unfolding load_loop
  load_process_pages pid = do
    v ← get
    p1 ← find_page pid 1
    swap_pages v.mem p1
    p2 ← find_page pid 2
    load_loop rounds pid v.mem p2 3

  unfoldable pub last_process_loop : ℕ → ℕ → (last p : Ptr) → ℕ → Cmd Ptr
  last_process_loop zero pid last p i = λ v. out_of_fuel
  last_process_loop (suc k) pid last p i =
      if p == null then pure last else do q ← find_page pid i; last_process_loop k pid p q (i + 1)

  unfoldable pub get_last_process_page : ℕ → Cmd Ptr
  unfolding last_process_loop
  get_last_process_page pid = do
    last ← find_page pid 1
    p ← find_page pid 2
    last_process_loop rounds pid last p 3

  -- `getLastElement`; a page with no element at its start is a fault.
  unfoldable pub get_last_element : Ptr → Cmd Ptr
  unfolding last_node
  get_last_element page = do p ← load page; e ← load p.start; last_node rounds p.start e.next
