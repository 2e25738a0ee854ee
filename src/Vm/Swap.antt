-- ===== src/Vm/Swap.antt =====
-- The swap file of vm.c: reading and writing it, and moving a page out to it. `array` is the address
-- of the static array that the C code passes on.
pub mod Victim
pub mod Fix
pub mod File
use osdesign.Base.{
  ℕ, zero, suc, ◌+◌, ◌-◌, ◌%◌, ◌^◌, none, some, ◌&&◌, not, ltb, leb, ◌==◌, if◌then◌else◌,
}
use osdesign.Base.Command.{ok, out_of_fuel, pure, ◌>>=◌, ◌>>◌}
use osdesign.Vm.Memory.{Ptr, null, sizeof_node, SwapFile, Cmd, get, load, store, memcpy}
use osdesign.Vm.Space.{get_last_page, remove_page}

abbrev pub swap_size : ℕ
swap_size = 4000000

abbrev pub swap_memory_start : ℕ
swap_memory_start = 1000000

-- `if (old != NULL) old->next = node`
abbrev pub link_old : Ptr → Ptr → Cmd (Unit {0})
link_old o n = if o == null then pure tt else do x ← load o; store o (record x { next = n })

-- `fread` of the file into the array; of a file that is too short it brings what is there.
abbrev pub fill_swap : Ptr → SwapFile → Cmd (Unit {0})
fill_swap array f v = ok tt (record v {
  slots = λ a.
      if leb array a && ltb a (array + swap_size) && ltb (a - array) f.length
      then f.content (a - array)
      else v.slots a;
})

-- The loop of `fixSwapPtrs`: the headers stand one behind the other, and the pages they describe
-- from `ptr` on. `s` and `maxSize` keep the loop within the array.
unfoldable pub fix_loop : ℕ → (max max_size page : ℕ) → (node old ptr : Ptr) → ℕ → Cmd (Unit {0})
fix_loop zero max max_size page node old ptr s = λ v. out_of_fuel
fix_loop (suc k) max max_size page node old ptr s =
    if ltb node max && ltb s max_size
    then (do
      x ← load node
      store node (record x { start = ptr; prev = old })
      link_old old node
      fix_loop k max max_size page (node + sizeof_node) node (ptr + page) (s + page))
    else pure tt

module _ (rounds : ℕ) where
  unfoldable pub fix_swap_ptrs : Ptr → Cmd (Unit {0})
  unfolding fix_loop
  fix_swap_ptrs array = do
    v ← get
    fix_loop rounds (array + swap_memory_start - sizeof_node)
        (swap_size - (swap_memory_start + v.page_size)) v.page_size array null
        (array + swap_memory_start) 0

  -- `getSwap`: 1 if there is no swap file or if it is too short.
  unfoldable pub get_swap : Ptr → Cmd ℕ
  unfolding fix_swap_ptrs
  get_swap array = do
    v ← get
    elim v.file [
      | none ↦ pure 1
      | some f ↦ do
        fill_swap array f
        if ltb f.length swap_size then pure 1 else do fix_swap_ptrs array; pure 0
    ]

-- `writeSwap`: 1 if the file cannot be opened, or if not all of the array can be written; the file is
-- then short. The call of `fclose` counts as successful.
unfoldable pub write_swap : Ptr → Cmd ℕ
write_swap array = do
  v ← get
  if not v.writable then pure 1 else (λ w. ok (if ltb w.room swap_size then 1 else 0) (record w {
    file = some (record {
      length = if ltb w.room swap_size then w.room else swap_size;
      content = λ a. w.slots (array + a);
    });
  }))

-- The loop of `getVictimPage` for `SWAP_STRATEGY` 1. The step to the previous page is not checked
-- before its clock, a char, is raised; so the second turn of the C loop is never made.
unfoldable pub victim_loop : ℕ → ℕ → Ptr → Cmd Ptr
victim_loop zero pid n = λ v. out_of_fuel
victim_loop (suc k) pid n = if n == null then pure null else do
  x ← load n
  if (x.pid == pid) && ltb ((x.swapclock + 128) % 2 ^ 8) (3 + 128)
      then (do
        y ← load x.prev
        store x.prev (record y { swapclock = (y.swapclock + 1) % 2 ^ 8 })
        victim_loop k pid x.prev)
      else pure n

module _ (rounds : ℕ) where
  unfoldable pub get_victim_page : ℕ → Cmd Ptr
  unfolding victim_loop
  get_victim_page pid = do last ← get_last_page rounds; victim_loop rounds pid last

  -- The loop that looks for a free page in the swap array.
  unfoldable pub free_swap_page : ℕ → Ptr → Cmd Ptr
  free_swap_page zero n = λ v. out_of_fuel
  free_swap_page (suc k) n =
      if n == null
      then pure null
      else do x ← load n; if x.free == 0 then free_swap_page k x.next else pure n

  -- `movePageToSwap`: 1 if there is no victim, no swap file or no free page in it.
  unfoldable pub move_page_to_swap : ℕ → Cmd ℕ
  unfolding get_victim_page get_swap free_swap_page write_swap remove_page
  move_page_to_swap pid = do
    evict ← get_victim_page pid
    if evict == null then pure 1 else (do
      v ← get
      failed ← get_swap rounds v.move_swap
      if failed == 1 then pure 1 else (do
        f ← free_swap_page rounds v.move_swap
        if f == null then pure 1 else (do
          e ← load evict
          x ← load f
          store f (record x {
            pid = e.pid;
            free = 0;
            reference = e.reference;
            data_starts_another_page = e.data_starts_another_page;
            size = e.size;
            order = e.order;
          })
          memcpy x.start e.start v.page_size
          written ← write_swap v.move_swap
          remove_page evict
          pure 0)))
