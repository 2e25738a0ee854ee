-- ===== src/Vm/Alloc.antt =====
-- The entry points of vm.c: elements, further pages, protection and the handler.
pub mod Table
pub mod Guard
pub mod Load
pub mod Handler
pub mod Malloc
pub mod Reserve
pub mod First
use osdesign.Base.{
  ℕ, zero, suc, ◌+◌, ◌-◌, ◌*◌, ◌/◌, ◌%◌, ◌^◌, Bool, true, false, ◌&&◌, ◌||◌, not, ltb, leb, ◌==◌,
  if◌then◌else◌,
}
use osdesign.Base.Command.{ok, out_of_fuel, pure, crash, ◌>>=◌, ◌>>◌}
use osdesign.Vm.Memory.{Ptr, null, Vm, Cmd, get, load, store}
use osdesign.Vm.Space.{find_free_space, create_space, remove_page, remove_element}
use osdesign.Vm.Pages.{
  find_page, get_free_page, load_process_pages, get_last_process_page, get_last_element,
}
use osdesign.Vm.Boot.{physical_size, osreserved_start, memory_start}

-- The kernel protects whole pages: a length is rounded up to them.
abbrev pub whole_pages : ℕ → ℕ → ℕ
whole_pages page len = (len + page - 1) / page * page

-- `mprotect` on a range of whole pages, which is taken to succeed
abbrev pub mprotect : Ptr → ℕ → Bool → Cmd (Unit {0})
mprotect start len none' v =
    ok tt (record v {
      guarded = λ a. if leb start a && ltb a (start + len) then none' else v.guarded a;
    })

module _ (rounds : ℕ) where
  -- `getFreeElementFrom`: NULL if no space of the list is large enough.
  unfoldable pub get_free_element_from : Ptr → ℕ → Cmd Ptr
  get_free_element_from memory size = do
    n ← find_free_space rounds memory size
    if n == null then pure null else (do
      failed ← create_space n size
      if failed == 0 then (do x ← load n; pure x.start) else pure null)

  unfoldable pub protect_loop : ℕ → Bool → ℕ → Ptr → ℕ → Cmd (Unit {0})
  protect_loop zero none' pid p i = λ v. out_of_fuel
  protect_loop (suc k) none' pid p i = if p == null then pure tt else (do
    v ← get
    x ← load p
    mprotect x.start v.page_size none'
    q ← find_page rounds pid i
    protect_loop k none' pid q (i + 1))

  unfoldable pub memory_protect : ℕ → Cmd (Unit {0})
  unfolding protect_loop
  memory_protect pid = do p ← find_page rounds pid 1; protect_loop rounds true pid p 2

  unfoldable pub memory_allow : ℕ → Cmd (Unit {0})
  unfolding protect_loop
  memory_allow pid = do p ← find_page rounds pid 1; protect_loop rounds false pid p 2

  unfoldable pub memory_allow_all : Cmd (Unit {0})
  memory_allow_all = do
    v ← get
    mprotect (v.mem + memory_start)
        (whole_pages v.page_size (physical_size - memory_start - v.page_size * 4)) false

  -- The second loop of `joinFreeSpace`: back over the pages whose data start on another page.
  unfoldable pub back_loop : ℕ → ℕ → (p prev : Ptr) → ℕ → Cmd (Ptr × Ptr)
  back_loop zero pid p prev i = λ v. out_of_fuel
  back_loop (suc k) pid p prev i = if p == null then pure (p, prev) else (do
    x ← load p
    if x.data_starts_another_page == 0
        then pure (p, prev)
        else (do q ← find_page rounds pid i; back_loop k pid q p ((i + 2 ^ 32 - 1) % 2 ^ 32)))

  -- `joinFreeSpace`: a free last element grows over the new page.
  unfoldable pub join_free_space : Ptr → ℕ → Cmd (Unit {0})
  unfolding back_loop
  join_free_space new_page pid = do
    last ← get_last_process_page rounds pid
    x ← load last
    (p, prev) ← back_loop rounds pid last last ((x.order + 2 ^ 32 - 1) % 2 ^ 32)
    y ← load prev
    if not (y.data_starts_another_page == 0) then pure tt else (do
      e ← get_last_element rounds p
      z ← load e
      if z.free == 0 then pure tt else (do
        n ← load new_page
        store new_page (record n { data_starts_another_page = 1 })
        z' ← load e
        store e (record z' { size = (z'.size + n.size) % 2 ^ 32 })))

  -- `reserveAnotherPage`: 1 if there is no page. The new page has order -1 while it is joined.
  unfoldable pub reserve_another_page : ℕ → Cmd ℕ
  unfolding join_free_space
  reserve_another_page pid = do
    n ← get_free_page rounds rounds pid
    if n == null then pure 1 else (do
      x ← load n
      store n (record x { order = 2 ^ 32 - 1 })
      join_free_space n pid
      last ← get_last_process_page rounds pid
      y ← load last
      z ← load n
      store n (record z { order = (y.order + 1) % 2 ^ 32 })
      load_process_pages rounds pid
      pure 0)

  -- The loop of `getFreeElement` over the thread's further pages.
  unfoldable pub element_loop : ℕ → ℕ → ℕ → (p n : Ptr) → ℕ → Cmd Ptr
  element_loop zero pid size p n i = λ v. out_of_fuel
  element_loop (suc k) pid size p n i = if p == null || not (n == null) then pure n else (do
    x ← load p
    found ← find_free_space rounds x.start size
    q ← find_page rounds pid i
    element_loop k pid size q found (i + 1))

  -- The space that `getFreeElement` splits, NULL if the first page and the further ones have none.
  unfoldable pub find_element : ℕ → ℕ → Cmd Ptr
  unfolding element_loop
  find_element pid size = do
    load_process_pages rounds pid
    v ← get
    x ← load v.mem
    store v.mem (record x { reference = 1 })
    n ← find_free_space rounds x.start size
    if not (n == null)
        then pure n
        else (do p ← find_page rounds pid 2; element_loop rounds pid size p n 3)

  -- `getFreeElement` for the thread `pid`, with `tries` calls of itself
  unfoldable pub get_free_element : ℕ → ℕ → ℕ → Cmd Ptr
  unfolding find_element reserve_another_page
  get_free_element zero pid size = λ v. out_of_fuel
  get_free_element (suc tries) pid size = do
    n ← find_element pid size
    if n == null
        then (do
          failed ← reserve_another_page pid
          if failed == 0 then get_free_element tries pid size else pure null)
        else (do
          failed ← create_space n size
          if failed == 0 then (do x ← load n; pure x.start) else pure null)

  -- `handler`, for a fault at `addr` while the thread `pid` runs. For an address elsewhere the C code
  -- puts back the handler of before, which is no part of the state.
  unfoldable pub handler : ℕ → ℕ → Cmd (Unit {0})
  unfolding memory_allow_all
  handler addr pid = do
    v ← get
    if v.in_handler then crash else (do set_in_handler true; serve v; set_in_handler false)
    where
      set_in_handler : Bool → Cmd (Unit {0})
      set_in_handler b w = ok tt (record w { in_handler = b })

      serve : Vm → Cmd (Unit {0})
      serve v =
          if leb (v.mem + memory_start) addr && ltb addr v.shared_memory_start
          then memory_allow_all >> load_process_pages rounds pid
          else pure tt

-- The argument `request` of `myallocate`.
pub data Request : Type 0 where
  thread_req os_req shared_req : Request
  page_req : ℕ → Request

module _ (rounds : ℕ) where
  -- `myallocate` behind `init`, while the thread `pid` runs. Signals are blocked during the call.
  unfoldable pub myallocate : ℕ → ℕ → Request → Cmd Ptr
  unfolding memory_allow_all get_free_element_from get_free_element
  myallocate pid size request = do
    memory_allow_all rounds
    v ← get
    elim request [
      | shared_req ↦ get_free_element_from rounds v.shared_memory_start size
      | thread_req ↦ get_free_element rounds rounds pid size
      | os_req ↦ get_free_element_from rounds (v.mem + osreserved_start) size
      | page_req id ↦ get_free_page rounds rounds id
    ]

  unfoldable pub shalloc : ℕ → ℕ → Cmd Ptr
  unfolding myallocate
  shalloc pid size = myallocate pid size shared_req

unfoldable pub mydeallocate : Ptr → Request → Cmd (Unit {0})
mydeallocate ptr request = elim request [
  | thread_req ↦ remove_element ptr
  | os_req ↦ remove_element ptr
  | shared_req ↦ remove_page ptr
  | page_req id ↦ remove_page ptr
]
