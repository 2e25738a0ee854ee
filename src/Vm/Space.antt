-- ===== src/Vm/Space.antt =====
-- The lists of spaces of vm.c: looking for one, splitting one, and giving one back.
pub mod Find
pub mod Carve
pub mod Free
use osdesign.Base.{
  ℕ, zero, suc, ◌+◌, ◌-◌, ◌*◌, ◌%◌, ◌^◌, Bool, ◌&&◌, not, ltb, leb, ◌==◌, if◌then◌else◌,
}
use osdesign.Base.Command.{out_of_fuel, pure, ◌>>=◌, ◌>>◌}
use osdesign.Vm.Memory.{Ptr, null, SpaceNode, sizeof_node, Cmd, get, load, store}

-- The loop of `findFreePage`, `findFreeSpace`, `findPage` and `getContiguousPage`: the first node
-- from `n` on that passes the test, or NULL.
unfoldable pub find_node : ℕ → (SpaceNode → Bool) → Ptr → Cmd Ptr
find_node zero test n = λ v. out_of_fuel
find_node (suc k) test n =
    if n == null
    then pure null
    else do x ← load n; if test x then pure n else find_node k test x.next

-- The loop of `getLastPage` and `getLastElement`.
unfoldable pub last_node : ℕ → Ptr → Ptr → Cmd Ptr
last_node zero prev n = λ v. out_of_fuel
last_node (suc k) prev n = if n == null then pure prev else do x ← load n; last_node k n x.next

-- The loop of `updateReference`.
unfoldable pub clear_references : ℕ → Ptr → Cmd (Unit {0})
clear_references zero n = λ v. out_of_fuel
clear_references (suc k) n =
    if n == null
    then pure tt
    else do x ← load n; store n (record x { reference = 0 }); clear_references k x.next

module _ (rounds : ℕ) where
  unfoldable pub get_last_page : Cmd Ptr
  unfolding last_node
  get_last_page = do v ← get; last_node rounds null v.mem

  unfoldable pub update_reference : Cmd (Unit {0})
  unfolding clear_references
  update_reference = do v ← get; clear_references rounds v.mem

  unfoldable pub find_free_page : Cmd Ptr
  unfolding find_node
  find_free_page = do v ← get; find_node rounds (λ x. not (x.free == 0)) v.mem

  unfoldable pub find_free_space : Ptr → ℕ → Cmd Ptr
  unfolding find_node
  find_free_space n size = find_node rounds (λ x. not (x.free == 0) && leb size x.size) n

-- `initializeSpace`. The fields that the C code leaves unset are taken as 0.
abbrev pub one_space : Ptr → ℕ → SpaceNode
one_space space size = record {
  pid = 0;
  reference = 0;
  free = 1;
  order = 1;
  start = space + sizeof_node;
  size = (size + 2 ^ 64 - sizeof_node) % 2 ^ 32;
  next = null;
  prev = null;
  data_starts_another_page = 0;
  swapclock = 0;
}

unfoldable pub initialize_space : Ptr → ℕ → Cmd (Unit {0})
initialize_space space size = store space (one_space space size)

-- `setProcessPage`
unfoldable pub set_process_page : Ptr → ℕ → Cmd (Unit {0})
unfolding load store
set_process_page n pid = do x ← load n; store n (record x { pid = pid })

-- `int restSize = n->size - size`, as its 32-bit pattern, and as the `size_t` that it is compared as
abbrev pub rest_size : ℕ → ℕ → ℕ
rest_size have size = (have + 2 ^ 64 - size % 2 ^ 64) % 2 ^ 32

abbrev pub sign_extended : ℕ → ℕ
sign_extended x = if ltb x (2 ^ 31) then x else x + (2 ^ 64 - 2 ^ 32)

-- The node that `createSpace` makes of the rest. Its size does not leave out its own header.
abbrev pub rest_node : Ptr → SpaceNode → ℕ → SpaceNode
rest_node n x size = record {
  pid = 0;
  reference = 0;
  free = 1;
  order = 1;
  start = x.start + size + sizeof_node;
  size = rest_size x.size size;
  next = x.next;
  prev = n;
  data_starts_another_page = 0;
  swapclock = 0;
}

-- `createSpace`: 1 if the node is not free.
unfoldable pub create_space : Ptr → ℕ → Cmd ℕ
unfolding load store
create_space n size = do
  x ← load n
  if x.free == 0
      then pure 1
      else (if ltb sizeof_node (sign_extended (rest_size x.size size))
          then (do
            store (x.start + size) (rest_node n x size)
            store n (record x { free = 0; size = size % 2 ^ 32; next = x.start + size })
            pure 0)
          else (do store n (record x { free = 0; size = size % 2 ^ 32 }); pure 0))

-- What `removeSpace` does to a free neighbour of an element, by the four cases of the code.
merge_none_next : Ptr → SpaceNode → Ptr → Cmd (Unit {0})
unfolding load store
merge_none_next n x b = do
  y ← load b
  if y.free == 0
      then pure tt
      else store n (record x { size = (y.size + sizeof_node) % 2 ^ 32; next = y.next })

merge_prev_none : SpaceNode → Ptr → Cmd (Unit {0})
unfolding load store
merge_prev_none x a = do
  w ← load a
  if w.free == 0
      then pure tt
      else store a (record w { size = (x.size + sizeof_node) % 2 ^ 32; next = x.next })

merge_both : Ptr → SpaceNode → Ptr → Ptr → Cmd (Unit {0})
unfolding load store
merge_both n x a b = do
  w ← load a
  y ← load b
  if w.free == 0
      then (if y.free == 0
          then pure tt
          else store n (record x { size = (y.size + sizeof_node) % 2 ^ 32; next = y.next }))
      else (if y.free == 0
          then store a (record w { size = (x.size + sizeof_node) % 2 ^ 32; next = x.next })
          else store a
              (record w { size = (x.size + y.size + 2 * sizeof_node) % 2 ^ 32; next = y.next }))

-- `removeSpace(ptr, PAGE)`, where `ptr` is the node, and `removeSpace(ptr, ELEMENT)`, where it is
-- the first byte behind the node.
unfoldable pub remove_page : Ptr → Cmd (Unit {0})
unfolding load store
remove_page n = do
  x ← load n
  if x.free == 0 then store n (record x { free = 1; pid = 0 }) else pure tt

unfoldable pub remove_element : Ptr → Cmd (Unit {0})
unfolding load store merge_none_next merge_prev_none merge_both
remove_element ptr = do
  let n = ptr - sizeof_node
  x ← load n
  if not (x.free == 0) then pure tt else (do
    let x' = record x { free = 1; pid = 0 }
    store n x'
    if x.prev == null
        then (if x.next == null then pure tt else merge_none_next n x' x.next)
        else (if x.next == null then merge_prev_none x' x.prev else merge_both n x' x.prev x.next))
