-- ===== src/LinkedList.antt =====
-- LinkedList.h and LinkedList.c. A `LinkedList` is a value outside the heap of nodes, and a
-- function that updates `*l` returns the new one. The addresses that `malloc` returns are
-- arguments, and the loops run on the rounds given to them. `print` only prints.
pub mod Memory
pub mod Spec
pub mod Chain
pub mod Queue
pub mod Oldest
mod Tests
use osdesign.Base.{
  ℕ, zero, suc, ◌+◌, ◌-◌, ◌%◌, ◌^◌, Bool, List, [], ◌∷◌, ◌||◌, ◌==◌, leb, if◌then◌else◌,
}
use Memory.{
  Ptr, null, node, Cmd, ok, fault, out_of_fuel, pure, ◌>>=◌, ◌>>◌, update, load, load_thread,
  set_next,
}

-- The C struct `LinkedList`; `nitems` is an unsigned int.
pub record LinkedList : Type 0 where
  pub tail : Ptr
  pub head : Ptr
  pub nitems : ℕ

abbrev pub linked_list : Ptr → Ptr → ℕ → LinkedList
linked_list tail head n = record { tail = tail; head = head; nitems = n }

-- The two blocks that one `newNode` gets from `malloc`: the node and its `my_pthread_t`.
abbrev pub Blocks : Type 0
Blocks = Ptr × Ptr

abbrev pub two32 : ℕ
two32 = 2 ^ 32

-- `<=` on values of type int, given by their 32-bit patterns
abbrev pub leb_int : ℕ → ℕ → Bool
leb_int a b = leb ((a + 2 ^ 31) % two32) ((b + 2 ^ 31) % two32)

-- Both blocks are written, so a failed `malloc` is a fault.
pub new_node : Blocks → Ptr → Cmd Ptr
unfolding load_thread
new_node (n, c) t = if n == null || c == null then (λ h. fault) else do
  v ← load_thread t
  λ h. ok n (record h { nodes = update h.nodes n (node c null); threads = update h.threads c v })

pub push : Blocks → LinkedList → Ptr → Cmd LinkedList
unfolding new_node load set_next
push m l t = do
  n ← new_node m t
  if l.tail == null
      then pure (linked_list n n 1)
      else do set_next l.tail n; pure (linked_list n l.head ((l.nitems + 1) % two32))

-- `pop` returns the cell with the thread and frees nothing.
pub pop : LinkedList → Cmd (Ptr × LinkedList)
unfolding load
pop l = do
  n ← load l.head
  let tail = if n.next == null then null else l.tail
  pure (n.thread, linked_list tail n.next ((l.nitems + two32 - 1) % two32))

pub empty : LinkedList → Bool
empty l = l.head == null

pub front : LinkedList → Cmd Ptr
unfolding load
front l = do n ← load l.head; pure n.thread

pub nelements : LinkedList → ℕ
nelements l = l.nitems

-- The writes of `pushOrdered` behind its loop.
pub link_after : Ptr → Ptr → LinkedList → Cmd LinkedList
unfolding load set_next
link_after n last l = do
  x ← load last
  set_next n x.next
  set_next last n
  let tail = if x.next == null then n else l.tail
  let head = if x.next == l.head then n else l.head
  pure (linked_list tail head ((l.nitems + 1) % two32))

-- `getPriority` and `getTimeCreated` are functions of my_pthread.c; here they take the thread.
module _ (get_priority get_time_created : ℕ → ℕ) where
  -- the loop test of `pushOrdered` for the order given
  unfoldable pub goes_before : ℕ → ℕ → ℕ → Bool
  goes_before order a b =
      if order == 0
      then leb_int (get_priority a) (get_priority b)
      else leb (get_time_created a) (get_time_created b)

  -- The node behind which the new one goes. The loop writes nothing, so the new thread `v` is read
  -- once, before it.
  pub walk : ℕ → ℕ → ℕ → (tmp last : Ptr) → Cmd Ptr
  walk zero order v tmp last = λ h. out_of_fuel
  walk (suc k) order v tmp last = if tmp == null then pure last else do
    x ← load tmp
    a ← load_thread x.thread
    if goes_before order a v then walk k order v x.next tmp else pure last

  pub push_ordered : ℕ → Blocks → ℕ → LinkedList → Ptr → Cmd LinkedList
  unfolding new_node walk link_after
  push_ordered rounds m order l t = do
    n ← new_node m t
    if l.tail == null
        then pure (linked_list n n 1)
        else do v ← load_thread m.1; last ← walk rounds order v l.head l.head; link_after n last l

  -- The loop of `orderByOldest`: each round takes the blocks of one node.
  drain : ℕ → List Blocks → (l new : LinkedList) → Cmd LinkedList
  drain rounds [] l new = if empty l then pure new else (λ h. out_of_fuel)
  drain rounds (m ∷ ms) l new =
      if empty l
      then pure new
      else do (t, rest) ← pop l; new' ← push_ordered rounds m 1 new t; drain rounds ms rest new'

  -- `malloc` does not clear the new list: its bytes are the argument `fresh`.
  pub order_by_oldest : ℕ → List Blocks → (fresh l : LinkedList) → Cmd LinkedList
  unfolding drain
  order_by_oldest rounds ms fresh l = drain rounds ms l fresh
