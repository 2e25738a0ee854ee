-- ===== src/Vm/Memory.antt =====
-- The memory of vm.c: bytes, with a `SpaceNode` standing at the address of its first byte, the
-- globals of vm.h, and the swap file.
use osdesign.Base.{ℕ, ◌+◌, ◌-◌, Bool, Option, ◌&&◌, ltb, leb, ◌==◌, if◌then◌else◌}
use osdesign.Base.Command.{ok, fault, Command}

abbrev pub Ptr : Type 0
Ptr = ℕ

abbrev pub null : Ptr
null = 0

-- `struct spaceNode`. An int is given by its 32-bit pattern.
pub record SpaceNode : Type 0 where
  pub pid : ℕ
  pub reference : ℕ
  pub free : ℕ
  pub order : ℕ
  pub start : Ptr
  pub size : ℕ
  pub next : Ptr
  pub prev : Ptr
  pub data_starts_another_page : ℕ
  pub swapclock : ℕ

-- `sizeof(SpaceNode)` on the 64-bit system that the code was written for
abbrev pub sizeof_node : ℕ
sizeof_node = 56

pub data Slot : Type 0 where
  raw : ℕ → Slot
  header : SpaceNode → Slot

-- The swap file: how long it is, and what it holds.
pub record SwapFile : Type 0 where
  pub length : ℕ
  pub content : ℕ → Slot

-- `swap` is the static array of `init`, `move_swap` that of `movePageToSwap`. `writable` says whether
-- the swap file can be opened for writing, and `room` how many bytes can be written to it.
pub record Vm : Type 0 where
  pub slots : Ptr → Slot
  pub mem : Ptr
  pub shared_memory_start : Ptr
  pub page_size : ℕ
  pub swap : Ptr
  pub move_swap : Ptr
  pub file : Option SwapFile
  pub writable : Bool
  pub room : ℕ
  pub guarded : Ptr → Bool
  pub in_handler : Bool

abbrev pub Cmd : Type 0 → Type 0
Cmd A = Command Vm A

-- the globals
abbrev pub get : Cmd Vm
get v = ok v v

abbrev pub store_slot : (Ptr → Slot) → Ptr → Slot → Ptr → Slot
store_slot f p x a = if a == p then x else f a

abbrev pub put : Ptr → SpaceNode → Vm → Vm
put p n v = record v { slots = store_slot v.slots p (header n) }

-- `*n`; bytes that hold no header are a wild read.
unfoldable pub load : Ptr → Cmd SpaceNode
load p v = if p == null then fault else elim (v.slots p) [ raw b ↦ fault | header n ↦ ok n v ]

unfoldable pub store : Ptr → SpaceNode → Cmd (Unit {0})
store p n v = if p == null then fault else ok tt (put p n v)

-- `memcpy(to, from, len)` over whole headers and bytes
abbrev pub copied : (Ptr → Slot) → Ptr → Ptr → ℕ → Ptr → Slot
copied f to from len a = if leb to a && ltb a (to + len) then f (from + (a - to)) else f a

abbrev pub memcpy : Ptr → Ptr → ℕ → Cmd (Unit {0})
memcpy to from len v = ok tt (record v { slots = copied v.slots to from len })
