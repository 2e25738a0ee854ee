-- ===== src/LinkedList/Memory.antt =====
-- The C heap that LinkedList.c works on: the nodes and the `my_pthread_t` cells that `malloc` gave
-- out, and commands over it. A thread is the number of its `sthread`.
pub use osdesign.Base.Command.{ok, fault, out_of_fuel, pure, ◌>>=◌, ◌>>◌}
use osdesign.Base.Command.{Command}
use osdesign.Base.{ℕ, Option, none, some, ◌==◌, if◌then◌else◌}

abbrev pub Ptr : Type 0
Ptr = ℕ

abbrev pub null : Ptr
null = 0

-- `struct node`. The program neither writes nor reads the field `prev`.
pub record Node : Type 0 where
  pub thread : Ptr
  pub next : Ptr

abbrev pub node : Ptr → Ptr → Node
node c q = record { thread = c; next = q }

pub record Heap : Type 0 where
  pub nodes : Ptr → Option Node
  pub threads : Ptr → Option ℕ

-- A NULL or wild dereference is a fault.
abbrev pub Cmd : Type 0 → Type 0
Cmd A = Command Heap A

abbrev pub update {ℓ} : {V : Type ℓ} → (Ptr → Option V) → Ptr → V → Ptr → Option V
update f p v a = if a == p then some v else f a

abbrev pub set_node : Ptr → Node → Heap → Heap
set_node p n h = record h { nodes = update h.nodes p n }

unfoldable pub load : Ptr → Cmd Node
load p h = if p == null then fault else elim (h.nodes p) [ none ↦ fault | some n ↦ ok n h ]

-- `*t` at a `my_pthread_t *t`
unfoldable pub load_thread : Ptr → Cmd ℕ
load_thread p h = if p == null then fault else elim (h.threads p) [ none ↦ fault | some t ↦ ok t h ]

-- `p->next = q`
unfoldable pub set_next : Ptr → Ptr → Cmd (Unit {0})
set_next p q = do n ← load p; λ h. ok tt (set_node p (record n { next = q }) h)
