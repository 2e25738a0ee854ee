-- ===== src/Filesystem/Device.antt =====
-- block.c: the file that holds the blocks, with `diskfile`, the descriptor that the module keeps.
use osdesign.Base.{ℕ, Bool, true, false, Option, none, some, ◌==◌, if◌then◌else◌}
use osdesign.Base.Command.{ok, fault, Command}

-- `diskfile`, `none` below 0, and the descriptors of the process that are open.
pub record Device : Type 0 where
  pub diskfile : Option ℕ
  pub is_open : ℕ → Bool

abbrev pub with_open : ℕ → Bool → (ℕ → Bool) → ℕ → Bool
with_open fd b is_open a = if a == fd then b else is_open a

-- `disk_open`, where `open` gives this descriptor, or fails: then the process ends.
unfoldable pub disk_open : Option ℕ → Command Device (Unit {0})
disk_open opened dev = elim dev.diskfile [
  | some fd ↦ ok tt dev
  | none ↦ elim opened [
    | none ↦ fault
    | some fd ↦ ok tt (record { diskfile = some fd; is_open = with_open fd true dev.is_open })
  ]
]

unfoldable pub disk_close : Command Device (Unit {0})
disk_close dev = elim dev.diskfile [
  | none ↦ ok tt dev
  | some fd ↦ ok tt (record dev { is_open = with_open fd false dev.is_open })
]
