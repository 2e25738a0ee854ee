-- ===== src/Filesystem/Disk.antt =====
-- The disk of the file system: the blocks of block.c with the structures of sfs.c that they hold.
use osdesign.Base.{
  ℕ, zero, suc, ◌%◌, Bool, true, false, Option, none, some, List, [], ◌∷◌, ◌==◌, if◌then◌else◌,
}
use osdesign.Base.Command.{ok, Command, pure, crash}

-- `superblock`
pub record Superblock : Type 0 where
  pub imap : ℕ
  pub i_list : ℕ
  pub dmap : ℕ
  pub d_list : ℕ
  pub magicnum : ℕ

-- `inode`, less the fields that the code never reads back
pub record Inode : Type 0 where
  pub st_mode : ℕ
  pub st_ino : ℕ
  pub st_uid : ℕ
  pub st_gid : ℕ
  pub st_time : ℕ
  pub directp : List ℕ
  pub indirectp : ℕ

-- `mydir`: 16 entries; a name is its bytes up to the NUL.
pub record Mydir : Type 0 where
  pub inums : List ℕ
  pub fnames : List (List ℕ)

-- What a block holds. The blocks of the two maps hold one byte for each inode or data block.
pub data Block : Type 0 where
  super : Superblock → Block
  bytes : List ℕ → Block
  inodes : Inode → Inode → Block
  entries : Mydir → Block

-- `none` is a block that was never written. A read or a write may fail.
pub record Disk : Type 0 where
  pub blocks : ℕ → Option Block
  pub read_fails : ℕ → Bool
  pub write_fails : ℕ → Bool

abbrev pub Cmd : Type 0 → Type 0
Cmd A = Command Disk A

abbrev pub replicate {ℓ} : {A : Type ℓ} → ℕ → A → List A
replicate zero a = []
replicate (suc n) a = a ∷ replicate n a

abbrev pub num_direct_pointers : ℕ
num_direct_pointers = 44

abbrev pub max_fname : ℕ
max_fname = 24

abbrev pub inum_free : ℕ
inum_free = 568754

abbrev pub zero_inode : Inode
zero_inode = record {
  st_mode = 0;
  st_ino = 0;
  st_uid = 0;
  st_gid = 0;
  st_time = 0;
  directp = replicate 44 0;
  indirectp = 0;
}

-- `block_read`: the buffer is zero where the block was never written, and where the read fails.
unfoldable pub block_read : ℕ → Cmd (Bool × Option Block)
block_read n d = if d.read_fails n then ok (false, none) d else ok (true, d.blocks n) d

-- `block_write`, and whether it wrote all 512 bytes
unfoldable pub block_write : ℕ → Block → Cmd Bool
block_write n b d =
    if d.write_fails n
    then ok false d
    else ok true (record d { blocks = λ m. if m == n then some b else d.blocks m })

-- The disk after such a write.
abbrev pub with_block : Disk → ℕ → Block → Disk
with_block d b x = record d { blocks = λ m. if m == b then some x else d.blocks m }

-- The casts of the buffers. A block that holds another structure is a fault.
abbrev pub as_super : Option Block → Cmd Superblock
as_super none = pure (record { imap = 0; i_list = 0; dmap = 0; d_list = 0; magicnum = 0 })
as_super (some (super s)) = pure s
as_super (some b) = crash

abbrev pub as_bytes : Option Block → Cmd (List ℕ)
as_bytes none = pure (replicate 512 0)
as_bytes (some (bytes l)) = pure l
as_bytes (some b) = crash

abbrev pub as_inodes : Option Block → Cmd (Inode × Inode)
as_inodes none = pure (zero_inode, zero_inode)
as_inodes (some (inodes i j)) = pure (i, j)
as_inodes (some b) = crash

abbrev pub as_entries : Option Block → Cmd Mydir
as_entries none = pure (record { inums = replicate 16 0; fnames = replicate 16 [] })
as_entries (some (entries m)) = pure m
as_entries (some b) = crash

-- The two inodes of a block, by the parity of the number.
abbrev pub half_of : ℕ → Inode × Inode → Inode
half_of inum p = if inum % 2 == 0 then p.0 else p.1

abbrev pub set_half : ℕ → Inode → Inode × Inode → Block
set_half inum i p = if inum % 2 == 0 then inodes i p.1 else inodes p.0 i

-- The two ways on from a search.
abbrev pub on_found : {A B : Type 0} → Option A → Cmd B → (A → Cmd B) → Cmd B
on_found none missing found = missing
on_found (some a) missing found = found a
