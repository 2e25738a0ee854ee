-- ===== src/Filesystem/Tests.antt =====
-- Runs of sfs.c on small disks, and its properties there.
mod Inodes
mod Device
mod Requests
use osdesign.Base.{
  Bool, Option, ℕ, ◌≤◌, ◌<◌, ◌≡◌, refl, true, false, none, some, List, [], ◌∷◌, ◌++◌, arith, ◌==◌,
  if◌then◌else◌, set,
}
use osdesign.Base.Command.{Run, ok, out_of_fuel, pure, ◌>>=◌, ◌>>◌}
use osdesign.Filesystem.Disk.{
  Inode, Mydir, super, bytes, entries, Disk, replicate, zero_inode, inum_free, block_read,
  block_write, Cmd,
}
use osdesign.Filesystem.Reserve.{
  first_zero, data_loop, reserve_free_data, write_fresh, inode_loop, reserve_free_inode, get_inode,
  Caller,
}
use osdesign.Filesystem.Reserve.Map.{
  IsLaid, Reserved, reserve_free_data-Reserved, reserve_free_data_bounds,
}
use osdesign.Filesystem.Reserve.Bytes.{data_byte, reserve_free_data-data_byte}
use osdesign.Filesystem.Path.{slash, find_in, find_entry, name_eq, nav_loop, next_name, nav_path}
use osdesign.Filesystem.Directory.Names.{split_last_iff}
use osdesign.Filesystem.Directory.Init.{IsRoot, sfs_init-IsLaid}
use osdesign.Filesystem.Directory.{
  sfs_init, layout, free_entry, update_loop, init_dir, extend_dir, write_entry, split_last, make,
  sfs_create, sfs_mkdir, sfs_getattr, sfs_opendir, used_names, list_blocks, sfs_readdir, clear_maps,
}
use osdesign.Filesystem.Directory.Entries.{
  with_entry, with_entries, HasBlock, update_loop-full, update_loop-adds,
}

abbrev laid : Disk
laid = record {
  blocks = λ n. if n == 0 then some (super layout) else some (bytes (replicate 512 0));
  read_fails = λ n. false;
  write_fails = λ n. false;
}

laid-IsLaid : IsLaid laid
laid-IsLaid = record {
  reads = λ n. refl;
  writes = λ n. refl;
  top = refl;
  map = λ b lo hi. (replicate 512 0, ground (arith, lo), refl);
}

abbrev laid_after : Disk
laid_after = record laid {
  blocks = λ m. if m == 5 then some (bytes (set (replicate 512 0) 0 1)) else laid.blocks m;
}

first_reservation : reserve_free_data 61 laid ≡ ok (some 1089) laid_after
unfolding reserve_free_data data_loop first_zero block_read block_write
first_reservation = refl

reserve_free_data-Reserved_example : Reserved laid (reserve_free_data 61 laid)
reserve_free_data-Reserved_example = reserve_free_data-Reserved 61 laid laid-IsLaid (omega arith)

reserve_free_data_bounds_example : (1089 ≤ 1089) × (1089 < 31809)
reserve_free_data_bounds_example =
    reserve_free_data_bounds 61 1089 laid laid_after laid-IsLaid (omega arith) first_reservation

reserve_free_data-data_byte_example :
    IsLaid laid_after
    × (data_byte laid 1089 ≡ 0)
    × ((m : ℕ) → 1089 ≤ m → data_byte laid_after m ≡ (if m == 1089 then 1 else data_byte laid m))
reserve_free_data-data_byte_example =
    reserve_free_data-data_byte 61 1089 laid laid_after laid-IsLaid (omega arith) first_reservation

-- A root directory whose block 1089 holds one entry in use, the name "a" of the inode 3.
abbrev part : Mydir
part = record { inums = 3 ∷ replicate 15 inum_free; fnames = (b'a' ∷ []) ∷ replicate 15 [] }

abbrev full : Mydir
full = record { inums = replicate 16 3; fnames = replicate 16 (b'a' ∷ []) }

abbrev holding : Mydir → Disk
holding m = record laid { blocks = λ n. if n == 1089 then some (entries m) else laid.blocks n }

abbrev root : Inode
root = record zero_inode { directp = 1089 ∷ replicate 43 0 }

holding-HasBlock : (m : Mydir) → HasBlock (holding m) root 0 1089 m
holding-HasBlock m = record {
  inside = omega arith;
  pointer = refl;
  ne_zero = omega arith;
  readable = refl;
  holds = refl;
}

update_loop-full_example : update_loop 100 61 (b'b' ∷ []) root root 4 0 (holding full) ≡ out_of_fuel
unfolding free_entry
update_loop-full_example =
    update_loop-full (holding full) root root 0 1089 full (holding-HasBlock full) 61 (b'b' ∷ []) 4
      100 refl

abbrev added : Mydir
added = with_entry part 1 4 (b'b' ∷ [])

update_loop-adds_example :
    (update_loop 1 61 (b'b' ∷ []) root root 4 0 (holding part)
      ≡ ok true (with_entries (holding part) 1089 added))
    × (find_entry (b'b' ∷ []) part.inums part.fnames ≡ none
        → find_entry (b'b' ∷ []) added.inums added.fnames ≡ some 4)
    × ((other : List ℕ)
        → name_eq (b'b' ∷ []) other ≡ false
        → find_entry other added.inums added.fnames ≡ find_entry other part.inums part.fnames)
unfolding free_entry
update_loop-adds_example =
    update_loop-adds (holding part) root root 0 1089 part (holding-HasBlock part) 61 (b'b' ∷ []) 4 0
      1 refl (omega arith) refl refl (omega arith)

-- "x" is in no block of the root.
missing : find_in layout (b'x' ∷ []) root.directp (holding part) ≡ ok none (holding part)
unfolding find_in find_entry name_eq block_read
missing = refl

abbrev empty_disk : Disk
empty_disk = record { blocks = λ n. none; read_fails = λ n. false; write_fails = λ n. false }

sfs_init-IsLaid_example :
    (d' : Disk) × (sfs_init 61 true zero_inode (record { uid = 7; gid = 8; now = 100 }) empty_disk
      ≡ ok tt d')
    × IsLaid d'
    × (data_byte d' 1089 ≡ 1)
    × IsRoot zero_inode d'
sfs_init-IsLaid_example =
    sfs_init-IsLaid 61 zero_inode (record { uid = 7; gid = 8; now = 100 }) empty_disk
      (record { reads = λ n. refl; writes = λ n. refl }) refl refl (omega arith)

abbrev user : Caller
user = record { uid = 7; gid = 8; now = 100 }

abbrev result_of : {A : Type 0} → Run Disk A → Option A
result_of (ok a d) = some a
result_of _ = none

-- A new disk, the directory "/d", the file "/d/f", and a path through the missing "/x" to "/d/f".
abbrev session : Cmd (Bool × Bool × Option (List (List ℕ)) × Option (ℕ × ℕ × ℕ × ℕ) × Bool)
session = do
  sfs_init 61 true zero_inode user
  made ← sfs_mkdir 61 0 user (slash ∷ b'd' ∷ [])
  created ← sfs_create 61 0 user (slash ∷ b'd' ∷ slash ∷ b'f' ∷ [])
  names ← sfs_readdir (slash ∷ b'd' ∷ [])
  attr ← sfs_getattr (slash ∷ b'd' ∷ slash ∷ b'f' ∷ [])
  nav ← nav_path (slash ∷ b'x' ∷ slash ∷ b'd' ∷ slash ∷ b'f' ∷ [])
  pure (made, created, names, attr, nav.found)

session_lem :
    result_of (session empty_disk)
    ≡ some (
      true,
      true,
      some ((b'.' ∷ []) ∷ (b'.' ∷ b'.' ∷ []) ∷ (b'f' ∷ []) ∷ []),
      some (2, 0o100666, 1, 512),
      true,
    )
unfolding block_read block_write first_zero data_loop reserve_free_data write_fresh inode_loop
    reserve_free_inode get_inode name_eq next_name find_entry find_in nav_loop nav_path init_dir
    free_entry extend_dir write_entry update_loop split_last make sfs_create sfs_mkdir sfs_getattr
    sfs_opendir used_names list_blocks sfs_readdir clear_maps sfs_init
session_lem = refl

split_last_iff_example :
    (slash ∷ b'd' ∷ slash ∷ b'f' ∷ [] ≡ (slash ∷ b'd' ∷ []) ++ slash ∷ b'f' ∷ []
      → split_last (slash ∷ b'd' ∷ slash ∷ b'f' ∷ []) ≡ some (slash ∷ b'd' ∷ [], b'f' ∷ []))
    × (split_last (slash ∷ b'd' ∷ slash ∷ b'f' ∷ []) ≡ some (slash ∷ b'd' ∷ [], b'f' ∷ [])
        → slash ∷ b'd' ∷ slash ∷ b'f' ∷ [] ≡ (slash ∷ b'd' ∷ []) ++ slash ∷ b'f' ∷ [])
split_last_iff_example =
    split_last_iff (slash ∷ b'd' ∷ slash ∷ b'f' ∷ []) (slash ∷ b'd' ∷ []) (b'f' ∷ [])
      (omega arith, tt)
