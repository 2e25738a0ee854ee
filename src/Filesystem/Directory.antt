-- ===== src/Filesystem/Directory.antt =====
-- `initDir`, `updateDir` and the operations of sfs.c on directories.
pub mod Entries
pub mod Init
pub mod Names
pub mod Create
use osdesign.Base.{
  ℕ, zero, suc, ◌+◌, ◌/◌, Bool, true, false, ◌&&◌, not, Option, none, some, List, [], ◌∷◌, ◌++◌,
  leb, ◌==◌, if◌then◌else◌, set, length, get_elem?,
}
use osdesign.Base.Command.{out_of_fuel, pure, crash, ◌>>=◌, ◌>>◌}
use osdesign.Filesystem.Disk.{
  Superblock, super, Inode, Mydir, bytes, inodes, entries, Cmd, replicate, num_direct_pointers,
  max_fname, inum_free, block_read, block_write, as_super, as_inodes, as_entries, half_of, set_half,
  on_found,
}
use osdesign.Filesystem.Reserve.{
  Caller, Kind, directory, file, mode_of, reserve_free_data, reserve_free_inode, get_inode,
}
use osdesign.Filesystem.Path.{nav_path, slash}

-- The entries that `initDir` writes; the names of the free ones stay as they were.
abbrev pub first_entries : ℕ → ℕ → Mydir → Mydir
first_entries self parent m = record {
  inums = self ∷ (if self == parent then inum_free else parent) ∷ replicate 14 inum_free;
  fnames =
      set (if self == parent then m.fnames else set m.fnames 1 (b'.' ∷ b'.' ∷ [])) 0 (b'.' ∷ []);
}

unfoldable pub init_dir : ℕ → ℕ → ℕ → Cmd (Unit {0})
unfolding block_read block_write
init_dir block self parent = do
  (read, b) ← block_read block
  m ← as_entries b
  block_write block (entries (first_entries self parent m)) >>= (λ written. pure tt)

-- the loop over `j` of `updateDir`
unfoldable pub free_entry : List ℕ → Option ℕ
free_entry [] = none
free_entry (i ∷ is) =
    if i == inum_free then some 0 else elim (free_entry is) [ none ↦ none | some j ↦ some (suc j) ]

abbrev pub pointer_at : List ℕ → ℕ → ℕ
pointer_at ps i = elim (get_elem? ps i) [ none ↦ 0 | some b ↦ b ]

-- A new block of entries for the directory `dir` at the pointer `i`: `none` if there is none left.
unfoldable pub extend_dir : ℕ → Inode → Inode → ℕ → Cmd (Option Inode)
unfolding init_dir block_read block_write
extend_dir rounds par dir i = do
  r ← reserve_free_data rounds
  on_found r (pure none) (λ b. do
    init_dir b dir.st_ino par.st_ino
    (read, x) ← block_read (65 + dir.st_ino / 2)
    p ← as_inodes x
    let h = half_of dir.st_ino p
    let new = set_half dir.st_ino (record h { directp = set h.directp i b }) p
    block_write (65 + dir.st_ino / 2) new
        >>= (λ written. pure (some (record dir { directp = set dir.directp i b }))))

-- `updateDir` at a free entry.
unfoldable pub write_entry : ℕ → Mydir → ℕ → List ℕ → ℕ → Cmd Bool
write_entry block m j name ino =
    if leb max_fname (length name)
    then crash
    else (block_write block
          (entries (record { inums = set m.inums j ino; fnames = set m.fnames j name }))
        >>= (λ written. pure true))

-- The loop of `updateDir`: its `i` is not set before the loop and not raised in it. A negative one
-- passes the test and selects no pointer of the inode. The result is whether it returned 0.
unfoldable pub update_loop : ℕ → ℕ → List ℕ → Inode → Inode → ℕ → ℕ → Cmd Bool
update_loop zero rounds name par dir ino i = λ d. out_of_fuel
update_loop (suc k) rounds name par dir ino i =
    if leb 0x8000_0000 i then crash else if leb num_direct_pointers i then pure false else (do
      dir' ←
          (if pointer_at dir.directp i == 0 then extend_dir rounds par dir i else pure (some dir))
      on_found dir' (pure false) (λ e. do
        (read, b) ← block_read (pointer_at e.directp i)
        if not read then pure false else (do
          m ← as_entries b
          on_found (free_entry m.inums) (update_loop k rounds name par e ino i)
              (λ j. write_entry (pointer_at e.directp i) m j name ino))))

-- The last '/' of a path: what stands before it and behind it.
unfoldable pub split_last : List ℕ → Option (List ℕ × List ℕ)
split_last [] = none
split_last (c ∷ cs) = elim (split_last cs) [
  | some (dir, name) ↦ some (c ∷ dir, name)
  | none ↦ if c == slash then some ([], cs) else none
]

-- `sfs_create` and `sfs_mkdir`, which differ in the kind of the inode alone: whether they returned
-- 0. `index` is what the variable `i` of `updateDir` happens to hold.
unfoldable pub make : ℕ → ℕ → Caller → Kind → List ℕ → Cmd Bool
unfolding update_loop split_last
make rounds index c k path = if leb 255 (length path) then pure false else elim (split_last path) [
  | none ↦ pure false
  | some (dir, name) ↦ do
    nav ← nav_path dir
    if not nav.found then pure false else (do
      inum ← reserve_free_inode rounds c k
      if inum == 0 then pure false else (do
        new ← get_inode inum
        if leb max_fname (length name)
            then crash
            else update_loop rounds rounds name nav.par nav.targ inum index))
]

unfoldable pub sfs_create : ℕ → ℕ → Caller → List ℕ → Cmd Bool
unfolding make
sfs_create rounds index c path = make rounds index c file path

unfoldable pub sfs_mkdir : ℕ → ℕ → Caller → List ℕ → Cmd Bool
unfolding make
sfs_mkdir rounds index c path = make rounds index c directory path

-- `sfs_getattr`: the number, the mode, the links and the size; `none` for -ENOENT.
unfoldable pub sfs_getattr : List ℕ → Cmd (Option (ℕ × ℕ × ℕ × ℕ))
sfs_getattr path = do
  nav ← nav_path path
  pure (if nav.found then some (nav.targ.st_ino, nav.targ.st_mode, 1, 512) else none)

unfoldable pub sfs_opendir : List ℕ → Cmd Bool
sfs_opendir path = do nav ← nav_path path; pure nav.found

-- The names of a block's used entries.
unfoldable pub used_names : List ℕ → List (List ℕ) → List (List ℕ)
used_names [] fs = []
used_names (i ∷ is) [] = []
used_names (i ∷ is) (f ∷ fs) = if i == inum_free then used_names is fs else f ∷ used_names is fs

unfoldable pub list_blocks : List ℕ → Cmd (List (List ℕ))
unfolding used_names block_read
list_blocks [] = pure []
list_blocks (b ∷ bs) = if b == 0 then list_blocks bs else (do
  (read, x) ← block_read b
  m ← as_entries x
  rest ← list_blocks bs
  pure (used_names m.inums m.fnames ++ rest))

-- `sfs_readdir`, with a filler that takes every name: `none` for -1, which is returned for what is
-- no directory. A path that leads nowhere is only logged.
unfoldable pub sfs_readdir : List ℕ → Cmd (Option (List (List ℕ)))
unfolding list_blocks
sfs_readdir path = do
  nav ← nav_path path
  if (nav.targ.st_mode / 4096) == 4
      then list_blocks nav.targ.directp >>= (λ names. pure (some names))
      else pure none

-- The layout that `sfs_init` gives a new disk.
abbrev pub layout : Superblock
layout = record { imap = 1; dmap = 5; i_list = 65; d_list = 1089; magicnum = 4511000 }

-- The loop of `sfs_init` over the maps: only the first inode is in use.
unfoldable pub clear_maps : ℕ → ℕ → Cmd (Unit {0})
unfolding block_write
clear_maps zero i = pure tt
clear_maps (suc k) i =
    block_write i (bytes (if i == 1 then 1 ∷ replicate 511 0 else replicate 512 0))
    >>= (λ written. clear_maps k (i + 1))

-- `sfs_init` on a disk that is empty (`fresh`) or whose magic number is another. `leftover` is what the
-- buffer, which is not cleared, happens to hold where the inode 1 stands. Where no data block can be
-- reserved, the C code goes on with a root at the block -1; here that is a fault.
unfoldable pub sfs_init : ℕ → Bool → Inode → Caller → Cmd (Unit {0})
unfolding clear_maps init_dir block_write block_read
sfs_init rounds fresh leftover c = do
  (read, b) ← block_read 0
  s ← as_super b
  if not fresh && (s.magicnum == 4511000)
      then pure tt
      else (block_write 0 (super layout) >>= (λ w0. clear_maps 64 1 >>= (λ u.
          reserve_free_data rounds >>= (λ r. on_found r crash (λ first.
            init_dir first 0 0
            >>= (λ u'. block_write 65 (inodes (root first) leftover) >>= (λ w1. pure tt)))))))
  where
    root : ℕ → Inode
    root first = record {
      st_mode = mode_of directory;
      st_ino = 0;
      st_uid = c.uid;
      st_gid = c.gid;
      st_time = c.now;
      directp = first ∷ replicate 43 0;
      indirectp = 0;
    }
