-- ===== src/Filesystem/Reserve.antt =====
-- `reserveFreeData` and `reserveFreeInode` of sfs.c: first fit in the maps.
pub mod Search
pub mod Map
pub mod Bytes
pub mod Inodes
use osdesign.Base.{
  ℕ, zero, suc, ◌+◌, ◌-◌, ◌*◌, ◌/◌, Option, none, some, List, [], ◌∷◌, ltb, ◌==◌, if◌then◌else◌,
  set,
}
use osdesign.Base.Command.{out_of_fuel, pure, ◌>>=◌, ◌>>◌}
use osdesign.Filesystem.Disk.{
  Superblock, Inode, bytes, Cmd, replicate, num_direct_pointers, block_read, block_write, as_super,
  as_bytes, as_inodes, half_of, set_half, on_found,
}

-- the loops over `j`
unfoldable pub first_zero : List ℕ → Option ℕ
first_zero [] = none
first_zero (b ∷ bs) =
    if b == 0 then some 0 else elim (first_zero bs) [ none ↦ none | some j ↦ some (suc j) ]

-- `reserveFreeData` from the block `bnum` on, with -1 as `none`
unfoldable pub data_loop : ℕ → Superblock → ℕ → Cmd (Option ℕ)
data_loop zero s bnum = λ d. out_of_fuel
data_loop (suc k) s bnum =
    if ltb bnum s.i_list
    then (do
      (read, b) ← block_read bnum
      dmap ← as_bytes b
      on_found (first_zero dmap) (data_loop k s (bnum + 1)) (λ j.
          block_write bnum (bytes (set dmap j 1)) >>= (λ written.
            pure (if written then some (512 * (bnum - s.dmap) + j + s.d_list) else none))))
    else pure none

unfoldable pub reserve_free_data : ℕ → Cmd (Option ℕ)
unfolding data_loop
reserve_free_data rounds = do (read, b) ← block_read 0; s ← as_super b; data_loop rounds s s.dmap

pub data Kind : Type 0 where
  directory file : Kind

-- `S_IFDIR` or `S_IFREG`, read and write for all
abbrev pub mode_of : Kind → ℕ
mode_of directory = 0o40666
mode_of file = 0o100666

-- Who makes the inode, and when.
pub record Caller : Type 0 where
  pub uid : ℕ
  pub gid : ℕ
  pub now : ℕ

abbrev pub fresh_inode : Caller → Kind → ℕ → Inode → Inode
fresh_inode c k inum i = record i {
  st_mode = mode_of k;
  st_ino = inum;
  st_uid = c.uid;
  st_gid = c.gid;
  st_time = c.now;
  directp = replicate num_direct_pointers 0;
  indirectp = 0;
}

-- The block 65 is the start of the inodes; the code writes the number out.
unfoldable pub write_fresh : Caller → Kind → ℕ → Cmd (Unit {0})
write_fresh c k inum = do
  (read, b) ← block_read (65 + inum / 2)
  p ← as_inodes b
  block_write (65 + inum / 2) (set_half inum (fresh_inode c k inum (half_of inum p)) p)
      >>= (λ written. pure tt)

-- `reserveFreeInode` from the block `iplace` on; 0 means that there is none. A failed write of the
-- map is only logged.
unfoldable pub inode_loop : ℕ → Caller → Kind → Superblock → ℕ → Cmd ℕ
inode_loop zero c t s iplace = λ d. out_of_fuel
inode_loop (suc k) c t s iplace =
    if ltb iplace s.dmap
    then (do
      (read, b) ← block_read iplace
      imap ← as_bytes b
      on_found (first_zero imap) (inode_loop k c t s (iplace + 1)) (λ j.
          block_write iplace (bytes (set imap j 1)) >>= (λ written.
            write_fresh c t (512 * (iplace - s.imap) + j)
            >>= (λ u. pure (512 * (iplace - s.imap) + j)))))
    else pure 0

unfoldable pub reserve_free_inode : ℕ → Caller → Kind → Cmd ℕ
unfolding inode_loop
reserve_free_inode rounds c t = do
  (read, b) ← block_read 0
  s ← as_super b
  inode_loop rounds c t s s.imap

-- `getInode`: `none` for -1
unfoldable pub get_inode : ℕ → Cmd (Option Inode)
unfolding block_read
get_inode inum = do
  (read, b) ← block_read (65 + inum / 2)
  p ← as_inodes b
  pure (if read then some (half_of inum p) else none)
