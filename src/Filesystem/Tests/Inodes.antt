-- ===== src/Filesystem/Tests/Inodes.antt =====
-- Inodes and new entries on a small disk.
use osdesign.Base.{
  ℕ, ◌<◌, ◌≤◌, ◌≡◌, refl, inl, inr, true, false, none, some, List, [], ◌∷◌, arith, ltb, ◌==◌,
  if◌then◌else◌, length, Bool-cases,
}
use osdesign.Base.Command.{ok}
use osdesign.Filesystem.Disk.{
  Inode, Mydir, super, bytes, inodes, entries, Disk, replicate, zero_inode, inum_free, block_read,
  block_write, as_inodes,
}
use osdesign.Filesystem.Reserve.{
  Caller, file, first_zero, write_fresh, inode_loop, reserve_free_inode,
}
use osdesign.Filesystem.Reserve.Search.{Found}
use osdesign.Filesystem.Reserve.Inodes.{
  pair_of, HasInodes, reserved, inum_of, reserve_free_inode-Found,
}
use osdesign.Filesystem.Reserve.Inodes.Kept.{Made, reserve_free_inode-get_inode}
use osdesign.Filesystem.Path.{Nav}
use osdesign.Filesystem.Directory.{layout}

abbrev user : Caller
user = record { uid = 7; gid = 8; now = 100 }

abbrev root : Inode
root = record zero_inode { directp = 1089 ∷ replicate 43 0 }

abbrev root_entries : Mydir
root_entries = record { inums = 0 ∷ replicate 15 inum_free; fnames = (b'.' ∷ []) ∷ replicate 15 [] }

abbrev inode_map : ℕ → List ℕ
inode_map b = if b == 1 then 1 ∷ replicate 511 0 else replicate 512 0

-- A disk with the root directory alone.
abbrev rooted : Disk
rooted = record {
  blocks = λ b.
      if b == 0
      then some (super layout)
      else if b == 65
      then some (inodes root zero_inode)
      else if b == 1089
      then some (entries root_entries)
      else if ltb b 65
      then some (bytes (inode_map b))
      else none;
  read_fails = λ n. false;
  write_fails = λ n. false;
}

rooted-HasInodes : HasInodes rooted
rooted-HasInodes = record {
  reads = λ n. refl;
  writes = λ n. refl;
  top = refl;
  map = λ b lo hi. (inode_map b, ground (arith, lo, hi), size b);
  blocks = λ b lo hi e. pair b lo hi e;
}
  where
    size : (b : ℕ) → length (inode_map b) ≡ 512
    size b = elim (Bool-cases (b == 1)) [ inl q ↦ rw q refl | inr q ↦ rw q refl ]

    pair :
        (b : ℕ)
        → 65 ≤ b
        → b < 1089
        → (e : Disk) → as_inodes (rooted.blocks b) e ≡ ok (pair_of (rooted.blocks b)) e
    pair b lo hi e =
        let first : (b == 0) ≡ false = ground (arith, lo) in
        let data_block : (b == 1089) ≡ false = ground (arith, hi) in
        let map_block : ltb b 65 ≡ false = ground (arith, lo) in
        elim (Bool-cases (b == 65)) [
          | inl q ↦ rw (first, q) refl
          | inr q ↦ rw (first, q, data_block, map_block) refl
        ]

reserve_free_inode-Found_example :
    Found 1 5 rooted 0
      (λ b j l. ok (inum_of b j) (reserved user file rooted b j l))
      (reserve_free_inode 5 user file rooted)
reserve_free_inode-Found_example =
    reserve_free_inode-Found user file rooted rooted-HasInodes 5 (omega arith)

abbrev one_more : Disk
one_more = reserved user file rooted 1 1 (1 ∷ replicate 511 0)

reserves_one : reserve_free_inode 5 user file rooted ≡ ok 1 one_more
unfolding reserve_free_inode inode_loop first_zero write_fresh block_read block_write
reserves_one = refl

reserve_free_inode-get_inode_example : Made user file rooted 1 one_more
reserve_free_inode-get_inode_example =
    reserve_free_inode-get_inode 5 1 user file rooted one_more rooted-HasInodes (omega arith)
      reserves_one (omega arith)

abbrev at_root : Nav
at_root = record { found = true; par = root; targ = root }
