-- ===== src/Filesystem/Reserve/Inodes.antt =====
-- `reserveFreeInode`: the search in the map of the inodes, and the inode that it makes.
pub mod Kept
use osdesign.Base.{
  ℕ, suc, ◌+◌, ◌-◌, ◌*◌, ◌/◌, ◌≤◌, ◌<◌, ◌≡◌, refl, sym, ap, ◌∙◌, true, false, Option, none, some,
  List, arith, ltb, set,
}
use osdesign.Base.Command.{ok}
use osdesign.Filesystem.Disk.{
  super, Inode, Block, bytes, inodes, Disk, zero_inode, with_block, block_read, block_write,
  as_inodes, half_of, set_half,
}
use osdesign.Filesystem.Reserve.{
  first_zero, Caller, Kind, fresh_inode, write_fresh, inode_loop, reserve_free_inode,
}
use osdesign.Filesystem.Reserve.Search.{FreeIn, Found, search-Found, IsMap}
use osdesign.Filesystem.Directory.{layout}

-- The two inodes of a block; a block that was never written holds zeros.
abbrev pub pair_of : Option Block → Inode × Inode
pair_of (some (inodes i j)) = (i, j)
pair_of _ = (zero_inode, zero_inode)

-- A disk with the layout of `sfs_init` whose reads and writes succeed, as far as the inodes go.
pub record HasInodes (d : Disk) : Type 0 where
  pub reads : (n : ℕ) → d.read_fails n ≡ false
  pub writes : (n : ℕ) → d.write_fails n ≡ false
  pub top : d.blocks 0 ≡ some (super layout)
  pub map : IsMap 1 5 d
  pub blocks :
      (b : ℕ)
      → 65 ≤ b
      → b < 1089
      → (e : Disk) → as_inodes (d.blocks b) e ≡ ok (pair_of (d.blocks b)) e

-- The inode with the number `n`.
abbrev pub inode_at : Disk → ℕ → Inode
inode_at d n = half_of n (pair_of (d.blocks (65 + n / 2)))

-- The disk with another inode there.
abbrev pub with_inode : Disk → ℕ → Inode → Disk
with_inode d n i = with_block d (65 + n / 2) (set_half n i (pair_of (d.blocks (65 + n / 2))))

-- The number of the inode that the byte `j` of the block `b` of the map stands for.
abbrev pub inum_of : ℕ → ℕ → ℕ
inum_of b j = 512 * (b - 1) + j

-- The inode that is made, and the disk after its reservation.
abbrev pub made : Caller → Kind → ℕ → Inode
made c t n = fresh_inode c t n zero_inode

abbrev pub reserved : Caller → Kind → Disk → ℕ → ℕ → List ℕ → Disk
reserved c t d b j l =
    with_inode (with_block d b (bytes (set l j 1))) (inum_of b j) (made c t (inum_of b j))

write_fresh-ok :
    (c : Caller) (t : Kind) (n : ℕ) (d : Disk)
    → d.read_fails (65 + n / 2) ≡ false
    → d.write_fails (65 + n / 2) ≡ false
    → ((e : Disk) → as_inodes (d.blocks (65 + n / 2)) e ≡ ok (pair_of (d.blocks (65 + n / 2))) e)
    → write_fresh c t n d ≡ ok tt (with_inode d n (made c t n))
unfolding write_fresh block_read block_write
write_fresh-ok c t n d reads writes holds = rw (reads, holds d, writes) refl

module _ (c : Caller) (t : Kind) (d : Disk) (w : HasInodes d) where
  inode_loop-past : (k b : ℕ) → 5 ≤ b → inode_loop (suc k) c t layout b d ≡ ok 0 d
  unfolding inode_loop
  inode_loop-past k b past = ground arith

  inode_loop-full :
      (k b : ℕ) (l : List ℕ)
      → b < 5
      → d.blocks b ≡ some (bytes l)
      → first_zero l ≡ none
      → inode_loop (suc k) c t layout b d ≡ inode_loop k c t layout (b + 1) d
  unfolding inode_loop block_read
  inode_loop-full k b l below holds full =
      let test : ltb b 5 ≡ true = ground arith in rw (test, w.reads b, holds, full)

  inode_loop-Free :
      (k b : ℕ) (l : List ℕ) (j : ℕ)
      → FreeIn 1 5 d b j l
      → first_zero l ≡ some j
      → inode_loop (suc k) c t layout b d ≡ ok (inum_of b j) (reserved c t d b j l)
  unfolding inode_loop block_read block_write
  inode_loop-Free k b l j f free =
      let test : ltb b 5 ≡ true = ground (arith, f.below) in
      let n : ℕ = inum_of b j in
      let d1 : Disk = with_block d b (bytes (set l j 1)) in
      let same : d1.blocks (65 + n / 2) ≡ d.blocks (65 + n / 2) = ground (arith, f.below) in
      let lies : 65 + n / 2 < 1089 = omega (arith, f.below, f.inside) in
      let written = write_fresh-ok c t n d1 (w.reads _) (w.writes _) (λ e.
        ap (λ x. as_inodes x e) same
        ∙ w.blocks (65 + n / 2) (omega arith) lies e
        ∙ ap (λ x. ok (pair_of x) e) (sym same)) in
      rw (test, w.reads b, f.holds, free, w.writes b, written) refl

  -- `reserveFreeInode` on such a disk, with more than four rounds, returns: 0, with no write, if no
  -- byte of the map is zero; otherwise the number of the first zero byte, after it has set this byte
  -- and written a fresh inode at the number, and nothing else.
  pub reserve_free_inode-Found :
      (rounds : ℕ)
      → 4 < rounds
      → Found 1 5 d 0
          (λ b j l. ok (inum_of b j) (reserved c t d b j l))
          (reserve_free_inode rounds c t d)
  unfolding reserve_free_inode block_read
  reserve_free_inode-Found rounds fuel =
      rw (w.reads 0, w.top)
        (search-Found 1 5 d {loop = λ k b. inode_loop k c t layout b}
          (record { past = inode_loop-past; full = inode_loop-full; free = inode_loop-Free }) w.map
          rounds (omega arith) (omega arith))
