-- ===== src/Filesystem/Directory/Init.antt =====
-- What `sfs_init` makes of an empty disk.
use osdesign.Base.{
  ℕ, zero, suc, ◌+◌, ◌-◌, ◌*◌, ◌≤◌, ◌<◌, ◌≡◌, refl, sym, ap, ◌∙◌, inl, inr, true, false, Option,
  none, some, List, [], ◌∷◌, arith, ltb, leb, ◌&&◌, ◌==◌, if◌then◌else◌, set, length, get_elem?,
}
use osdesign.Base.Command.{ok}
use osdesign.Filesystem.Disk.{
  with_block, super, Inode, Mydir, Block, bytes, inodes, entries, inum_free, Disk, replicate,
  block_read, block_write,
}
use osdesign.Filesystem.Reserve.{Caller, directory, mode_of, reserve_free_data}
use osdesign.Filesystem.Reserve.Map.{IsLaid, with_byte, Free, reserve_free_data-Reserved}
use osdesign.Filesystem.Reserve.Bytes.{data_byte, with_byte-IsLaid, reserve_free_data-data_byte}
use osdesign.Filesystem.Directory.{layout, clear_maps, first_entries, init_dir, sfs_init}

-- A disk whose reads and writes succeed.
pub record Works (d : Disk) : Type 0 where
  pub reads : (n : ℕ) → d.read_fails n ≡ false
  pub writes : (n : ℕ) → d.write_fails n ≡ false

-- The block of a map that `sfs_init` writes at `n`.
abbrev pub cleared : ℕ → Block
cleared n = bytes (if n == 1 then 1 ∷ replicate 511 0 else replicate 512 0)

-- The maps from `i` on are cleared, and no other block is written.
pub record Cleared (d d' : Disk) (i k : ℕ) : Type 0 where
  pub works : Works d'
  pub block :
      (n : ℕ) → d'.blocks n ≡ (if leb i n && ltb n (i + k) then some (cleared n) else d.blocks n)

with_block-Works : (d : Disk) (b : ℕ) (x : Block) → Works d → Works (with_block d b x)
with_block-Works d b x w = record { reads = w.reads; writes = w.writes }

later_block :
    (i k n : ℕ) (x y z : Option Block)
    → (n ≡ i → y ≡ x)
    → (if leb (i + 1) n && ltb n (i + 1 + k) then x else (if n == i then y else z))
      ≡ (if leb i n && ltb n (i + suc k) then x else z)
later_block i k n x y z same = ground (arith, same)

clear_maps-Cleared :
    (k i : ℕ) (d : Disk) → Works d → (d' : Disk) × (clear_maps k i d ≡ ok tt d') × Cleared d d' i k
unfolding clear_maps block_write
clear_maps-Cleared zero i d w = (d, refl, record { works = w; block = λ n. ground arith })
clear_maps-Cleared (suc k) i d w =
    let (d', runs, rest) =
      clear_maps-Cleared k (i + 1) (with_block d i (cleared i))
        (with_block-Works d i (cleared i) w) in
    (
      d',
      rw (w.writes i) runs,
      record {
        works = rest.works;
        block =
            λ n. rest.block n ∙ later_block i k n _ _ _ (λ e. ap (λ m. some (cleared m)) (sym e));
      },
    )

-- The root directory, whose entries are in the first data block, beside the inode `leftover`.
abbrev pub IsRoot : Inode → Disk → Type 0
IsRoot leftover d =
    (root : Inode) × (d.blocks 65 ≡ some (inodes root leftover))
    × (get_elem? root.directp 0 ≡ some 1089)
    × (m : Mydir) × (d.blocks 1089 ≡ some (entries m))
    × (m.inums ≡ 0 ∷ replicate 15 inum_free)

module _ (rounds : ℕ) (leftover : Inode) (c : Caller) (d : Disk) (w : Works d)
    (super_empty : d.blocks 0 ≡ none) where
  start : Disk
  start = with_block d 0 (super layout)

  Cleared-IsLaid : (d1 : Disk) → Cleared start d1 1 64 → IsLaid d1
  unfolding start
  Cleared-IsLaid d1 cl = record {
    reads = cl.works.reads;
    writes = cl.works.writes;
    top = cl.block 0;
    map = λ b lo hi. (replicate 512 0, cl.block b ∙ ground arith, refl);
  }

  -- The first reservation on the new disk.
  first_block :
      (d1 : Disk)
      → Cleared start d1 1 64
      → 60 < rounds
      → (d2 : Disk) × (reserve_free_data rounds d1 ≡ ok (some 1089) d2)
        × IsLaid d2
        × ((n : ℕ) → 65 ≤ n → d2.blocks n ≡ d.blocks n)
  unfolding start
  first_block d1 cl fuel = elim (reserve_free_data-Reserved rounds d1 laid fuel) [
    | inl (_, full) ↦ absurd (full 5 0 (replicate 512 0) unused)
    | inr (b, j, l, f, least, r) ↦
        let place : 512 * b + j ≤ 2560 = least 5 0 (replicate 512 0) unused in
        let number : 512 * (b - 5) + j + 1089 ≡ 1089 = omega (arith, place, f.above) in
        (
          with_byte d1 b (set l j 1),
          r ∙ ap (λ n. ok (some n) (with_byte d1 b (set l j 1))) number,
          with_byte-IsLaid d1 b j l laid f,
          λ n hi. behind n b (set l j 1) hi f.below,
        )
  ]
    where
      laid : IsLaid d1
      laid = Cleared-IsLaid d1 cl

      unused : Free d1 5 0 (replicate 512 0)
      unused = record {
        above = omega arith;
        below = omega arith;
        holds = cl.block 5;
        inside = omega arith;
        unused = refl;
      }

      behind : (n b : ℕ) (l : List ℕ) → 65 ≤ n → b < 65 → (with_byte d1 b l).blocks n ≡ d.blocks n
      behind n b l hi lo = ground (arith, cl.block n)

  root_inode : Inode
  root_inode = record {
    st_mode = mode_of directory;
    st_ino = 0;
    st_uid = c.uid;
    st_gid = c.gid;
    st_time = c.now;
    directp = 1089 ∷ replicate 43 0;
    indirectp = 0;
  }

  root_entries : Mydir
  root_entries = first_entries 0 0 (record { inums = replicate 16 0; fnames = replicate 16 [] })

  finished : Disk → Disk
  unfolding root_inode root_entries
  finished d2 =
      with_block (with_block d2 1089 (entries root_entries)) 65 (inodes root_inode leftover)

  finished-IsLaid : (d2 : Disk) → IsLaid d2 → IsLaid (finished d2)
  unfolding finished
  finished-IsLaid d2 laid = record {
    reads = laid.reads;
    writes = laid.writes;
    top = laid.top;
    map = λ b lo hi. kept b lo hi;
  }
    where
      kept :
          (b : ℕ)
          → 5 ≤ b
          → b < 65
          → (l : List ℕ) × ((finished d2).blocks b ≡ some (bytes l)) × (length l ≡ 512)
      kept b lo hi = let (l, holds, size) = laid.map b lo hi in (l, ground (arith, holds), size)

  -- On an empty disk, of which the blocks 0 and 1089 were never written, whose reads and writes
  -- succeed, with more than 60 rounds, `sfs_init` returns
  -- and leaves a disk with its layout, on which the first data block is reserved and holds the
  -- entries of the root directory: ".", the inode 0, and 15 free ones. The inode 1 is what the buffer
  -- happened to hold.
  pub sfs_init-IsLaid :
      d.blocks 1089 ≡ none
      → 60 < rounds
      → (d' : Disk) × (sfs_init rounds true leftover c d ≡ ok tt d')
        × IsLaid d'
        × (data_byte d' 1089 ≡ 1)
        × IsRoot leftover d'
  unfolding sfs_init init_dir block_read block_write start finished
  sfs_init-IsLaid root_empty fuel =
      let (d1, clears, cl) =
        clear_maps-Cleared 64 1 start (with_block-Works d 0 (super layout) w) in
      let (d2, reserves, laid, same) = first_block d1 cl fuel in
      (
        finished d2,
        rw
            (
              w.reads 0,
              super_empty,
              w.writes 0,
              clears,
              reserves,
              laid.reads 1089,
              same 1089 (omega arith) ∙ root_empty,
              laid.writes 1089,
              laid.writes 65,
            )
            refl,
        finished-IsLaid d2 laid,
        (reserve_free_data-data_byte rounds 1089 d1 d2 (Cleared-IsLaid d1 cl) fuel reserves).2 1089
            (omega arith),
        (root_inode, refl, refl, root_entries, refl, refl),
      )
