-- ===== src/Filesystem/Reserve/Map.antt =====
-- `reserveFreeData` as a search in the map of the data blocks, on a disk with the layout of
-- `sfs_init` whose reads and writes succeed.
use osdesign.Base.{
  ℕ, suc, ◌+◌, ◌-◌, ◌*◌, ◌≤◌, ◌<◌, ◌≡◌, sym, ◌∙◌, inl, inr, true, false, Option, none, some, List,
  arith, ltb, set, get_elem?,
}
use osdesign.Base.Command.{Run, ok}
use osdesign.Filesystem.Disk.{super, bytes, Disk, with_block, block_read, block_write}
use osdesign.Filesystem.Reserve.Search.{FreeIn, Found, search-Found, IsMap}
use osdesign.Filesystem.Reserve.{first_zero, data_loop, reserve_free_data}
use osdesign.Filesystem.Directory.{layout}

-- the byte of a map at `j`
abbrev pub byte_at : List ℕ → ℕ → ℕ
byte_at l j = elim (get_elem? l j) [ none ↦ 1 | some b ↦ b ]

-- A disk as `sfs_init` lays it out: the superblock, and maps of 512 bytes for the data blocks.
pub record IsLaid (d : Disk) : Type 0 where
  pub reads : (n : ℕ) → d.read_fails n ≡ false
  pub writes : (n : ℕ) → d.write_fails n ≡ false
  pub top : d.blocks 0 ≡ some (super layout)
  pub map : IsMap 5 65 d

abbrev pub with_byte : Disk → ℕ → List ℕ → Disk
with_byte d b l = with_block d b (bytes l)

-- The map block `b` of the data blocks has a zero at `j`.
abbrev pub Free : Disk → ℕ → ℕ → List ℕ → Type 0
Free d b j l = FreeIn 5 65 d b j l

-- What one search finds: nothing to reserve and no write, or the first free block, by the order of
-- the map, whose byte alone is set.
abbrev pub Reserved : Disk → Run Disk (Option ℕ) → Type 0
Reserved d r =
    Found 5 65 d none (λ b j l. ok (some (512 * (b - 5) + j + 1089)) (with_byte d b (set l j 1))) r

module _ (d : Disk) (w : IsLaid d) where
  data_loop-past : (k b : ℕ) → 65 ≤ b → data_loop (suc k) layout b d ≡ ok none d
  unfolding data_loop
  data_loop-past k b past = ground arith

  data_loop-full :
      (k b : ℕ) (l : List ℕ)
      → b < 65
      → d.blocks b ≡ some (bytes l)
      → first_zero l ≡ none
      → data_loop (suc k) layout b d ≡ data_loop k layout (b + 1) d
  unfolding data_loop block_read
  data_loop-full k b l below holds full =
      let test : ltb b 65 ≡ true = ground arith in rw (test, w.reads b, holds, full)

  data_loop-Free :
      (k b : ℕ) (l : List ℕ) (j : ℕ)
      → Free d b j l
      → first_zero l ≡ some j
      → data_loop (suc k) layout b d
        ≡ ok (some (512 * (b - 5) + j + 1089)) (with_byte d b (set l j 1))
  unfolding data_loop block_read block_write
  data_loop-Free k b l j f free =
      let test : ltb b 65 ≡ true = ground (arith, f.below) in
      rw (test, w.reads b, f.holds, free, w.writes b)

-- On a disk with the layout of `sfs_init` whose reads and writes succeed, with more than 60 rounds,
-- `reserveFreeData` returns: it fails, with no write, if no byte of the map is zero; otherwise it
-- reserves the block of the first zero byte and sets this byte alone.
pub reserve_free_data-Reserved :
    (rounds : ℕ) (d : Disk) → IsLaid d → 60 < rounds → Reserved d (reserve_free_data rounds d)
unfolding reserve_free_data block_read
reserve_free_data-Reserved rounds d w fuel =
    rw (w.reads 0, w.top)
      (search-Found 5 65 d {loop = λ k b. data_loop k layout b}
        (record { past = data_loop-past d w; full = data_loop-full d w; free = data_loop-Free d w })
        w.map rounds (omega arith) (omega arith))

-- On a disk with the layout of `sfs_init` whose reads and writes succeed, with more than 60 rounds, each
-- block that is reserved has a number from 1089 on, where the data blocks
-- start, to 31808, inside the disk of 32768 blocks.
pub reserve_free_data_bounds :
    (rounds n : ℕ) (d d' : Disk)
    → IsLaid d
    → 60 < rounds
    → reserve_free_data rounds d ≡ ok (some n) d'
    → (1089 ≤ n) × (n < 31809)
reserve_free_data_bounds rounds n d d' w fuel e =
    elim (reserve_free_data-Reserved rounds d w fuel) [
      | inl (r, _) ↦ cc (sym e ∙ r)
      | inr (b, j, l, f, _, r) ↦
          let same : n ≡ 512 * (b - 5) + j + 1089 = ground (arith, sym e ∙ r) in
          omega (arith, same, f.above, f.below, f.inside)
    ]
