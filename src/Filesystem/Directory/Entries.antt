-- ===== src/Filesystem/Directory/Entries.antt =====
-- What `updateDir` does to the entries of a directory.
use osdesign.Base.{
  ℕ, zero, suc, ◌<◌, ◌≡◌, refl, ◌∙◌, ◌≢◌, inl, inr, true, false, Option, none, some, List, [], ◌∷◌,
  arith, leb, ◌==◌, Option-cases, set, length,
}
use osdesign.Base.Command.{ok, out_of_fuel}
use osdesign.Filesystem.Disk.{
  with_block, Inode, Mydir, entries, Disk, num_direct_pointers, max_fname, inum_free, block_read,
  block_write,
}
use osdesign.Filesystem.Path.{name_eq, find_entry}
use osdesign.Filesystem.Directory.{free_entry, pointer_at, write_entry, update_loop}

pub name_eq_refl : (a : List ℕ) → name_eq a a ≡ true
unfolding name_eq
name_eq_refl [] = refl
name_eq_refl (x ∷ xs) = ground (arith, name_eq_refl xs)

-- After the first free entry was written, with an inode number that is not the mark of a free
-- entry, the name leads to the new inode, if it led to none before, and any other name leads where
-- it led.
pub find_entry-set :
    (name other : List ℕ) (ino j : ℕ) (is : List ℕ) (fs : List (List ℕ))
    → free_entry is ≡ some j
    → length fs ≡ length is
    → ino ≢ inum_free
    → (find_entry name is fs ≡ none → find_entry name (set is j ino) (set fs j name) ≡ some ino)
      × (name_eq name other ≡ false
          → find_entry other (set is j ino) (set fs j name) ≡ find_entry other is fs)
unfolding find_entry free_entry
find_entry-set name other ino j [] fs e len ne = cc
find_entry-set name other ino j (i ∷ is) [] e len ne = absurd (omega arith)
find_entry-set name other ino j (i ∷ is) (f ∷ fs) e len ne = elim (Option-cases (free_entry is)) [
  | inl q ↦ (λ z. ground (arith, q, name_eq_refl name), λ z. ground (arith, q))
  | inr (k, q) ↦
      let rest = find_entry-set name other ino k is fs q (omega arith) ne in
      (λ z. ground (arith, q, rest, name_eq_refl name), λ z. ground (arith, q, rest))
]

abbrev pub with_entry : Mydir → ℕ → ℕ → List ℕ → Mydir
with_entry m j ino name = record { inums = set m.inums j ino; fnames = set m.fnames j name }

abbrev pub with_entries : Disk → ℕ → Mydir → Disk
with_entries d b m = with_block d b (entries m)

-- A directory whose pointer `i` leads to a block of entries that can be read.
pub record HasBlock (d : Disk) (dir : Inode) (i b : ℕ) (m : Mydir) : Type 0 where
  pub inside : i < num_direct_pointers
  pub pointer : pointer_at dir.directp i ≡ b
  pub ne_zero : b ≢ 0
  pub readable : d.read_fails b ≡ false
  pub holds : d.blocks b ≡ some (entries m)

module _ (d : Disk) (dir par : Inode) (i b : ℕ) (m : Mydir) (h : HasBlock d dir i b m) (rounds : ℕ)
    (name : List ℕ) (ino : ℕ) where
  update_loop-step :
      (k : ℕ) (o : Option ℕ)
      → free_entry m.inums ≡ o
      → update_loop (suc k) rounds name par dir ino i d ≡ (elim o [
        | none ↦ update_loop k rounds name par dir ino i d
        | some j ↦ write_entry b m j name ino d
      ])
  unfolding update_loop block_read
  update_loop-step k none e =
      let sign : leb 0x8000_0000 i ≡ false = ground (arith, h.inside) in
      let test : leb num_direct_pointers i ≡ false = ground (arith, h.inside) in
      let zero' : (pointer_at dir.directp i == 0) ≡ false = ground (arith, h.pointer, h.ne_zero) in
      rw (sign, test, zero', h.pointer, h.readable, h.holds, e)
  update_loop-step k (some j) e =
      let sign : leb 0x8000_0000 i ≡ false = ground (arith, h.inside) in
      let test : leb num_direct_pointers i ≡ false = ground (arith, h.inside) in
      let zero' : (pointer_at dir.directp i == 0) ≡ false = ground (arith, h.pointer, h.ne_zero) in
      rw (sign, test, zero', h.pointer, h.readable, h.holds, e)

  -- If the block at the pointer that `i` selects is full, then `updateDir` never returns, however
  -- many rounds its loop makes: it looks at the same block for ever.
  pub update_loop-full :
      (k : ℕ) → free_entry m.inums ≡ none → update_loop k rounds name par dir ino i d ≡ out_of_fuel
  unfolding update_loop
  update_loop-full zero e = refl
  update_loop-full (suc k) e = update_loop-step k none e ∙ update_loop-full k e

  -- If the block at the pointer that `i` selects has a free entry, the name is shorter than 24 bytes
  -- and the write succeeds, then `updateDir` returns 0 at once and changes the first free entry of
  -- that block alone. Then the name leads to the new inode, if it led nowhere in the block before,
  -- and every other name leads where it led.
  pub update_loop-adds :
      (k j : ℕ)
      → free_entry m.inums ≡ some j
      → length name < max_fname
      → d.write_fails b ≡ false
      → length m.fnames ≡ length m.inums
      → ino ≢ inum_free
      → let m' = with_entry m j ino name in
        (update_loop (suc k) rounds name par dir ino i d ≡ ok true (with_entries d b m'))
        × (find_entry name m.inums m.fnames ≡ none → find_entry name m'.inums m'.fnames ≡ some ino)
        × ((other : List ℕ)
            → name_eq name other ≡ false
            → find_entry other m'.inums m'.fnames ≡ find_entry other m.inums m.fnames)
  unfolding write_entry block_write
  update_loop-adds k j e short writes len ne =
      let fits : leb max_fname (length name) ≡ false = ground (arith, short) in
      (
        update_loop-step k (some j) e ∙ rw (fits, writes) refl,
        (find_entry-set name name ino j m.inums m.fnames e len ne).0,
        λ other. (find_entry-set name other ino j m.inums m.fnames e len ne).1,
      )
