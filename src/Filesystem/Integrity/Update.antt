-- ===== src/Filesystem/Integrity/Update.antt =====
-- What `updateDir`, `sfs_create`, `sfs_mkdir` and `sfs_init` keep of a sound disk.
use osdesign.Base.{
  ℕ, zero, suc, ◌+◌, ◌/◌, ◌≤◌, ◌<◌, ◌≡◌, refl, sym, inl, inr, Bool, true, false, not, ◌&&◌, Option,
  none, some, List, ◌∷◌, arith, leb, ◌==◌, if◌then◌else◌, set, length, ◌⊎◌,
}
use mathlib.Core.Path.{subst}
use osdesign.Filesystem.Disk.{
  super, Inode, Mydir, bytes, entries, replicate, half_of, set_half, max_fname, num_direct_pointers,
  inum_free,
}
use osdesign.Filesystem.Reserve.{Caller, Kind, directory, mode_of}
use osdesign.Filesystem.Directory.{
  layout, pointer_at, first_entries, init_dir, free_entry, extend_dir, write_entry, update_loop,
  split_last, make, sfs_create, sfs_mkdir, clear_maps, sfs_init,
}
use osdesign.Filesystem.Integrity.{
  Leads, IsGood, Sound, Names, AllName, AllName-replicate, AllName-set, no_pointers,
  pointer_at-Leads, set_pointer-IsGood, pointer_at-set_same,
}
use osdesign.Filesystem.Integrity.Short.{IsShort, split_last-IsShort, too_long}
use osdesign.Filesystem.Keeps.{
  Keeps, Keeps-pure, Keeps-crash, Keeps-if, Keeps-bind, Keeps-on_found, Keeps-elim,
  Keeps-out_of_fuel, Any, first_part, second_part,
}
use osdesign.Filesystem.Integrity.Blocks.{
  block_read-Keeps, block_read-top, block_write-Keeps, as_super-Keeps, as_inodes-Keeps,
  as_entries-Keeps, half_of-IsGood, set_half-Fits,
}
use osdesign.Filesystem.Integrity.Reserve.{
  IsData, reserve_free_data-Keeps, reserve_free_inode-Keeps, get_inode-Keeps,
}
use osdesign.Filesystem.Integrity.Paths.{nav_path-Keeps}

first_entries-AllName :
    (self parent : ℕ) (m : Mydir)
    → self < 2048
    → parent < 2048
    → AllName (first_entries self parent m).inums
first_entries-AllName self parent m ns np = (inr ns, (other (self == parent), AllName-replicate 14))
  where
    other : (b : Bool) → Names (if b then inum_free else parent)
    other true = inl refl
    other false = inr np

data_of : (r : Option ℕ) (b : ℕ) → IsData r → r ≡ some b → 1089 ≤ b
data_of none b hi q = cc
data_of (some c) b hi q = ground (arith, hi, q)

-- A good directory with a block of entries at the pointer `i`.
abbrev pub HasBlock : ℕ → Option Inode → Type 0
HasBlock i none = Unit {0}
HasBlock i (some e) = IsGood e × (1089 ≤ pointer_at e.directp i)

has_block :
    (i : ℕ) (r : Option Inode) (e : Inode)
    → HasBlock i r
    → r ≡ some e
    → IsGood e × (1089 ≤ pointer_at e.directp i)
has_block i none e h q = cc
has_block i (some d) e h q = subst (λ x. HasBlock i x) q h

old_block :
    (i : ℕ) (d : Inode) → IsGood d → (pointer_at d.directp i == 0) ≡ false → HasBlock i (some d)
old_block i d g test = elim (pointer_at-Leads d.directp i g.lead) [
  | inl none' ↦ absurd (ground (arith, test, none'))
  | inr hi ↦ (g, hi)
]

root-IsGood :
    (c : Caller) (b : ℕ)
    → Leads b
    → IsGood (record {
      st_mode = mode_of directory;
      st_ino = 0;
      st_uid = c.uid;
      st_gid = c.gid;
      st_time = c.now;
      directp = b ∷ replicate 43 0;
      indirectp = 0;
    })
root-IsGood c b l = record { number = omega arith; pointers = refl; lead = (l, no_pointers.1) }

module _ {X : Type 0} where
  init_dir-Keeps :
      (b self parent : ℕ)
      → 1089 ≤ b
      → self < 2048
      → parent < 2048
      → Keeps X (Sound X) Any (init_dir b self parent)
  unfolding init_dir
  init_dir-Keeps b self parent hi ns np = Keeps-bind (block_read-Keeps b) (λ r fr.
      Keeps-bind (as_entries-Keeps b r.1 fr hi) (λ m u.
        Keeps-bind
          (block_write-Keeps b (entries (first_entries self parent m))
            (hi, first_entries-AllName self parent m ns np))
          (λ w v. Keeps-pure tt)))

  extend_dir-Keeps :
      (rounds i : ℕ) (par dir : Inode)
      → IsGood par
      → IsGood dir
      → i < num_direct_pointers
      → Keeps X (Sound X) (HasBlock i) (extend_dir rounds par dir i)
  unfolding extend_dir
  extend_dir-Keeps rounds i par dir gpar g lt = Keeps-bind (reserve_free_data-Keeps rounds) (λ r hi.
      Keeps-on_found r (Keeps-pure tt) (λ b q.
        let data' : 1089 ≤ b = data_of r b hi q in
        Keeps-bind (init_dir-Keeps b dir.st_ino par.st_ino data' g.number gpar.number) (λ u v.
          Keeps-bind (block_read-Keeps (65 + dir.st_ino / 2)) (λ x fx.
            Keeps-bind
              (as_inodes-Keeps (65 + dir.st_ino / 2) x.1 fx
                (inr (omega arith, omega (arith, g.number))))
              (λ p gp.
                let h = half_of dir.st_ino p in
                let h' : Inode = record h { directp = set h.directp i b } in
                Keeps-bind
                  (block_write-Keeps (65 + dir.st_ino / 2) (set_half dir.st_ino h' p) (
                    set_half-Fits dir.st_ino h' p g.number
                      (set_pointer-IsGood h i b (half_of-IsGood dir.st_ino p gp) data') gp))
                  (λ w y. Keeps-pure (
                    set_pointer-IsGood dir i b g data',
                    subst (λ n. 1089 ≤ n)
                        (sym (pointer_at-set_same dir.directp i b (omega (arith, g.pointers, lt))))
                        data',
                  )))))))

  write_entry-Keeps :
      (b j : ℕ) (m : Mydir) (name : List ℕ) (ino : ℕ)
      → 1089 ≤ b
      → AllName m.inums
      → ino < 2048
      → X ⊎ (length name < 24)
      → Keeps X (Sound X) Any (write_entry b m j name ino)
  unfolding write_entry
  write_entry-Keeps b j m name ino hi all lt short =
      Keeps-if (leb max_fname (length name)) (λ q. Keeps-crash (too_long name short q))
        (λ q.
          Keeps-bind
            (block_write-Keeps b
              (entries (record { inums = set m.inums j ino; fnames = set m.fnames j name }))
              (hi, AllName-set m.inums j ino all lt))
            (λ w u. Keeps-pure tt))

  not_negative : (i : ℕ) → X ⊎ (i < 0x8000_0000) → leb 0x8000_0000 i ≡ true → X
  not_negative i (inl x) below = x
  not_negative i (inr lt) below = absurd (ground (arith, lt, below))

  update_loop-Keeps :
      (k rounds : ℕ) (name : List ℕ) (par dir : Inode) (ino i : ℕ)
      → IsGood par
      → IsGood dir
      → ino < 2048
      → X ⊎ (length name < 24)
      → X ⊎ (i < 0x8000_0000)
      → Keeps X (Sound X) Any (update_loop k rounds name par dir ino i)
  unfolding update_loop
  update_loop-Keeps zero rounds name par dir ino i gpar g lt short sign = Keeps-out_of_fuel
  update_loop-Keeps (suc k) rounds name par dir ino i gpar g lt short sign =
      Keeps-if (leb 0x8000_0000 i) (λ below. Keeps-crash (not_negative i sign below))
        (λ q.
          Keeps-if (leb num_direct_pointers i) (λ q. Keeps-pure tt)
            (λ inside.
              Keeps-bind {R = HasBlock i}
                (Keeps-if (pointer_at dir.directp i == 0)
                  (λ q. extend_dir-Keeps rounds i par dir gpar g (ground (arith, inside)))
                  (λ q. Keeps-pure (old_block i dir g q)))
                (λ dir' h. Keeps-on_found dir' (Keeps-pure tt) (λ e q.
                  let (good, hi) = has_block i dir' e h q in
                  Keeps-bind (block_read-Keeps (pointer_at e.directp i)) (λ r fr.
                    Keeps-if (not r.0) (λ failed. Keeps-pure tt)
                      (λ works.
                        Keeps-bind (as_entries-Keeps (pointer_at e.directp i) r.1 fr hi) (λ m names.
                          Keeps-on_found (free_entry m.inums)
                            (update_loop-Keeps k rounds name par e ino i gpar good lt short sign)
                            (λ j f.
                              write_entry-Keeps (pointer_at e.directp i) j m name ino hi names lt
                                short))))))))

  make-Keeps :
      (rounds index : ℕ) (c : Caller) (t : Kind) (path : List ℕ)
      → X ⊎ IsShort path
      → X ⊎ (index < 0x8000_0000)
      → Keeps X (Sound X) Any (make rounds index c t path)
  unfolding make
  make-Keeps rounds index c t path short sign =
      Keeps-if (leb 255 (length path)) (λ q. Keeps-pure tt)
        (λ q. Keeps-elim (split_last path) (Keeps-pure tt) (λ parts e.
          Keeps-bind (nav_path-Keeps parts.0 (first_part (split_last-IsShort path parts short e)))
            (λ nav w.
              Keeps-if (not nav.found) (λ lost. Keeps-pure tt)
                (λ there. Keeps-bind (reserve_free_inode-Keeps rounds c t) (λ inum lt.
                  Keeps-if (inum == 0) (λ full. Keeps-pure tt)
                    (λ one. Keeps-bind (get_inode-Keeps inum lt) (λ new u.
                      Keeps-if (leb max_fname (length parts.1))
                        (λ long. Keeps-crash (
                          too_long parts.1 (second_part (split_last-IsShort path parts short e))
                            long))
                        (λ fits.
                          update_loop-Keeps rounds rounds parts.1 nav.par nav.targ inum index w.0
                            w.1 lt (second_part (split_last-IsShort path parts short e))
                            sign))))))))

  pub sfs_create-Keeps :
      (rounds index : ℕ) (c : Caller) (path : List ℕ)
      → X ⊎ IsShort path
      → X ⊎ (index < 0x8000_0000)
      → Keeps X (Sound X) Any (sfs_create rounds index c path)
  unfolding sfs_create
  sfs_create-Keeps rounds index c path short sign = make-Keeps rounds index c _ path short sign

  pub sfs_mkdir-Keeps :
      (rounds index : ℕ) (c : Caller) (path : List ℕ)
      → X ⊎ IsShort path
      → X ⊎ (index < 0x8000_0000)
      → Keeps X (Sound X) Any (sfs_mkdir rounds index c path)
  unfolding sfs_mkdir
  sfs_mkdir-Keeps rounds index c path short sign = make-Keeps rounds index c _ path short sign

  clear_maps-Keeps : (k i : ℕ) → 1 ≤ i → i + k ≤ 65 → Keeps X (Sound X) Any (clear_maps k i)
  unfolding clear_maps
  clear_maps-Keeps zero i lo hi = Keeps-pure tt
  clear_maps-Keeps (suc k) i lo hi =
      Keeps-bind
        (block_write-Keeps i (bytes (if i == 1 then 1 ∷ replicate 511 0 else replicate 512 0))
          (lo, omega arith, size (i == 1)))
        (λ w u. clear_maps-Keeps k (i + 1) (omega arith) (omega arith))
    where
      size : (b : Bool) → length {A = ℕ} (if b then 1 ∷ replicate 511 0 else replicate 512 0) ≡ 512
      size true = refl
      size false = refl

  pub sfs_init-Keeps :
      (rounds : ℕ) (fresh : Bool) (leftover : Inode) (c : Caller)
      → X
      → IsGood leftover
      → Keeps X (Sound X) Any (sfs_init rounds fresh leftover c)
  unfolding sfs_init
  sfs_init-Keeps rounds fresh leftover c x good = Keeps-bind block_read-top (λ r fr.
      Keeps-bind (as_super-Keeps r.1 fr.0 fr.1) (λ s top.
        Keeps-if (not fresh && (s.magicnum == 4511000)) (λ q. Keeps-pure tt)
          (λ q. Keeps-bind (block_write-Keeps 0 (super layout) (refl, refl)) (λ w0 u0.
            Keeps-bind (clear_maps-Keeps 64 1 (omega arith) (omega arith)) (λ u u1.
              Keeps-bind (reserve_free_data-Keeps rounds) (λ o hi.
                Keeps-on_found o (Keeps-crash x) (λ first q.
                  let data' : 1089 ≤ first = subst IsData q hi in
                  Keeps-bind (init_dir-Keeps first 0 0 data' (omega arith) (omega arith)) (λ u' u2.
                    Keeps-bind
                      (block_write-Keeps 65 _
                        (omega arith, omega arith, root-IsGood c first (inr data'), good))
                      (λ w1 u3. Keeps-pure tt)))))))))
