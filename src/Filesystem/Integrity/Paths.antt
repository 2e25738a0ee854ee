-- ===== src/Filesystem/Integrity/Paths.antt =====
-- What the lookups of sfs.c keep of a sound disk, and the inodes that they lead to.
use osdesign.Base.{
  ℕ, zero, suc, ◌+◌, ◌/◌, ◌≤◌, ◌<◌, ◌≡◌, ap, ◌⊎◌, inl, inr, Bool, true, false, Bool-cases, ◌||◌,
  ◌&&◌, not, Option, none, some, List, [], ◌∷◌, arith, leb, ◌==◌, if◌then◌else◌, length,
}
use osdesign.Base.Command.{pure}
use osdesign.Filesystem.Disk.{Superblock, Inode, max_fname, inum_free}
use osdesign.Filesystem.Path.{
  name_eq, find_entry, find_in, next_name, at_end, Nav, nav_loop, nav_path,
}
use osdesign.Filesystem.Directory.{list_blocks, sfs_getattr, sfs_opendir, sfs_readdir}
use osdesign.Filesystem.Integrity.{Sound, IsGood, AreGood, AreLeads, Leads, AllName}
use osdesign.Filesystem.Integrity.Short.{IsShort, IsShort-tail, next_name-IsShort, too_long}
use osdesign.Filesystem.Keeps.{
  Keeps, Keeps-pure, Keeps-crash, Keeps-if, Keeps-bind, Keeps-on_found, Any, first_part,
  second_part,
}
use osdesign.Filesystem.Integrity.Blocks.{
  IsTop, block_read-Keeps, block_read-top, as_super-Keeps, as_inodes-Keeps, as_entries-Keeps,
  half_of-IsGood,
}

abbrev pub IsGoodIfAny : Option Inode → Type 0
IsGoodIfAny none = Unit {0}
IsGoodIfAny (some i) = IsGood i

-- The number that a name leads to is the number of an inode.
find_entry-number :
    (name is : List ℕ) (fs : List (List ℕ)) (i : ℕ)
    → AllName is
    → find_entry name is fs ≡ some i
    → i < 2048
unfolding find_entry
find_entry-number name [] fs i all e = cc
find_entry-number name (j ∷ is) [] i all e = cc
find_entry-number name (j ∷ is) (f ∷ fs) i all e =
    elim (Bool-cases (not (j == inum_free) && name_eq f name)) [
      | inl hit ↦
          let same : j ≡ i = ground (arith, e, hit) in
          elim all.0 [
            | inl free ↦ absurd (ground (arith, free, hit))
            | inr lt ↦ omega (arith, same, lt)
          ]
      | inr miss ↦ find_entry-number name is fs i all.1 (ground (arith, e, miss))
    ]

-- A pointer that is not 0 leads to a data block.
data_block : (b : ℕ) → Leads b → (b == 0) ≡ false → 1089 ≤ b
data_block b (inl z) e = absurd (ground (arith, z, e))
data_block b (inr hi) e = hi

-- Both inodes that `navPath` leaves are good.
abbrev pub IsWay : Nav → Type 0
IsWay n = IsGood n.par × IsGood n.targ

stay-IsGood :
    (r : Option Inode) (t : Inode)
    → IsGoodIfAny r
    → IsGood t
    → IsGood (elim r [ none ↦ t | some i ↦ i ])
stay-IsGood none t g h = h
stay-IsGood (some i) t g h = g

-- The number that `sfs_getattr` gives is the number of an inode.
abbrev pub IsNumbered : Option (ℕ × ℕ × ℕ × ℕ) → Type 0
IsNumbered none = Unit {0}
IsNumbered (some a) = a.0 < 2048

module _ {X : Type 0} where
  -- The block of the inode `i`.
  inode_range :
      (s : Superblock) (i : ℕ)
      → IsTop X s
      → i < 2048
      → X ⊎ ((65 ≤ i / 2 + s.i_list) × (i / 2 + s.i_list < 1089))
  inode_range s i t lt = elim t.known [
    | inl e ↦
        let at : s.i_list ≡ 65 = ap (λ x. x.i_list) e in
        inr (omega (arith, at), omega (arith, at, lt))
    | inr z ↦ inl z.0
  ]

  root_range : (s : Superblock) → IsTop X s → X ⊎ ((65 ≤ s.i_list) × (s.i_list < 1089))
  root_range s t = elim t.known [
    | inl e ↦
        let at : s.i_list ≡ 65 = ap (λ x. x.i_list) e in inr (omega (arith, at), omega (arith, at))
    | inr z ↦ inl z.0
  ]

  find_in-Keeps :
      (s : Superblock) (name bs : List ℕ)
      → IsTop X s
      → AreLeads bs
      → Keeps X (Sound X) IsGoodIfAny (find_in s name bs)
  unfolding find_in
  find_in-Keeps s name [] t all = Keeps-pure tt
  find_in-Keeps s name (b ∷ bs) t all =
      Keeps-if (b == 0) (λ q. find_in-Keeps s name bs t all.1)
        (λ q. Keeps-bind (block_read-Keeps b) (λ r fr.
          Keeps-bind (as_entries-Keeps b r.1 fr (data_block b all.0 q)) (λ m names.
            Keeps-on_found (find_entry name m.inums m.fnames) (find_in-Keeps s name bs t all.1)
              (λ i e. Keeps-bind (block_read-Keeps (i / 2 + s.i_list)) (λ x fx.
                Keeps-bind
                  (as_inodes-Keeps (i / 2 + s.i_list) x.1 fx
                    (inode_range s i t (find_entry-number name m.inums m.fnames i names e)))
                  (λ p g. Keeps-pure (half_of-IsGood i p g)))))))

  nav_loop-Keeps :
      (k : ℕ) (s : Superblock) (path : List ℕ) (p t : Inode)
      → IsTop X s
      → X ⊎ IsShort path
      → IsGood p
      → IsGood t
      → Keeps X (Sound X) IsWay (nav_loop k s path p t)
  unfolding nav_loop
  nav_loop-Keeps zero s path p t top short gp gt = Keeps-pure (gp, gt)
  nav_loop-Keeps (suc k) s path p t top short gp gt =
      let parts = next_name-IsShort path short in
      Keeps-if (leb max_fname (length (next_name path).0))
        (λ q. Keeps-crash (too_long (next_name path).0 (first_part parts) q))
        (λ q. Keeps-bind (find_in-Keeps s (next_name path).0 t.directp top gt.lead) (λ r g.
          Keeps-if ((next_name path).2 || at_end (next_name path).1)
            (λ e. Keeps-pure (gt, stay-IsGood r t g gt))
            (λ e.
              nav_loop-Keeps k s (next_name path).1 t _ top (second_part parts) gt
                (stay-IsGood r t g gt))))

  pub nav_path-Keeps : (path : List ℕ) → X ⊎ IsShort path → Keeps X (Sound X) IsWay (nav_path path)
  unfolding nav_path
  nav_path-Keeps path short = Keeps-bind block_read-top (λ r fr.
      Keeps-bind (as_super-Keeps r.1 fr.0 fr.1) (λ s top.
        Keeps-bind (block_read-Keeps s.i_list) (λ x fx.
          Keeps-bind (as_inodes-Keeps s.i_list x.1 fx (root_range s top))
            (λ root g. from_root s root path top short g))))
    where
      from_root :
          (s : Superblock) (root : Inode × Inode) (path : List ℕ)
          → IsTop X s
          → X ⊎ IsShort path
          → AreGood root
          → Keeps X (Sound X) IsWay (elim path [
            | [] ↦ pure (record { found = true; par = root.0; targ = root.0 })
            | c ∷ [] ↦ pure (record { found = true; par = root.0; targ = root.0 })
            | c ∷ d ∷ cs ↦ nav_loop 10000 s (d ∷ cs) root.0 root.0
          ])
      from_root s root [] top short g = Keeps-pure (g.0, g.0)
      from_root s root (c ∷ []) top short g = Keeps-pure (g.0, g.0)
      from_root s root (c ∷ d ∷ cs) top short g =
          nav_loop-Keeps 10000 s (d ∷ cs) root.0 root.0 top
            (elim short [ inl x ↦ inl x | inr s ↦ inr (IsShort-tail c (d ∷ cs) s) ]) g.0 g.0

  pub sfs_getattr-Keeps :
      (path : List ℕ) → X ⊎ IsShort path → Keeps X (Sound X) IsNumbered (sfs_getattr path)
  unfolding sfs_getattr
  sfs_getattr-Keeps path short =
      Keeps-bind (nav_path-Keeps path short) (λ nav w. Keeps-pure (numbered nav.found nav.targ w.1))
    where
      numbered :
          (b : Bool) (t : Inode)
          → IsGood t
          → IsNumbered (if b then some (t.st_ino, t.st_mode, 1, 512) else none)
      numbered true t g = g.number
      numbered false t g = tt

  pub sfs_opendir-Keeps :
      (path : List ℕ) → X ⊎ IsShort path → Keeps X (Sound X) Any (sfs_opendir path)
  unfolding sfs_opendir
  sfs_opendir-Keeps path short = Keeps-bind (nav_path-Keeps path short) (λ nav w. Keeps-pure tt)

  list_blocks-Keeps : (bs : List ℕ) → AreLeads bs → Keeps X (Sound X) Any (list_blocks bs)
  unfolding list_blocks
  list_blocks-Keeps [] all = Keeps-pure tt
  list_blocks-Keeps (b ∷ bs) all =
      Keeps-if (b == 0) (λ q. list_blocks-Keeps bs all.1)
        (λ q. Keeps-bind (block_read-Keeps b) (λ r fr.
          Keeps-bind (as_entries-Keeps b r.1 fr (data_block b all.0 q))
            (λ m u. Keeps-bind (list_blocks-Keeps bs all.1) (λ rest v. Keeps-pure tt))))

  pub sfs_readdir-Keeps :
      (path : List ℕ) → X ⊎ IsShort path → Keeps X (Sound X) Any (sfs_readdir path)
  unfolding sfs_readdir
  sfs_readdir-Keeps path short = Keeps-bind (nav_path-Keeps path short) (λ nav w.
      Keeps-if ((nav.targ.st_mode / 4096) == 4)
        (λ q. Keeps-bind (list_blocks-Keeps nav.targ.directp w.1.lead) (λ names u. Keeps-pure tt))
        (λ q. Keeps-pure tt))
