-- ===== src/Filesystem/Requests/Quiet.antt =====
-- The requests to sfs.c that only look at the disk.
use osdesign.Base.{
  ℕ, zero, suc, ◌+◌, ◌/◌, ◌≡◌, refl, true, false, Bool-cases, ◌||◌, Option, none, some, List, [],
  ◌∷◌, inl, inr, leb, ◌==◌, length,
}
use osdesign.Base.Command.{ok, pure}
use osdesign.Filesystem.Disk.{
  Superblock, super, Inode, bytes, inodes, entries, Block, Disk, block_read, as_super, as_inodes,
  as_entries, max_fname,
}
use osdesign.Filesystem.Reserve.{Caller}
use osdesign.Filesystem.Path.{Nav, find_entry, find_in, next_name, at_end, nav_loop, nav_path}
use osdesign.Filesystem.Directory.{list_blocks, sfs_getattr, sfs_opendir, sfs_readdir}
use osdesign.Filesystem.Keeps.{
  Any, Keeps, returned, Keeps-bind, Keeps-pure, Keeps-crash, Keeps-if, Keeps-on_found,
}
use osdesign.Filesystem.Requests.{
  Operation, Reply, init, getattr, create, unlink, open_file, release, read, write, rmdir, mkdir,
  opendir, readdir, releasedir, serve, writes_to, sfs_unlink, sfs_open, sfs_release, sfs_read,
  sfs_write, sfs_rmdir, sfs_releasedir,
}

module _ (start : Disk) where
  Same : Disk → Type 0
  Same d = d ≡ start

  block_read-Quiet : (n : ℕ) → Keeps (Unit {0}) Same Any (block_read n)
  unfolding block_read
  block_read-Quiet n = record {
    kept =
        λ d s. elim (Bool-cases (d.read_fails n)) [ inl q ↦ rw q (s, tt) | inr q ↦ rw q (s, tt) ];
  }

  as_super-Quiet : (x : Option Block) → Keeps (Unit {0}) Same Any (as_super x)
  as_super-Quiet none = Keeps-pure tt
  as_super-Quiet (some (super s)) = Keeps-pure tt
  as_super-Quiet (some (bytes l)) = Keeps-crash tt
  as_super-Quiet (some (inodes p q)) = Keeps-crash tt
  as_super-Quiet (some (entries m)) = Keeps-crash tt

  as_inodes-Quiet : (x : Option Block) → Keeps (Unit {0}) Same Any (as_inodes x)
  as_inodes-Quiet none = Keeps-pure tt
  as_inodes-Quiet (some (super s)) = Keeps-crash tt
  as_inodes-Quiet (some (bytes l)) = Keeps-crash tt
  as_inodes-Quiet (some (inodes p q)) = Keeps-pure tt
  as_inodes-Quiet (some (entries m)) = Keeps-crash tt

  as_entries-Quiet : (x : Option Block) → Keeps (Unit {0}) Same Any (as_entries x)
  as_entries-Quiet none = Keeps-pure tt
  as_entries-Quiet (some (super s)) = Keeps-crash tt
  as_entries-Quiet (some (bytes l)) = Keeps-crash tt
  as_entries-Quiet (some (inodes p q)) = Keeps-crash tt
  as_entries-Quiet (some (entries m)) = Keeps-pure tt

  find_in-Quiet :
      (s : Superblock) (name bs : List ℕ) → Keeps (Unit {0}) Same Any (find_in s name bs)
  unfolding find_in
  find_in-Quiet s name [] = Keeps-pure tt
  find_in-Quiet s name (b ∷ bs) =
      Keeps-if (b == 0) (λ q. find_in-Quiet s name bs)
        (λ q. Keeps-bind (block_read-Quiet b) (λ r u. Keeps-bind (as_entries-Quiet r.1) (λ m v.
          Keeps-on_found (find_entry name m.inums m.fnames) (find_in-Quiet s name bs) (λ i e.
            Keeps-bind (block_read-Quiet (i / 2 + s.i_list))
              (λ x w. Keeps-bind (as_inodes-Quiet x.1) (λ p y. Keeps-pure tt))))))

  nav_loop-Quiet :
      (k : ℕ) (s : Superblock) (path : List ℕ) (p t : Inode)
      → Keeps (Unit {0}) Same Any (nav_loop k s path p t)
  unfolding nav_loop
  nav_loop-Quiet zero s path p t = Keeps-pure tt
  nav_loop-Quiet (suc k) s path p t =
      Keeps-if (leb max_fname (length (next_name path).0)) (λ q. Keeps-crash tt)
        (λ q. Keeps-bind (find_in-Quiet s (next_name path).0 t.directp) (λ r u.
          Keeps-if ((next_name path).2 || at_end (next_name path).1) (λ e. Keeps-pure tt)
            (λ e. nav_loop-Quiet k s (next_name path).1 t _)))

  nav_path-Quiet : (path : List ℕ) → Keeps (Unit {0}) Same Any (nav_path path)
  unfolding nav_path
  nav_path-Quiet path = Keeps-bind (block_read-Quiet 0) (λ r u.
      Keeps-bind (as_super-Quiet r.1) (λ s v.
        Keeps-bind (block_read-Quiet s.i_list)
          (λ x w. Keeps-bind (as_inodes-Quiet x.1) (λ root y. from_root s root path))))
    where
      from_root :
          (s : Superblock) (root : Inode × Inode) (path : List ℕ)
          → Keeps {A = Nav} (Unit {0}) Same Any (elim path [
            | [] ↦ pure (record { found = true; par = root.0; targ = root.0 })
            | c ∷ [] ↦ pure (record { found = true; par = root.0; targ = root.0 })
            | c ∷ d ∷ cs ↦ nav_loop 10000 s (d ∷ cs) root.0 root.0
          ])
      from_root s root [] = Keeps-pure tt
      from_root s root (c ∷ []) = Keeps-pure tt
      from_root s root (c ∷ d ∷ cs) = nav_loop-Quiet 10000 s (d ∷ cs) root.0 root.0

  list_blocks-Quiet : (bs : List ℕ) → Keeps (Unit {0}) Same Any (list_blocks bs)
  unfolding list_blocks
  list_blocks-Quiet [] = Keeps-pure tt
  list_blocks-Quiet (b ∷ bs) =
      Keeps-if (b == 0) (λ q. list_blocks-Quiet bs)
        (λ q. Keeps-bind (block_read-Quiet b) (λ r u.
          Keeps-bind (as_entries-Quiet r.1)
            (λ m v. Keeps-bind (list_blocks-Quiet bs) (λ rest w. Keeps-pure tt))))

  query-Quiet :
      (rounds index : ℕ) (c : Caller) (q : Operation)
      → writes_to q ≡ false
      → Keeps (Unit {0}) Same Any (serve rounds index c q)
  unfolding serve sfs_getattr sfs_opendir sfs_readdir sfs_unlink sfs_open sfs_release sfs_read
      sfs_write sfs_rmdir sfs_releasedir
  query-Quiet rounds index c (init fresh leftover) w = cc
  query-Quiet rounds index c (create path) w = cc
  query-Quiet rounds index c (mkdir path) w = cc
  query-Quiet rounds index c (getattr path) w =
      Keeps-bind {R = Any} (Keeps-bind (nav_path-Quiet path) (λ nav u. Keeps-pure tt))
        (λ a v. Keeps-pure tt)
  query-Quiet rounds index c (opendir path) w =
      Keeps-bind {R = Any} (Keeps-bind (nav_path-Quiet path) (λ nav u. Keeps-pure tt))
        (λ a v. Keeps-pure tt)
  query-Quiet rounds index c (readdir path) w =
      Keeps-bind {R = Any}
        (Keeps-bind (nav_path-Quiet path) (λ nav u.
          Keeps-if ((nav.targ.st_mode / 4096) == 4)
            (λ q. Keeps-bind (list_blocks-Quiet nav.targ.directp) (λ names v. Keeps-pure tt))
            (λ q. Keeps-pure tt)))
        (λ a v. Keeps-pure tt)
  query-Quiet rounds index c (unlink path) w = Keeps-pure tt
  query-Quiet rounds index c (open_file path) w = Keeps-pure tt
  query-Quiet rounds index c (release path) w = Keeps-pure tt
  query-Quiet rounds index c (read path size offset) w = Keeps-pure tt
  query-Quiet rounds index c (write path buf offset) w = Keeps-pure tt
  query-Quiet rounds index c (rmdir path) w = Keeps-pure tt
  query-Quiet rounds index c (releasedir path) w = Keeps-pure tt

-- A request that is served and is neither the mount nor `create` nor `mkdir` leaves the disk as it
-- was.
pub serve-Quiet :
    (rounds index : ℕ) (c : Caller) (q : Operation) (d e : Disk) (a : Reply)
    → writes_to q ≡ false
    → serve rounds index c q d ≡ ok a e
    → e ≡ d
unfolding Same
serve-Quiet rounds index c q d e a w run =
    (returned (query-Quiet d rounds index c q w) d e a refl run).0
