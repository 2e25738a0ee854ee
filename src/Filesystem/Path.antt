-- ===== src/Filesystem/Path.antt =====
-- `navPath` of sfs.c: from a path to the inodes of the parent and of the target.
pub mod Round
pub mod Resolve
use osdesign.Base.{
  ℕ, zero, suc, ◌+◌, ◌/◌, Bool, true, false, ◌&&◌, ◌||◌, not, Option, none, some, List, [], ◌∷◌,
  leb, ◌==◌, if◌then◌else◌, length,
}
use osdesign.Base.Command.{pure, crash, ◌>>=◌, ◌>>◌}
use osdesign.Filesystem.Disk.{
  Superblock, Inode, Cmd, max_fname, inum_free, block_read, as_super, as_inodes, as_entries,
  half_of, on_found,
}

abbrev pub slash : ℕ
slash = b'/'

-- `strcmp(a, b) == 0`
unfoldable pub name_eq : List ℕ → List ℕ → Bool
name_eq [] [] = true
name_eq (x ∷ xs) (y ∷ ys) = (x == y) && name_eq xs ys
name_eq _ _ = false

-- The bytes up to the next '/' or the end, those behind it, and whether it was the end.
unfoldable pub next_name : List ℕ → List ℕ × List ℕ × Bool
next_name [] = ([], [], true)
next_name (c ∷ cs) =
    let (name, rest, ended) = next_name cs in
    if c == slash then ([], cs, false) else (c ∷ name, rest, ended)

-- The loop over the 16 entries of a block: the inode number of the first one with the name.
unfoldable pub find_entry : List ℕ → List ℕ → List (List ℕ) → Option ℕ
unfolding name_eq
find_entry name [] fs = none
find_entry name (i ∷ is) [] = none
find_entry name (i ∷ is) (f ∷ fs) =
    if not (i == inum_free) && name_eq f name then some i else find_entry name is fs

-- The loop over the blocks of a directory, and the read of the inode that was found.
unfoldable pub find_in : Superblock → List ℕ → List ℕ → Cmd (Option Inode)
find_in s name [] = pure none
find_in s name (b ∷ bs) = if b == 0 then find_in s name bs else (do
  (read, x) ← block_read b
  m ← as_entries x
  on_found (find_entry name m.inums m.fnames) (find_in s name bs) (λ i.
      block_read (i / 2 + s.i_list) >>= (λ r. as_inodes r.1 >>= (λ p. pure (some (half_of i p))))))

-- What `navPath` leaves behind its two pointers, and whether it returned 0.
pub record Nav : Type 0 where
  pub found : Bool
  pub par : Inode
  pub targ : Inode

abbrev pub at_end : List ℕ → Bool
at_end [] = true
at_end (c ∷ []) = c == slash
at_end (c ∷ d ∷ cs) = false

-- The loop of `navPath`, whose `failcounter` is the number of rounds; past it the C code returns
-- without a write, here with the inodes of that time. A name that overruns `currname` is a fault.
-- A name that is not found does not end the search: the next one is looked up where this one was.
unfoldable pub nav_loop : ℕ → Superblock → List ℕ → (p t : Inode) → Cmd Nav
nav_loop zero s path p t = pure (record { found = false; par = p; targ = t })
nav_loop (suc k) s path p t =
    let (name, rest, ended) = next_name path in
    if leb max_fname (length name) then crash else (do
      r ← find_in s name t.directp
      let t' : Inode = elim r [ none ↦ t | some i ↦ i ]
      let success : Bool = elim r [ none ↦ false | some i ↦ true ]
      if ended || at_end rest
          then pure (record { found = success; par = t; targ = t' })
          else nav_loop k s rest t t')

-- `navPath`; a path of at most one byte is the root.
unfoldable pub nav_path : List ℕ → Cmd Nav
unfolding nav_loop
nav_path path = do
  (read, b) ← block_read 0
  s ← as_super b
  (read', r) ← block_read s.i_list
  root ← as_inodes r
  elim path [
    | [] ↦ pure (record { found = true; par = root.0; targ = root.0 })
    | c ∷ [] ↦ pure (record { found = true; par = root.0; targ = root.0 })
    | c ∷ d ∷ cs ↦ nav_loop 10000 s (d ∷ cs) root.0 root.0
  ]
