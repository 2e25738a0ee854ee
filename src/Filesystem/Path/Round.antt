-- ===== src/Filesystem/Path/Round.antt =====
-- What one round of `navPath` makes of a name.
use osdesign.Base.{
  ℕ, suc, ◌<◌, ◌≡◌, refl, ◌≢◌, true, false, Option, none, some, List, [], ◌∷◌, ◌++◌, arith, leb,
  length,
}
use osdesign.Base.Command.{ok}
use osdesign.Filesystem.Disk.{Superblock, Inode, Disk, max_fname}
use osdesign.Filesystem.Path.{Nav, slash, next_name, find_in, nav_loop}

-- A name holds no '/', and ends at one.
abbrev pub IsName : List ℕ → Type 0
IsName [] = Unit {0}
IsName (c ∷ cs) = (c ≢ slash) × IsName cs

pub next_name-append :
    (name rest : List ℕ) → IsName name → next_name (name ++ slash ∷ rest) ≡ (name, rest, false)
unfolding next_name
next_name-append [] rest n = refl
next_name-append (c ∷ cs) rest n = ground (arith, next_name-append cs rest n.1)

pub next_name-whole : (name : List ℕ) → IsName name → next_name name ≡ (name, [], true)
unfolding next_name
next_name-whole [] n = refl
next_name-whole (c ∷ cs) n = ground (arith, next_name-whole cs n.1)

-- The result of the search at a directory `t` whose last name leads to `r`.
abbrev pub at_last : Inode → Option Inode → Nav
at_last t none = record { found = false; par = t; targ = t }
at_last t (some i) = record { found = true; par = t; targ = i }

module _ (k : ℕ) (s : Superblock) (p t : Inode) (d : Disk) (name : List ℕ) (n : IsName name)
    (short : length name < max_fname) where
  -- The last name of a path, if it is shorter than 24 bytes, decides the result of `navPath`: the
  -- directory and the inode found in it, or the directory twice and a failure.
  pub nav_loop-last :
      (r : Option Inode)
      → find_in s name t.directp d ≡ ok r d
      → nav_loop (suc k) s name p t d ≡ ok (at_last t r) d
  unfolding nav_loop
  nav_loop-last none e =
      let fits : leb max_fname (length name) ≡ false = ground (arith, short) in
      rw (next_name-whole name n, fits, e)
  nav_loop-last (some i) e =
      let fits : leb max_fname (length name) ≡ false = ground (arith, short) in
      rw (next_name-whole name n, fits, e)
