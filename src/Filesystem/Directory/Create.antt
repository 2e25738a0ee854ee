-- ===== src/Filesystem/Directory/Create.antt =====
-- `sfs_create` and `sfs_mkdir` from the path to the new entry, and the search for it afterwards.
use osdesign.Base.{ℕ, ◌≤◌, ◌<◌, ◌≡◌, ◌≢◌, true, false, some, List, ◌∷◌, ◌++◌, length}
use osdesign.Base.Command.{ok}
use osdesign.Filesystem.Disk.{Mydir, Disk, max_fname}
use osdesign.Filesystem.Reserve.{Caller, Kind, reserve_free_inode}
use osdesign.Filesystem.Reserve.Inodes.{HasInodes}
use osdesign.Filesystem.Reserve.Inodes.Kept.{Made, reserve_free_inode-get_inode}
use osdesign.Filesystem.Path.{Nav, slash, nav_path}
use osdesign.Filesystem.Path.Round.{IsName}
use osdesign.Filesystem.Directory.{free_entry}
use osdesign.Filesystem.Directory.Entries.{with_entry, with_entries, HasBlock}

-- What `make` needs to add the entry `name` to the directory `dir`: the inode `n` is reserved, and
-- the block at the pointer `i` of the directory has its first free entry at `j`.
pub record Adds (rounds i : ℕ) (c : Caller) (k : Kind) (d d1 : Disk) (dir name : List ℕ) (nav : Nav)
    (n b j : ℕ) (m : Mydir) : Type 0 where
  pub laid : HasInodes d
  pub fuel : 4 < rounds
  pub short : length (dir ++ slash ∷ name) < 255
  pub is_name : IsName name
  pub fits : length name < max_fname
  pub leads : nav_path dir d ≡ ok nav d
  pub found : nav.found ≡ true
  pub reserves : reserve_free_inode rounds c k d ≡ ok n d1
  pub ne_zero : n ≢ 0
  pub block : HasBlock d nav.targ i b m
  pub data_block : 1089 ≤ b
  pub writes : d.write_fails b ≡ false
  pub free : free_entry m.inums ≡ some j
  pub same : length m.fnames ≡ length m.inums

module _ (rounds i : ℕ) (c : Caller) (k : Kind) (d d1 : Disk) (dir name : List ℕ) (nav : Nav)
    (n b j : ℕ) (m : Mydir) (a : Adds rounds i c k d d1 dir name nav n b j m) where
  after : Disk
  after = with_entries d1 b (with_entry m j n name)

  reservation : Made c k d n d1
  reservation = reserve_free_inode-get_inode rounds n c k d d1 a.laid a.fuel a.reserves a.ne_zero
