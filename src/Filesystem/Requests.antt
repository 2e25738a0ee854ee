-- ===== src/Filesystem/Requests.antt =====
-- The operations that `sfs_oper` of sfs.c hands to FUSE, and the disks that a sequence of them reaches.
pub mod Quiet
pub mod Sound
use osdesign.Base.{ℕ, ◌≡◌, Bool, true, false, Option, List}
use osdesign.Base.Command.{ok, pure, ◌>>=◌}
use osdesign.Filesystem.Disk.{Inode, Disk, Cmd}
use osdesign.Filesystem.Integrity.{IsGood}
use osdesign.Filesystem.Reserve.{Caller}
use osdesign.Filesystem.Directory.{
  sfs_init, sfs_create, sfs_mkdir, sfs_getattr, sfs_opendir, sfs_readdir,
}

-- These operations write a line of the log and return 0.
unfoldable pub sfs_unlink : List ℕ → Cmd ℕ
sfs_unlink path = pure 0

unfoldable pub sfs_open : List ℕ → Cmd ℕ
sfs_open path = pure 0

unfoldable pub sfs_release : List ℕ → Cmd ℕ
sfs_release path = pure 0

unfoldable pub sfs_read : List ℕ → (size offset : ℕ) → Cmd ℕ
sfs_read path size offset = pure 0

unfoldable pub sfs_write : List ℕ → (buf : List ℕ) → (offset : ℕ) → Cmd ℕ
sfs_write path buf offset = pure 0

unfoldable pub sfs_rmdir : List ℕ → Cmd ℕ
sfs_rmdir path = pure 0

unfoldable pub sfs_releasedir : List ℕ → Cmd ℕ
sfs_releasedir path = pure 0

-- A call of one of the operations of `sfs_oper`; `init` says whether the file of the disk is empty,
-- and what the inode 1 gets that a mount writes. `.destroy` is run when the file system is gone.
pub data Operation : Type 0 where
  init : (fresh : Bool) (leftover : Inode) → Operation
  getattr create unlink open_file release : (path : List ℕ) → Operation
  read : (path : List ℕ) (size offset : ℕ) → Operation
  write : (path buf : List ℕ) (offset : ℕ) → Operation
  rmdir mkdir opendir readdir releasedir : (path : List ℕ) → Operation

-- What the operations return.
pub data Reply : Type 0 where
  mounted : Reply
  status : Bool → Reply
  value : ℕ → Reply
  attributes : Option (ℕ × ℕ × ℕ × ℕ) → Reply
  names : Option (List (List ℕ)) → Reply

unfoldable pub serve : (rounds index : ℕ) → Caller → Operation → Cmd Reply
serve rounds index c (init fresh leftover) =
    sfs_init rounds fresh leftover c >>= (λ u. pure mounted)
serve rounds index c (getattr path) = sfs_getattr path >>= (λ a. pure (attributes a))
serve rounds index c (create path) = sfs_create rounds index c path >>= (λ b. pure (status b))
serve rounds index c (unlink path) = sfs_unlink path >>= (λ n. pure (value n))
serve rounds index c (open_file path) = sfs_open path >>= (λ n. pure (value n))
serve rounds index c (release path) = sfs_release path >>= (λ n. pure (value n))
serve rounds index c (read path size offset) = sfs_read path size offset >>= (λ n. pure (value n))
serve rounds index c (write path buf offset) = sfs_write path buf offset >>= (λ n. pure (value n))
serve rounds index c (rmdir path) = sfs_rmdir path >>= (λ n. pure (value n))
serve rounds index c (mkdir path) = sfs_mkdir rounds index c path >>= (λ b. pure (status b))
serve rounds index c (opendir path) = sfs_opendir path >>= (λ b. pure (status b))
serve rounds index c (readdir path) = sfs_readdir path >>= (λ l. pure (names l))
serve rounds index c (releasedir path) = sfs_releasedir path >>= (λ n. pure (value n))

-- The buffer of a mount happens to hold a good inode where the inode 1 stands.
abbrev pub IsClean : Operation → Type 0
IsClean (init fresh leftover) = IsGood leftover
IsClean _ = Unit {0}

-- A request is served, by whomever and with whatever `updateDir` finds in its `i`; or other reads
-- and writes begin to fail.
pub data Step : Disk → Disk → Type 0 where
  served :
      {d e : Disk} (rounds index : ℕ) (c : Caller) (q : Operation) (a : Reply)
      → IsClean q
      → serve rounds index c q d ≡ ok a e
      → Step d e
  failing :
      {d : Disk} (reads writes : ℕ → Bool)
      → Step d (record d { read_fails = reads; write_fails = writes })

pub data Reach (d : Disk) : Disk → Type 0 where
  here : Reach d d
  later : {e f : Disk} → Reach d e → Step e f → Reach d f

-- The requests that may write to the disk.
abbrev pub writes_to : Operation → Bool
writes_to (init fresh leftover) = true
writes_to (create path) = true
writes_to (mkdir path) = true
writes_to _ = false
