-- ===== src/Filesystem/Tests/Requests.antt =====
-- A small sequence of requests on an empty disk.
use osdesign.Base.{ℕ, List, ◌≡◌, refl, ◌≢◌, true, false, none, [], ◌∷◌, ltb, arith}
use osdesign.Base.Command.{Run, ok, fault}
use osdesign.Filesystem.Disk.{Disk, Inode, zero_inode, block_read, block_write}
use osdesign.Filesystem.Reserve.{Caller, first_zero, data_loop, reserve_free_data}
use osdesign.Filesystem.Path.{slash, nav_path}
use osdesign.Filesystem.Path.Resolve.{join, ArePlain, resolve, nav_path-resolve}
use osdesign.Filesystem.Directory.{clear_maps, init_dir, sfs_init, sfs_opendir}
use osdesign.Filesystem.Integrity.{IsSound, IsReady, IsGood, no_pointers}
use osdesign.Filesystem.Requests.{
  Operation, Reply, create, init, opendir, mounted, status, serve, served, here, later,
}
use osdesign.Filesystem.Requests.Sound.{Reach-IsSound, serve-ne_fault}
use osdesign.Filesystem.Requests.Quiet.{serve-Quiet}

abbrev user : Caller
user = record { uid = 7; gid = 8; now = 100 }

abbrev empty_disk : Disk
empty_disk = record { blocks = λ n. none; read_fails = λ n. false; write_fails = λ n. false }

-- What the buffer of the mount happens to hold.
abbrev stale : Inode
stale = record zero_inode { st_mode = 77; st_ino = 5 }

stale-IsGood : IsGood stale
stale-IsGood = record { number = omega arith; pointers = refl; lead = no_pointers }

empty_disk-IsSound : IsSound empty_disk
empty_disk-IsSound = record { fits = λ n. tt }

-- The disk behind a run.
abbrev disk_of : {A : Type 0} → Run Disk A → Disk
disk_of (ok a d) = d
disk_of _ = empty_disk

abbrev new_disk : Disk
new_disk = disk_of (serve 70 0 user (init true stale) empty_disk)

abbrev worn : Disk
worn = record new_disk { read_fails = λ n. false; write_fails = λ n. ltb 70 n }

mount : serve 70 0 user (init true stale) empty_disk ≡ ok mounted new_disk
unfolding serve sfs_init clear_maps init_dir block_write block_read reserve_free_data data_loop
    first_zero
mount = refl

open_root : serve 70 0 user (opendir (b'/' ∷ [])) worn ≡ ok (status true) worn
unfolding serve sfs_init clear_maps init_dir block_write block_read reserve_free_data data_loop
    first_zero sfs_opendir nav_path
open_root = refl

serve-Quiet_example : worn ≡ worn
serve-Quiet_example =
    serve-Quiet 70 0 user (opendir (b'/' ∷ [])) worn worn (status true) refl open_root

abbrev two_names : List (List ℕ)
two_names = (b'a' ∷ b'b' ∷ []) ∷ (b'c' ∷ []) ∷ []

two_names-ArePlain : ArePlain two_names
two_names-ArePlain = (
  (λ e. ground (arith, e), (λ e. ground (arith, e), tt)),
  λ e. cc,
  ((λ e. ground (arith, e), tt), λ e. cc, tt),
)

nav_path-resolve_example : nav_path (slash ∷ join two_names) worn ≡ resolve two_names worn
nav_path-resolve_example =
    nav_path-resolve two_names worn two_names-ArePlain (omega arith) (omega arith)

new_disk-IsSound : IsSound new_disk
new_disk-IsSound =
    Reach-IsSound (later here (served 70 0 user (init true stale) mounted stale-IsGood mount))
      empty_disk-IsSound

new_disk-IsReady : IsReady new_disk
unfolding serve sfs_init clear_maps init_dir block_write block_read reserve_free_data data_loop
    first_zero
new_disk-IsReady = record { reads = λ n. refl; top = refl }

abbrev new_file : Operation
new_file = create (b'/' ∷ b'a' ∷ b'b' ∷ [])

serve-ne_fault_example :
    (serve 70 0 user new_file new_disk ≢ fault)
    × ((a : Reply) (e : Disk) → serve 70 0 user new_file new_disk ≡ ok a e → IsSound e × IsReady e)
serve-ne_fault_example =
    serve-ne_fault 70 0 user new_file new_disk new_disk-IsSound new_disk-IsReady refl (omega arith)
