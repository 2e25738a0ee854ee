-- ===== src/Filesystem/Requests/Sound.antt =====
-- The requests to sfs.c and the integrity of the disk.
use osdesign.Base.{Bool, true, false, ◌⊎◌, inl, inr, ◌≢◌, ℕ, ◌<◌, ◌≡◌}
use osdesign.Base.Command.{ok, fault}
use osdesign.Filesystem.Disk.{Disk}
use osdesign.Filesystem.Reserve.{Caller}
use osdesign.Filesystem.Keeps.{
  Any, Keeps, Keeps-bind, Keeps-pure, returned, no_fault, first_part, second_part,
}
use osdesign.Filesystem.Integrity.{IsSound, IsReady, Sound}
use osdesign.Filesystem.Integrity.Short.{is_short}
use osdesign.Filesystem.Integrity.Paths.{sfs_getattr-Keeps, sfs_opendir-Keeps, sfs_readdir-Keeps}
use osdesign.Filesystem.Integrity.Update.{sfs_create-Keeps, sfs_mkdir-Keeps, sfs_init-Keeps}
use osdesign.Filesystem.Requests.{
  Operation, Reply, init, getattr, create, unlink, open_file, release, read, write, rmdir, mkdir,
  opendir, readdir, releasedir, serve, IsClean, Step, served, failing, Reach, here, later,
  sfs_unlink, sfs_open, sfs_release, sfs_read, sfs_write, sfs_rmdir, sfs_releasedir,
}

-- A request other than a mount, the names in whose path have less than 24 bytes, where sfs.c reads the
-- path.
abbrev pub has_short_names : Operation → Bool
has_short_names (init fresh leftover) = false
has_short_names (getattr path) = is_short 23 path
has_short_names (create path) = is_short 23 path
has_short_names (mkdir path) = is_short 23 path
has_short_names (opendir path) = is_short 23 path
has_short_names (readdir path) = is_short 23 path
has_short_names _ = true

serve-Keeps :
    {X : Type 0} (rounds index : ℕ) (c : Caller) (q : Operation)
    → X ⊎ ((has_short_names q ≡ true) × (index < 0x8000_0000))
    → (X → IsClean q)
    → Keeps X (Sound X) Any (serve rounds index c q)
unfolding serve sfs_unlink sfs_open sfs_release sfs_read sfs_write sfs_rmdir sfs_releasedir
serve-Keeps rounds index c (init fresh leftover) s clean =
    let x = mounts s in
    Keeps-bind (sfs_init-Keeps rounds fresh leftover c x (clean x)) (λ u v. Keeps-pure tt)
  where
    mounts : {X : Type 0} {B : Type 0} → X ⊎ ((false ≡ true) × B) → X
    mounts (inl x) = x
    mounts (inr e) = absurd (cc e.0)
serve-Keeps rounds index c (getattr path) s clean =
    Keeps-bind (sfs_getattr-Keeps path (first_part s)) (λ u v. Keeps-pure tt)
serve-Keeps rounds index c (create path) s clean =
    Keeps-bind (sfs_create-Keeps rounds index c path (first_part s) (second_part s))
      (λ u v. Keeps-pure tt)
serve-Keeps rounds index c (mkdir path) s clean =
    Keeps-bind (sfs_mkdir-Keeps rounds index c path (first_part s) (second_part s))
      (λ u v. Keeps-pure tt)
serve-Keeps rounds index c (opendir path) s clean =
    Keeps-bind (sfs_opendir-Keeps path (first_part s)) (λ u v. Keeps-pure tt)
serve-Keeps rounds index c (readdir path) s clean =
    Keeps-bind (sfs_readdir-Keeps path (first_part s)) (λ u v. Keeps-pure tt)
serve-Keeps rounds index c (unlink path) s clean = Keeps-pure tt
serve-Keeps rounds index c (open_file path) s clean = Keeps-pure tt
serve-Keeps rounds index c (release path) s clean = Keeps-pure tt
serve-Keeps rounds index c (read path size offset) s clean = Keeps-pure tt
serve-Keeps rounds index c (write path buf offset) s clean = Keeps-pure tt
serve-Keeps rounds index c (rmdir path) s clean = Keeps-pure tt
serve-Keeps rounds index c (releasedir path) s clean = Keeps-pure tt

-- A sound disk that may fault at any time.
excused : {d : Disk} → IsSound d → Sound (Unit {0}) d
excused s = record { sound = s; ready = inl tt }

Step-IsSound : {d e : Disk} → Step d e → IsSound d → IsSound e
Step-IsSound (served rounds index c q a clean run) s =
    (returned (serve-Keeps {X = Unit {0}} rounds index c q (inl tt) (λ x. clean)) _ _ a (excused s)
      run).0.sound
Step-IsSound (failing reads writes) s = record { fits = s.fits }

pub Reach-IsSound : {d e : Disk} → Reach d e → IsSound d → IsSound e
Reach-IsSound here s = s
Reach-IsSound (later r step) s = Step-IsSound step (Reach-IsSound r s)

-- On a sound disk whose reads succeed and whose block 0 holds the superblock, no request other than a
-- mount, whose path has only names of less than 24 bytes, takes a block for another structure or
-- writes past a name, provided that the indeterminate `i` of `updateDir` is not negative; if it
-- returns, the disk is again sound, its reads succeed and the superblock is there.
pub serve-ne_fault :
    (rounds index : ℕ) (c : Caller) (q : Operation) (d : Disk)
    → IsSound d
    → IsReady d
    → has_short_names q ≡ true
    → index < 0x8000_0000
    → (serve rounds index c q d ≢ fault)
      × ((a : Reply) (e : Disk) → serve rounds index c q d ≡ ok a e → IsSound e × IsReady e)
serve-ne_fault rounds index c q d s r short sign =
    let start : Sound ⊥ d = record { sound = s; ready = inr r } in
    let k = serve-Keeps {X = ⊥} rounds index c q (inr (short, sign)) (λ x. absurd x) in
    (
      λ f. no_fault k d start f,
      λ a e run.
          let s' = (returned k d e a start run).0 in
          (s'.sound, elim s'.ready [ inl x ↦ absurd x | inr t ↦ t ]),
    )
