-- ===== src/Filesystem/Integrity/Reserve.antt =====
-- What the reservations of sfs.c and `getInode` keep of a sound disk.
use osdesign.Base.{
  ℕ, zero, suc, ◌+◌, ◌-◌, ◌*◌, ◌/◌, ◌≤◌, ◌<◌, ◌≡◌, refl, ap, ◌∙◌, inl, inr, Bool, true, false,
  Option, none, some, arith, ltb, if◌then◌else◌, set, length-set,
}
use osdesign.Filesystem.Disk.{Superblock, Inode, bytes, half_of, set_half}
use osdesign.Filesystem.Reserve.{
  first_zero, data_loop, reserve_free_data, Caller, Kind, fresh_inode, write_fresh, inode_loop,
  reserve_free_inode, get_inode,
}
use osdesign.Filesystem.Reserve.Search.{first_zero-some}
use osdesign.Filesystem.Directory.{layout}
use osdesign.Filesystem.Integrity.{Sound, IsGood, no_pointers}
use osdesign.Filesystem.Keeps.{
  Keeps, Keeps-pure, Keeps-if, Keeps-bind, Keeps-on_found, Keeps-out_of_fuel, Any,
}
use osdesign.Filesystem.Integrity.Blocks.{
  block_read-Keeps, block_read-top, block_write-Keeps, IsTop, as_super-Keeps, as_bytes-Keeps,
  as_inodes-Keeps, set_half-Fits,
}

-- The result is a data block, if it is one.
abbrev pub IsData : Option ℕ → Type 0
IsData none = Unit {0}
IsData (some b) = 1089 ≤ b

IsData-if : (b : Bool) (n : ℕ) → 1089 ≤ n → IsData (if b then some n else none)
IsData-if true n hi = hi
IsData-if false n hi = tt

fresh_inode-IsGood :
    (c : Caller) (t : Kind) (n : ℕ) (i : Inode) → n < 2048 → IsGood (fresh_inode c t n i)
fresh_inode-IsGood c t n i lt = record { number = lt; pointers = refl; lead = no_pointers }

module _ {X : Type 0} where
  -- A search that has begun is on the layout of `sfs_init`.
  in_map : (s : Superblock) (b : ℕ) → IsTop X s → b < s.i_list → s ≡ layout
  in_map s b t lt = elim t.known [ inl e ↦ e | inr z ↦ absurd (omega (arith, z.1)) ]

  in_imap : (s : Superblock) (b : ℕ) → IsTop X s → b < s.dmap → s ≡ layout
  in_imap s b t lt = elim t.known [ inl e ↦ e | inr z ↦ absurd (omega (arith, z.2)) ]

  data_loop-Keeps :
      (k : ℕ) (s : Superblock) (b : ℕ)
      → IsTop X s
      → s.dmap ≤ b
      → Keeps X (Sound X) IsData (data_loop k s b)
  unfolding data_loop
  data_loop-Keeps zero s b t lo = Keeps-out_of_fuel
  data_loop-Keeps (suc k) s b t lo =
      Keeps-if (ltb b s.i_list)
        (λ test.
          let e : s ≡ layout = in_map s b t (ground (arith, test)) in
          let top : s.i_list ≡ 65 = ap (λ x. x.i_list) e in
          let bottom : s.dmap ≡ 5 = ap (λ x. x.dmap) e in
          let list : s.d_list ≡ 1089 = ap (λ x. x.d_list) e in
          let below : b < 65 = ground (arith, test, top) in
          Keeps-bind (block_read-Keeps b) (λ r fr.
            Keeps-bind (as_bytes-Keeps b r.1 fr (omega (arith, bottom, lo)) below) (λ l len.
              Keeps-on_found (first_zero l) (data_loop-Keeps k s (b + 1) t (omega (arith, lo)))
                (λ j q.
                  Keeps-bind
                    (block_write-Keeps b (bytes (set l j 1))
                      (omega (arith, bottom, lo), below, length-set l j 1 ∙ len))
                    (λ written u. Keeps-pure (IsData-if written _ (omega (arith, list))))))))
        (λ past. Keeps-pure tt)

  pub reserve_free_data-Keeps : (rounds : ℕ) → Keeps X (Sound X) IsData (reserve_free_data rounds)
  unfolding reserve_free_data
  reserve_free_data-Keeps rounds = Keeps-bind block_read-top (λ r fr.
      Keeps-bind (as_super-Keeps r.1 fr.0 fr.1)
        (λ s t. data_loop-Keeps rounds s s.dmap t (omega arith)))

  write_fresh-Keeps :
      (c : Caller) (t : Kind) (n : ℕ) → n < 2048 → Keeps X (Sound X) Any (write_fresh c t n)
  unfolding write_fresh
  write_fresh-Keeps c t n lt = Keeps-bind (block_read-Keeps (65 + n / 2)) (λ r fr.
      Keeps-bind (as_inodes-Keeps (65 + n / 2) r.1 fr (inr (omega arith, omega (arith, lt))))
        (λ p g.
          Keeps-bind
            (block_write-Keeps (65 + n / 2) (set_half n (fresh_inode c t n (half_of n p)) p) (
              set_half-Fits n (fresh_inode c t n (half_of n p)) p lt
                (fresh_inode-IsGood c t n (half_of n p) lt) g))
            (λ written u. Keeps-pure tt)))

  inode_loop-Keeps :
      (k : ℕ) (c : Caller) (t : Kind) (s : Superblock) (b : ℕ)
      → IsTop X s
      → s.imap ≤ b
      → Keeps X (Sound X) (λ n. n < 2048) (inode_loop k c t s b)
  unfolding inode_loop
  inode_loop-Keeps zero c t s b top lo = Keeps-out_of_fuel
  inode_loop-Keeps (suc k) c t s b top lo =
      Keeps-if (ltb b s.dmap)
        (λ test.
          let e : s ≡ layout = in_imap s b top (ground (arith, test)) in
          let end : s.dmap ≡ 5 = ap (λ x. x.dmap) e in
          let start : s.imap ≡ 1 = ap (λ x. x.imap) e in
          let below : b < 5 = ground (arith, test, end) in
          Keeps-bind (block_read-Keeps b) (λ r fr.
            Keeps-bind (as_bytes-Keeps b r.1 fr (omega (arith, start, lo)) (omega (arith, below)))
              (λ l len.
                Keeps-on_found (first_zero l)
                  (inode_loop-Keeps k c t s (b + 1) top (omega (arith, lo)))
                  (λ j q.
                    let n : ℕ = 512 * (b - s.imap) + j in
                    let lt : n < 2048 =
                      omega (arith, start, below, len, (first_zero-some l j q).0) in
                    Keeps-bind
                      (block_write-Keeps b (bytes (set l j 1))
                        (omega (arith, start, lo), omega (arith, below), length-set l j 1 ∙ len))
                      (λ written u.
                        Keeps-bind (write_fresh-Keeps c t n lt) (λ v w. Keeps-pure lt))))))
        (λ past. Keeps-pure (omega arith))

  pub reserve_free_inode-Keeps :
      (rounds : ℕ) (c : Caller) (t : Kind)
      → Keeps X (Sound X) (λ n. n < 2048) (reserve_free_inode rounds c t)
  unfolding reserve_free_inode
  reserve_free_inode-Keeps rounds c t = Keeps-bind block_read-top (λ r fr.
      Keeps-bind (as_super-Keeps r.1 fr.0 fr.1)
        (λ s top. inode_loop-Keeps rounds c t s s.imap top (omega arith)))

  pub get_inode-Keeps : (n : ℕ) → n < 2048 → Keeps X (Sound X) Any (get_inode n)
  unfolding get_inode
  get_inode-Keeps n lt = Keeps-bind (block_read-Keeps (65 + n / 2)) (λ r fr.
      Keeps-bind (as_inodes-Keeps (65 + n / 2) r.1 fr (inr (omega arith, omega (arith, lt))))
        (λ p g. Keeps-pure tt))
