-- ===== src/Filesystem/Integrity/Blocks.antt =====
-- What the reads, the writes and the casts of sfs.c keep of a sound disk.
use osdesign.Base.{
  ℕ, zero, suc, Bool, ◌+◌, ◌/◌, ◌%◌, ◌≤◌, ◌<◌, ◌≡◌, refl, ◌⊎◌, inl, inr, true, false, Bool-cases,
  Option, none, some, arith, ◌==◌, length,
}
use osdesign.Filesystem.Disk.{
  Superblock, super, Inode, Block, bytes, inodes, entries, replicate, block_read, block_write,
  as_super, as_bytes, as_inodes, as_entries, half_of, set_half,
}
use osdesign.Filesystem.Directory.{layout}
use osdesign.Filesystem.Integrity.{
  IsGood, Fits, Sound, with_block-Sound, zero_inode-IsGood, AreGood, AllName,
}
use osdesign.Filesystem.Keeps.{Keeps, Keeps-pure, Keeps-crash, Any}

fails : {b : Bool} → b ≡ true → b ≡ false → ⊥
fails p q = cc

zeros : (n : ℕ) → AllName (replicate n 0)
zeros zero = tt
zeros (suc n) = (inr (omega arith), zeros n)

module _ {X : Type 0} where
  pub block_read-Keeps : (n : ℕ) → Keeps X (Sound X) (λ r. Fits n r.1) (block_read n)
  unfolding block_read
  block_read-Keeps n = record {
    kept = λ d s. elim (Bool-cases (d.read_fails n)) [
      | inl q ↦ rw q (s, tt)
      | inr q ↦ rw q (s, s.sound.fits n)
    ];
  }

  -- Without an excuse, block 0 is read and holds the superblock.
  pub block_read-top :
      Keeps X (Sound X) (λ r. Fits 0 r.1 × (X ⊎ (r.1 ≡ some (super layout)))) (block_read 0)
  unfolding block_read
  block_read-top = record {
    kept = λ d s. elim (Bool-cases (d.read_fails 0)) [
      | inl q ↦
          rw q (s, (tt, elim s.ready [ inl x ↦ inl x | inr r ↦ absurd (fails q (r.reads 0)) ]))
      | inr q ↦ rw q (s, (s.sound.fits 0, elim s.ready [ inl x ↦ inl x | inr r ↦ inr r.top ]))
    ];
  }

  pub block_write-Keeps :
      (n : ℕ) (b : Block) → Fits n (some b) → Keeps X (Sound X) Any (block_write n b)
  unfolding block_write
  block_write-Keeps n b f = record {
    kept = λ d s. elim (Bool-cases (d.write_fails n)) [
      | inl q ↦ rw q (s, tt)
      | inr q ↦ rw q (with_block-Sound d n b s f, tt)
    ];
  }

-- A superblock is the one of `sfs_init`, or, with an excuse, zero: the read failed, or nothing was
-- written.
pub record IsTop (X : Type 0) (s : Superblock) : Type 0 where
  pub known : (s ≡ layout) ⊎ (X × (s.i_list ≡ 0) × (s.dmap ≡ 0))

module _ {X : Type 0} where
  pub as_super-Keeps :
      (x : Option Block)
      → Fits 0 x
      → X ⊎ (x ≡ some (super layout))
      → Keeps X (Sound X) (IsTop X) (as_super x)
  as_super-Keeps none f (inl e) = Keeps-pure (record { known = inr (e, refl, refl) })
  as_super-Keeps none f (inr e) = cc
  as_super-Keeps (some (super s)) f e = Keeps-pure (record { known = inl f.1 })
  as_super-Keeps (some (bytes l)) f e = absurd (omega (arith, f.0))
  as_super-Keeps (some (inodes p q)) f e = absurd (omega (arith, f.0))
  as_super-Keeps (some (entries m)) f e = absurd (omega (arith, f.0))

  pub as_bytes-Keeps :
      (n : ℕ) (x : Option Block)
      → Fits n x
      → 1 ≤ n
      → n < 65
      → Keeps X (Sound X) (λ l. length l ≡ 512) (as_bytes x)
  as_bytes-Keeps n none f lo hi = Keeps-pure refl
  as_bytes-Keeps n (some (super s)) f lo hi = absurd (omega (arith, f.0, lo))
  as_bytes-Keeps n (some (bytes l)) f lo hi = Keeps-pure f.2
  as_bytes-Keeps n (some (inodes p q)) f lo hi = absurd (omega (arith, f.0, hi))
  as_bytes-Keeps n (some (entries m)) f lo hi = absurd (omega (arith, f.0, hi))

  pub as_inodes-Keeps :
      (n : ℕ) (x : Option Block)
      → Fits n x
      → X ⊎ ((65 ≤ n) × (n < 1089))
      → Keeps X (Sound X) AreGood (as_inodes x)
  as_inodes-Keeps n none f r = Keeps-pure (zero_inode-IsGood, zero_inode-IsGood)
  as_inodes-Keeps n (some (inodes p q)) f r = Keeps-pure (f.2, f.3)
  as_inodes-Keeps n (some b) f (inl x) = Keeps-crash x
  as_inodes-Keeps n (some (super s)) f (inr r) = absurd (omega (arith, f.0, r.0))
  as_inodes-Keeps n (some (bytes l)) f (inr r) = absurd (omega (arith, f.1, r.0))
  as_inodes-Keeps n (some (entries m)) f (inr r) = absurd (omega (arith, f.0, r.1))

  pub as_entries-Keeps :
      (n : ℕ) (x : Option Block)
      → Fits n x
      → 1089 ≤ n
      → Keeps X (Sound X) (λ m. AllName m.inums) (as_entries x)
  as_entries-Keeps n none f hi = Keeps-pure (zeros 16)
  as_entries-Keeps n (some (super s)) f hi = absurd (omega (arith, f.0, hi))
  as_entries-Keeps n (some (bytes l)) f hi = absurd (omega (arith, f.1, hi))
  as_entries-Keeps n (some (inodes p q)) f hi = absurd (omega (arith, f.1, hi))
  as_entries-Keeps n (some (entries m)) f hi = Keeps-pure f.1

pub half_of-IsGood : (n : ℕ) (p : Inode × Inode) → AreGood p → IsGood (half_of n p)
half_of-IsGood n p g = elim (Bool-cases (n % 2 == 0)) [ inl e ↦ rw e g.0 | inr e ↦ rw e g.1 ]

-- A good inode in its half of a block of inodes.
pub set_half-Fits :
    (n : ℕ) (i : Inode) (p : Inode × Inode)
    → n < 2048
    → IsGood i
    → AreGood p
    → Fits (65 + n / 2) (some (set_half n i p))
set_half-Fits n i p lt g h =
    let lo : 65 ≤ 65 + n / 2 = omega arith in
    let hi : 65 + n / 2 < 1089 = omega arith in
    elim (Bool-cases (n % 2 == 0)) [ inl e ↦ rw e (lo, hi, g, h.1) | inr e ↦ rw e (lo, hi, h.0, g) ]
