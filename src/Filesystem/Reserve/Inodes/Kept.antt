-- ===== src/Filesystem/Reserve/Inodes/Kept.antt =====
-- What a reservation of an inode leaves of the other inodes and of the data blocks.
use osdesign.Base.{
  ℕ, ◌+◌, ◌/◌, ◌%◌, ◌≤◌, ◌<◌, ◌≡◌, refl, sym, ap, ◌∙◌, ◌≢◌, inl, inr, true, Bool-cases, some, List,
  arith, ◌==◌, set, length, length-set,
}
use mathlib.Core.Path.{subst₂}
use native.Mathlib.Decide.{ℕ_discrete}
use osdesign.Base.Command.{ok}
use osdesign.Filesystem.Disk.{
  Inode, bytes, Disk, with_block, block_read, as_inodes, half_of, set_half,
}
use osdesign.Filesystem.Reserve.{Caller, Kind, reserve_free_inode, get_inode}
use osdesign.Filesystem.Reserve.Search.{FreeIn, IsMap}
use osdesign.Filesystem.Reserve.Inodes.{
  pair_of, HasInodes, inode_at, with_inode, inum_of, made, reserved, reserve_free_inode-Found,
}

half_of-set_half :
    (n : ℕ) (i : Inode) (p : Inode × Inode) → half_of n (pair_of (some (set_half n i p))) ≡ i
half_of-set_half n i p = elim (Bool-cases (n % 2 == 0)) [ inl e ↦ rw e refl | inr e ↦ rw e refl ]

half_of-set_half_other :
    (m n : ℕ) (i : Inode) (p : Inode × Inode)
    → (m % 2 == 0) ≢ (n % 2 == 0)
    → half_of m (pair_of (some (set_half n i p))) ≡ half_of m p
half_of-set_half_other m n i p ne = elim (Bool-cases (n % 2 == 0)) [
  | inl e ↦ elim (Bool-cases (m % 2 == 0)) [
    | inl f ↦ absurd (ne (f ∙ sym e))
    | inr f ↦ rw (e, f) refl
  ]
  | inr e ↦ elim (Bool-cases (m % 2 == 0)) [
    | inl f ↦ rw (e, f) refl
    | inr f ↦ absurd (ne (f ∙ sym e))
  ]
]

as_inodes-set_half :
    (n : ℕ) (i : Inode) (p : Inode × Inode) (e : Disk)
    → as_inodes (some (set_half n i p)) e ≡ ok (pair_of (some (set_half n i p))) e
as_inodes-set_half n i p e = elim (Bool-cases (n % 2 == 0)) [
  | inl q ↦ rw q refl
  | inr q ↦ rw q refl
]

module _ (d : Disk) (w : HasInodes d) (n : ℕ) (lies : n < 2048) where
  pub get_inode-inode_at : get_inode n d ≡ ok (some (inode_at d n)) d
  unfolding get_inode block_read
  get_inode-inode_at =
      rw (w.reads (65 + n / 2), w.blocks (65 + n / 2) (omega arith) (omega arith) d) refl

  module _ (i : Inode) where
    with_inode-HasInodes : HasInodes (with_inode d n i)
    with_inode-HasInodes = record {
      reads = w.reads;
      writes = w.writes;
      top = ground (arith, w.top);
      map = λ b lo hi. kept_map b lo hi;
      blocks = λ b lo hi e. kept_blocks b lo hi e;
    }
      where
        kept_map : IsMap 1 5 (with_inode d n i)
        kept_map b lo hi = let (l, holds, size) = w.map b lo hi in (l, ground (arith, holds), size)

        kept_blocks :
            (b : ℕ)
            → 65 ≤ b
            → b < 1089
            → (e : Disk)
            → as_inodes ((with_inode d n i).blocks b) e
              ≡ ok (pair_of ((with_inode d n i).blocks b)) e
        kept_blocks b lo hi e = elim (Bool-cases (b == 65 + n / 2)) [
          | inl same ↦ rw same (as_inodes-set_half n i (pair_of (d.blocks (65 + n / 2))) e)
          | inr other ↦ rw other (w.blocks b lo hi e)
        ]

    inode_at-with_inode : inode_at (with_inode d n i) n ≡ i
    inode_at-with_inode =
        let same : (65 + n / 2 == 65 + n / 2) ≡ true = ground arith in
        rw same (half_of-set_half n i (pair_of (d.blocks (65 + n / 2))))

    inode_at-with_inode_other : (m : ℕ) → m ≢ n → inode_at (with_inode d n i) m ≡ inode_at d m
    inode_at-with_inode_other m ne = elim (Bool-cases (65 + m / 2 == 65 + n / 2)) [
      | inl same ↦
          let block : 65 + m / 2 ≡ 65 + n / 2 = ground (arith, same) in
          let apart : (m % 2 == 0) ≢ (n % 2 == 0) = halves m n (omega (arith, block)) ne in
          rw same (
            half_of-set_half_other m n i (pair_of (d.blocks (65 + n / 2))) apart
            ∙ ap (λ b. half_of m (pair_of (d.blocks b))) (sym block))
      | inr other ↦ rw other refl
    ]
      where
        halves : (a b : ℕ) → a / 2 ≡ b / 2 → a ≢ b → (a % 2 == 0) ≢ (b % 2 == 0)
        halves a b e ne' = λ q. ground (arith, e, ne', q)

module _ (d : Disk) (w : HasInodes d) (b j : ℕ) (l : List ℕ) (f : FreeIn 1 5 d b j l) where
  marked : Disk
  marked = with_block d b (bytes (set l j 1))

  marked-HasInodes : HasInodes marked
  unfolding marked
  marked-HasInodes = record {
    reads = w.reads;
    writes = w.writes;
    top = ground (arith, f.above, w.top);
    map = λ c lo hi. kept c lo hi;
    blocks = λ c lo hi e.
        let same : marked.blocks c ≡ d.blocks c = ground (arith, f.below, lo) in
        ap (λ x. as_inodes x e) same ∙ w.blocks c lo hi e ∙ ap (λ x. ok (pair_of x) e) (sym same);
  }
    where
      len : length l ≡ 512
      len = let (k, holds, size) = w.map b f.above f.below in ground (arith, f.holds, holds, size)

      kept : IsMap 1 5 marked
      kept c lo hi = elim (ℕ_discrete c b) [
        | yes same ↦ (set l j 1, ground arith, length-set l j 1 ∙ len)
        | no other ↦ let (k, holds, size) = w.map c lo hi in (k, ground (arith, holds), size)
      ]

  inode_at-marked : (m : ℕ) → inode_at marked m ≡ inode_at d m
  unfolding marked
  inode_at-marked m =
      let same : marked.blocks (65 + m / 2) ≡ d.blocks (65 + m / 2) = ground (arith, f.below) in
      ap (λ x. half_of m (pair_of x)) same

-- What a reservation of the inode `n` makes of a disk: `getInode` then reads the fresh inode at `n`
-- and every other inode as before, the layout is kept, and the data blocks are as they were.
abbrev pub Made : Caller → Kind → Disk → ℕ → Disk → Type 0
Made c t d n d' =
    (n < 2048)
    × HasInodes d'
    × (get_inode n d' ≡ ok (some (made c t n)) d')
    × ((m : ℕ) → m < 2048 → m ≢ n → get_inode m d' ≡ ok (some (inode_at d m)) d')
    × ((b : ℕ) → 1089 ≤ b → d'.blocks b ≡ d.blocks b)

reserved-Made :
    (c : Caller) (t : Kind) (d : Disk) (w : HasInodes d) (b j : ℕ) (l : List ℕ)
    (f : FreeIn 1 5 d b j l)
    → Made c t d (inum_of b j) (reserved c t d b j l)
unfolding marked
reserved-Made c t d w b j l f =
    let lies : inum_of b j < 2048 = omega (arith, f.below, f.inside) in
    let start : HasInodes (marked d w b j l f) = marked-HasInodes d w b j l f in
    let i : Inode = made c t (inum_of b j) in
    let whole : HasInodes (reserved c t d b j l) =
      with_inode-HasInodes (marked d w b j l f) start (inum_of b j) lies i in
    (
      lies,
      whole,
      get_inode-inode_at (reserved c t d b j l) whole (inum_of b j) lies
          ∙ ap (λ x. ok (some x) (reserved c t d b j l))
              (inode_at-with_inode (marked d w b j l f) start (inum_of b j) lies i),
      λ m lt ne.
          get_inode-inode_at (reserved c t d b j l) whole m lt
          ∙ ap (λ x. ok (some x) (reserved c t d b j l))
              (inode_at-with_inode_other (marked d w b j l f) start (inum_of b j) lies i m ne
                ∙ inode_at-marked d w b j l f m),
      λ a hi. untouched (inum_of b j) a b l j (made c t (inum_of b j)) hi lies f.below,
    )
  where
    untouched :
        (n a b : ℕ) (l : List ℕ) (j : ℕ) (i : Inode)
        → 1089 ≤ a
        → n < 2048
        → b < 5
        → (with_inode (with_block d b (bytes (set l j 1))) n i).blocks a ≡ d.blocks a
    untouched n a b l j i hi lies below = ground (arith, hi, lies, below)

-- On a disk with the layout of `sfs_init` whose reads and writes succeed, with more than four rounds,
-- if `reserveFreeInode` gives a number other than 0, then `getInode` reads the fresh inode at this
-- number, which is below 2048, and every other inode as before, the layout is kept, and no data block
-- is written.
pub reserve_free_inode-get_inode :
    (rounds n : ℕ) (c : Caller) (t : Kind) (d d' : Disk)
    → HasInodes d
    → 4 < rounds
    → reserve_free_inode rounds c t d ≡ ok n d'
    → n ≢ 0
    → Made c t d n d'
reserve_free_inode-get_inode rounds n c t d d' w fuel e ne =
    elim (reserve_free_inode-Found c t d w rounds fuel) [
      | inl (r, _) ↦ absurd (ne (out_value _ _ _ _ (sym e ∙ r)))
      | inr (b, j, l, f, _, r) ↦
          subst₂ (λ x y. Made c t d x y) (out_value _ _ _ _ (sym r ∙ e))
            (out_disk _ _ _ _ (sym r ∙ e)) (reserved-Made c t d w b j l f)
    ]
  where
    out_value : (a : ℕ) (x : Disk) (b : ℕ) (y : Disk) → ok a x ≡ ok b y → a ≡ b
    out_value a x b y z = cc

    out_disk : (a : ℕ) (x : Disk) (b : ℕ) (y : Disk) → ok a x ≡ ok b y → x ≡ y
    out_disk a x b y z = cc
