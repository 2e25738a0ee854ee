-- ===== src/Filesystem/Integrity.antt =====
-- The integrity of the disk of sfs.c: what may stand in each block.
pub mod Blocks
pub mod Short
pub mod Reserve
pub mod Paths
pub mod Update
use osdesign.Base.{
  ℕ, zero, suc, ◌≤◌, ◌<◌, ◌≡◌, refl, sym, ◌∙◌, ◌⊎◌, inl, inr, true, false, Option, none, some, List,
  [], ◌∷◌, arith, ◌==◌, length, set, length-set,
}
use mathlib.Core.Path.{subst}
use native.Mathlib.Decide.{ℕ_discrete}
use osdesign.Filesystem.Disk.{
  super, Inode, Block, bytes, inodes, entries, Disk, replicate, zero_inode, with_block,
  num_direct_pointers, inum_free,
}
use osdesign.Filesystem.Directory.{layout, pointer_at}

-- A pointer to a data block, or none.
abbrev pub Leads : ℕ → Type 0
Leads b = (b ≡ 0) ⊎ (1089 ≤ b)

abbrev pub AreLeads : List ℕ → Type 0
AreLeads [] = Unit {0}
AreLeads (b ∷ bs) = Leads b × AreLeads bs

-- The number of an inode, or the mark of a free entry.
abbrev pub Names : ℕ → Type 0
Names i = (i ≡ inum_free) ⊎ (i < 2048)

abbrev pub AllName : List ℕ → Type 0
AllName [] = Unit {0}
AllName (i ∷ is) = Names i × AllName is

-- An inode whose number exists and whose pointers lead to data blocks.
pub record IsGood (i : Inode) : Type 0 where
  pub number : i.st_ino < 2048
  pub pointers : length i.directp ≡ num_direct_pointers
  pub lead : AreLeads i.directp

-- What may stand in the block `n`.
abbrev pub Fits : ℕ → Option Block → Type 0
Fits n none = Unit {0}
Fits n (some (super s)) = (n ≡ 0) × (s ≡ layout)
Fits n (some (bytes l)) = (1 ≤ n) × (n < 65) × (length l ≡ 512)
Fits n (some (inodes p q)) = (65 ≤ n) × (n < 1089) × IsGood p × IsGood q
Fits n (some (entries m)) = (1089 ≤ n) × AllName m.inums

pub record IsSound (d : Disk) : Type 0 where
  pub fits : (n : ℕ) → Fits n (d.blocks n)

-- Reads succeed, and the superblock is there.
pub record IsReady (d : Disk) : Type 0 where
  pub reads : (n : ℕ) → d.read_fails n ≡ false
  pub top : d.blocks 0 ≡ some (super layout)

-- A sound disk that is ready, unless there is the excuse `X`.
pub record Sound (X : Type 0) (d : Disk) : Type 0 where
  pub sound : IsSound d
  pub ready : X ⊎ IsReady d

pub with_block-IsSound :
    (d : Disk) (n : ℕ) (b : Block) → IsSound d → Fits n (some b) → IsSound (with_block d n b)
with_block-IsSound d n b s f = record {
  fits = λ m. elim (ℕ_discrete m n) [
    | yes same ↦
        let test : (m == n) ≡ true = ground (arith, same) in
        rw test (subst (λ x. Fits x (some b)) (sym same) f)
    | no other ↦ let test : (m == n) ≡ false = ground (arith, other) in rw test (s.fits m)
  ];
}

-- Only the superblock fits block 0.
with_block-top :
    (d : Disk) (n : ℕ) (b : Block)
    → Fits n (some b)
    → d.blocks 0 ≡ some (super layout)
    → (with_block d n b).blocks 0 ≡ some (super layout)
with_block-top d n (super s) f top = ground (arith, f.1, top)
with_block-top d n (bytes l) f top = ground (arith, f.0, top)
with_block-top d n (inodes p q) f top = ground (arith, f.0, top)
with_block-top d n (entries m) f top = ground (arith, f.0, top)

pub with_block-Sound :
    {X : Type 0} (d : Disk) (n : ℕ) (b : Block)
    → Sound X d
    → Fits n (some b)
    → Sound X (with_block d n b)
with_block-Sound d n b s f = record {
  sound = with_block-IsSound d n b s.sound f;
  ready = elim s.ready [
    | inl x ↦ inl x
    | inr r ↦ inr (record { reads = r.reads; top = with_block-top d n b f r.top })
  ];
}

AreLeads-replicate : (n : ℕ) → AreLeads (replicate n 0)
AreLeads-replicate zero = tt
AreLeads-replicate (suc n) = (inl refl, AreLeads-replicate n)

pub AllName-replicate : (n : ℕ) → AllName (replicate n inum_free)
AllName-replicate zero = tt
AllName-replicate (suc n) = (inl refl, AllName-replicate n)

pub AllName-set : (l : List ℕ) (i n : ℕ) → AllName l → n < 2048 → AllName (set l i n)
AllName-set [] i n all lt = tt
AllName-set (x ∷ l) zero n all lt = (inr lt, all.1)
AllName-set (x ∷ l) (suc i) n all lt = (all.0, AllName-set l i n all.1 lt)

-- The pointers of a new inode.
pub no_pointers : AreLeads (replicate 44 0)
no_pointers = AreLeads-replicate 44

pub zero_inode-IsGood : IsGood zero_inode
zero_inode-IsGood = record { number = omega arith; pointers = refl; lead = no_pointers }

AreLeads-set : (l : List ℕ) (i b : ℕ) → AreLeads l → Leads b → AreLeads (set l i b)
AreLeads-set [] i b all new = tt
AreLeads-set (x ∷ l) zero b all new = (new, all.1)
AreLeads-set (x ∷ l) (suc i) b all new = (all.0, AreLeads-set l i b all.1 new)

pub pointer_at-Leads : (l : List ℕ) (i : ℕ) → AreLeads l → Leads (pointer_at l i)
pointer_at-Leads [] i all = inl refl
pointer_at-Leads (x ∷ l) zero all = all.0
pointer_at-Leads (x ∷ l) (suc i) all = pointer_at-Leads l i all.1

pub pointer_at-set_same : (l : List ℕ) (i b : ℕ) → i < length l → pointer_at (set l i b) i ≡ b
pointer_at-set_same [] i b lt = absurd (omega (arith, lt))
pointer_at-set_same (x ∷ l) zero b lt = refl
pointer_at-set_same (x ∷ l) (suc i) b lt = pointer_at-set_same l i b (omega arith)

-- A new pointer keeps an inode good.
pub set_pointer-IsGood :
    (h : Inode) (i b : ℕ) → IsGood h → 1089 ≤ b → IsGood (record h { directp = set h.directp i b })
set_pointer-IsGood h i b g hi = record {
  number = g.number;
  pointers = length-set h.directp i b ∙ g.pointers;
  lead = AreLeads-set h.directp i b g.lead (inr hi);
}

abbrev pub AreGood : Inode × Inode → Type 0
AreGood p = IsGood p.0 × IsGood p.1
