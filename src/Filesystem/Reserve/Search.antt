-- ===== src/Filesystem/Reserve/Search.antt =====
-- First fit in a range of map blocks: the search that `reserveFreeData` and `reserveFreeInode` share.
use osdesign.Base.{
  ℕ, zero, suc, ◌+◌, ◌*◌, ◌≤◌, ◌<◌, ◌≡◌, sym, ◌≢◌, ◌⊎◌, inl, inr, none, some, List, [], ◌∷◌, arith,
  length, get_elem?, Option-cases,
}
use mathlib.Core.Path.{subst}
use native.Mathlib.Decide.{dec_lt}
use osdesign.Base.Command.{Run, ok}
use osdesign.Filesystem.Disk.{bytes, Disk, Cmd}
use osdesign.Filesystem.Reserve.{first_zero}

pub first_zero-some :
    (l : List ℕ) (j : ℕ) → first_zero l ≡ some j → (j < length l) × (get_elem? l j ≡ some 0)
unfolding first_zero
first_zero-some [] j e = cc
first_zero-some (b ∷ bs) j e = elim (Option-cases (first_zero bs)) [
  | inl q ↦ ground (arith, q)
  | inr (i, q) ↦ ground (arith, q, first_zero-some bs i q)
]

first_zero-least : (l : List ℕ) (j i : ℕ) → first_zero l ≡ some j → get_elem? l i ≡ some 0 → j ≤ i
unfolding first_zero
first_zero-least [] j i e = cc
first_zero-least (b ∷ bs) j zero e = ground (arith, e)
first_zero-least (b ∷ bs) j (suc i) e = elim (Option-cases (first_zero bs)) [
  | inl q ↦ ground (arith, e, q)
  | inr (k, q) ↦ λ z. ground (arith, e, q, first_zero-least bs k i q z)
]

first_zero-none : (l : List ℕ) (j : ℕ) → first_zero l ≡ none → get_elem? l j ≢ some 0
unfolding first_zero
first_zero-none [] j e = cc
first_zero-none (b ∷ bs) zero e = ground (arith, e)
first_zero-none (b ∷ bs) (suc j) e = first_zero-none bs j (ground (arith, e))

-- The blocks from `lo` to `hi` hold a map of 512 bytes each.
abbrev pub IsMap : ℕ → ℕ → Disk → Type 0
IsMap lo hi d =
    (b : ℕ) → lo ≤ b → b < hi → (l : List ℕ) × (d.blocks b ≡ some (bytes l)) × (length l ≡ 512)

-- The map block `b` has a zero at `j`.
pub record FreeIn (lo hi : ℕ) (d : Disk) (b j : ℕ) (l : List ℕ) : Type 0 where
  pub above : lo ≤ b
  pub below : b < hi
  pub holds : d.blocks b ≡ some (bytes l)
  pub inside : j < 512
  pub unused : get_elem? l j ≡ some 0

-- A loop over the map on the disk `d`: what one round does behind the end, at a full block, and at
-- a block with a zero.
pub record Rule {A : Type 0} (lo hi : ℕ) (d : Disk) (loop : ℕ → ℕ → Cmd A) (missing : A)
    (hit : ℕ → ℕ → List ℕ → Run Disk A) : Type 0 where
  pub past : (k b : ℕ) → hi ≤ b → loop (suc k) b d ≡ ok missing d
  pub full :
      (k b : ℕ) (l : List ℕ)
      → b < hi
      → d.blocks b ≡ some (bytes l)
      → first_zero l ≡ none
      → loop (suc k) b d ≡ loop k (b + 1) d
  pub free :
      (k b : ℕ) (l : List ℕ) (j : ℕ)
      → FreeIn lo hi d b j l
      → first_zero l ≡ some j
      → loop (suc k) b d ≡ hit b j l

-- The outcome of a search: no zero at all, or the first one.
abbrev pub Found :
    {A : Type 0} → (lo hi : ℕ) → Disk → A → (ℕ → ℕ → List ℕ → Run Disk A) → Run Disk A → Type 0
Found lo hi d missing hit r =
    ((r ≡ ok missing d) × ((b j : ℕ) (l : List ℕ) → FreeIn lo hi d b j l → ⊥))
    ⊎ ((b : ℕ) × (j : ℕ) × (l : List ℕ) × FreeIn lo hi d b j l
        × ((c i : ℕ) (k : List ℕ) → FreeIn lo hi d c i k → 512 * b + j ≤ 512 * c + i)
        × (r ≡ hit b j l))

module _ (lo hi : ℕ) (d : Disk) where
  NoneBelow : ℕ → Type 0
  NoneBelow b = (c j : ℕ) (l : List ℕ) → c < b → FreeIn lo hi d c j l → ⊥

  later :
      (b : ℕ) (l : List ℕ)
      → NoneBelow b
      → d.blocks b ≡ some (bytes l)
      → first_zero l ≡ none
      → NoneBelow (b + 1)
  unfolding NoneBelow
  later b l full holds none' c j l' lt f = elim (dec_lt c b) [
    | yes before ↦ full c j l' before f
    | no here ↦
        let same : c ≡ b = omega arith in
        let maps : l' ≡ l = ground (arith, f.holds, same) in
        first_zero-none l j none' (rw (← maps) f.unused)
  ]

  earliest :
      (b j : ℕ) (l : List ℕ)
      → NoneBelow b
      → d.blocks b ≡ some (bytes l)
      → length l ≡ 512
      → first_zero l ≡ some j
      → (c i : ℕ) (k : List ℕ) → FreeIn lo hi d c i k
      → 512 * b + j ≤ 512 * c + i
  unfolding NoneBelow
  earliest b j l full holds shorter found c i k f = elim (dec_lt c b) [
    | yes before ↦ absurd (full c i k before f)
    | no here ↦ elim (dec_lt b c) [
      | yes behind ↦ omega (arith, (first_zero-some l j found).0, shorter)
      | no same' ↦
          let same : c ≡ b = omega arith in
          let maps : k ≡ l = ground (arith, f.holds, same) in
          omega (arith, first_zero-least l j i found (rw (← maps) f.unused), same)
    ]
  ]

  module _ {A : Type 0} {loop : ℕ → ℕ → Cmd A} {missing : A} {hit : ℕ → ℕ → List ℕ → Run Disk A}
      (rule : Rule lo hi d loop missing hit) (maps : IsMap lo hi d) where
    search_from :
        (k b : ℕ)
        → lo ≤ b
        → b ≤ hi
        → hi < b + k
        → NoneBelow b
        → Found lo hi d missing hit (loop k b d)
    unfolding NoneBelow
    search_from zero b lo' top fuel full = absurd (omega arith)
    search_from (suc k) b lo' top fuel full = elim (dec_lt b hi) [
      | no past ↦
          inl (rule.past k b (omega arith), λ c j l f. full c j l (omega (arith, f.below)) f)
      | yes below ↦
          let (l, holds, len) = maps b lo' below in
          elim (Option-cases (first_zero l)) [
            | inl none' ↦
                subst (Found lo hi d missing hit) (sym (rule.full k b l below holds none')) (
                  search_from k (b + 1) (omega arith) (omega arith) (omega arith)
                    (λ c j l' lt f. later b l full holds none' c j l' lt f))
            | inr (j, found) ↦
                let f : FreeIn lo hi d b j l = record {
                  above = lo';
                  below = below;
                  holds = holds;
                  inside = omega (arith, (first_zero-some l j found).0, len);
                  unused = (first_zero-some l j found).1;
                } in
                inr (b, j, l, f, earliest b j l full holds len found, rule.free k b l j f found)
          ]
    ]

    pub search-Found : (k : ℕ) → lo ≤ hi → hi < lo + k → Found lo hi d missing hit (loop k lo d)
    unfolding NoneBelow
    search-Found k ordered fuel =
        search_from k lo (omega arith) ordered fuel (λ c j l lt f. omega (arith, f.above))
