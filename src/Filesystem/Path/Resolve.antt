-- ===== src/Filesystem/Path/Resolve.antt =====
-- `navPath` against a reference: the names of the path, looked up one after another.
use osdesign.Base.{
  ℕ, zero, suc, ◌+◌, ◌/◌, ◌==◌, not, ◌&&◌, ◌≤◌, ◌<◌, ◌≡◌, refl, ap, sym, ◌∙◌, ◌≢◌, inl, inr, true,
  false, Bool-cases, Option, none, some, List, [], ◌∷◌, ◌++◌, arith, leb, if◌then◌else◌, length,
}
use native.Mathlib.Decide.{ℕ_discrete}
use osdesign.Base.Command.{Run, ok, fault, out_of_fuel, crash, pure, go_on, ◌>>=◌}
use osdesign.Filesystem.Disk.{
  Superblock, Inode, Disk, Cmd, max_fname, block_read, as_super, as_inodes, as_entries, half_of,
  on_found, inum_free,
}
use osdesign.Filesystem.Path.{Nav, slash, name_eq, find_entry, find_in, at_end, nav_loop, nav_path}
use osdesign.Filesystem.Path.Round.{IsName, at_last, next_name-append, next_name-whole}

-- The path of the names, without the first '/'.
abbrev pub join : List (List ℕ) → List ℕ
join [] = []
join (n ∷ []) = n
join (n ∷ m ∷ ns) = n ++ slash ∷ join (m ∷ ns)

-- Names that are not empty and hold no '/'.
abbrev pub ArePlain : List (List ℕ) → Type 0
ArePlain [] = Unit {0}
ArePlain (n ∷ ns) = IsName n × (n ≢ []) × ArePlain ns

-- Whether two names have the same bytes.
pub same_name : (a b : List ℕ) → Dec (a ≡ b)
same_name [] [] = yes refl
same_name [] (y ∷ ys) = no (λ e. cc)
same_name (x ∷ xs) [] = no (λ e. cc)
same_name (x ∷ xs) (y ∷ ys) = elim (ℕ_discrete x y) [
  | yes e ↦ elim (same_name xs ys) [ yes f ↦ yes (cc) | no ne ↦ no (λ q. ne (cc)) ]
  | no ne ↦ no (λ q. ne (cc))
]

-- The inode number of the first entry that is in use and has the name.
unfoldable pub lookup : List ℕ → List ℕ → List (List ℕ) → Option ℕ
lookup name [] fs = none
lookup name (i ∷ is) [] = none
lookup name (i ∷ is) (f ∷ fs) = elim (ℕ_discrete i inum_free) [
  | yes free ↦ lookup name is fs
  | no used ↦ elim (same_name f name) [ yes e ↦ some i | no ne ↦ lookup name is fs ]
]

-- The pointers of a directory that are in use.
unfoldable pub blocks : List ℕ → List ℕ
blocks [] = []
blocks (b ∷ bs) = if b == 0 then blocks bs else b ∷ blocks bs

-- The inode that the name leads to in one of the blocks.
unfoldable pub look_in : Superblock → List ℕ → List ℕ → Cmd (Option Inode)
look_in s name [] = pure none
look_in s name (b ∷ bs) = do
  (read, x) ← block_read b
  m ← as_entries x
  elim (lookup name m.inums m.fnames) [
    | none ↦ look_in s name bs
    | some i ↦ do
      (read', y) ← block_read (i / 2 + s.i_list)
      p ← as_inodes y
      pure (some (half_of i p))
  ]

-- The inode to go on with: where the name is missing, the directory itself.
abbrev pub or_stay : Inode → Option Inode → Inode
or_stay t none = t
or_stay t (some i) = i

-- The lookup of one name after another, from the directory `t`. A name in the middle that is missing
-- is passed over: the next one is looked up in the same directory.
unfoldable pub follow : Superblock → List (List ℕ) → (p t : Inode) → Cmd Nav
follow s [] p t = pure (record { found = false; par = p; targ = t })
follow s (n ∷ []) p t =
    if leb max_fname (length n)
    then crash
    else (do r ← look_in s n (blocks t.directp); pure (at_last t r))
follow s (n ∷ m ∷ ns) p t =
    if leb max_fname (length n)
    then crash
    else (do r ← look_in s n (blocks t.directp); follow s (m ∷ ns) t (or_stay t r))

unfoldable pub resolve : List (List ℕ) → Cmd Nav
resolve ns = do
  (read, b) ← block_read 0
  s ← as_super b
  (read', r) ← block_read s.i_list
  root ← as_inodes r
  follow s ns root.0 root.0

go_on-ext :
    {A B : Type 0} {f g : A → Cmd B} (r : Run Disk A)
    → ((a : A) (e : Disk) → f a e ≡ g a e)
    → go_on f r ≡ go_on g r
go_on-ext (ok a e) same = same a e
go_on-ext fault same = refl
go_on-ext out_of_fuel same = refl

name_eq_refl : (a : List ℕ) → name_eq a a ≡ true
unfolding name_eq
name_eq_refl [] = refl
name_eq_refl (x ∷ xs) = ground (arith, name_eq_refl xs)

name_eq-true : (a b : List ℕ) → name_eq a b ≡ true → a ≡ b
unfolding name_eq
name_eq-true [] [] e = refl
name_eq-true [] (y ∷ ys) e = cc
name_eq-true (x ∷ xs) [] e = cc
name_eq-true (x ∷ xs) (y ∷ ys) e = elim (ℕ_discrete x y) [
  | yes q ↦ let rest : xs ≡ ys = name_eq-true xs ys (ground (arith, e, q)) in cc (q, rest)
  | no ne ↦ absurd (ground (arith, e, ne))
]

name_eq_lem :
    (a b : List ℕ) (q : Dec (a ≡ b)) → name_eq a b ≡ elim q [ yes e ↦ true | no ne ↦ false ]
name_eq_lem a b (yes e) = ap (name_eq a) (sym e) ∙ name_eq_refl a
name_eq_lem a b (no ne) = elim (Bool-cases (name_eq a b)) [
  | inl same ↦ absurd (ne (name_eq-true a b same))
  | inr other ↦ other
]

find_entry-lookup :
    (name is : List ℕ) (fs : List (List ℕ)) → find_entry name is fs ≡ lookup name is fs
unfolding find_entry lookup
find_entry-lookup name [] fs = refl
find_entry-lookup name (i ∷ is) [] = refl
find_entry-lookup name (i ∷ is) (f ∷ fs) =
    by_tests (ℕ_discrete i inum_free) (same_name f name) (name_eq_lem f name (same_name f name))
      (find_entry-lookup name is fs)
  where
    by_tests :
        (q : Dec (i ≡ inum_free)) (r : Dec (f ≡ name))
        → name_eq f name ≡ elim r [ yes e ↦ true | no ne ↦ false ]
        → find_entry name is fs ≡ lookup name is fs
        → (if not (i == inum_free) && name_eq f name then some i else find_entry name is fs)
          ≡ elim q [
            | yes free ↦ lookup name is fs
            | no used ↦ elim r [ yes e ↦ some i | no ne ↦ lookup name is fs ]
          ]
    by_tests (yes free) r e rest = ground (arith, free, rest)
    by_tests (no used) (yes same) e rest = ground (arith, used, e)
    by_tests (no used) (no ne) e rest = ground (arith, used, e, rest)

on_found_lem :
    {A B : Type 0} (o : Option A) (missing missing' : Cmd B) (found : A → Cmd B) (d : Disk)
    → missing d ≡ missing' d
    → on_found o missing found d ≡ (elim o as (λ x. Cmd B) [ none ↦ missing' | some a ↦ found a ]) d
on_found_lem none missing missing' found d e = e
on_found_lem (some a) missing missing' found d e = refl

find_in-look_in :
    (s : Superblock) (name bs : List ℕ) (d : Disk)
    → find_in s name bs d ≡ look_in s name (blocks bs) d
unfolding find_in look_in blocks
find_in-look_in s name [] d = refl
find_in-look_in s name (b ∷ bs) d = elim (Bool-cases (b == 0)) [
  | inl unused ↦ rw unused (find_in-look_in s name bs d)
  | inr used ↦ rw used (
      go_on-ext (block_read b d) (λ x e. go_on-ext (as_entries x.1 e) (λ m e1.
        rw (find_entry-lookup name m.inums m.fnames) (
          on_found_lem (lookup name m.inums m.fnames) (find_in s name bs)
            (look_in s name (blocks bs)) _ e1 (find_in-look_in s name bs e1)))))
]

at_end-join : (n : List ℕ) (ns : List (List ℕ)) → ArePlain (n ∷ ns) → at_end (join (n ∷ ns)) ≡ false
at_end-join [] ns p = absurd (p.1 refl)
at_end-join (c ∷ []) [] p = ground (arith, p.0)
at_end-join (c ∷ d ∷ n) [] p = refl
at_end-join (c ∷ []) (m ∷ ns) p = longer (join (m ∷ ns))
  where
    longer : (l : List ℕ) → at_end (c ∷ slash ∷ l) ≡ false
    longer l = refl
at_end-join (c ∷ d ∷ n) (m ∷ ns) p = refl

found_or_not :
    (t : Inode) (r : Option Inode)
    → (record {
      found = elim r [ none ↦ false | some i ↦ true ];
      par = t;
      targ = elim r [ none ↦ t | some i ↦ i ];
    })
      ≡ at_last t r
found_or_not t none = refl
found_or_not t (some i) = refl

next_inode : (t : Inode) (r : Option Inode) → elim r [ none ↦ t | some i ↦ i ] ≡ or_stay t r
next_inode t none = refl
next_inode t (some i) = refl

nav_loop-follow :
    (ns : List (List ℕ)) (k : ℕ) (s : Superblock) (p t : Inode) (d : Disk)
    → ArePlain ns
    → 0 < length ns
    → length ns ≤ k
    → nav_loop k s (join ns) p t d ≡ follow s ns p t d
unfolding nav_loop follow
nav_loop-follow [] k s p t d plain some' few = absurd (omega (arith, some'))
nav_loop-follow (n ∷ ns) zero s p t d plain some' few = absurd (omega (arith, few))
nav_loop-follow (n ∷ []) (suc k) s p t d plain some' few =
    rw (next_name-whole n plain.0) (elim (Bool-cases (leb max_fname (length n))) [
      | inl long ↦ rw long refl
      | inr short ↦ rw short (
          ap (go_on _) (find_in-look_in s n t.directp d)
          ∙ go_on-ext (look_in s n (blocks t.directp) d)
              (λ r e. ap (λ x. ok x e) (found_or_not t r)))
    ])
nav_loop-follow (n ∷ m ∷ ns) (suc k) s p t d plain some' few =
    rw (next_name-append n (join (m ∷ ns)) plain.0, at_end-join m ns plain.2)
      (elim (Bool-cases (leb max_fname (length n))) [
        | inl long ↦ rw long refl
        | inr short ↦ rw short (
            ap (go_on _) (find_in-look_in s n t.directp d)
            ∙ go_on-ext (look_in s n (blocks t.directp) d) (λ r e.
              ap (λ x. nav_loop k s (join (m ∷ ns)) t x e) (next_inode t r)
              ∙ nav_loop-follow (m ∷ ns) k s t (or_stay t r) e plain.2 (omega arith)
                  (omega (arith, few))))
      ])

on_root :
    {f g : Superblock → Inode × Inode → Cmd Nav} (d : Disk)
    → ((s : Superblock) (root : Inode × Inode) (e : Disk) → f s root e ≡ g s root e)
    → (block_read 0 >>= (λ b.
          as_super b.1
          >>= (λ s. block_read s.i_list >>= (λ r. as_inodes r.1 >>= (λ root. f s root)))))
        d
      ≡ (block_read 0 >>= (λ b.
            as_super b.1
            >>= (λ s. block_read s.i_list >>= (λ r. as_inodes r.1 >>= (λ root. g s root)))))
          d
on_root d same = go_on-ext (block_read 0 d) (λ b e. go_on-ext (as_super b.1 e) (λ s e1.
    go_on-ext (block_read s.i_list e1)
      (λ r e2. go_on-ext (as_inodes r.1 e2) (λ root e3. same s root e3))))

-- On the path of some names, at most 10000, that are not empty and hold no '/', `navPath` does on
-- every disk what the lookup of one name after another from the root does: each name is looked up in
-- the blocks of the directory, and where it is missing and not the last one, the next name is looked
-- up in the same directory.
pub nav_path-resolve :
    (ns : List (List ℕ)) (d : Disk)
    → ArePlain ns
    → 0 < length ns
    → length ns ≤ 10000
    → nav_path (slash ∷ join ns) d ≡ resolve ns d
unfolding nav_path resolve
nav_path-resolve [] d plain some' few = absurd (omega (arith, some'))
nav_path-resolve ([] ∷ ns) d plain some' few = absurd (plain.1 refl)
nav_path-resolve ((c ∷ n) ∷ []) d plain some' few =
    on_root d (λ s root e. nav_loop-follow ((c ∷ n) ∷ []) 10000 s root.0 root.0 e plain some' few)
nav_path-resolve ((c ∷ n) ∷ m ∷ ns) d plain some' few =
    on_root d
      (λ s root e. nav_loop-follow ((c ∷ n) ∷ m ∷ ns) 10000 s root.0 root.0 e plain some' few)
