-- ===== src/Filesystem/Integrity/Short.antt =====
-- Paths whose names have less than 24 bytes.
use osdesign.Base.{
  ℕ, ◌-◌, ◌≤◌, ◌<◌, ◌≡◌, refl, ◌⊎◌, inl, inr, Bool, true, Bool-cases, ◌&&◌, none, some, List, [],
  ◌∷◌, arith, leb, ◌==◌, if◌then◌else◌, length, Option-cases,
}
use osdesign.Filesystem.Path.{slash, next_name}
use osdesign.Filesystem.Directory.{split_last}

-- No name is longer than 23 bytes, the first one no longer than `room`.
abbrev pub is_short : ℕ → List ℕ → Bool
is_short room [] = true
is_short room (c ∷ cs) = if c == slash then is_short 23 cs else leb 1 room && is_short (room - 1) cs

abbrev pub IsShort : List ℕ → Type 0
IsShort path = is_short 23 path ≡ true

is_short_mono :
    (r r' : ℕ) (path : List ℕ) → r ≤ r' → is_short r path ≡ true → is_short r' path ≡ true
is_short_mono r r' [] le e = refl
is_short_mono r r' (c ∷ cs) le e =
    ground (arith, e, le, is_short_mono (r - 1) (r' - 1) cs (omega (arith, le)))

pub IsShort-tail : (c : ℕ) (cs : List ℕ) → IsShort (c ∷ cs) → IsShort cs
IsShort-tail c cs e = ground (arith, e, is_short_mono 22 23 cs (omega arith))

next_name-is_short :
    (r : ℕ) (path : List ℕ)
    → is_short r path ≡ true
    → (length (next_name path).0 ≤ r) × IsShort (next_name path).1
unfolding next_name
next_name-is_short r [] e = (omega arith, refl)
next_name-is_short r (c ∷ cs) e = elim (Bool-cases (c == slash)) [
  | inl q ↦ rw q (omega arith, ground (arith, e, q))
  | inr q ↦
      let rest = next_name-is_short (r - 1) cs (ground (arith, e, q)) in
      let room : 1 ≤ r = ground (arith, e, q) in rw q (omega (arith, rest.0, room), rest.1)
]

split_last-none :
    (r : ℕ) (path : List ℕ) → is_short r path ≡ true → split_last path ≡ none → length path ≤ r
unfolding split_last
split_last-none r [] e q = omega arith
split_last-none r (c ∷ cs) e q = elim (Option-cases (split_last cs)) [
  | inl z ↦ ground (arith, e, q, z, split_last-none (r - 1) cs)
  | inr (p, z) ↦ ground (arith, q, z)
]

split_last-is_short :
    (r : ℕ) (path : List ℕ) (dir name : List ℕ)
    → is_short r path ≡ true
    → split_last path ≡ some (dir, name)
    → (is_short r dir ≡ true) × (length name < 24)
unfolding split_last
split_last-is_short r [] dir name e q = cc
split_last-is_short r (c ∷ cs) dir name e q = elim (Option-cases (split_last cs)) [
  | inl z ↦
      let here : (c == slash) ≡ true = ground (arith, q, z) in
      let empty : dir ≡ [] = ground (arith, q, z, here) in
      let all : name ≡ cs = ground (arith, q, z, here) in
      let few : length cs ≤ 23 = split_last-none 23 cs (ground (arith, e, here)) z in
      rw (empty, all) (refl, omega (arith, few))
  | inr ((d, n), z) ↦
      let longer : dir ≡ c ∷ d = ground (arith, q, z) in
      let same : name ≡ n = ground (arith, q, z) in
      rw (longer, same)
        (elim (Bool-cases (c == slash)) [
          | inl here ↦
              let rest = split_last-is_short 23 cs d n (ground (arith, e, here)) z in
              (ground (arith, here, rest.0), rest.1)
          | inr other ↦
              let rest = split_last-is_short (r - 1) cs d n (ground (arith, e, other)) z in
              let room : leb 1 r ≡ true = ground (arith, e, other) in
              (ground (arith, other, rest.0, room), rest.1)
        ])
]

module _ {X : Type 0} where
  pub next_name-IsShort :
      (path : List ℕ)
      → X ⊎ IsShort path
      → X ⊎ ((length (next_name path).0 < 24) × IsShort (next_name path).1)
  next_name-IsShort path (inl x) = inl x
  next_name-IsShort path (inr s) =
      let (few, rest) = next_name-is_short 23 path s in inr (omega (arith, few), rest)

  pub split_last-IsShort :
      (path : List ℕ) (parts : List ℕ × List ℕ)
      → X ⊎ IsShort path
      → split_last path ≡ some parts
      → X ⊎ (IsShort parts.0 × (length parts.1 < 24))
  split_last-IsShort path parts (inl x) e = inl x
  split_last-IsShort path parts (inr s) e = inr (split_last-is_short 23 path parts.0 parts.1 s e)

  -- A name that is too long has the excuse.
  pub too_long : (name : List ℕ) → X ⊎ (length name < 24) → leb 24 (length name) ≡ true → X
  too_long name (inl x) e = x
  too_long name (inr s) e = absurd (ground (arith, s, e))
