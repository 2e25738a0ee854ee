-- ===== src/LinkedList/Chain.antt =====
-- The nodes that a list reaches, as cells: node address, address of its thread cell, thread.
use osdesign.Base.{
  ℕ, ◌≡◌, refl, ◌≢◌, Bool, true, false, ◌||◌, some, List, [], ◌∷◌, ◌++◌, map, arith, ◌==◌,
}
use osdesign.LinkedList.Memory.{Ptr, null, node, Heap, ok, set_node, load, load_thread}

pub record Cell : Type 0 where
  pub at : Ptr
  pub slot : Ptr
  pub thread : ℕ

abbrev pub first : List Cell → Ptr
first [] = null
first (c ∷ cs) = c.at

abbrev pub last_at : List Cell → Ptr
last_at [] = null
last_at (c ∷ []) = c.at
last_at (c ∷ d ∷ cs) = last_at (d ∷ cs)

abbrev pub has : List Cell → Ptr → Bool
has [] a = false
has (c ∷ cs) a = (c.at == a) || has cs a

-- Each node holds its thread cell and leads to the next; the addresses are distinct.
abbrev pub Chain : Heap → List Cell → Type 0
Chain h [] = Unit {0}
Chain h (c ∷ cs) =
    (c.at ≢ null)
    × (c.slot ≢ null)
    × (h.nodes c.at ≡ some (node c.slot (first cs)))
    × (h.threads c.slot ≡ some c.thread)
    × (has cs c.at ≡ false)
    × Chain h cs

abbrev pub threads_of : List Cell → List ℕ
threads_of = map (λ c. c.thread)

pub load-ok :
    (h : Heap) (c : Cell) (cs : List Cell)
    → Chain h (c ∷ cs)
    → load c.at h ≡ ok (node c.slot (first cs)) h
unfolding load
load-ok h c cs ch = ground arith

pub load_thread-ok :
    (h : Heap) (c : Cell) (cs : List Cell) → Chain h (c ∷ cs) → load_thread c.slot h ≡ ok c.thread h
unfolding load_thread
load_thread-ok h c cs ch = ground arith

-- A chain sees only its own nodes and thread cells.
pub Chain-frame :
    (h g : Heap) (cs : List Cell)
    → ((a : Ptr) → has cs a ≡ true → g.nodes a ≡ h.nodes a)
    → ((a : Ptr) (t : ℕ) → h.threads a ≡ some t → g.threads a ≡ some t)
    → Chain h cs
    → Chain g cs
Chain-frame h g [] same kept ch = tt
Chain-frame h g (c ∷ cs) same kept ch =
    let rest = Chain-frame h g cs (λ a i. same a (ground arith)) kept ch.5 in
    (ch.0, ch.1, ground (arith, same c.at), kept c.slot c.thread ch.3, ch.4, rest)

pub has-append : (xs ys : List Cell) (a : Ptr) → has (xs ++ ys) a ≡ (has xs a || has ys a)
has-append [] ys a = refl
has-append (x ∷ xs) ys a = ground (arith, has-append xs ys a)

pub first-append : (xs ys zs : List Cell) (d : Cell) → first (xs ++ d ∷ ys) ≡ first (xs ++ d ∷ zs)
first-append [] ys zs d = refl
first-append (x ∷ xs) ys zs d = refl

pub last_at-append : (xs : List Cell) (d : Cell) → last_at (xs ++ d ∷ []) ≡ d.at
last_at-append [] d = refl
last_at-append (x ∷ []) d = refl
last_at-append (x ∷ y ∷ xs) d = last_at-append (y ∷ xs) d

-- The heap after `n->next = d->next; d->next = n`, with `post` behind `d`.
abbrev pub relink : Cell → Cell → List Cell → Heap → Heap
relink d n post h = set_node d.at (node d.slot n.at) (set_node n.at (node n.slot (first post)) h)

-- The links of `link_after` put the new node between `d` and `post`.
pub Chain-relink :
    (h : Heap) (pre : List Cell) (d : Cell) (post : List Cell) (n : Cell)
    → Chain h (pre ++ d ∷ post)
    → has (pre ++ d ∷ post) n.at ≡ false
    → n.at ≢ null
    → n.slot ≢ null
    → h.threads n.slot ≡ some n.thread
    → Chain (relink d n post h) (pre ++ d ∷ n ∷ post)
Chain-relink h [] d post n ch new nn sn tn = (
  ch.0,
  ch.1,
  ground arith,
  ch.3,
  ground arith,
  (
    nn,
    sn,
    ground arith,
    tn,
    ground arith,
    Chain-frame h (relink d n post h) post (λ a i. ground arith) (λ a t e. e) ch.5,
  ),
)
Chain-relink h (c ∷ pre) d post n ch new nn sn tn = (
  ch.0,
  ch.1,
  ground (arith, first-append pre post (n ∷ post) d, has-append pre (d ∷ post) c.at),
  ch.3,
  ground (arith, has-append pre (d ∷ post) c.at, has-append pre (d ∷ n ∷ post) c.at),
  Chain-relink h pre d post n ch.5 (ground arith) nn sn tn,
)
