-- ===== src/LinkedList/Queue/Links.antt =====
-- Well-formed lists, fresh blocks, and what linking a node does to a list.
use osdesign.Base.{
  ℕ, ◌+◌, ◌%◌, ◌≡◌, refl, ◌≢◌, false, none, some, List, [], ◌∷◌, ◌++◌, arith, ◌==◌, if◌then◌else◌,
  length, length-append,
}
use osdesign.LinkedList.Memory.{Ptr, null, node, Heap, ok, update, load, load_thread, set_next}
use osdesign.LinkedList.Chain.{
  Cell, first, last_at, has, Chain, relink, Chain-frame, has-append, Chain-relink,
}
use osdesign.LinkedList.{LinkedList, linked_list, Blocks, two32, new_node, link_after}

-- The handle and the heap hold exactly the given nodes.
pub record IsList (h : Heap) (l : LinkedList) (cs : List Cell) : Type 0 where
  pub head : l.head ≡ first cs
  pub tail : l.tail ≡ last_at cs
  pub nitems : l.nitems ≡ length cs % two32
  pub chain : Chain h cs

-- What `malloc` promises when it does not fail: blocks that nothing uses.
pub record IsFresh (h : Heap) (m : Blocks) : Type 0 where
  pub node_ne_null : m.0 ≢ null
  pub slot_ne_null : m.1 ≢ null
  pub node_unused : h.nodes m.0 ≡ none
  pub slot_unused : h.threads m.1 ≡ none

abbrev pub new_cell : Blocks → ℕ → Cell
new_cell m v = record { at = m.0; slot = m.1; thread = v }

-- A change at the nodes of `cs` and in the blocks `m` alone.
abbrev pub Spares : Heap → Heap → List Cell → Blocks → Type 0
Spares h g cs m =
    ((a : Ptr) → has cs a ≡ false → a ≢ m.0 → g.nodes a ≡ h.nodes a)
    × ((a : Ptr) → a ≢ m.1 → g.threads a ≡ h.threads a)

abbrev pub made : Blocks → ℕ → Heap → Heap
made m v h = record h {
  nodes = update h.nodes m.0 (node m.1 null);
  threads = update h.threads m.1 v;
}

pub new_node-ok :
    (h : Heap) (m : Blocks) (t : Ptr) (v : ℕ)
    → IsFresh h m
    → t ≢ null
    → h.threads t ≡ some v
    → new_node m t h ≡ ok m.0 (made m v h)
unfolding new_node load_thread
new_node-ok h m t v f ne e = ground arith

pub not-has_of_none :
    (h : Heap) (cs : List Cell) (a : Ptr) → Chain h cs → h.nodes a ≡ none → has cs a ≡ false
not-has_of_none h [] a ch e = refl
not-has_of_none h (c ∷ cs) a ch e = ground (arith, not-has_of_none h cs a ch.5)

pub Chain-made :
    (h : Heap) (cs : List Cell) (m : Blocks) (v : ℕ)
    → IsFresh h m
    → Chain h cs
    → Chain (made m v h) cs
Chain-made h cs m v f ch =
    Chain-frame h (made m v h) cs (λ a i. ground (arith, not-has_of_none h cs m.0 ch))
      (λ a t e. ground arith) ch

pub Chain-suffix : (h : Heap) (pre cs : List Cell) → Chain h (pre ++ cs) → Chain h cs
Chain-suffix h [] cs ch = ch
Chain-suffix h (c ∷ pre) cs ch = Chain-suffix h pre cs ch.5

not-first : (a : Ptr) → a ≢ null → (cs : List Cell) → has cs a ≡ false → first cs ≢ a
not-first a ne [] e = ground arith
not-first a ne (c ∷ cs) e = ground arith

first-ne :
    (h : Heap) (pre : List Cell) (d : Cell) (post : List Cell)
    → Chain h (pre ++ d ∷ post)
    → first post ≢ first (pre ++ d ∷ post)
first-ne h [] d post ch = not-first d.at ch.0 post ch.4
first-ne h (c ∷ pre) d post ch = not-first c.at ch.0 post (suffix pre ch.4)
  where
    suffix : (xs : List Cell) → has (xs ++ d ∷ post) c.at ≡ false → has post c.at ≡ false
    suffix [] e = ground arith
    suffix (x ∷ xs) e = suffix xs (ground arith)

last_at-insert :
    (h : Heap) (pre : List Cell) (d n : Cell) (post : List Cell)
    → Chain h post
    → last_at (pre ++ d ∷ n ∷ post)
      ≡ (if first post == null then n.at else last_at (pre ++ d ∷ post))
last_at-insert h [] d n [] ch = refl
last_at-insert h [] d n (p ∷ post) ch = ground arith
last_at-insert h (c ∷ []) d n post ch = last_at-insert h [] d n post ch
last_at-insert h (c ∷ e ∷ pre) d n post ch = last_at-insert h (e ∷ pre) d n post ch

-- `link_after` at a node of the list, in a heap where the new node is made.
pub link_after-ok :
    (h : Heap) (l : LinkedList) (pre : List Cell) (d : Cell) (post : List Cell) (m : Blocks) (v : ℕ)
    → IsFresh h m
    → IsList h l (pre ++ d ∷ post)
    → let n = new_cell m v in
      let g = relink d n post (made m v h) in
      (l' : LinkedList) × (link_after m.0 d.at l (made m v h) ≡ ok l' g)
      × IsList g l' (pre ++ d ∷ n ∷ post)
unfolding link_after load set_next
link_after-ok h l pre d post m v f is =
    let n = new_cell m v in
    let ch = Chain-made h (pre ++ d ∷ post) m v f is.chain in
    let tail = Chain-suffix (made m v h) pre (d ∷ post) ch in
    let new = not-has_of_none h (pre ++ d ∷ post) m.0 is.chain f.node_unused in
    (
      linked_list (if first post == null then m.0 else l.tail)
          (if first post == l.head then m.0 else l.head) ((l.nitems + 1) % two32),
      ground (arith, has-append pre (d ∷ post) m.0),
      record {
        head = ground (arith, is.head, first-ne h pre d post is.chain, first_kept pre);
        tail = ground (arith, is.tail, last_at-insert (made m v h) pre d n post tail.5);
        nitems =
            omega
              (arith, length-append pre (d ∷ post), length-append pre (d ∷ n ∷ post), is.nitems);
        chain =
            Chain-relink (made m v h) pre d post n ch new f.node_ne_null f.slot_ne_null
              (ground arith);
      },
    )
  where
    first_kept : (xs : List Cell) → first (xs ++ d ∷ new_cell m v ∷ post) ≡ first (xs ++ d ∷ post)
    first_kept [] = refl
    first_kept (x ∷ xs) = refl
