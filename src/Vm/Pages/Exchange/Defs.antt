-- ===== src/Vm/Pages/Exchange/Defs.antt =====
-- Two pages of the table, and the memory in which they have changed places.
use osdesign.Base.{ℕ, ◌+◌, ◌≤◌, ◌<◌, ◌≡◌, ◌≢◌, ◌⊎◌, Bool, false, ◌&&◌, List, ◌∷◌, leb, ltb}
use osdesign.Vm.Memory.{Ptr, null, SpaceNode, header, Vm}
use osdesign.Vm.Pages.Restore.{Tiled, linked, Holding, is_at}

-- Two different pages of the table at `p1` and `p2`, which stands below the pages' bytes. The bytes of
-- the pages do not overlap, and in each the elements lie one behind the other.
pub record TwoPages (v : Vm) (p1 p2 : Ptr) (x1 x2 : SpaceNode) (e1 e2 : SpaceNode)
    (es1 es2 : List SpaceNode) : Type 0 where
  pub ne_null1 : p1 ≢ null
  pub ne_null2 : p2 ≢ null
  pub apart : p1 ≢ p2
  pub holds1 : v.slots p1 ≡ header x1
  pub holds2 : v.slots p2 ≡ header x2
  pub size1 : x1.size ≤ v.page_size
  pub size2 : x2.size ≤ v.page_size
  pub below11 : p1 < x1.start
  pub below12 : p1 < x2.start
  pub below21 : p2 < x1.start
  pub below22 : p2 < x2.start
  pub disjoint : (x1.start + v.page_size ≤ x2.start) ⊎ (x2.start + v.page_size ≤ x1.start)
  pub tiled1 : Tiled v.slots x1.start x1.size (e1 ∷ es1)
  pub tiled2 : Tiled v.slots x2.start x2.size (e2 ∷ es2)

-- The entry `x` of the table with the place of the entry `y`.
abbrev pub placed : SpaceNode → SpaceNode → SpaceNode
placed x y = record x { start = y.start; next = y.next; prev = y.prev }

-- `p` is a byte of the page whose bytes start at `a`.
abbrev pub inside : Vm → Ptr → Ptr → Bool
inside v a p = leb a p && ltb p (a + v.page_size)

-- The memory `v'` is `v` with the two pages exchanged: the entries of the table keep their places and
-- exchange the rest, the elements are linked where they are now, the other bytes of each page are the
-- other's, and nothing else changes.
pub record Exchanged (v v' : Vm) (p1 p2 : Ptr) (x1 x2 : SpaceNode) (e1 e2 : SpaceNode)
    (es1 es2 : List SpaceNode) : Type 0 where
  pub entry1 : v'.slots p1 ≡ header (placed x2 x1)
  pub entry2 : v'.slots p2 ≡ header (placed x1 x2)
  pub elements1 : Holding v'.slots (linked x1.start null (e2 ∷ es2))
  pub elements2 : Holding v'.slots (linked x2.start null (e1 ∷ es1))
  pub bytes1 :
      (o : ℕ)
      → o < v.page_size
      → is_at (linked x1.start null (e2 ∷ es2)) (x1.start + o) ≡ false
      → v'.slots (x1.start + o) ≡ v.slots (x2.start + o)
  pub bytes2 :
      (o : ℕ)
      → o < v.page_size
      → is_at (linked x2.start null (e1 ∷ es1)) (x2.start + o) ≡ false
      → v'.slots (x2.start + o) ≡ v.slots (x1.start + o)
  pub others :
      (p : Ptr)
      → p ≢ p1
      → p ≢ p2
      → inside v x1.start p ≡ false
      → inside v x2.start p ≡ false
      → v'.slots p ≡ v.slots p
  pub globals : v' ≡ record v { slots = v'.slots }
