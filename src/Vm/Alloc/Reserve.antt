-- ===== src/Vm/Alloc/Reserve.antt =====
-- `myallocate(0, ..., id)`, by which a new thread gets its first page.
use osdesign.Base.{
  ℕ, zero, suc, ◌+◌, ◌-◌, ◌<◌, ◌≤◌, ◌^◌, ◌%◌, ◌≡◌, refl, ap, ◌∙◌, ◌≢◌, ◌⊎◌, inl, inr, true, false,
  not, List, [], ◌∷◌, ◌++◌, arith, ◌==◌, if◌then◌else◌, length,
}
use osdesign.Base.Command.{ok}
use osdesign.Vm.Memory.{Ptr, null, SpaceNode, sizeof_node, header, Vm, put}
use osdesign.Vm.Space.{find_node, find_free_page, initialize_space}
use osdesign.Vm.Space.Find.{
  Entry, Nodes, Fails, load-header, store-put, find_node-first, Nodes-middle,
}
use osdesign.Vm.Pages.{swap_pages, get_free_page}
use osdesign.Vm.Pages.Restore.{Tiled, Tiled-put, Tiled-moved}
use osdesign.Vm.Pages.Exchange.{swap_pages-Exchanged}
use osdesign.Vm.Pages.Exchange.Defs.{TwoPages, Exchanged}
use osdesign.Vm.Alloc.{memory_allow_all, page_req, myallocate}
use osdesign.Vm.Alloc.Handler.{in_memory}

-- A table of pages, of which those in `before`, the first one at `p1` among them, are in use, and the
-- next one, at `p2`, is free. The table stands below both pages, which do not overlap, and in the first
-- one the elements lie one behind the other.
pub record Vacant (v : Vm) (before after : List Entry) (p1 p2 : Ptr) (x1 x2 e1 : SpaceNode)
    (es1 : List SpaceNode) : Type 0 where
  pub nodes : Nodes v.slots ((p1, x1) ∷ before ++ (p2, x2) ∷ after)
  pub top : v.mem ≡ p1
  pub in_use : Fails (λ x. not (x.free == 0)) ((p1, x1) ∷ before)
  pub free : x2.free ≢ 0
  pub apart : p1 ≢ p2
  pub size1 : x1.size ≤ v.page_size
  pub size2 : x2.size ≤ v.page_size
  pub room : sizeof_node < x2.size
  pub small : x2.size < 2 ^ 32
  pub below11 : p1 < x1.start
  pub below12 : p1 < x2.start
  pub below21 : p2 < x1.start
  pub below22 : p2 < x2.start
  pub disjoint : (x1.start + v.page_size ≤ x2.start) ⊎ (x2.start + v.page_size ≤ x1.start)
  pub tiled1 : Tiled v.slots x1.start x1.size (e1 ∷ es1)

-- The page of the thread `pid`, its one free element, and the memory in which it is in use with it.
abbrev pub owned : ℕ → SpaceNode → SpaceNode
owned pid x = record x { free = 0; pid = pid }

abbrev pub free_element : Ptr → ℕ → SpaceNode
free_element start size = record {
  pid = 0;
  reference = 0;
  free = 1;
  order = 1;
  start = start + 56;
  size = (size + 2 ^ 64 - 56) % 2 ^ 32;
  next = null;
  prev = null;
  data_starts_another_page = 0;
  swapclock = 0;
}

abbrev pub prepared : ℕ → Ptr → SpaceNode → Vm → Vm
prepared pid p x v = put x.start (free_element x.start x.size) (put p (owned pid x) v)

-- One element fills the page.
filled :
    (size : ℕ)
    → sizeof_node < size
    → size < 2 ^ 32
    → size - (sizeof_node + (size + 2 ^ 64 - sizeof_node) % 2 ^ 32) ≤ sizeof_node
filled size room small = omega arith

module _ (rounds pid : ℕ) (v : Vm) (before after : List Entry) (p1 p2 : Ptr) (x1 x2 e1 : SpaceNode)
    (es1 : List SpaceNode) (o : Vacant v before after p1 p2 x1 x2 e1 es1)
    (rounds_pages : length before + 1 < rounds) (rounds_elements : length (e1 ∷ es1) < rounds) where
  at2 : (p2 ≢ null) × (v.slots p2 ≡ header x2)
  at2 = Nodes-middle v.slots ((p1, x1) ∷ before) after (p2, x2) o.nodes

  finds : find_free_page rounds v ≡ ok p2 v
  unfolding find_free_page
  finds =
      let hit : not (x2.free == 0) ≡ true = ground (arith, o.free) in
      ap (λ p. find_node rounds (λ x. not (x.free == 0)) p v) o.top
      ∙ find_node-first (λ x. not (x.free == 0)) v ((p1, x1) ∷ before) after (p2, x2) rounds o.nodes
          o.in_use hit (omega (arith, rounds_pages))

  outside1 : (i : ℕ) → i < x1.size → x1.start + i ≢ x2.start
  outside1 i lt e = elim o.disjoint [
    | inl le ↦ omega (arith, le, lt, e, o.size1)
    | inr le ↦ omega (arith, le, e, o.size2, o.room)
  ]

  two :
      TwoPages
        (prepared pid p2 x2 v)
        p1
        p2
        x1
        (owned pid x2)
        e1
        (free_element x2.start x2.size)
        es1
        []
  two = record {
    ne_null1 = o.nodes.0;
    ne_null2 = at2.0;
    apart = o.apart;
    holds1 = ground (arith, o.apart, o.below12, o.nodes.1);
    holds2 = ground (arith, o.below22);
    size1 = o.size1;
    size2 = o.size2;
    below11 = o.below11;
    below12 = o.below12;
    below21 = o.below21;
    below22 = o.below22;
    disjoint = o.disjoint;
    tiled1 =
        Tiled-moved (put p2 (owned pid x2) v).slots (prepared pid p2 x2 v).slots x1.start x1.start
          x1.size (e1 ∷ es1) (omega (arith, o.below11)) (λ i lt. ground (arith, outside1 i lt))
          (Tiled-put v p2 (owned pid x2) x1.start x1.size (e1 ∷ es1) o.below21 o.tiled1);
    tiled2 = (o.room, omega (arith, o.below22), ground arith, filled x2.size o.room o.small);
  }

  gets :
      (k : ℕ)
      → (v' : Vm) × (get_free_page rounds (suc k) pid v ≡ ok v.mem v')
        × Exchanged
            (prepared pid p2 x2 v)
            v'
            p1
            p2
            x1
            (owned pid x2)
            e1
            (free_element x2.start x2.size)
            es1
            []
  unfolding get_free_page initialize_space
  gets k =
      let (v', runs, ex) =
        swap_pages-Exchanged (prepared pid p2 x2 v) p1 p2 x1 (owned pid x2) e1
          (free_element x2.start x2.size) es1 [] two rounds rounds_elements
          (omega (arith, rounds_pages)) in
      let some' : (p2 == null) ≡ false = ground (arith, at2.0) in
      let start' : x2.start ≢ null = omega (arith, o.below22) in
      (
        v',
        rw
            (
              finds,
              some',
              load-header v p2 x2 at2.0 at2.1,
              store-put p2 (owned pid x2) v at2.0,
              store-put x2.start (free_element x2.start x2.size) (put p2 (owned pid x2) v) start',
              ap (λ p. swap_pages rounds p p2 (prepared pid p2 x2 v)) o.top ∙ runs,
            )
            refl,
        ex,
      )

-- With a page in the table that is free, the first one not, and with more rounds than there are
-- pages in use in front of it and elements on the first page, `myallocate` for a page, whatever the
-- size, also 0, opens the memory of the pages up to the next page boundary and returns the first
-- entry of the table: the free page, which now belongs to the thread and holds one free element,
-- has changed places with the first page, and nothing else changes.
pub myallocate-Exchanged :
    (rounds pid id size : ℕ) (v : Vm) (before after : List Entry) (p1 p2 : Ptr)
    (x1 x2 e1 : SpaceNode) (es1 : List SpaceNode)
    → Vacant v before after p1 p2 x1 x2 e1 es1
    → length before + 1 < rounds
    → length (e1 ∷ es1) < rounds
    → let u : Vm = record v { guarded = λ a. if in_memory v a then false else v.guarded a } in
      (v' : Vm) × (myallocate rounds pid size (page_req id) v ≡ ok v.mem v')
      × Exchanged
          (prepared id p2 x2 u)
          v'
          p1
          p2
          x1
          (owned id x2)
          e1
          (free_element x2.start x2.size)
          es1
          []
unfolding myallocate memory_allow_all
myallocate-Exchanged zero pid id size v before after p1 p2 x1 x2 e1 es1 o r1 r2 =
    absurd (omega arith)
myallocate-Exchanged (suc k) pid id size v before after p1 p2 x1 x2 e1 es1 o r1 r2 =
    gets (suc k) id (record v { guarded = λ a. if in_memory v a then false else v.guarded a })
      before after p1 p2 x1 x2 e1 es1 (Vacant-open v o) r1 r2 k
  where
    Vacant-open :
        (w : Vm)
        → Vacant w before after p1 p2 x1 x2 e1 es1
        → Vacant
            (record w { guarded = λ a. if in_memory w a then false else w.guarded a })
            before
            after
            p1
            p2
            x1
            x2
            e1
            es1
    Vacant-open w q = record {
      nodes = q.nodes;
      top = q.top;
      in_use = q.in_use;
      free = q.free;
      apart = q.apart;
      size1 = q.size1;
      size2 = q.size2;
      room = q.room;
      small = q.small;
      below11 = q.below11;
      below12 = q.below12;
      below21 = q.below21;
      below22 = q.below22;
      disjoint = q.disjoint;
      tiled1 = q.tiled1;
    }
