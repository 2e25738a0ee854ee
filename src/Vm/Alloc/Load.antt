-- ===== src/Vm/Alloc/Load.antt =====
-- `loadProcessPages` for a thread with one page.
pub mod Entries
use osdesign.Base.{
  ℕ, zero, suc, ◌+◌, ◌-◌, ◌<◌, ◌≡◌, refl, ap, ◌∙◌, ◌≢◌, Bool, true, false, ◌||◌, none, some, List,
  ◌∷◌, arith, map, ◌==◌, if◌then◌else◌, length,
}
use osdesign.Base.Command.{ok, pure, ◌>>=◌, ◌>>◌}
use osdesign.Vm.Memory.{Ptr, null, SpaceNode, Vm, put}
use osdesign.Vm.Space.Find.{Entry, Nodes}
use osdesign.Vm.Pages.{find_page, swap_pages, make_contiguous, load_loop, load_process_pages}
use osdesign.Vm.Pages.Restore.{Tiled-put}
use osdesign.Vm.Pages.Exchange.{swap_pages-Exchanged}
use osdesign.Vm.Pages.Exchange.Defs.{TwoPages, Exchanged, placed}
use osdesign.Vm.Alloc.Table.{page_of, Nodes-Table, find_page-put, find_page-none}
use osdesign.Vm.Alloc.Load.Entries.{
  has, page_of-has, page_of-Fails, Fails-page_of, AreBelow, with_two, Fails-with_two,
  length-with_two, Nodes-with_two,
}

pub load_loop-null :
    (rounds k pid : ℕ) (p : Ptr) (i : ℕ) (v : Vm)
    → 0 < k
    → load_loop rounds k pid p null i v ≡ ok tt v
unfolding load_loop
load_loop-null rounds zero pid p i v lt = absurd (omega arith)
load_loop-null rounds (suc k) pid p i v lt = on (p == null)
  where
    on :
        (b : Bool)
        → (if b || true then pure tt else (do
          make_contiguous rounds p null
          next ← find_page rounds pid i
          load_loop rounds k pid null next (i + 1)))
            v
          ≡ ok tt v
    on true = refl
    on false = refl

other_order : (pid : ℕ) (x : SpaceNode) → has pid 1 x ≡ true → has pid 2 x ≡ false
other_order pid x is1 = ground (arith, is1)

-- The table of the pages, of which the first stands at `p1`, and the page of the thread `pid`, its
-- only one, at `p2`. The table stands below both.
pub record OnePage (v : Vm) (pid : ℕ) (later : List Entry) (p1 p2 : Ptr) (x1 x2 : SpaceNode)
    : Type 0 where
  pub nodes : Nodes v.slots ((p1, x1) ∷ later)
  pub top : v.mem ≡ p1
  pub found : page_of ((p1, x1) ∷ later) pid 1 ≡ some (p2, x2)
  pub no_other : page_of ((p1, x1) ∷ later) pid 2 ≡ none
  pub below1 : AreBelow x1.start ((p1, x1) ∷ later)
  pub below2 : AreBelow x2.start ((p1, x1) ∷ later)

module _ (rounds pid : ℕ) (v : Vm) (later : List Entry) (p1 p2 : Ptr) (x1 x2 e1 e2 : SpaceNode)
    (es1 es2 : List SpaceNode) (o : OnePage v pid later p1 p2 x1 x2)
    (w : TwoPages v p1 p2 x1 x2 e1 e2 es1 es2) (enough : length later + 1 < rounds)
    (fuel1 : length (e1 ∷ es1) < rounds) (fuel2 : length (e2 ∷ es2) < rounds) where
  -- the page of the thread and the memory after the search for it
  abbrev found_page : SpaceNode
  found_page = record x2 { swapclock = 0 }

  abbrev marked_memory : Vm
  marked_memory = put p2 found_page v

  finds : find_page rounds pid 1 v ≡ ok p2 marked_memory
  finds =
      find_page-put rounds pid 1 v ((p1, x1) ∷ later) (p2, x2) x2
        (Nodes-Table v.slots ((p1, x1) ∷ later) o.nodes) o.top (omega (arith, enough)) o.found
        w.ne_null2 w.holds2

  still_two : TwoPages marked_memory p1 p2 x1 found_page e1 e2 es1 es2
  still_two = record {
    ne_null1 = w.ne_null1;
    ne_null2 = w.ne_null2;
    apart = w.apart;
    holds1 = ground (arith, w.apart, w.holds1);
    holds2 = ground arith;
    size1 = w.size1;
    size2 = w.size2;
    below11 = w.below11;
    below12 = w.below12;
    below21 = w.below21;
    below22 = w.below22;
    disjoint = w.disjoint;
    tiled1 = Tiled-put v p2 found_page x1.start x1.size (e1 ∷ es1) w.below21 w.tiled1;
    tiled2 = Tiled-put v p2 found_page x2.start x2.size (e2 ∷ es2) w.below22 w.tiled2;
  }

  module _ (v' : Vm) (ex : Exchanged marked_memory v' p1 p2 x1 found_page e1 e2 es1 es2) where
    others : (p : Ptr) → p ≢ p1 → p ≢ p2 → p < x1.start → p < x2.start → v'.slots p ≡ v.slots p
    others p n1 n2 lt1 lt2 =
        ex.others p n1 n2 (ground (arith, lt1)) (ground (arith, lt2)) ∙ ground (arith, n2)

    abbrev table' : List Entry
    table' = map (with_two p1 p2 (placed found_page x1) (placed x1 found_page)) ((p1, x1) ∷ later)

    nodes' : Nodes v'.slots table'
    nodes' =
        Nodes-with_two v.slots v'.slots p1 p2 x1 x2 (placed found_page x1) (placed x1 found_page)
          x1.start x2.start w.holds1 w.holds2 ex.entry1 ex.entry2 refl refl others
          ((p1, x1) ∷ later) o.nodes o.below1 o.below2

    none_left : page_of table' pid 2 ≡ none
    none_left =
        let fails = page_of-Fails ((p1, x1) ∷ later) pid 2 o.no_other in
        let order1 : has pid 2 x2 ≡ false =
          other_order pid x2 (page_of-has ((p1, x1) ∷ later) pid 1 (p2, x2) o.found) in
        Fails-page_of table' pid 2 (
          Fails-with_two (has pid 2) p1 p2 (placed found_page x1) (placed x1 found_page)
            ((p1, x1) ∷ later) order1 fails.0 fails)

    no_second : find_page rounds pid 2 v' ≡ ok null v'
    no_second =
        find_page-none rounds pid 2 v' table' (Nodes-Table v'.slots table' nodes')
          (ap (λ u. u.mem) ex.globals ∙ o.top)
          (omega (
            arith,
            enough,
            length-with_two p1 p2 (placed found_page x1) (placed x1 found_page) later,
          ))
          none_left

  -- On a table of pages, with more rounds than pages and elements of the two pages, on which the
  -- thread has one page, other than the first, `loadProcessPages` returns, and the two are exchanged.
  pub load_process_pages-Exchanged :
      (v' : Vm) × (load_process_pages rounds pid v ≡ ok tt v')
      × Exchanged marked_memory v' p1 p2 x1 found_page e1 e2 es1 es2
  unfolding load_process_pages
  load_process_pages-Exchanged =
      let (v', runs, ex) =
        swap_pages-Exchanged marked_memory p1 p2 x1 found_page e1 e2 es1 es2 still_two rounds fuel1
          fuel2 in
      (
        v',
        rw
            (
              finds,
              ap (λ p. swap_pages rounds p p2 marked_memory) o.top ∙ runs,
              no_second v' ex,
              load_loop-null rounds rounds pid v.mem 3 v' (omega (arith, enough)),
            )
            refl,
        ex,
      )
