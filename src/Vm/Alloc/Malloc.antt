-- ===== src/Vm/Alloc/Malloc.antt =====
-- `myallocate` for a thread whose page is the first of the table.
use osdesign.Base.{
  ℕ, zero, suc, ◌+◌, ◌-◌, ◌<◌, ◌≤◌, ◌^◌, ◌≡◌, refl, ap, ◌∙◌, ◌≢◌, Bool, true, false, ◌&&◌, not,
  none, some, List, [], ◌∷◌, ◌++◌, arith, ltb, leb, ◌==◌, if◌then◌else◌, length,
}
use mathlib.Core.Path.{fun_ext}
use osdesign.Base.Command.{ok, pure, ◌>>=◌}
use osdesign.Vm.Memory.{Ptr, null, SpaceNode, sizeof_node, Slot, header, Vm, put, load, store}
use osdesign.Vm.Space.{find_node, find_free_space}
use osdesign.Vm.Space.Find.{
  Entry, first, Nodes, Fails, load-header, store-put, find_node-first, Nodes-middle,
}
use osdesign.Vm.Space.Carve.{Fits, taken, left_over, carved, create_space-carved}
use osdesign.Vm.Pages.{swap_pages, load_process_pages}
use osdesign.Vm.Alloc.{memory_allow_all, find_element, get_free_element, thread_req, myallocate}
use osdesign.Vm.Alloc.Table.{
  Nodes-Table, marked, Table, page_of, Table-put, find_page-put, find_page-none,
}
use osdesign.Vm.Alloc.Load.{load_loop-null}
use osdesign.Vm.Alloc.Handler.{in_memory}

-- the test of `findFreeSpace`
abbrev pub fits : ℕ → SpaceNode → Bool
fits size x = not (x.free == 0) && leb size x.size

-- Nodes above an address stay when it is written.
abbrev pub AreAbove : Ptr → List Entry → Type 0
AreAbove a [] = Unit {0}
AreAbove a (e ∷ es) = (a < e.0) × AreAbove a es

Nodes-put :
    (v : Vm) (p : Ptr) (y : SpaceNode) (es : List Entry)
    → AreAbove p es
    → Nodes v.slots es
    → Nodes (put p y v).slots es
Nodes-put v p y [] l n = tt
Nodes-put v p y (e ∷ es) (lt, l) (ne, at, next, n) =
    (ne, ground (arith, lt, at), next, Nodes-put v p y es l n)

-- The thread's only page is the first of the table, at `p`, and in its list of elements, which stands
-- above, the one at `n` is the first free one that is large enough.
pub record Owner (v : Vm) (pid size : ℕ) (later : List Entry) (p : Ptr) (x : SpaceNode)
    (before after : List Entry) (n : Ptr) (y : SpaceNode) : Type 0 where
  pub pages : Nodes v.slots ((p, x) ∷ later)
  pub top : v.mem ≡ p
  pub found : page_of ((p, x) ∷ later) pid 1 ≡ some (p, x)
  pub no_other : page_of ((p, x) ∷ later) pid 2 ≡ none
  pub elements : Nodes v.slots (before ++ (n, y) ∷ after)
  pub starts : x.start ≡ first (before ++ (n, y) ∷ after)
  pub above : AreAbove p (before ++ (n, y) ∷ after)
  pub no_fit : Fails (fits size) before
  pub free : y.free ≢ 0
  pub enough : size ≤ y.size
  pub small : y.size < 2 ^ 31
  pub start_ne_null : y.start ≢ null

put-put : (p : Ptr) (x y : SpaceNode) (v : Vm) → put p y (put p x v) ≡ put p y v
put-put p x y v =
    ap {A = Ptr → Slot} {B = Vm} (λ f. record v { slots = f })
      (fun_ext (λ a. twice (a == p) (header x) (header y) (v.slots a)))
  where
    twice : (b : Bool) (x y z : Slot) → (if b then y else if b then x else z) ≡ (if b then y else z)
    twice true x y z = refl
    twice false x y z = refl

-- The node that was taken still has its start.
start_of_taken :
    (n : Ptr) (x : SpaceNode) (size : ℕ) (v : Vm)
    → n ≢ null
    → (load n >>= (λ z. pure z.start)) (carved n x size v) ≡ ok x.start (carved n x size v)
start_of_taken n x size v ne = by_rest (ltb sizeof_node (x.size - size))
  where
    big : Vm
    big =
        put n (taken x size (x.start + size))
          (put (x.start + size) (left_over n x (x.start + size) (x.size - size)) v)

    little : Vm
    little = put n (taken x size x.next) v

    by_rest :
        (b : Bool)
        → (load n >>= (λ z. pure z.start)) (if b then big else little)
          ≡ ok x.start (if b then big else little)
    by_rest true = rw (load-header big n (taken x size (x.start + size)) ne (ground arith)) refl
    by_rest false = rw (load-header little n (taken x size x.next) ne (ground arith)) refl

module _ (rounds pid size : ℕ) (v : Vm) (later : List Entry) (p : Ptr) (x : SpaceNode)
    (before after : List Entry) (n : Ptr) (y : SpaceNode)
    (o : Owner v pid size later p x before after n y) (rounds_pages : length later + 1 < rounds)
    (rounds_elements : length before < rounds) where
  -- after the search for the page, and with its mark of use
  abbrev searched : Vm
  searched = put p (record x { swapclock = 0 }) v

  abbrev used : Vm
  used = put p (marked x 1 0) v

  table : Table v.slots ((p, x) ∷ later)
  table = Nodes-Table v.slots ((p, x) ∷ later) o.pages

  elements' : Nodes used.slots (before ++ (n, y) ∷ after)
  elements' = Nodes-put v p (marked x 1 0) (before ++ (n, y) ∷ after) o.above o.elements

  at_n : (n ≢ null) × (used.slots n ≡ header y)
  at_n = Nodes-middle used.slots before after (n, y) elements'

  hit : fits size y ≡ true
  hit = ground (arith, o.free, o.enough)

  can : Fits used n y size
  can = record {
    ne_null = at_n.0;
    holds = at_n.1;
    free = o.free;
    enough = o.enough;
    small = o.small;
    start_ne_null = o.start_ne_null;
  }

  loads : load_process_pages rounds pid v ≡ ok tt searched
  unfolding load_process_pages swap_pages
  loads =
      let same : (v.mem == p) ≡ true = ground (arith, o.top) in
      rw
        (
          find_page-put rounds pid 1 v ((p, x) ∷ later) (p, x) x table o.top
              (omega (arith, rounds_pages)) o.found o.pages.0 o.pages.1,
          same,
          find_page-none rounds pid 2 searched ((p, x) ∷ later)
              (Table-put v p x x.reference 0 ((p, x) ∷ later) o.pages.1 table) o.top
              (omega (arith, rounds_pages)) o.no_other,
          load_loop-null rounds rounds pid v.mem 3 searched (omega (arith, rounds_pages)),
        )
        refl

  finds : find_element rounds pid size v ≡ ok n used
  unfolding find_element find_free_space
  finds =
      let pages = o.pages in
      let held : load v.mem searched ≡ ok (record x { swapclock = 0 }) searched =
        ap (λ q. load q searched) o.top
        ∙ load-header searched p (record x { swapclock = 0 }) pages.0 (ground arith) in
      let marks : store v.mem (marked x 1 0) searched ≡ ok tt used =
        ap (λ q. store q (marked x 1 0) searched) o.top
        ∙ store-put p (marked x 1 0) searched pages.0
        ∙ ap (ok tt) (put-put p (record x { swapclock = 0 }) (marked x 1 0) v) in
      let search : find_node rounds (fits size) x.start used ≡ ok n used =
        ap (λ q. find_node rounds (fits size) q used) o.starts
        ∙ find_node-first (fits size) used before after (n, y) rounds elements' o.no_fit hit
            rounds_elements in
      let some' : (n == null) ≡ false = ground (arith, at_n.0) in
      rw (loads, held, marks, search, some') refl

  gets : (k : ℕ) → get_free_element rounds (suc k) pid size v ≡ ok y.start (carved n y size used)
  unfolding get_free_element
  gets k =
      let some' : (n == null) ≡ false = ground (arith, at_n.0) in
      rw (finds, some', create_space-carved used n y size can) (start_of_taken n y size used at_n.0)

-- `myallocate`, whatever the size, also 0, for a thread whose page is the first of the table and
-- its only one, with more rounds than pages and elements: the memory of the pages is opened up to
-- the next page boundary, the first free element that is large enough is taken and divided, with
-- the rest behind it, its start is returned, and the page is marked as used.
pub myallocate-carved :
    (rounds pid size : ℕ) (v : Vm) (later : List Entry) (p : Ptr) (x : SpaceNode)
    (before after : List Entry) (n : Ptr) (y : SpaceNode)
    → Owner v pid size later p x before after n y
    → length later + 1 < rounds
    → length before < rounds
    → myallocate rounds pid size thread_req v
      ≡ ok y.start (
          carved n y size (
            put p
              (marked x 1 0)
              (record v { guarded = λ a. if in_memory v a then false else v.guarded a })))
unfolding myallocate memory_allow_all
myallocate-carved zero pid size v later p x before after n y o r1 r2 = absurd (omega arith)
myallocate-carved (suc k) pid size v later p x before after n y o r1 r2 =
    gets (suc k) pid size (record v { guarded = λ a. if in_memory v a then false else v.guarded a })
      later p x before after n y (Owner-open v o) r1 r2 k
  where
    Owner-open :
        (w : Vm)
        → Owner w pid size later p x before after n y
        → Owner
            (record w { guarded = λ a. if in_memory w a then false else w.guarded a })
            pid
            size
            later
            p
            x
            before
            after
            n
            y
    Owner-open w q = record {
      pages = q.pages;
      top = q.top;
      found = q.found;
      no_other = q.no_other;
      elements = q.elements;
      starts = q.starts;
      above = q.above;
      no_fit = q.no_fit;
      free = q.free;
      enough = q.enough;
      small = q.small;
      start_ne_null = q.start_ne_null;
    }
