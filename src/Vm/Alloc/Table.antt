-- ===== src/Vm/Alloc/Table.antt =====
-- The table of the pages while vm.c walks along it: what the walks write there.
use osdesign.Base.{
  ℕ, zero, suc, ◌<◌, ◌≡◌, refl, sym, ap, ◌∙◌, ◌≢◌, inl, inr, Bool, false, ◌&&◌, Option, none, some,
  List, [], ◌∷◌, arith, ◌==◌, if◌then◌else◌, Bool-cases, length,
}
use mathlib.Core.Path.{subst}
use mathlib.Core.Option.{some-injective, none-ne-some}
use osdesign.Base.Command.{ok}
use osdesign.Vm.Memory.{Ptr, null, SpaceNode, Slot, raw, header, Vm, put}
use osdesign.Vm.Space.{find_node, clear_references, update_reference}
use osdesign.Vm.Space.Find.{Entry, first, Nodes, load-header, store-put}
use osdesign.Vm.Pages.{find_page}

-- A header that differs from `x` in the marks of the swap strategies alone.
abbrev pub marked : SpaceNode → ℕ → ℕ → SpaceNode
marked x reference clock = record x { reference = reference; swapclock = clock }

-- `es` are the pages that the `next` pointers lead through, but for these marks.
abbrev pub Table : (Ptr → Slot) → List Entry → Type 0
Table f [] = Unit {0}
Table f (e ∷ es) =
    (e.0 ≢ null)
    × ((reference : ℕ) × (clock : ℕ) × (f e.0 ≡ header (marked e.1 reference clock)))
    × (e.1.next ≡ first es)
    × Table f es

-- The first page of the thread with this order.
abbrev pub page_of : List Entry → ℕ → ℕ → Option Entry
page_of [] pid order = none
page_of (e ∷ es) pid order =
    if (pid == e.1.pid) && (order == e.1.order) then some e else page_of es pid order

abbrev pub node_of : SpaceNode → Slot → SpaceNode
node_of x (raw b) = x
node_of x (header y) = y

pub Nodes-Table : (f : Ptr → Slot) (es : List Entry) → Nodes f es → Table f es
Nodes-Table f [] n = tt
Nodes-Table f (e ∷ es) (ne, at, next, n) =
    (ne, (e.1.reference, e.1.swapclock, at), next, Nodes-Table f es n)

-- A mark that is changed in one header leaves the table.
pub Table-put :
    (v : Vm) (p : Ptr) (y : SpaceNode) (reference clock : ℕ) (es : List Entry)
    → v.slots p ≡ header y
    → Table v.slots es
    → Table (put p (marked y reference clock) v).slots es
Table-put v p y reference clock [] at t = tt
Table-put v p y reference clock (e ∷ es) at (ne, (r, c, here), next, t) =
    (ne, there, next, Table-put v p y reference clock es at t)
  where
    there :
        (r' : ℕ) × (c' : ℕ) × ((put p (marked y reference clock) v).slots e.0
          ≡ header (marked e.1 r' c'))
    there = elim (Bool-cases (e.0 == p)) [
      | inl same ↦
          let q : e.0 ≡ p = ground (arith, same) in
          let y' : marked e.1 r c ≡ y = ap (node_of y) (sym here ∙ ap v.slots q ∙ at) in
          (reference, clock, rw same (ap (λ z. header (marked z reference clock)) (sym y')))
      | inr other ↦ (r, c, rw other here)
    ]

-- The address of a page, NULL if there is none.
abbrev pub address : Option Entry → Ptr
address none = null
address (some e) = e.0

pub page_of-cons :
    (pid order : ℕ) (d : Entry) (es : List Entry) {b : Bool}
    → ((pid == d.1.pid) && (order == d.1.order)) ≡ b
    → page_of (d ∷ es) pid order ≡ (if b then some d else page_of es pid order)
page_of-cons pid order d es q = ap (λ b. if b then some d else page_of es pid order) q

-- `page_of` gives an entry of the table.
pub page_of-held :
    (f : Ptr → Slot) (es : List Entry) (pid order : ℕ) (e : Entry)
    → Table f es
    → page_of es pid order ≡ some e
    → (e.0 ≢ null) × ((r : ℕ) × (c : ℕ) × (f e.0 ≡ header (marked e.1 r c)))
page_of-held f [] pid order e t found = absurd (none-ne-some e found)
page_of-held f (d ∷ es) pid order e (ne, at, next, t) found =
    elim (Bool-cases ((pid == d.1.pid) && (order == d.1.order))) [
      | inl hit ↦
          let q : d ≡ e = some-injective d e (sym (page_of-cons pid order d es hit) ∙ found) in
          subst (λ a. (a.0 ≢ null) × ((r : ℕ) × (c : ℕ) × (f a.0 ≡ header (marked a.1 r c)))) q
            (ne, at)
      | inr miss ↦ page_of-held f es pid order e t (sym (page_of-cons pid order d es miss) ∙ found)
    ]

find_node-page_of :
    (v : Vm) (pid order : ℕ) (es : List Entry) (k : ℕ)
    → Table v.slots es
    → length es < k
    → find_node k (λ x. (pid == x.pid) && (order == x.order)) (first es) v
      ≡ ok (address (page_of es pid order)) v
unfolding find_node
find_node-page_of v pid order es zero t fuel = absurd (omega arith)
find_node-page_of v pid order [] (suc k) t fuel = refl
find_node-page_of v pid order (e ∷ es) (suc k) (ne, (r, c, at), next, t) fuel =
    let some' : (e.0 == null) ≡ false = ground (arith, ne) in
    let on = find_node-page_of v pid order es k t (omega arith) in
    elim (Bool-cases ((pid == e.1.pid) && (order == e.1.order))) [
      | inl hit ↦ rw (some', load-header v e.0 (marked e.1 r c) ne at, hit) refl
      | inr miss ↦ rw (some', load-header v e.0 (marked e.1 r c) ne at, miss, next) on
    ]

search-page_of :
    (rounds pid order : ℕ) (v : Vm) (es : List Entry)
    → Table v.slots es
    → v.mem ≡ first es
    → length es < rounds
    → find_node rounds (λ x. (pid == x.pid) && (order == x.order)) v.mem v
      ≡ ok (address (page_of es pid order)) v
search-page_of rounds pid order v es t top fuel =
    ap (λ p. find_node rounds (λ x. (pid == x.pid) && (order == x.order)) p v) top
    ∙ find_node-page_of v pid order es rounds t fuel

-- `findPage` on the table: it gives the first page with this order, and sets its clock back.
pub find_page-put :
    (rounds pid order : ℕ) (v : Vm) (es : List Entry) (e : Entry) (x : SpaceNode)
    → Table v.slots es
    → v.mem ≡ first es
    → length es < rounds
    → page_of es pid order ≡ some e
    → e.0 ≢ null
    → v.slots e.0 ≡ header x
    → find_page rounds pid order v ≡ ok e.0 (put e.0 (record x { swapclock = 0 }) v)
unfolding find_page
find_page-put rounds pid order v es e x t top fuel found ne at =
    let some' : (e.0 == null) ≡ false = ground (arith, ne) in
    rw
      (
        search-page_of rounds pid order v es t top fuel,
        found,
        some',
        load-header v e.0 x ne at,
        store-put e.0 (record x { swapclock = 0 }) v ne,
      )
      refl

pub find_page-page_of :
    (rounds pid order : ℕ) (v : Vm) (es : List Entry) (e : Entry)
    → Table v.slots es
    → v.mem ≡ first es
    → length es < rounds
    → page_of es pid order ≡ some e
    → (v' : Vm) × (find_page rounds pid order v ≡ ok e.0 v')
      × Table v'.slots es
      × (v' ≡ record v { slots = v'.slots })
      × (e.0 ≢ null)
      × ((r : ℕ) × (c : ℕ) × (v'.slots e.0 ≡ header (marked e.1 r c)))
find_page-page_of rounds pid order v es e t top fuel found =
    let (ne, (r, c, at)) = page_of-held v.slots es pid order e t found in
    (
      put e.0 (marked (marked e.1 r c) r 0) v,
      find_page-put rounds pid order v es e (marked e.1 r c) t top fuel found ne at,
      Table-put v e.0 (marked e.1 r c) r 0 es at t,
      refl,
      ne,
      (r, 0, ground arith),
    )

pub find_page-none :
    (rounds pid order : ℕ) (v : Vm) (es : List Entry)
    → Table v.slots es
    → v.mem ≡ first es
    → length es < rounds
    → page_of es pid order ≡ none
    → find_page rounds pid order v ≡ ok null v
unfolding find_page
find_page-none rounds pid order v es t top fuel found =
    rw (search-page_of rounds pid order v es t top fuel, found) refl

-- `updateReference` from a later page of the table on
clear_references-Table :
    (es later : List Entry) (k : ℕ) (v : Vm)
    → Table v.slots es
    → Table v.slots later
    → length later < k
    → (v' : Vm) × (clear_references k (first later) v ≡ ok tt v')
      × Table v'.slots es
      × (v' ≡ record v { slots = v'.slots })
unfolding clear_references
clear_references-Table es later zero v t l fuel = absurd (omega arith)
clear_references-Table es [] (suc k) v t l fuel = (v, refl, t, refl)
clear_references-Table es (e ∷ later) (suc k) v t (ne, (r, c, at), next, l) fuel =
    let x : SpaceNode = marked e.1 r c in
    let w : Vm = put e.0 (marked x 0 c) v in
    let some' : (e.0 == null) ≡ false = ground (arith, ne) in
    let (v', on, t', re) =
      clear_references-Table es later k w (Table-put v e.0 x 0 c es at t)
        (Table-put v e.0 x 0 c later at l) (omega (arith, fuel)) in
    (
      v',
      rw (some', load-header v e.0 x ne at, store-put e.0 (marked x 0 c) v ne)
          (ap (λ p. clear_references k p w) next ∙ on),
      t',
      re,
    )

pub update_reference-Table :
    (rounds : ℕ) (es : List Entry) (v : Vm)
    → Table v.slots es
    → v.mem ≡ first es
    → length es < rounds
    → (v' : Vm) × (update_reference rounds v ≡ ok tt v')
      × Table v'.slots es
      × (v' ≡ record v { slots = v'.slots })
unfolding update_reference
update_reference-Table rounds es v t top fuel =
    let (v', runs, t', re) = clear_references-Table es es rounds v t t fuel in
    (v', ap (λ p. clear_references rounds p v) top ∙ runs, t', re)
