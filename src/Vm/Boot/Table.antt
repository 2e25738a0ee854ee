-- ===== src/Vm/Boot/Table.antt =====
-- The table of pages that `init` lays out: one header behind the other, each with the start of its
-- page and linked to its neighbours.
use osdesign.Base.{
  ℕ, zero, suc, ◌+◌, ◌*◌, ◌≤◌, ◌<◌, ◌≡◌, refl, sym, ap, ◌∙◌, ◌≢◌, ◌⊎◌, inl, inr, true, false, arith,
  ltb, ◌&&◌, ◌==◌,
}
use native.Mathlib.Decide.{ℕ_discrete}
use osdesign.Base.Command.{ok}
use osdesign.Vm.Memory.{Ptr, null, SpaceNode, sizeof_node, header, Vm, put}
use osdesign.Vm.Swap.{link_old}
use osdesign.Vm.Space.Find.{load-header, store-put}
use osdesign.Vm.Boot.{table_loop}

-- An entry that `n` entries stand behind, the first of them at `next`.
abbrev pub linked_to : ℕ → SpaceNode → Ptr → SpaceNode
linked_to zero x next = x
linked_to (suc n) x next = record x { next = next }

-- The entry for the page at `ptr`, with `n` entries behind it.
abbrev pub entry : SpaceNode → ℕ → (node old ptr : Ptr) → SpaceNode
entry new n node old ptr = linked_to n (record new { start = ptr; prev = old }) (node + sizeof_node)

-- A table of `n` entries from `node` on, for pages of `page` bytes from `ptr` on.
abbrev pub IsTable : Vm → SpaceNode → (page n : ℕ) → (node old ptr : Ptr) → Type 0
IsTable v new page zero node old ptr = Unit {0}
IsTable v new page (suc n) node old ptr =
    (v.slots node ≡ header (entry new n node old ptr))
    × IsTable v new page n (node + sizeof_node) node (ptr + page)

-- What `init` makes of the memory by a table of `n` entries behind the entry `old`, if there is one.
pub record Laid (v v' : Vm) (new : SpaceNode) (page n : ℕ) (node old ptr : Ptr) : Type 0 where
  pub table : IsTable v' new page n node old ptr
  pub before : (a : Ptr) → a < node → a ≢ old → v'.slots a ≡ v.slots a
  pub behind : (a : Ptr) → node + sizeof_node * n ≤ a → v'.slots a ≡ v.slots a
  pub link :
      (x : SpaceNode)
      → v.slots old ≡ header x
      → old ≢ null
      → v'.slots old ≡ header (linked_to n x node)
  pub rest : v' ≡ record v { slots = v'.slots }

-- The loop has room for exactly `n` entries.
abbrev pub Room : (max max_size page n node s : ℕ) → Type 0
Room max max_size page zero node s = (max ≤ node) ⊎ (max_size ≤ s)
Room max max_size page (suc n) node s =
    (node < max) × (s < max_size) × Room max max_size page n (node + sizeof_node) (s + page)

-- The last header begins below the end of the table.
pub Room-bound :
    (max max_size page n node s : ℕ)
    → Room max max_size page n node s
    → node < max + sizeof_node
    → node + sizeof_node * n < max + sizeof_node
Room-bound max max_size page zero node s room lt = omega (arith, lt)
Room-bound max max_size page (suc n) node s (here, _, room) lt = omega (
  arith,
  Room-bound max max_size page n (node + sizeof_node) (s + page) room (omega (arith, here)),
)

-- There is no entry before, or there is one.
abbrev pub Before : Vm → Ptr → Type 0
Before v old = (old ≡ null) ⊎ ((x : SpaceNode) × (v.slots old ≡ header x))

pub record Linked (v v' : Vm) (old node : Ptr) : Type 0 where
  pub runs : link_old old node v ≡ ok tt v'
  pub others : (a : Ptr) → a ≢ old → v'.slots a ≡ v.slots a
  pub link :
      (x : SpaceNode)
      → v.slots old ≡ header x
      → old ≢ null
      → v'.slots old ≡ header (record x { next = node })
  pub rest : v' ≡ record v { slots = v'.slots }

pub link_old-Linked : (v : Vm) (old node : Ptr) → Before v old → (v' : Vm) × Linked v v' old node
link_old-Linked v old node before = elim (ℕ_discrete old null) [
  | yes none' ↦ (
    v,
    record {
      runs = let test : (old == null) ≡ true = ground (arith, none') in rw test refl;
      others = λ a ne. refl;
      link = λ x e ne. absurd (ne none');
      rest = refl;
    },
  )
  | no some' ↦ elim before [
    | inl none' ↦ absurd (some' none')
    | inr (x, e) ↦ (
      put old (record x { next = node }) v,
      record {
        runs =
            let test : (old == null) ≡ false = ground (arith, some') in
            rw (test, load-header v old x some' e, store-put old (record x { next = node }) v some')
              refl;
        others = λ a ne. ground (arith, ne);
        link = λ y f ne. same_link x y node old v (sym e ∙ f);
        rest = refl;
      },
    )
  ]
]
  where
    same_link :
        (x y : SpaceNode) (node old : Ptr) (v : Vm)
        → header x ≡ header y
        → (put old (record x { next = node }) v).slots old ≡ header (record y { next = node })
    same_link x y node old v e =
        let test : (old == old) ≡ true = ground arith in
        rw test (ap (λ z. header (record z { next = node })) (inside x y e))
      where
        inside : (x y : SpaceNode) → header x ≡ header y → x ≡ y
        inside x y e = cc

pub no_room :
    (max max_size node s : ℕ)
    → (max ≤ node) ⊎ (max_size ≤ s)
    → (ltb node max && ltb s max_size) ≡ false
no_room max max_size node s (inl full) = ground (arith, full)
no_room max max_size node s (inr full) = ground (arith, full)

-- With room for exactly n entries and more than n rounds, behind an entry below or none, the loop
-- returns and lays out the table.
pub table_loop-Laid :
    (n k : ℕ) (new : SpaceNode) (max max_size page : ℕ) (node old ptr : Ptr) (s : ℕ) (v : Vm)
    → old < node
    → Before v old
    → Room max max_size page n node s
    → n < k
    → (v' : Vm) × (table_loop k new max max_size page node old ptr s v ≡ ok tt v')
      × Laid v v' new page n node old ptr
unfolding table_loop
table_loop-Laid n zero new max max_size page node old ptr s v lt before room fuel =
    absurd (omega (arith, fuel))
table_loop-Laid zero (suc k) new max max_size page node old ptr s v lt before room fuel = (
  v,
  rw (no_room max max_size node s room) refl,
  record {
    table = tt;
    before = λ a l ne. refl;
    behind = λ a l. refl;
    link = λ x e ne. e;
    rest = refl;
  },
)
table_loop-Laid (suc n) (suc k) new max max_size page node old ptr s v lt before (here, size, room)
      fuel =
    let (v0, linked) = link_old-Linked v old node before in
    let e : SpaceNode = record new { start = ptr; prev = old } in
    let v1 : Vm = put node e v0 in
    let at_node : v1.slots node ≡ header e = ground arith in
    let off : (a : Ptr) → a ≢ node → v1.slots a ≡ v0.slots a = λ a ne. ground (arith, ne) in
    let (v', runs, laid) =
      table_loop-Laid n k new max max_size page (node + sizeof_node) node (ptr + page) (s + page) v1
        (omega arith) (inr (e, at_node)) room (omega arith) in
    let exists' : node ≢ null = λ z. omega (arith, z, lt) in
    let test : (ltb node max && ltb s max_size) ≡ true = ground (arith, here, size) in
    (
      v',
      rw (test, linked.runs, store-put node e v0 exists') runs,
      record {
        table = (laid.link e at_node exists', laid.table);
        before = λ a l ne.
            laid.before a (omega arith) (λ z. omega (arith, z, l))
            ∙ off a (λ z. omega (arith, z, l))
            ∙ linked.others a ne;
        behind = λ a l.
            laid.behind a (omega (arith, l))
            ∙ off a (λ z. omega (arith, z, l))
            ∙ linked.others a (λ z. omega (arith, z, l, lt));
        link = λ x f ne.
            laid.before old (omega (arith, lt)) (λ z. omega (arith, z, lt))
            ∙ off old (λ z. omega (arith, z, lt))
            ∙ linked.link x f ne;
        rest = laid.rest ∙ ap {A = Vm} {B = Vm} (λ u. record u { slots = v'.slots }) linked.rest;
      },
    )
