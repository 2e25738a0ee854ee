-- ===== src/Vm/Swap/Fix.antt =====
-- The loop of `fixSwapPtrs` in vm.c: the headers of an array that came from the swap file.
use osdesign.Base.{
  ℕ, zero, suc, ◌+◌, ◌*◌, ◌≤◌, ◌<◌, ◌≡◌, refl, ap, ◌∙◌, ◌≢◌, inl, inr, true, List, [], ◌∷◌, arith,
  ltb, ◌&&◌, length,
}
use osdesign.Base.Command.{ok}
use osdesign.Vm.Memory.{Ptr, null, SpaceNode, sizeof_node, Slot, header, Vm, put}
use osdesign.Vm.Space.Find.{load-header, store-put}
use osdesign.Vm.Boot.Table.{linked_to, Room, Before, link_old-Linked, no_room}
use osdesign.Vm.Swap.{fix_loop}

-- The headers that stand one behind the other from `node` on.
abbrev pub Headers : (Ptr → Slot) → List SpaceNode → Ptr → Type 0
Headers f [] node = Unit {0}
Headers f (x ∷ xs) node = (f node ≡ header x) × Headers f xs (node + sizeof_node)

-- The same headers, with the starts of pages from `ptr` on and linked to their neighbours; the last
-- one keeps what it leads to.
abbrev pub IsFixed : (Ptr → Slot) → (page : ℕ) → List SpaceNode → (node old ptr : Ptr) → Type 0
IsFixed f page [] node old ptr = Unit {0}
IsFixed f page (x ∷ xs) node old ptr =
    (f node
      ≡ header (linked_to (length xs) (record x { start = ptr; prev = old }) (node + sizeof_node)))
    × IsFixed f page xs (node + sizeof_node) node (ptr + page)

-- What the loop makes of the headers from `node` on, behind the header `old`, if there is one.
pub record Fixed (v v' : Vm) (page : ℕ) (xs : List SpaceNode) (node old ptr : Ptr) : Type 0 where
  pub table : IsFixed v'.slots page xs node old ptr
  pub before : (a : Ptr) → a < node → a ≢ old → v'.slots a ≡ v.slots a
  pub behind : (a : Ptr) → node + sizeof_node * length xs ≤ a → v'.slots a ≡ v.slots a
  pub link :
      (x : SpaceNode)
      → v.slots old ≡ header x
      → old ≢ null
      → v'.slots old ≡ header (linked_to (length xs) x node)
  pub rest : v' ≡ record v { slots = v'.slots }

Headers-kept :
    (f g : Ptr → Slot) (xs : List SpaceNode) (node : Ptr)
    → ((a : Ptr) → node ≤ a → g a ≡ f a)
    → Headers f xs node
    → Headers g xs node
Headers-kept f g [] node same h = tt
Headers-kept f g (x ∷ xs) node same h = (
  same node (omega arith) ∙ h.0,
  Headers-kept f g xs (node + sizeof_node) (λ a le. same a (omega (arith, le))) h.1,
)

Before-kept : (v w : Vm) (old : Ptr) → w.slots old ≡ v.slots old → Before v old → Before w old
Before-kept v w old same (inl none') = inl none'
Before-kept v w old same (inr (x, e)) = inr (x, same ∙ e)

-- With room for exactly the headers and more rounds than headers, the loop returns and fixes them.
pub fix_loop-Fixed :
    (xs : List SpaceNode) (k max max_size page : ℕ) (node old ptr : Ptr) (s : ℕ) (v : Vm)
    → old < node
    → Before v old
    → Headers v.slots xs node
    → Room max max_size page (length xs) node s
    → length xs < k
    → (v' : Vm) × (fix_loop k max max_size page node old ptr s v ≡ ok tt v')
      × Fixed v v' page xs node old ptr
unfolding fix_loop
fix_loop-Fixed xs zero max max_size page node old ptr s v lt before heads room fuel =
    absurd (omega (arith, fuel))
fix_loop-Fixed [] (suc k) max max_size page node old ptr s v lt before heads room fuel = (
  v,
  rw (no_room max max_size node s room) refl,
  record {
    table = tt;
    before = λ a l ne. refl;
    behind = λ a l. refl;
    link = λ x e ne. e;
    rest = refl;
  },
)
fix_loop-Fixed (x ∷ xs) (suc k) max max_size page node old ptr s v lt before (at, heads)
      (here, size, room) fuel =
    let e : SpaceNode = record x { start = ptr; prev = old } in
    let v0 : Vm = put node e v in
    let off : (a : Ptr) → a ≢ node → v0.slots a ≡ v.slots a = λ a ne. ground (arith, ne) in
    let there : v0.slots node ≡ header e = ground arith in
    let old_kept : v0.slots old ≡ v.slots old = off old (λ z. omega (arith, z, lt)) in
    let (v1, linked) = link_old-Linked v0 old node (Before-kept v v0 old old_kept before) in
    let at_node : v1.slots node ≡ header e =
      linked.others node (λ z. omega (arith, z, lt)) ∙ there in
    let above : (a : Ptr) → node + sizeof_node ≤ a → v1.slots a ≡ v.slots a =
      λ a le. linked.others a (λ z. omega (arith, z, lt, le)) ∙ off a (λ z. omega (arith, z, le)) in
    let (v', runs, done) =
      fix_loop-Fixed xs k max max_size page (node + sizeof_node) node (ptr + page) (s + page) v1
        (omega arith) (inr (e, at_node))
        (Headers-kept v.slots v1.slots xs (node + sizeof_node) above heads) room (omega arith) in
    let exists' : node ≢ null = λ z. omega (arith, z, lt) in
    let test : (ltb node max && ltb s max_size) ≡ true = ground (arith, here, size) in
    (
      v',
      rw (test, load-header v node x exists' at, store-put node e v exists', linked.runs) runs,
      record {
        table = (done.link e at_node exists', done.table);
        before = λ a l ne.
            done.before a (omega arith) (λ z. omega (arith, z, l))
            ∙ linked.others a ne
            ∙ off a (λ z. omega (arith, z, l));
        behind = λ a l. done.behind a (omega (arith, l)) ∙ above a (omega (arith, l));
        link = λ y f ne.
            done.before old (omega (arith, lt)) (λ z. omega (arith, z, lt))
            ∙ linked.link y (old_kept ∙ f) ne;
        rest = done.rest ∙ ap {A = Vm} {B = Vm} (λ u. record u { slots = v'.slots }) linked.rest;
      },
    )
