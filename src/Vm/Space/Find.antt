-- ===== src/Vm/Space/Find.antt =====
-- The searches of vm.c along a list of nodes.
use osdesign.Base.{
  ℕ, zero, suc, ◌<◌, ◌≡◌, refl, ap, ◌∙◌, ◌≢◌, ◌⊎◌, inl, inr, Bool, true, false, ◌&&◌, not, List, [],
  ◌∷◌, ◌++◌, arith, leb, ◌==◌, if◌then◌else◌, Bool-cases, length,
}
use osdesign.Base.Command.{ok, fault}
use osdesign.Vm.Memory.{Ptr, null, SpaceNode, Slot, header, Vm, put, load, store}
use osdesign.Vm.Space.{find_node, find_free_space}

abbrev pub Entry : Type 0
Entry = Ptr × SpaceNode

abbrev pub first : List Entry → Ptr
first [] = null
first (e ∷ es) = e.0

-- The nodes that the `next` pointers lead through.
abbrev pub Nodes : (Ptr → Slot) → List Entry → Type 0
Nodes f [] = Unit {0}
Nodes f (e ∷ es) = (e.0 ≢ null) × (f e.0 ≡ header e.1) × (e.1.next ≡ first es) × Nodes f es

abbrev pub Fails : (SpaceNode → Bool) → List Entry → Type 0
Fails test [] = Unit {0}
Fails test (e ∷ es) = (test e.1 ≡ false) × Fails test es

-- `r` is the first node that passes the test, or NULL if none does.
abbrev pub IsFirst : (SpaceNode → Bool) → List Entry → Ptr → Type 0
IsFirst test es r =
    ((r ≡ null) × Fails test es)
    ⊎ ((pre : List Entry) × (e : Entry) × (post : List Entry) × (es ≡ pre ++ e ∷ post)
        × (r ≡ e.0)
        × (test e.1 ≡ true)
        × Fails test pre)

pub load-header :
    (v : Vm) (p : Ptr) (n : SpaceNode) → p ≢ null → v.slots p ≡ header n → load p v ≡ ok n v
unfolding load
load-header v p n ne e = ground arith

pub load-null : (v : Vm) → load null v ≡ fault
unfolding load
load-null v = refl

pub store-put : (p : Ptr) (y : SpaceNode) (v : Vm) → p ≢ null → store p y v ≡ ok tt (put p y v)
unfolding store
store-put p y v ne = let some' : (p == null) ≡ false = ground (arith, ne) in rw (some') refl

module _ (test : SpaceNode → Bool) (v : Vm) where
  find_node-null : (k : ℕ) → find_node (suc k) test null v ≡ ok null v
  unfolding find_node
  find_node-null k = refl

  find_node-step :
      (k : ℕ) (e : Entry) (es : List Entry)
      → Nodes v.slots (e ∷ es)
      → find_node (suc k) test e.0 v
        ≡ (if test e.1 then ok e.0 v else find_node k test (first es) v)
  unfolding find_node
  find_node-step k e es n =
      let some' : (e.0 == null) ≡ false = ground (arith, n.0) in
      rw (some', load-header v e.0 e.1 n.0 n.1)
        (split (test e.1) ∙ ap (λ p. if test e.1 then ok e.0 v else find_node k test p v) n.2)
    where
      split :
          (b : Bool)
          → (if b then (λ w. ok e.0 w) else find_node k test e.1.next) v
            ≡ (if b then ok e.0 v else find_node k test e.1.next v)
      split true = refl
      split false = refl

  pub find_node-IsFirst :
      (es : List Entry) (k : ℕ)
      → Nodes v.slots es
      → length es < k
      → (r : Ptr) × (find_node k test (first es) v ≡ ok r v) × IsFirst test es r
  find_node-IsFirst es zero n fuel = absurd (omega arith)
  find_node-IsFirst [] (suc k) n fuel = (null, find_node-null k, inl (refl, tt))
  find_node-IsFirst (e ∷ es) (suc k) n fuel = elim (Bool-cases (test e.1)) [
    | inl hit ↦ (e.0, rw (find_node-step k e es n, hit), inr ([], e, es, refl, refl, hit, tt))
    | inr miss ↦
        let (r, runs, found) = find_node-IsFirst es k n.3 (omega arith) in
        (r, rw (find_node-step k e es n, miss) runs, behind r found miss)
  ]
    where
      behind : (r : Ptr) → IsFirst test es r → test e.1 ≡ false → IsFirst test (e ∷ es) r
      behind r (inl (q, fails)) miss = inl (q, (miss, fails))
      behind r (inr (pre, d, post, whole, q, hit, fails)) miss =
          inr (e ∷ pre, d, post, ap (λ xs. e ∷ xs) whole, q, hit, (miss, fails))

-- A search that goes past the nodes before the one that it finds.
pub find_node-first :
    (test : SpaceNode → Bool) (v : Vm) (before after : List Entry) (e : Entry) (k : ℕ)
    → Nodes v.slots (before ++ e ∷ after)
    → Fails test before
    → test e.1 ≡ true
    → length before < k
    → find_node k test (first (before ++ e ∷ after)) v ≡ ok e.0 v
unfolding find_node
find_node-first test v before after e zero n f hit fuel = absurd (omega arith)
find_node-first test v [] after e (suc k) (ne, at, next, n) f hit fuel =
    let some' : (e.0 == null) ≡ false = ground (arith, ne) in
    rw (some', load-header v e.0 e.1 ne at, hit) refl
find_node-first test v (d ∷ before) after e (suc k) (ne, at, next, n) (miss, f) hit fuel =
    let some' : (d.0 == null) ≡ false = ground (arith, ne) in
    let on = find_node-first test v before after e k n f hit (omega arith) in
    rw (some', load-header v d.0 d.1 ne at, miss) (ap (λ p. find_node k test p v) next ∙ on)

pub Nodes-middle :
    (f : Ptr → Slot) (before after : List Entry) (e : Entry)
    → Nodes f (before ++ e ∷ after)
    → (e.0 ≢ null) × (f e.0 ≡ header e.1)
Nodes-middle f [] after e n = (n.0, n.1)
Nodes-middle f (d ∷ before) after e n = Nodes-middle f before after e n.3

-- On a list of nodes that ends at NULL, with more rounds than nodes, `findFreeSpace` is first fit: it
-- returns the first free node that is large enough, or NULL if the list has none, and writes nothing.
pub find_free_space-IsFirst :
    (rounds size : ℕ) (v : Vm) (es : List Entry)
    → Nodes v.slots es
    → length es < rounds
    → (r : Ptr) × (find_free_space rounds (first es) size v ≡ ok r v)
      × IsFirst (λ x. not (x.free == 0) && leb size x.size) es r
unfolding find_free_space
find_free_space-IsFirst rounds size v es n fuel =
    find_node-IsFirst (λ x. not (x.free == 0) && leb size x.size) v es rounds n fuel
