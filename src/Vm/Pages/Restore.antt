-- ===== src/Vm/Pages/Restore.antt =====
-- `restoreElementsPointers`: the links of the elements in a page, rebuilt from their sizes.
use osdesign.Base.{
  ℕ, zero, suc, ◌+◌, ◌-◌, ◌≤◌, ◌<◌, ◌≡◌, refl, sym, ap, ◌∙◌, ◌≢◌, Bool, true, false, ◌||◌, ◌&&◌,
  List, [], ◌∷◌, arith, ltb, ◌==◌, length,
}
use mathlib.Core.Path.{subst}
use osdesign.Base.Command.{ok, ◌>>=◌}
use osdesign.Vm.Memory.{Ptr, null, SpaceNode, sizeof_node, Slot, header, Vm, Cmd, put, load, store}
use osdesign.Vm.Space.Find.{Entry, load-header, store-put}
use osdesign.Vm.Pages.{restore_loop, restore_elements_pointers}

-- From `a` on, `room` bytes are taken by elements, one behind the other by their sizes, up to a rest
-- that has no room for a header and a byte.
abbrev pub Tiled : (Ptr → Slot) → Ptr → ℕ → List SpaceNode → Type 0
Tiled f a room [] = room ≤ sizeof_node
Tiled f a room (x ∷ xs) =
    (sizeof_node < room)
    × (a ≢ null)
    × (f a ≡ header x)
    × Tiled f (a + sizeof_node + x.size) (room - (sizeof_node + x.size)) xs

-- The elements with their links: `start` behind the header, `next` and `prev` the neighbours.
abbrev pub linked : Ptr → Ptr → List SpaceNode → List Entry
linked a old [] = []
linked a old (x ∷ []) = (a, record x { start = a + sizeof_node; prev = old; next = null }) ∷ []
linked a old (x ∷ y ∷ xs) =
    (a, record x { start = a + sizeof_node; prev = old; next = a + sizeof_node + x.size })
    ∷ linked (a + sizeof_node + x.size) a (y ∷ xs)

abbrev pub Holding : (Ptr → Slot) → List Entry → Type 0
Holding f [] = Unit {0}
Holding f (e ∷ es) = (f e.0 ≡ header e.1) × Holding f es

abbrev pub is_at : List Entry → Ptr → Bool
is_at [] p = false
is_at (e ∷ es) p = (e.0 == p) || is_at es p

-- The memory `v'` differs from `v` in the entries alone.
pub record Relinked (v v' : Vm) (es : List Entry) : Type 0 where
  pub holding : Holding v'.slots es
  pub others : (p : Ptr) → is_at es p ≡ false → v'.slots p ≡ v.slots p
  pub rest : v' ≡ record v { slots = v'.slots }

pub not-is_at_below :
    (p a old : Ptr) (xs : List SpaceNode) → p < a → is_at (linked a old xs) p ≡ false
not-is_at_below p a old [] lt = refl
not-is_at_below p a old (x ∷ []) lt = ground (arith, lt)
not-is_at_below p a old (x ∷ y ∷ xs) lt =
    ground (arith, lt, not-is_at_below p (a + sizeof_node + x.size) a (y ∷ xs) (omega (arith, lt)))

-- Elements that are moved with the bytes around them are elements there.
pub Tiled-moved :
    (f g : Ptr → Slot) (a b : Ptr) (room : ℕ) (xs : List SpaceNode)
    → b ≢ null
    → ((o : ℕ) → o < room → g (b + o) ≡ f (a + o))
    → Tiled f a room xs
    → Tiled g b room xs
Tiled-moved f g a b room [] ne same t = t
Tiled-moved f g a b room (x ∷ xs) ne same (fits, ne', at, t) = (
  fits,
  ne,
  here,
  Tiled-moved f g (a + sizeof_node + x.size) (b + sizeof_node + x.size)
      (room - (sizeof_node + x.size)) xs (omega arith) further t,
)
  where
    here : g b ≡ header x
    here =
        let b' : b + 0 ≡ b = omega arith in
        let a' : a + 0 ≡ a = omega arith in
        ap g (sym b') ∙ same 0 (omega (arith, fits)) ∙ ap f a' ∙ at

    further :
        (o : ℕ)
        → o < room - (sizeof_node + x.size)
        → g (b + sizeof_node + x.size + o) ≡ f (a + sizeof_node + x.size + o)
    further o lt =
        let b' : b + sizeof_node + x.size + o ≡ b + (sizeof_node + x.size + o) = omega arith in
        let a' : a + (sizeof_node + x.size + o) ≡ a + sizeof_node + x.size + o = omega arith in
        ap g b' ∙ same (sizeof_node + x.size + o) (omega (arith, lt)) ∙ ap f a'

pub Tiled-put :
    (v : Vm) (p : Ptr) (y : SpaceNode) (a : Ptr) (room : ℕ) (xs : List SpaceNode)
    → p < a
    → Tiled v.slots a room xs
    → Tiled (put p y v).slots a room xs
Tiled-put v p y a room xs lt t =
    Tiled-moved v.slots (put p y v).slots a a room xs (omega (arith, lt))
      (λ o small. ground (arith, lt)) t

module _ (size : ℕ) where
  -- the loop with the write behind it
  closing : ℕ → (n old : Ptr) → ℕ → Cmd (Unit {0})
  closing k n old s =
      restore_loop k size n old s
      >>= (λ last. load last >>= (λ x. store last (record x { next = null })))

  closing-step :
      (k : ℕ) (n old : Ptr) (s : ℕ) (v : Vm) (x : SpaceNode)
      → sizeof_node < size - s
      → n ≢ null
      → v.slots n ≡ header x
      → closing (suc k) n old s v
        ≡ closing k (n + sizeof_node + x.size) n (s + sizeof_node + x.size) (
            put n
              (record x { next = n + sizeof_node + x.size; prev = old; start = n + sizeof_node })
              v)
  unfolding closing restore_loop
  closing-step k n old s v x fits ne at =
      let before : ltb s size ≡ true = ground (arith, fits) in
      let room : ltb sizeof_node (size - s) ≡ true = ground (arith, fits) in
      rw
        (
          before,
          room,
          load-header v n x ne at,
          store-put n
              (record x { next = n + sizeof_node + x.size; prev = old; start = n + sizeof_node }) v
              ne,
        )
        refl

  closing-end :
      (k : ℕ) (n old : Ptr) (s : ℕ) (v : Vm) (x : SpaceNode)
      → size - s ≤ sizeof_node
      → old ≢ null
      → v.slots old ≡ header x
      → closing (suc k) n old s v ≡ ok tt (put old (record x { next = null }) v)
  unfolding closing restore_loop
  closing-end k n old s v x done ne at =
      let over : (ltb s size && ltb sizeof_node (size - s)) ≡ false = ground (arith, done) in
      rw (over, load-header v old x ne at, store-put old (record x { next = null }) v ne) refl

  closing-Relinked :
      (xs : List SpaceNode) (x : SpaceNode) (k : ℕ) (n old : Ptr) (s : ℕ) (v : Vm)
      → Tiled v.slots n (size - s) (x ∷ xs)
      → length (x ∷ xs) < k
      → (v' : Vm) × (closing k n old s v ≡ ok tt v') × Relinked v v' (linked n old (x ∷ xs))
  closing-Relinked xs x zero n old s v t fuel = absurd (omega arith)
  closing-Relinked xs x (suc zero) n old s v t fuel = absurd (omega arith)
  closing-Relinked [] x (suc (suc k)) n old s v (fits, ne, at, done) fuel =
      let y : SpaceNode = record x {
        next = n + sizeof_node + x.size;
        prev = old;
        start = n + sizeof_node;
      } in
      let v1 : Vm = put n y v in
      let last : SpaceNode = record y { next = null } in
      (
        put n last v1,
        closing-step (suc k) n old s v x fits ne at
            ∙ closing-end k (n + sizeof_node + x.size) n (s + sizeof_node + x.size) v1 y
                (omega (arith, done)) ne (ground arith),
        record { holding = (ground arith, tt); others = λ p out. ground (arith, out); rest = refl },
      )
  closing-Relinked (y ∷ ys) x (suc (suc k)) n old s v (fits, ne, at, t) fuel =
      let z : SpaceNode = record x {
        next = n + sizeof_node + x.size;
        prev = old;
        start = n + sizeof_node;
      } in
      let v1 : Vm = put n z v in
      let far : n < n + sizeof_node + x.size = omega arith in
      let room : size - s - (sizeof_node + x.size) ≡ size - (s + sizeof_node + x.size) =
        omega arith in
      let t1 : Tiled v1.slots (n + sizeof_node + x.size) (size - (s + sizeof_node + x.size))
          (y ∷ ys) =
        Tiled-put v n z (n + sizeof_node + x.size) (size - (s + sizeof_node + x.size)) (y ∷ ys) far
          (subst (λ r. Tiled v.slots (n + sizeof_node + x.size) r (y ∷ ys)) room t) in
      let (v', runs, re) =
        closing-Relinked ys y (suc k) (n + sizeof_node + x.size) n (s + sizeof_node + x.size) v1 t1
          (omega (arith, fuel)) in
      (
        v',
        closing-step (suc k) n old s v x fits ne at ∙ runs,
        record {
          holding = (
            re.others n (not-is_at_below n (n + sizeof_node + x.size) n (y ∷ ys) far)
                ∙ ground arith,
            re.holding,
          );
          others = λ p out. re.others p (ground (arith, out)) ∙ ground (arith, out);
          rest = re.rest;
        },
      )

-- On elements that lie one behind the other in `size` bytes from `n`, with more rounds than elements,
-- `restoreElementsPointers` returns, the headers of the elements then have their start behind the
-- header and the neighbours as `next` and `prev`, and nothing else is written.
pub restore_elements_pointers-Relinked :
    (rounds size : ℕ) (n : Ptr) (v : Vm) (x : SpaceNode) (xs : List SpaceNode)
    → Tiled v.slots n size (x ∷ xs)
    → length (x ∷ xs) < rounds
    → (v' : Vm) × (restore_elements_pointers rounds n size v ≡ ok tt v')
      × Relinked v v' (linked n null (x ∷ xs))
unfolding restore_elements_pointers closing
restore_elements_pointers-Relinked rounds size n v x xs t fuel =
    let some' : (size == 0) ≡ false = ground (arith, t.0) in
    let whole : size ≡ size - 0 = omega arith in
    let t' = subst (λ r. Tiled v.slots n r (x ∷ xs)) whole t in
    let (v', runs, re) = closing-Relinked size xs x rounds n null 0 v t' fuel in
    (v', rw some' runs, re)
