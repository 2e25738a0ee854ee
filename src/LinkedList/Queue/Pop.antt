-- ===== src/LinkedList/Queue/Pop.antt =====
-- `pop`, `front` and `empty` on a well-formed list.
use osdesign.Base.{◌+◌, ◌-◌, ◌%◌, ◌≡◌, refl, true, false, List, [], ◌∷◌, arith, ◌==◌, if◌then◌else◌}
use osdesign.LinkedList.Memory.{null, Heap, ok, fault, load}
use osdesign.LinkedList.Chain.{Cell, first, last_at, load-ok}
use osdesign.LinkedList.{LinkedList, linked_list, two32, pop, empty, front}
use osdesign.LinkedList.Queue.Links.{IsList}

module _ (h : Heap) (l : LinkedList) where
  -- On a well-formed list that is not empty, `pop` returns the cell of the first thread and a
  -- well-formed list of the others, and writes nothing.
  pub pop-cons :
      (c : Cell) (cs : List Cell)
      → IsList h l (c ∷ cs)
      → (l' : LinkedList) × (pop l h ≡ ok (c.slot, l') h) × IsList h l' cs
  unfolding pop
  pop-cons c cs is = (
    linked_list (if first cs == null then null else l.tail) (first cs)
        ((l.nitems + two32 - 1) % two32),
    rw (is.head, load-ok h c cs is.chain),
    record {
      head = refl;
      tail = tail_left cs is;
      nitems = omega (arith, is.nitems);
      chain = is.chain.5;
    },
  )
    where
      tail_left :
          (xs : List Cell)
          → IsList h l (c ∷ xs)
          → (if first xs == null then null else l.tail) ≡ last_at xs
      tail_left [] js = refl
      tail_left (x ∷ xs) js = ground (arith, js.tail, js.chain.5.0)

  -- `pop` and `front` of an empty list dereference NULL.
  pub pop-nil : IsList h l [] → (pop l h ≡ fault) × (front l h ≡ fault)
  unfolding pop front load
  pop-nil is = (ground (arith, is.head), ground (arith, is.head))

  pub front-cons : (c : Cell) (cs : List Cell) → IsList h l (c ∷ cs) → front l h ≡ ok c.slot h
  unfolding front
  front-cons c cs is = rw (is.head, load-ok h c cs is.chain)

pub empty-nil : (h : Heap) (l : LinkedList) → IsList h l [] → empty l ≡ true
unfolding empty
empty-nil h l is = ground (arith, is.head)

pub empty-cons :
    (h : Heap) (l : LinkedList) (c : Cell) (cs : List Cell) → IsList h l (c ∷ cs) → empty l ≡ false
unfolding empty
empty-cons h l c cs is = ground (arith, is.head, is.chain.0)
