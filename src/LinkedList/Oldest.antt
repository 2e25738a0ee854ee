-- ===== src/LinkedList/Oldest.antt =====
-- `orderByOldest`: it moves every thread to a new list, and leaves the old nodes to leak.
use osdesign.Base.{
  ℕ, ◌+◌, ◌≤◌, ◌<◌, ◌≡◌, refl, ap, ◌∙◌, ◌≢◌, Bool, true, false, none, List, [], ◌∷◌, map, arith,
  ◌==◌, ◌||◌, length, contains,
}
use osdesign.LinkedList.Memory.{Ptr, null, Heap, Cmd, ok, fault}
use osdesign.Base.Command.{go_on}
use osdesign.LinkedList.Spec.{insert_from, insert_ordered, insert_all, length-insert_ordered}
use osdesign.LinkedList.Chain.{Cell, has, Chain, threads_of, Chain-frame}
use osdesign.LinkedList.{LinkedList, linked_list, Blocks, drain, order_by_oldest}
use osdesign.LinkedList.Queue.{
  IsList, IsFresh, new_cell, Spares, cell_before, before, push_ordered-Inserted, push_ordered-wild,
  threads_of-insert_ordered, not-has_of_none, pop-cons, empty-nil, empty-cons,
}

-- What `malloc` promises of several blocks: each is fresh, and no two are one.
abbrev pub AllFresh : Heap → List Blocks → Type 0
AllFresh h [] = Unit {0}
AllFresh h (m ∷ ms) =
    IsFresh h m
    × (contains (map (λ x. x.0) ms) m.0 ≡ false)
    × (contains (map (λ x. x.1) ms) m.1 ≡ false)
    × AllFresh h ms

IsFresh-Spares :
    (h g : Heap) (cs : List Cell) (m k : Blocks)
    → Chain h cs
    → Spares h g cs m
    → IsFresh h k
    → (k.0 == m.0) ≡ false
    → (k.1 == m.1) ≡ false
    → IsFresh g k
IsFresh-Spares h g cs m k ch s f d0 d1 = record {
  node_ne_null = f.node_ne_null;
  slot_ne_null = f.slot_ne_null;
  node_unused = s.0 k.0 (not-has_of_none h cs k.0 ch f.node_unused) (ground arith) ∙ f.node_unused;
  slot_unused = s.1 k.1 (ground arith) ∙ f.slot_unused;
}

AllFresh-Spares :
    (h g : Heap) (cs : List Cell) (m : Blocks) (ms : List Blocks)
    → Chain h cs
    → Spares h g cs m
    → contains (map (λ x. x.0) ms) m.0 ≡ false
    → contains (map (λ x. x.1) ms) m.1 ≡ false
    → AllFresh h ms
    → AllFresh g ms
AllFresh-Spares h g cs m [] ch s d0 d1 f = tt
AllFresh-Spares h g cs m (k ∷ ms) ch s d0 d1 f = (
  IsFresh-Spares h g cs m k ch s f.0 (ground arith) (ground arith),
  f.1,
  f.2,
  AllFresh-Spares h g cs m ms ch s (ground arith) (ground arith) f.3,
)

-- A list with no node in common with the one that changed.
IsList-Spares :
    (h g : Heap) (l : LinkedList) (xs ys : List Cell) (m : Blocks)
    → ((a : Ptr) → has xs a ≡ true → has ys a ≡ false)
    → Spares h g ys m
    → IsFresh h m
    → IsList h l xs
    → IsList g l xs
IsList-Spares h g l xs ys m apart s f is = record {
  head = is.head;
  tail = is.tail;
  nitems = is.nitems;
  chain =
      Chain-frame h g xs
        (λ a i.
          s.0 a (apart a i) (λ e. ground (arith, not-has_of_none h xs m.0 is.chain f.node_unused)))
        (λ a t e. s.1 a (λ z. ground (arith, f.slot_unused)) ∙ e) is.chain;
}

has-insert_from :
    (le : Cell → Cell → Bool) (n : Cell) (cs : List Cell) (a : Ptr)
    → has (insert_from le n cs) a ≡ ((n.at == a) || has cs a)
unfolding insert_from
has-insert_from le n [] a = refl
has-insert_from le n (c ∷ cs) a = ground (arith, has-insert_from le n cs a)

has-insert_ordered :
    (le : Cell → Cell → Bool) (n : Cell) (cs : List Cell) (a : Ptr)
    → has (insert_ordered le n cs) a ≡ ((n.at == a) || has cs a)
unfolding insert_ordered
has-insert_ordered le n [] a = refl
has-insert_ordered le n (c ∷ cs) a = ground (arith, has-insert_from le n cs a)

not-has-insert_ordered :
    (h : Heap) (le : Cell → Cell → Bool) (n : Cell) (xs ys : List Cell) (a : Ptr)
    → Chain h xs
    → h.nodes n.at ≡ none
    → has xs a ≡ true
    → has ys a ≡ false
    → has (insert_ordered le n ys) a ≡ false
not-has-insert_ordered h le n xs ys a ch unused i out =
    rw (has-insert_ordered le n ys a, out) (ground (arith, not-has_of_none h xs n.at ch unused))

module _ (get_priority get_time_created : ℕ → ℕ) (rounds : ℕ) where
  abbrev pub older : ℕ → ℕ → Bool
  older = before get_priority get_time_created 1

  -- The state at the end: a well-formed list of the threads in their new order.
  pub record Ordered (h : Heap) (threads : List ℕ) (run : Cmd LinkedList) : Type 0 where
    pub heap : Heap
    pub list : LinkedList
    pub cells : List Cell
    pub runs : run h ≡ ok list heap
    pub holds : IsList heap list cells
    pub order : threads_of cells ≡ threads

  drain-Ordered :
      (ms : List Blocks) (xs ys : List Cell) (h : Heap) (l new : LinkedList)
      → IsList h l xs
      → IsList h new ys
      → ((a : Ptr) → has xs a ≡ true → has ys a ≡ false)
      → AllFresh h ms
      → length xs ≤ length ms
      → length xs + length ys ≤ rounds
      → Ordered h
          (insert_all older (threads_of xs) (threads_of ys))
          (drain get_priority get_time_created rounds ms l new)
  unfolding drain insert_all
  drain-Ordered [] [] ys h l new is js apart f enough fuel = record {
    heap = h;
    list = new;
    cells = ys;
    runs = rw (empty-nil h l is);
    holds = js;
    order = refl;
  }
  drain-Ordered [] (x ∷ xs) ys h l new is js apart f enough fuel = absurd (omega arith)
  drain-Ordered (m ∷ ms) [] ys h l new is js apart f enough fuel = record {
    heap = h;
    list = new;
    cells = ys;
    runs = rw (empty-nil h l is);
    holds = js;
    order = refl;
  }
  drain-Ordered (m ∷ ms) (x ∷ xs) ys h l new is js apart f enough fuel =
      let (rest, popped, ks) = pop-cons h l x xs is in
      let n = new_cell m x.thread in
      let before' = cell_before get_priority get_time_created 1 in
      let ins =
        push_ordered-Inserted h new m x.slot x.thread f.0 is.chain.1 is.chain.3 get_priority
          get_time_created 1 rounds ys js (omega arith) in
      let left =
        IsList-Spares h ins.heap rest xs ys m (λ a i. apart a (ground arith)) ins.spares f.0 ks in
      let tail =
        drain-Ordered ms xs (insert_ordered before' n ys) ins.heap rest ins.list left ins.holds
          (λ a i.
            not-has-insert_ordered h before' n xs ys a is.chain.5 f.0.node_unused i
              (apart a (ground arith)))
          (AllFresh-Spares h ins.heap ys m ms js.chain ins.spares f.1 f.2 f.3) (omega arith)
          (omega (arith, length-insert_ordered before' n ys)) in
      record {
        heap = tail.heap;
        list = tail.list;
        cells = tail.cells;
        runs = rw (empty-cons h l x xs is, popped, ins.runs) tail.runs;
        holds = tail.holds;
        order =
            tail.order
            ∙ ap (insert_all older (threads_of xs))
                (threads_of-insert_ordered get_priority get_time_created 1 n ys);
      }

  -- With enough blocks from `malloc`, enough rounds and a new list whose bytes happen to be zero,
  -- `orderByOldest` returns a well-formed list of the same threads, inserted one by one.
  pub order_by_oldest-Ordered :
      (ms : List Blocks) (xs : List Cell) (h : Heap) (l : LinkedList)
      → IsList h l xs
      → AllFresh h ms
      → length xs ≤ length ms
      → length xs ≤ rounds
      → Ordered h
          (insert_all older (threads_of xs) [])
          (order_by_oldest get_priority get_time_created rounds ms (linked_list null null 0) l)
  unfolding order_by_oldest
  order_by_oldest-Ordered ms xs h l is f enough fuel =
      drain-Ordered ms xs [] h l (linked_list null null 0) is
        (record { head = refl; tail = refl; nitems = refl; chain = tt }) (λ a i. refl) f enough
        (omega arith)

  -- The new list is not cleared: if its tail is not NULL and its head leads to no node, neither an
  -- old one nor the one that the first insertion makes from fresh blocks, then ordering a well-formed
  -- list that is not empty, with at least one round, dereferences a wild pointer.
  pub order_by_oldest-garbage :
      (m : Blocks) (ms : List Blocks) (x : Cell) (xs : List Cell) (h : Heap) (fresh l : LinkedList)
      → IsList h l (x ∷ xs)
      → IsFresh h m
      → fresh.tail ≢ null
      → fresh.head ≢ null
      → fresh.head ≢ m.0
      → h.nodes fresh.head ≡ none
      → 0 < rounds
      → order_by_oldest get_priority get_time_created rounds (m ∷ ms) fresh l h ≡ fault
  unfolding order_by_oldest drain
  order_by_oldest-garbage m ms x xs h fresh l is f tail head other wild fuel =
      let (rest, popped, ks) = pop-cons h l x xs is in
      rw (empty-cons h l x xs is, popped)
        (ap (λ r. go_on (λ new'. drain get_priority get_time_created rounds ms rest new') r)
          (push_ordered-wild h fresh m x.slot x.thread f is.chain.1 is.chain.3 get_priority
            get_time_created 1 rounds tail head other wild fuel))
