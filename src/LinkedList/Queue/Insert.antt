-- ===== src/LinkedList/Queue/Insert.antt =====
-- `push` and `pushOrdered` on a well-formed list.
use mathlib.Core.Path.{subst, subst₂}
use mathlib.Core.List.{append_assoc}
use osdesign.Base.{
  ℕ, zero, suc, ◌+◌, ◌<◌, ◌≡◌, refl, ap, sym, ◌∙◌, ◌≢◌, false, none, some, Option, List, [], ◌∷◌,
  ◌++◌, arith, ◌==◌, ◌%◌, length, length-append,
}
use osdesign.LinkedList.Memory.{
  Ptr, null, Node, node, Heap, Cmd, ok, fault, update, set_node, load_thread, set_next, load,
}
use osdesign.LinkedList.Spec.{insert_ordered}
use osdesign.LinkedList.Chain.{
  Cell, first, last_at, Chain, relink, has-append, last_at-append, Chain-relink, Chain-frame,
}
use osdesign.LinkedList.{
  LinkedList, linked_list, Blocks, two32, push, push_ordered, link_after, walk,
}
use osdesign.LinkedList.Queue.Links.{
  IsList, IsFresh, new_cell, Spares, made, new_node-ok, Chain-made, Chain-suffix, not-has_of_none,
  link_after-ok,
}
use osdesign.LinkedList.Queue.Walk.{cell_before, first-Stop}

-- The outcome of an insertion: enough rounds, a well-formed list of the given nodes, and no write
-- but to its nodes and the new blocks.
pub record Inserted (h : Heap) (cs : List Cell) (m : Blocks) (r : Cmd LinkedList) (ds : List Cell)
    : Type 0 where
  pub heap : Heap
  pub list : LinkedList
  pub runs : r h ≡ ok list heap
  pub holds : IsList heap list ds
  pub spares : Spares h heap cs m

unsnoc : (c : Cell) (cs : List Cell) → (pre : List Cell) × (d : Cell) × (c ∷ cs ≡ pre ++ d ∷ [])
unsnoc c [] = ([], c, refl)
unsnoc c (d ∷ cs) = let (pre, e, whole) = unsnoc d cs in (c ∷ pre, e, ap (λ xs. c ∷ xs) whole)

set_next-ok :
    (h : Heap) (p q : Ptr) (n : Node)
    → p ≢ null
    → h.nodes p ≡ some n
    → set_next p q h ≡ ok tt (set_node p (record n { next = q }) h)
unfolding set_next load
set_next-ok h p q n ne e = ground arith

walk-wild :
    (get_priority get_time_created : ℕ → ℕ) (order k v : ℕ) (h : Heap) (p : Ptr)
    → p ≢ null
    → h.nodes p ≡ none
    → 0 < k
    → walk get_priority get_time_created k order v p p h ≡ fault
unfolding walk load
walk-wild pr b order zero v h p ne e fuel = absurd (omega arith)
walk-wild pr b order (suc k) v h p ne e fuel = ground arith

load_thread_of :
    (h : Heap) (p : Ptr) (v : ℕ) → p ≢ null → h.threads p ≡ some v → load_thread p h ≡ ok v h
unfolding load_thread
load_thread_of h p v ne e = ground arith

same_nodes :
    (p q : Ptr) (x y : Node) (f : Ptr → Option Node) (a : Ptr)
    → update (update f q y) p x a ≡ update (update (update f q y) q y) p x a
same_nodes p q x y f a = ground arith

last_at-ne-null :
    (h : Heap) (c : Cell) (cs : List Cell) → Chain h (c ∷ cs) → last_at (c ∷ cs) ≢ null
last_at-ne-null h c [] ch = ch.0
last_at-ne-null h c (d ∷ cs) ch = last_at-ne-null h d cs ch.5

module _ (h : Heap) (l : LinkedList) (m : Blocks) (t : Ptr) (v : ℕ) (f : IsFresh h m)
    (ne : t ≢ null) (e : h.threads t ≡ some v) where
  Spares-relink :
      (pre : List Cell) (d : Cell) (post : List Cell)
      → Spares h (relink d (new_cell m v) post (made m v h)) (pre ++ d ∷ post) m
  Spares-relink pre d post =
      (λ a out other. ground (arith, has-append pre (d ∷ post) a), λ a other. ground arith)

  Spares-push :
      (pre : List Cell) (d : Cell)
      → Spares h (set_node d.at (node d.slot m.0) (made m v h)) (pre ++ d ∷ []) m
  Spares-push pre d =
      (λ a out other. ground (arith, has-append pre (d ∷ []) a), λ a other. ground arith)

  push-runs :
      (a s : Ptr)
      → l.tail ≡ a
      → a ≢ null
      → (made m v h).nodes a ≡ some (node s null)
      → push m l t h
        ≡ ok
            (linked_list m.0 l.head ((l.nitems + 1) % two32))
            (set_node a (node s m.0) (made m v h))
  unfolding push
  push-runs a s tail full holds =
      let test : (l.tail == null) ≡ false = ground arith in
      rw (
        new_node-ok h m t v f ne e,
        test,
        tail,
        set_next-ok (made m v h) a m.0 (node s null) full holds,
      )

  push_ordered-runs :
      (get_priority get_time_created : ℕ → ℕ) (order rounds : ℕ) (a : Ptr)
      → l.tail ≢ null
      → walk get_priority get_time_created rounds order v l.head l.head (made m v h)
        ≡ ok a (made m v h)
      → push_ordered get_priority get_time_created rounds m order l t h
        ≡ link_after m.0 a l (made m v h)
  unfolding push_ordered
  push_ordered-runs p b order rounds a full found =
      let test : (l.tail == null) ≡ false = ground arith in
      let stored : load_thread m.1 (made m v h) ≡ ok v (made m v h) =
        load_thread_of (made m v h) m.1 v f.slot_ne_null (ground arith) in
      rw (new_node-ok h m t v f ne e, test, stored, found)

  -- A list whose head leads nowhere, although its tail is set.
  pub push_ordered-wild :
      (get_priority get_time_created : ℕ → ℕ) (order rounds : ℕ)
      → l.tail ≢ null
      → l.head ≢ null
      → l.head ≢ m.0
      → h.nodes l.head ≡ none
      → 0 < rounds
      → push_ordered get_priority get_time_created rounds m order l t h ≡ fault
  unfolding push_ordered
  push_ordered-wild p b order rounds full head other wild fuel =
      let test : (l.tail == null) ≡ false = ground arith in
      let stored : load_thread m.1 (made m v h) ≡ ok v (made m v h) =
        load_thread_of (made m v h) m.1 v f.slot_ne_null (ground arith) in
      rw (
        new_node-ok h m t v f ne e,
        test,
        stored,
        walk-wild p b order rounds v (made m v h) l.head head (ground arith) fuel,
      )

  made-IsList : IsList (made m v h) (linked_list m.0 m.0 1) (new_cell m v ∷ [])
  made-IsList = record {
    head = refl;
    tail = refl;
    nitems = refl;
    chain = (f.node_ne_null, f.slot_ne_null, ground arith, ground arith, refl, tt);
  }

  -- A run that ends with the links of `link_after` behind the node `d`.
  linked-Inserted :
      (r : Cmd LinkedList) (pre : List Cell) (d : Cell) (post : List Cell)
      → IsList h l (pre ++ d ∷ post)
      → r h ≡ link_after m.0 d.at l (made m v h)
      → Inserted h (pre ++ d ∷ post) m r (pre ++ d ∷ new_cell m v ∷ post)
  linked-Inserted r pre d post is links =
      let (l', runs, holds) = link_after-ok h l pre d post m v f is in
      record {
        heap = relink d (new_cell m v) post (made m v h);
        list = l';
        runs = links ∙ runs;
        holds = holds;
        spares = Spares-relink pre d post;
      }

  append-Inserted :
      (pre : List Cell) (d : Cell)
      → IsList h l (pre ++ d ∷ [])
      → Inserted h (pre ++ d ∷ []) m (push m l t) ((pre ++ d ∷ []) ++ new_cell m v ∷ [])
  unfolding push load set_next
  append-Inserted pre d is =
      let ch = Chain-made h (pre ++ d ∷ []) m v f is.chain in
      let new = not-has_of_none h (pre ++ d ∷ []) m.0 is.chain f.node_unused in
      let tail : l.tail ≡ d.at = is.tail ∙ last_at-append pre d in
      let end = Chain-suffix (made m v h) pre (d ∷ []) ch in
      let g = set_node d.at (node d.slot m.0) (made m v h) in
      let linked =
        Chain-relink (made m v h) pre d [] (new_cell m v) ch new f.node_ne_null f.slot_ne_null
          (ground arith) in
      record {
        heap = g;
        list = linked_list m.0 l.head ((l.nitems + 1) % two32);
        runs = push-runs d.at d.slot tail end.0 end.2;
        holds = record {
          head = is.head ∙ first_kept pre;
          tail = ground (arith, last_at-append (pre ++ d ∷ []) (new_cell m v));
          nitems = omega (arith, is.nitems, length-append (pre ++ d ∷ []) (new_cell m v ∷ []));
          chain =
              Chain-frame (relink d (new_cell m v) [] (made m v h)) g _
                (λ a i. same_nodes d.at m.0 (node d.slot m.0) (node m.1 null) h.nodes a)
                (λ a t e. e) (rw (append_assoc pre (d ∷ []) (new_cell m v ∷ [])) linked);
        };
        spares = Spares-push pre d;
      }
    where
      first_kept :
          (xs : List Cell) → first (xs ++ d ∷ []) ≡ first ((xs ++ d ∷ []) ++ new_cell m v ∷ [])
      first_kept [] = refl
      first_kept (x ∷ xs) = refl

  -- On a well-formed list, with fresh blocks from `malloc` and a thread that can be read, `push`
  -- returns a well-formed list with the thread at the end, and writes only nodes of the list and the
  -- new blocks.
  pub push-Inserted :
      (cs : List Cell) → IsList h l cs → Inserted h cs m (push m l t) (cs ++ new_cell m v ∷ [])
  unfolding push
  push-Inserted [] is = record {
    heap = made m v h;
    list = linked_list m.0 m.0 1;
    runs = rw (new_node-ok h m t v f ne e, is.tail);
    holds = made-IsList;
    spares = (λ a out other. ground arith, λ a other. ground arith);
  }
  push-Inserted (c ∷ cs) is =
      let (pre, d, whole) = unsnoc c cs in
      subst (λ xs. Inserted h xs m (push m l t) (xs ++ new_cell m v ∷ [])) (sym whole)
        (append-Inserted pre d (subst (IsList h l) whole is))

  module _ (get_priority get_time_created : ℕ → ℕ) (order rounds : ℕ) where
    -- On a well-formed list, with fresh blocks from `malloc`, a thread that can be read and more
    -- rounds than nodes, `pushOrdered` returns a well-formed list with the thread behind the leading
    -- threads that go before it, but never in front of the head, and writes only nodes of the list
    -- and the new blocks.
    pub push_ordered-Inserted :
        (cs : List Cell)
        → IsList h l cs
        → length cs < rounds
        → Inserted h cs m
            (push_ordered get_priority get_time_created rounds m order l t)
            (insert_ordered (cell_before get_priority get_time_created order) (new_cell m v) cs)
    unfolding push_ordered insert_ordered
    push_ordered-Inserted [] is fuel = record {
      heap = made m v h;
      list = linked_list m.0 m.0 1;
      runs = rw (new_node-ok h m t v f ne e, is.tail);
      holds = made-IsList;
      spares = (λ a out other. ground arith, λ a other. ground arith);
    }
    push_ordered-Inserted (c ∷ cs) is fuel =
        let (pre, d, post, whole, found, inserted) =
          first-Stop get_priority get_time_created order rounds (made m v h) v c cs
            (Chain-made h (c ∷ cs) m v f is.chain) fuel in
        subst₂
          (λ xs ds.
            Inserted h xs m (push_ordered get_priority get_time_created rounds m order l t) ds)
          (sym whole) (sym (inserted (new_cell m v) refl))
          (linked-Inserted (push_ordered get_priority get_time_created rounds m order l t) pre d
            post (subst (IsList h l) whole is)
            (push_ordered-runs get_priority get_time_created order rounds d.at
              (λ z. last_at-ne-null h c cs is.chain (sym is.tail ∙ z)) (rw is.head found)))
