-- ===== src/Vm/Pages/Exchange.antt =====
-- `swapPages`: two pages change places.
pub mod Elements
pub mod Defs
use osdesign.Base.{
  ℕ, ◌+◌, ◌-◌, ◌≤◌, ◌<◌, ◌≡◌, refl, ap, ◌∙◌, ◌≢◌, inl, inr, true, false, ◌&&◌, List, ◌∷◌, arith,
  leb, ltb, ◌==◌, if◌then◌else◌, length,
}
use osdesign.Base.Command.{ok, ◌>>◌}
use osdesign.Vm.Memory.{Ptr, null, SpaceNode, Slot, header, Vm, store_slot, copied}
use osdesign.Vm.Space.Find.{load-header, store-put}
use osdesign.Vm.Pages.{restore_elements_pointers, swap_pages}
use osdesign.Vm.Pages.Restore.{
  Tiled, linked, Holding, is_at, Relinked, Tiled-moved, restore_elements_pointers-Relinked,
}
use osdesign.Vm.Pages.Exchange.Elements.{Holding-kept, outside}
use osdesign.Vm.Pages.Exchange.Defs.{TwoPages, placed, inside, Exchanged}

module _ (v : Vm) (p1 p2 : Ptr) (x1 x2 e1 e2 : SpaceNode) (es1 es2 : List SpaceNode)
    (w : TwoPages v p1 p2 x1 x2 e1 e2 es1 es2) where
  -- the memory before the links are restored
  first_half : Ptr → Slot
  first_half = store_slot (copied v.slots x1.start x2.start v.page_size) p1 (header (placed x2 x1))

  copied_over : Ptr → Slot
  unfolding first_half
  copied_over =
      store_slot
        (λ a.
          if leb x2.start a && ltb a (x2.start + v.page_size)
          then v.slots (x1.start + (a - x2.start))
          else first_half a)
        p2 (header (placed x1 x2))

  moved : Vm
  moved = record v { slots = copied_over }

  swap_pages-restores :
      (rounds : ℕ)
      → swap_pages rounds p1 p2 v
        ≡ (restore_elements_pointers rounds x1.start x2.size
              >> restore_elements_pointers rounds x2.start x1.size)
            moved
  unfolding swap_pages moved copied_over
  swap_pages-restores rounds =
      let differ : (p1 == p2) ≡ false = ground (arith, w.apart) in
      rw
        (
          differ,
          load-header v p1 x1 w.ne_null1 w.holds1,
          load-header v p2 x2 w.ne_null2 w.holds2,
          store-put p1 (placed x2 x1)
              (record v { slots = copied v.slots x1.start x2.start v.page_size }) w.ne_null1,
          store-put p2 (placed x1 x2)
              (record v {
                slots = λ a.
                    if leb x2.start a && ltb a (x2.start + v.page_size)
                    then v.slots (x1.start + (a - x2.start))
                    else first_half a;
              })
              w.ne_null2,
        )
        refl

  moved-entry1 : moved.slots p1 ≡ header (placed x2 x1)
  unfolding moved copied_over
  moved-entry1 = ground (arith, w.apart, w.below12)

  moved-entry2 : moved.slots p2 ≡ header (placed x1 x2)
  unfolding moved copied_over
  moved-entry2 = ground arith

  page2_apart : (o : ℕ) → o < v.page_size → inside v x2.start (x1.start + o) ≡ false
  page2_apart o lt = elim w.disjoint [
    | inl le ↦ ground (arith, le, lt)
    | inr le ↦ ground (arith, le, lt)
  ]

  page1_apart : (o : ℕ) → o < v.page_size → inside v x1.start (x2.start + o) ≡ false
  page1_apart o lt = elim w.disjoint [
    | inl le ↦ ground (arith, le, lt)
    | inr le ↦ ground (arith, le, lt)
  ]

  moved-bytes1 : (o : ℕ) → o < v.page_size → moved.slots (x1.start + o) ≡ v.slots (x2.start + o)
  unfolding moved copied_over
  moved-bytes1 o lt =
      let back : x1.start + o - x1.start ≡ o = omega arith in
      let apart2 : (x1.start + o == p2) ≡ false = ground (arith, w.below21) in
      let apart1 : (x1.start + o == p1) ≡ false = ground (arith, w.below11) in
      let low : leb x1.start (x1.start + o) ≡ true = ground arith in
      let high : ltb (x1.start + o) (x1.start + v.page_size) ≡ true = ground (arith, lt) in
      rw (apart2, page2_apart o lt, apart1, low, high, back) refl

  moved-bytes2 : (o : ℕ) → o < v.page_size → moved.slots (x2.start + o) ≡ v.slots (x1.start + o)
  unfolding moved copied_over
  moved-bytes2 o lt =
      let back : x2.start + o - x2.start ≡ o = omega arith in
      rw (back) (ground (arith, lt, w.below22))

  moved-others :
      (p : Ptr)
      → p ≢ p1
      → p ≢ p2
      → inside v x1.start p ≡ false
      → inside v x2.start p ≡ false
      → moved.slots p ≡ v.slots p
  unfolding moved copied_over
  moved-others p n1 n2 out1 out2 = ground (arith, n1, n2, out1, out2)

  Tiled1 : (Ptr → Slot) → Type 0
  Tiled1 f = Tiled f x1.start x2.size (e2 ∷ es2)

  Tiled2 : (Ptr → Slot) → Type 0
  Tiled2 f = Tiled f x2.start x1.size (e1 ∷ es1)

  moved-Tiled1 : Tiled1 moved.slots
  unfolding Tiled1
  moved-Tiled1 =
      Tiled-moved v.slots moved.slots x2.start x1.start x2.size (e2 ∷ es2)
        (omega (arith, w.below11)) (λ o lt. moved-bytes1 o (omega (arith, lt, w.size2))) w.tiled2

  not_in1 :
      (p : Ptr) → inside v x1.start p ≡ false → is_at (linked x1.start null (e2 ∷ es2)) p ≡ false
  unfolding Tiled1
  not_in1 = outside moved.slots x1.start null x2.size v.page_size (e2 ∷ es2) moved-Tiled1 w.size2

  second-Tiled2 : (v5 : Vm) → Relinked moved v5 (linked x1.start null (e2 ∷ es2)) → Tiled2 v5.slots
  unfolding Tiled2
  second-Tiled2 v5 re =
      Tiled-moved v.slots v5.slots x1.start x2.start x1.size (e1 ∷ es1) (omega (arith, w.below12))
        (λ o lt. bytes o (omega (arith, lt, w.size1))) w.tiled1
    where
      bytes : (o : ℕ) → o < v.page_size → v5.slots (x2.start + o) ≡ v.slots (x1.start + o)
      bytes o lt =
          re.others (x2.start + o) (not_in1 (x2.start + o) (page1_apart o lt)) ∙ moved-bytes2 o lt

  module _ (v5 v6 : Vm) (re5 : Relinked moved v5 (linked x1.start null (e2 ∷ es2)))
      (re6 : Relinked v5 v6 (linked x2.start null (e1 ∷ es1))) where
    not_in2 :
        (p : Ptr) → inside v x2.start p ≡ false → is_at (linked x2.start null (e1 ∷ es1)) p ≡ false
    unfolding Tiled2
    not_in2 =
        outside v5.slots x2.start null x1.size v.page_size (e1 ∷ es1) (second-Tiled2 v5 re5) w.size1

    untouched :
        (p : Ptr)
        → inside v x1.start p ≡ false
        → inside v x2.start p ≡ false
        → v6.slots p ≡ moved.slots p
    untouched p out1 out2 = re6.others p (not_in2 p out2) ∙ re5.others p (not_in1 p out1)

    in1_not_in2 :
        (p : Ptr) → x1.start ≤ p → p < x1.start + v.page_size → inside v x2.start p ≡ false
    in1_not_in2 p lo hi = elim w.disjoint [
      | inl le ↦ ground (arith, lo, hi, le)
      | inr le ↦ ground (arith, lo, hi, le)
    ]

    first_elements : Holding v6.slots (linked x1.start null (e2 ∷ es2))
    unfolding Tiled1
    first_elements =
        Holding-kept v5.slots v6.slots moved.slots x1.start null x2.size (e2 ∷ es2) moved-Tiled1
          (λ p lo hi. re6.others p (not_in2 p (in1_not_in2 p lo (omega (arith, hi, w.size2)))))
          re5.holding

    globals_kept : v6 ≡ record v { slots = v6.slots }
    unfolding moved
    globals_kept = re6.rest ∙ ap {A = Vm} {B = Vm} (λ u. record u { slots = v6.slots }) re5.rest

    exchanged : Exchanged v v6 p1 p2 x1 x2 e1 e2 es1 es2
    exchanged = record {
      entry1 = untouched p1 (ground (arith, w.below11)) (ground (arith, w.below12)) ∙ moved-entry1;
      entry2 = untouched p2 (ground (arith, w.below21)) (ground (arith, w.below22)) ∙ moved-entry2;
      elements1 = first_elements;
      elements2 = re6.holding;
      bytes1 = λ o lt out.
          re6.others (x1.start + o) (not_in2 (x1.start + o) (page2_apart o lt))
          ∙ re5.others (x1.start + o) out
          ∙ moved-bytes1 o lt;
      bytes2 = λ o lt out.
          re6.others (x2.start + o) out
          ∙ re5.others (x2.start + o) (not_in1 (x2.start + o) (page1_apart o lt))
          ∙ moved-bytes2 o lt;
      others = λ p n1 n2 out1 out2. untouched p out1 out2 ∙ moved-others p n1 n2 out1 out2;
      globals = globals_kept;
    }

  -- `swapPages` on two such pages, with more rounds than each has elements, returns, and the pages are
  -- exchanged.
  pub swap_pages-Exchanged :
      (rounds : ℕ)
      → length (e1 ∷ es1) < rounds
      → length (e2 ∷ es2) < rounds
      → (v' : Vm) × (swap_pages rounds p1 p2 v ≡ ok tt v')
        × Exchanged v v' p1 p2 x1 x2 e1 e2 es1 es2
  unfolding Tiled1 Tiled2
  swap_pages-Exchanged rounds fuel1 fuel2 =
      let (v5, runs5, re5) =
        restore_elements_pointers-Relinked rounds x2.size x1.start moved e2 es2 moved-Tiled1
          fuel2 in
      let (v6, runs6, re6) =
        restore_elements_pointers-Relinked rounds x1.size x2.start v5 e1 es1 (second-Tiled2 v5 re5)
          fuel1 in
      (v6, swap_pages-restores rounds ∙ rw (runs5, runs6) refl, exchanged v5 v6 re5 re6)
