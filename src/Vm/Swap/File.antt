-- ===== src/Vm/Swap/File.antt =====
-- The swap file of vm.c: `writeSwap` from one array, and `getSwap` into another one behind it.
use osdesign.Base.{
  ℕ, ◌+◌, ◌-◌, ◌*◌, ◌≤◌, ◌<◌, ◌≡◌, refl, ◌∙◌, ◌≢◌, ◌⊎◌, inl, inr, true, false, some, List, [], ◌∷◌,
  arith, ltb, leb, ◌&&◌, if◌then◌else◌, not, length,
}
use mathlib.Core.Path.{subst}
use osdesign.Base.Command.{ok}
use osdesign.Vm.Memory.{Ptr, null, SpaceNode, sizeof_node, Slot, Vm}
use osdesign.Vm.Boot.Table.{Room, Room-bound}
use osdesign.Vm.Swap.{swap_size, swap_memory_start, fix_swap_ptrs, get_swap, write_swap}
use osdesign.Vm.Swap.Fix.{Headers, IsFixed, fix_loop-Fixed}

-- The file that `writeSwap` leaves.
abbrev pub written : Ptr → Vm → Vm
written array v = record v {
  file = some (record { length = swap_size; content = λ a. v.slots (array + a) });
}

write_swap-written :
    (array : Ptr) (v : Vm)
    → v.writable ≡ true
    → swap_size ≤ v.room
    → write_swap array v ≡ ok 0 (written array v)
unfolding write_swap
write_swap-written array v can space =
    let test : not v.writable ≡ false = ground (arith, can) in
    let full : ltb v.room swap_size ≡ false = ground (arith, space) in rw (test, full) refl

-- The memory with the array at `b` as the one at `a` was.
abbrev brought : (a b : Ptr) → Vm → Ptr → Slot
brought a b v p =
    if leb b p && ltb p (b + swap_size) && ltb (p - b) swap_size
    then v.slots (a + (p - b))
    else v.slots p

brought-inside : (a b i : Ptr) (v : Vm) → i < swap_size → brought a b v (b + i) ≡ v.slots (a + i)
brought-inside a b i v lt =
    let back : b + i - b ≡ i = omega arith in
    let inside : (leb b (b + i) && ltb (b + i) (b + swap_size) && ltb i swap_size) ≡ true =
      ground (arith, lt) in
    rw (back, inside) refl

brought-outside :
    (a b p : Ptr) (v : Vm) → (p < b) ⊎ (b + swap_size ≤ p) → brought a b v p ≡ v.slots p
brought-outside a b p v (inl below) = ground (arith, below)
brought-outside a b p v (inr above) = ground (arith, above)

Headers-brought :
    (xs : List SpaceNode) (a b i : Ptr) (v : Vm)
    → i + sizeof_node * length xs < swap_size
    → Headers v.slots xs (a + i)
    → Headers (brought a b v) xs (b + i)
Headers-brought [] a b i v lt h = tt
Headers-brought (x ∷ xs) a b i v lt h =
    let next : Headers v.slots xs (a + (i + sizeof_node)) =
      subst (λ p. Headers v.slots xs p) (omega arith) h.1 in
    (
      brought-inside a b i v (omega (arith, lt)) ∙ h.0,
      subst (λ p. Headers (brought a b v) xs p) (omega arith)
          (Headers-brought xs a b (i + sizeof_node) v (omega (arith, lt)) next),
    )

-- What stands in the array at `b` after the contents of the one at `a` came through the file: the
-- headers with the starts and links of their new places, and the other bytes; nothing else changed.
pub record IsMoved (v v' : Vm) (a b : Ptr) (xs : List SpaceNode) : Type 0 where
  pub table : IsFixed v'.slots v.page_size xs b null (b + swap_memory_start)
  pub pages :
      (i : ℕ) → sizeof_node * length xs ≤ i → i < swap_size → v'.slots (b + i) ≡ v.slots (a + i)
  pub others : (p : Ptr) → p ≢ null → (p < b) ⊎ (b + swap_size ≤ p) → v'.slots p ≡ v.slots p
  pub rest : v' ≡ record (written a v) { slots = v'.slots }

-- If the swap file can be written as a whole, and the array at `a` begins with headers, as many as
-- the array at `b` has room for, then `writeSwap` of the one and `getSwap` of the other behind it
-- return 0, with more rounds than headers. The array at `b` then has the contents of the one at `a`,
-- with each header set to the start of its page in the new array and linked to its neighbours there;
-- the last one keeps what it leads to. The other memory is as it was.
pub write_swap-get_swap :
    (rounds : ℕ) (a b : Ptr) (xs : List SpaceNode) (v : Vm)
    → v.writable ≡ true
    → swap_size ≤ v.room
    → b ≢ null
    → Headers v.slots xs a
    → Room
        (b + swap_memory_start - sizeof_node)
        (swap_size - (swap_memory_start + v.page_size))
        v.page_size
        (length xs)
        b
        0
    → length xs < rounds
    → (v' : Vm) × (write_swap a v ≡ ok 0 (written a v))
      × (get_swap rounds b (written a v) ≡ ok 0 v')
      × IsMoved v v' a b xs
unfolding get_swap fix_swap_ptrs
write_swap-get_swap rounds a b xs v can space exists' heads room fuel =
    let came : Vm = record (written a v) { slots = brought a b v } in
    let bound : b + sizeof_node * length xs < b + swap_memory_start - sizeof_node + sizeof_node =
      Room-bound (b + swap_memory_start - sizeof_node)
        (swap_size - (swap_memory_start + v.page_size)) v.page_size (length xs) b 0 room
        (omega arith) in
    let there : Headers came.slots xs b =
      subst (λ p. Headers (brought a b v) xs p) (omega arith)
        (Headers-brought xs a b 0 v (omega (arith, bound))
          (subst (λ p. Headers v.slots xs p) (omega arith) heads)) in
    let (v', runs, done) =
      fix_loop-Fixed xs rounds (b + swap_memory_start - sizeof_node)
        (swap_size - (swap_memory_start + v.page_size)) v.page_size b null (b + swap_memory_start) 0
        came (ground (arith, exists')) (inl refl) there room fuel in
    (
      v',
      write_swap-written a v can space,
      rw runs refl,
      record {
        table = done.table;
        pages = λ i low lt. done.behind (b + i) (omega (arith, low)) ∙ brought-inside a b i v lt;
        others = λ p ne out. elim out [
          | inl below ↦ done.before p below ne ∙ brought-outside a b p v (inl below)
          | inr above ↦
              done.behind p (omega (arith, above, bound)) ∙ brought-outside a b p v (inr above)
        ];
        rest = done.rest;
      },
    )
