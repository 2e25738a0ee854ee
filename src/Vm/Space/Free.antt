-- ===== src/Vm/Space/Free.antt =====
-- `removeSpace` on an element: what a space that was taken from a free one is worth afterwards.
use osdesign.Base.{
  ℕ, ◌+◌, ◌-◌, ◌%◌, ◌^◌, ◌<◌, ◌≡◌, refl, ap, ◌∙◌, ◌≢◌, true, false, arith, ltb, ◌==◌,
}
use osdesign.Base.Command.{ok}
use osdesign.Vm.Memory.{Ptr, null, SpaceNode, sizeof_node, header, Vm, put}
use osdesign.Vm.Space.{create_space, remove_element, merge_none_next}
use osdesign.Vm.Space.Find.{load-header, store-put}
use osdesign.Vm.Space.Carve.{Fits, taken, left_over, create_space-carved}

-- The node of a freed space whose next neighbour `y` is free.
abbrev pub merged : SpaceNode → SpaceNode → SpaceNode
merged x y = record x { free = 1; pid = 0; size = (y.size + sizeof_node) % 2 ^ 32; next = y.next }

merge_none_next-merged :
    (v : Vm) (n b : Ptr) (x y : SpaceNode)
    → n ≢ null
    → b ≢ null
    → v.slots b ≡ header y
    → y.free ≢ 0
    → merge_none_next n (record x { free = 1; pid = 0 }) b v ≡ ok tt (put n (merged x y) v)
unfolding merge_none_next
merge_none_next-merged v n b x y ne ne' at free' =
    let free'' : (y.free == 0) ≡ false = ground (arith, free') in
    rw (load-header v b y ne' at, free'', store-put n (merged x y) v ne) refl

remove_element-merged :
    (v : Vm) (n : Ptr) (x y : SpaceNode)
    → n ≢ null
    → x.next ≢ null
    → x.next ≢ n
    → v.slots n ≡ header x
    → v.slots x.next ≡ header y
    → x.free ≡ 0
    → x.prev ≡ null
    → y.free ≢ 0
    → remove_element (n + sizeof_node) v
      ≡ ok tt (put n (merged x y) (put n (record x { free = 1; pid = 0 }) v))
unfolding remove_element
remove_element-merged v n x y ne ne' apart at at' taken' prev free' =
    let here : n + sizeof_node - sizeof_node ≡ n = omega arith in
    let busy : (x.free == 0) ≡ true = ground (arith, taken') in
    let first' : (x.prev == null) ≡ true = ground (arith, prev) in
    let more : (x.next == null) ≡ false = ground (arith, ne') in
    let v' : Vm = put n (record x { free = 1; pid = 0 }) v in
    rw
      (
        here,
        load-header v n x ne at,
        busy,
        store-put n (record x { free = 1; pid = 0 }) v ne,
        first',
        more,
      )
      (merge_none_next-merged v' n x.next x y ne ne' (ground (arith, at', apart)) free')

-- A free space `n` that is alone in its list, whose bytes start behind its header and which is
-- larger than `size` by more than a header: `createSpace` takes `size` bytes and `removeSpace` gives
-- them back. Both return, and the list is the space `n` alone again, free, but with the size of the
-- rest and one header instead of the size of before.
pub remove_element-create_space :
    (v : Vm) (n : Ptr) (x : SpaceNode) (size : ℕ)
    → Fits v n x size
    → x.start ≡ n + sizeof_node
    → x.prev ≡ null
    → x.next ≡ null
    → sizeof_node < x.size - size
    → (v1 : Vm) × (v2 : Vm) × (y : SpaceNode) × (create_space n size v ≡ ok 0 v1)
      × (remove_element x.start v1 ≡ ok tt v2)
      × (v2.slots n ≡ header y)
      × (y.prev ≡ null)
      × (y.next ≡ null)
      × (y.free ≡ 1)
      × (y.size ≡ x.size - size + sizeof_node)
remove_element-create_space v n x size f start prev next big =
    let b : Ptr = x.start + size in
    let large : ltb sizeof_node (x.size - size) ≡ true = ground (arith, big) in
    let v1 : Vm =
      put n (taken x size b) (put b (left_over n x (x.start + size) (x.size - size)) v) in
    let t : SpaceNode = taken x size b in
    (
      v1,
      put n (merged t (left_over n x (x.start + size) (x.size - size)))
          (put n (record t { free = 1; pid = 0 }) v1),
      merged t (left_over n x (x.start + size) (x.size - size)),
      create_space-carved v n x size f ∙ rw (large) refl,
      ap (λ p. remove_element p v1) start
          ∙ remove_element-merged v1 n t (left_over n x (x.start + size) (x.size - size)) f.ne_null
              (omega (arith, f.start_ne_null)) (omega (arith, start)) (ground arith)
              (ground (arith, start)) refl prev (omega arith),
      ground arith,
      prev,
      next,
      refl,
      omega (arith, f.enough, f.small),
    )
