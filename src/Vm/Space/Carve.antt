-- ===== src/Vm/Space/Carve.antt =====
-- `createSpace`: what it makes of a free node that is large enough.
use osdesign.Base.{
  ℕ, ◌+◌, ◌-◌, ◌%◌, ◌^◌, ◌<◌, ◌≤◌, ◌≡◌, refl, ap, ◌∙◌, ◌≢◌, inl, inr, false, arith, ltb, ◌==◌,
  if◌then◌else◌, Bool-cases,
}
use osdesign.Base.Command.{ok}
use osdesign.Vm.Memory.{Ptr, null, SpaceNode, sizeof_node, header, Vm, put}
use osdesign.Vm.Space.{rest_size, sign_extended, rest_node, create_space}
use osdesign.Vm.Space.Find.{load-header, store-put}

-- The node that is handed out.
abbrev pub taken : SpaceNode → ℕ → Ptr → SpaceNode
taken x size next = record x { free = 0; size = size; next = next }

-- A free node of `size` bytes behind the space that ends at `start`. The size counts its header.
abbrev pub left_over : Ptr → SpaceNode → Ptr → ℕ → SpaceNode
left_over n x start size = record {
  pid = 0;
  reference = 0;
  free = 1;
  order = 1;
  start = start + 56;
  size = size;
  next = x.next;
  prev = n;
  data_starts_another_page = 0;
  swapclock = 0;
}

-- The memory after `createSpace`: a rest of more than a header becomes a node behind the space,
-- a smaller one belongs to no node any more.
abbrev pub carved : Ptr → SpaceNode → ℕ → Vm → Vm
carved n x size v =
    if ltb sizeof_node (x.size - size)
    then put n (taken x size (x.start + size))
        (put (x.start + size) (left_over n x (x.start + size) (x.size - size)) v)
    else put n (taken x size x.next) v

-- A node from which `size` bytes can be taken: its fields fit their C types.
pub record Fits (v : Vm) (n : Ptr) (x : SpaceNode) (size : ℕ) : Type 0 where
  pub ne_null : n ≢ null
  pub holds : v.slots n ≡ header x
  pub free : x.free ≢ 0
  pub enough : size ≤ x.size
  pub small : x.size < 2 ^ 31
  pub start_ne_null : x.start ≢ null

pub rest_size-sub :
    (have size : ℕ) → size ≤ have → have < 2 ^ 31 → rest_size have size ≡ have - size
rest_size-sub have size le small = omega arith

sign_extended-small : (a : ℕ) → a < 2 ^ 31 → sign_extended a ≡ a
sign_extended-small a small = ground arith

module _ (v : Vm) (n : Ptr) (x : SpaceNode) (size : ℕ) (f : Fits v n x size) where
  -- On a free node that is large enough, whose size fits an int, `createSpace` returns 0 and writes
  -- the taken node and, if more than a header is left, the rest as a new node behind the space.
  pub create_space-carved : create_space n size v ≡ ok 0 (carved n x size v)
  unfolding create_space
  create_space-carved =
      let free' : (x.free == 0) ≡ false = ground (arith, f.free) in
      let rest : sign_extended (rest_size x.size size) ≡ x.size - size =
        ap sign_extended (rest_size-sub x.size size f.enough f.small)
        ∙ sign_extended-small (x.size - size) (omega arith) in
      let same : rest_node n x size ≡ left_over n x (x.start + size) (x.size - size) =
        ap (λ r. left_over n x (x.start + size) r) (rest_size-sub x.size size f.enough f.small) in
      let kept : size % 2 ^ 32 ≡ size = omega (arith, f.enough, f.small) in
      let there : x.start + size ≢ null = ground (arith, f.start_ne_null) in
      rw (load-header v n x f.ne_null f.holds, free', rest, kept, same)
        (elim (Bool-cases (ltb sizeof_node (x.size - size))) [
          | inl big ↦
              rw
                (
                  big,
                  store-put (x.start + size) (left_over n x (x.start + size) (x.size - size)) v
                      there,
                  store-put n (taken x size (x.start + size))
                      (put (x.start + size) (left_over n x (x.start + size) (x.size - size)) v)
                      f.ne_null,
                )
                refl
          | inr little ↦ rw (little, store-put n (taken x size x.next) v f.ne_null) refl
        ])
