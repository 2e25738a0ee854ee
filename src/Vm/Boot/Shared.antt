-- ===== src/Vm/Boot/Shared.antt =====
-- `initializeFreePages`: the pages of the shared memory, each with its header in front.
use osdesign.Base.{
  ℕ, zero, suc, ◌+◌, ◌-◌, ◌%◌, ◌^◌, ◌≤◌, ◌<◌, ◌≡◌, refl, ap, ◌∙◌, ◌≢◌, inl, inr, true, false, arith,
  leb,
}
use osdesign.Base.Command.{ok}
use osdesign.Vm.Memory.{Ptr, null, SpaceNode, header, Vm, put}
use osdesign.Vm.Space.Find.{store-put}
use osdesign.Vm.Boot.{free_page, free_pages_loop}
use osdesign.Vm.Boot.Table.{linked_to, Before, link_old-Linked}

-- A free page with its header in front.
abbrev pub shared_page : ℕ → (start prev : Ptr) → SpaceNode
shared_page page start prev = record {
  pid = 0;
  reference = 0;
  free = 1;
  order = 1;
  start = start + 56;
  size = (page + 2 ^ 64 - 56) % 2 ^ 32;
  next = null;
  prev = prev;
  data_starts_another_page = 0;
  swapclock = 0;
}

-- The header of the page at `start`, with `n` pages behind it.
abbrev pub shared_entry : (page n : ℕ) → (start prev : Ptr) → SpaceNode
shared_entry page n start prev = linked_to n (shared_page page start prev) (start + page)

abbrev pub IsShared : Vm → (page n : ℕ) → (start prev : Ptr) → Type 0
IsShared v page zero start prev = Unit {0}
IsShared v page (suc n) start prev =
    (v.slots start ≡ header (shared_entry page n start prev))
    × IsShared v page n (start + page) start

-- Changes below leave the pages.
pub IsShared-kept :
    (v w : Vm) (page n : ℕ) (start prev : Ptr)
    → ((a : Ptr) → start ≤ a → w.slots a ≡ v.slots a)
    → IsShared v page n start prev
    → IsShared w page n start prev
IsShared-kept v w page zero start prev same t = tt
IsShared-kept v w page (suc n) start prev same (e, t) = (
  same start (omega arith) ∙ e,
  IsShared-kept v w page n (start + page) start (λ a le. same a (omega (arith, le))) t,
)

-- `space` bytes are exactly `n` pages and less than another one.
abbrev pub Space : (page n space : ℕ) → Type 0
Space page zero space = space < page
Space page (suc n) space = (page ≤ space) × Space page n (space - page)

pub record Freed (v v' : Vm) (page n : ℕ) (start prev : Ptr) : Type 0 where
  pub pages : IsShared v' page n start prev
  pub below : (a : Ptr) → a < start → a ≢ prev → v'.slots a ≡ v.slots a
  pub link :
      (x : SpaceNode)
      → v.slots prev ≡ header x
      → prev ≢ null
      → v'.slots prev ≡ header (linked_to n x start)
  pub rest : v' ≡ record v { slots = v'.slots }

-- With exactly n pages in the space and more than n rounds, behind a page below or none, the loop
-- returns and lays out the pages.
pub free_pages_loop-Freed :
    (n k page : ℕ) (start prev : Ptr) (space : ℕ) (v : Vm)
    → prev < start
    → Before v prev
    → 0 < page
    → Space page n space
    → n < k
    → (v' : Vm) × (free_pages_loop k page start prev space v ≡ ok tt v')
      × Freed v v' page n start prev
unfolding free_pages_loop
free_pages_loop-Freed n zero page start prev space v lt before some' room fuel =
    absurd (omega (arith, fuel))
free_pages_loop-Freed zero (suc k) page start prev space v lt before some' room fuel =
    let full : leb page space ≡ false = ground (arith, room) in
    (
      v,
      rw full refl,
      record { pages = tt; below = λ a l ne. refl; link = λ x e ne. e; rest = refl },
    )
free_pages_loop-Freed (suc n) (suc k) page start prev space v lt before some' (here, room) fuel =
    let e : SpaceNode = free_page start prev page in
    let v0 : Vm = put start e v in
    let off : (a : Ptr) → a ≢ start → v0.slots a ≡ v.slots a = λ a ne. ground (arith, ne) in
    let before0 : Before v0 prev = elim before [
      | inl none' ↦ inl none'
      | inr (x, at) ↦ inr (x, off prev (λ z. omega (arith, z, lt)) ∙ at)
    ] in
    let (v1, linked) = link_old-Linked v0 prev start before0 in
    let at_start : v1.slots start ≡ header e =
      linked.others start (λ z. omega (arith, z, lt)) ∙ ground arith in
    let (v', runs, freed) =
      free_pages_loop-Freed n k page (start + page) start (space - page) v1 (omega arith)
        (inr (e, at_start)) some' room (omega arith) in
    let exists' : start ≢ null = λ z. omega (arith, z, lt) in
    let test : leb page space ≡ true = ground (arith, here) in
    (
      v',
      rw (test, store-put start e v exists', linked.runs) runs,
      record {
        pages = (freed.link e at_start exists', freed.pages);
        below = λ a l ne.
            freed.below a (omega (arith, l)) (λ z. omega (arith, z, l))
            ∙ linked.others a ne
            ∙ off a (λ z. omega (arith, z, l));
        link = λ x f ne.
            freed.below prev (omega (arith, lt)) (λ z. omega (arith, z, lt))
            ∙ linked.link x (off prev (λ z. omega (arith, z, lt)) ∙ f) ne;
        rest = freed.rest ∙ ap {A = Vm} {B = Vm} (λ u. record u { slots = v'.slots }) linked.rest;
      },
    )
