-- ===== src/Vm/Alloc/Load/Entries.antt =====
-- The table of the pages with two entries exchanged.
use osdesign.Base.{
  ℕ, suc, ◌<◌, ◌≡◌, refl, sym, ap, ◌∙◌, ◌≢◌, inl, inr, Bool, true, false, ◌&&◌, none, some, List,
  [], ◌∷◌, arith, map, ◌==◌, if◌then◌else◌, Bool-cases, length,
}
use mathlib.Core.Path.{subst}
use mathlib.Core.Option.{some-injective, none-ne-some, some-ne-none}
use osdesign.Vm.Memory.{Ptr, SpaceNode, Slot, header}
use osdesign.Vm.Space.Find.{Entry, first, Nodes, Fails}
use osdesign.Vm.Alloc.Table.{node_of, page_of, page_of-cons}

abbrev pub has : ℕ → ℕ → SpaceNode → Bool
has pid order x = (pid == x.pid) && (order == x.order)

pub page_of-has :
    (es : List Entry) (pid order : ℕ) (e : Entry)
    → page_of es pid order ≡ some e
    → has pid order e.1 ≡ true
page_of-has [] pid order e found = absurd (none-ne-some e found)
page_of-has (d ∷ es) pid order e found = elim (Bool-cases (has pid order d.1)) [
  | inl hit ↦
      let same : some d ≡ some e = sym (page_of-cons pid order d es hit) ∙ found in
      subst (λ a. has pid order a.1 ≡ true) (some-injective d e same) hit
  | inr miss ↦ page_of-has es pid order e (sym (page_of-cons pid order d es miss) ∙ found)
]

pub page_of-Fails :
    (es : List Entry) (pid order : ℕ) → page_of es pid order ≡ none → Fails (has pid order) es
page_of-Fails [] pid order q = tt
page_of-Fails (d ∷ es) pid order q = elim (Bool-cases (has pid order d.1)) [
  | inl hit ↦ absurd (some-ne-none d (sym (page_of-cons pid order d es hit) ∙ q))
  | inr miss ↦ (miss, page_of-Fails es pid order (sym (page_of-cons pid order d es miss) ∙ q))
]

pub Fails-page_of :
    (es : List Entry) (pid order : ℕ) → Fails (has pid order) es → page_of es pid order ≡ none
Fails-page_of [] pid order f = refl
Fails-page_of (d ∷ es) pid order f = rw f.0 (Fails-page_of es pid order f.1)

-- The entries stand below this address.
abbrev pub AreBelow : Ptr → List Entry → Type 0
AreBelow a [] = Unit {0}
AreBelow a (e ∷ es) = (e.0 < a) × AreBelow a es

-- The table with other entries at `p1` and `p2`.
abbrev pub with_two : (p1 p2 : Ptr) → (y1 y2 : SpaceNode) → Entry → Entry
with_two p1 p2 y1 y2 e = (e.0, if e.0 == p1 then y1 else if e.0 == p2 then y2 else e.1)

first-with_two :
    (p1 p2 : Ptr) (y1 y2 : SpaceNode) (es : List Entry)
    → first (map (with_two p1 p2 y1 y2) es) ≡ first es
first-with_two p1 p2 y1 y2 [] = refl
first-with_two p1 p2 y1 y2 (e ∷ es) = refl

pub Fails-with_two :
    (test : SpaceNode → Bool) (p1 p2 : Ptr) (y1 y2 : SpaceNode) (es : List Entry)
    → test y1 ≡ false
    → test y2 ≡ false
    → Fails test es
    → Fails test (map (with_two p1 p2 y1 y2) es)
Fails-with_two test p1 p2 y1 y2 [] f1 f2 f = tt
Fails-with_two test p1 p2 y1 y2 (e ∷ es) f1 f2 f =
    (either (e.0 == p1) (e.0 == p2), Fails-with_two test p1 p2 y1 y2 es f1 f2 f.1)
  where
    either : (b1 b2 : Bool) → test (if b1 then y1 else if b2 then y2 else e.1) ≡ false
    either true b2 = f1
    either false true = f2
    either false false = f.0

pub length-with_two :
    (p1 p2 : Ptr) (y1 y2 : SpaceNode) (es : List Entry)
    → length (map (with_two p1 p2 y1 y2) es) ≡ length es
length-with_two p1 p2 y1 y2 [] = refl
length-with_two p1 p2 y1 y2 (e ∷ es) = ap suc (length-with_two p1 p2 y1 y2 es)

module _ (f g : Ptr → Slot) (p1 p2 : Ptr) (x1 x2 y1 y2 : SpaceNode) (b1 b2 : Ptr)
    (at1 : f p1 ≡ header x1) (at2 : f p2 ≡ header x2) (now1 : g p1 ≡ header y1)
    (now2 : g p2 ≡ header y2) (next1 : y1.next ≡ x1.next) (next2 : y2.next ≡ x2.next)
    (others : (p : Ptr) → p ≢ p1 → p ≢ p2 → p < b1 → p < b2 → g p ≡ f p) where
  pub Nodes-with_two :
      (es : List Entry)
      → Nodes f es
      → AreBelow b1 es
      → AreBelow b2 es
      → Nodes g (map (with_two p1 p2 y1 y2) es)
  Nodes-with_two [] n l1 l2 = tt
  Nodes-with_two (e ∷ es) (ne, at, next, n) (lt1, l1) (lt2, l2) =
      (ne, there.0, there.1 ∙ sym (first-with_two p1 p2 y1 y2 es), Nodes-with_two es n l1 l2)
    where
      there :
          (g e.0 ≡ header (with_two p1 p2 y1 y2 e).1) × ((with_two p1 p2 y1 y2 e).1.next ≡ first es)
      there = elim (Bool-cases (e.0 == p1)) [
        | inl is1 ↦
            let q : e.0 ≡ p1 = ground (arith, is1) in
            let same : e.1 ≡ x1 = ap (node_of x1) (sym at ∙ ap f q ∙ at1) in
            rw is1 (ap g q ∙ now1, next1 ∙ ap (λ x. x.next) (sym same) ∙ next)
        | inr not1 ↦ elim (Bool-cases (e.0 == p2)) [
          | inl is2 ↦
              let q : e.0 ≡ p2 = ground (arith, is2) in
              let same : e.1 ≡ x2 = ap (node_of x2) (sym at ∙ ap f q ∙ at2) in
              rw (not1, is2) (ap g q ∙ now2, next2 ∙ ap (λ x. x.next) (sym same) ∙ next)
          | inr not2 ↦
              rw (not1, not2)
                (others e.0 (ground (arith, not1)) (ground (arith, not2)) lt1 lt2 ∙ at, next)
        ]
      ]
