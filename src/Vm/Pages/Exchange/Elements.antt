-- ===== src/Vm/Pages/Exchange/Elements.antt =====
-- Where the elements of a page stand, and what keeps them.
use osdesign.Base.{
  ℕ, ◌+◌, ◌-◌, ◌≤◌, ◌<◌, ◌≡◌, refl, ◌∙◌, false, ◌&&◌, List, [], ◌∷◌, arith, leb, ltb,
}
use native.Mathlib.Decide.{dec_lt}
use osdesign.Vm.Memory.{Ptr, SpaceNode, sizeof_node, Slot}
use osdesign.Vm.Pages.Restore.{Tiled, linked, Holding, is_at, not-is_at_below}

not-is_at_above :
    (f : Ptr → Slot) (p a old : Ptr) (room : ℕ) (xs : List SpaceNode)
    → Tiled f a room xs
    → a + room ≤ p
    → is_at (linked a old xs) p ≡ false
not-is_at_above f p a old room [] t le = refl
not-is_at_above f p a old room (x ∷ []) t le = ground (arith, t.0, le)
not-is_at_above f p a old room (x ∷ y ∷ xs) (fits, ne, at, t) le = ground (
  arith,
  fits,
  le,
  not-is_at_above f p (a + sizeof_node + x.size) a (room - (sizeof_node + x.size)) (y ∷ xs) t
      (omega (arith, t.0, le)),
)

pub Holding-kept :
    (f g h : Ptr → Slot) (a old : Ptr) (room : ℕ) (xs : List SpaceNode)
    → Tiled h a room xs
    → ((p : Ptr) → a ≤ p → p < a + room → g p ≡ f p)
    → Holding f (linked a old xs)
    → Holding g (linked a old xs)
Holding-kept f g h a old room [] t same held = tt
Holding-kept f g h a old room (x ∷ []) t same (e, held) =
    (same a (omega arith) (omega (arith, t.0)) ∙ e, tt)
Holding-kept f g h a old room (x ∷ y ∷ xs) (fits, ne, at, t) same (e, held) = (
  same a (omega arith) (omega (arith, fits)) ∙ e,
  Holding-kept f g h (a + sizeof_node + x.size) a (room - (sizeof_node + x.size)) (y ∷ xs) t
      (λ p lo hi. same p (omega (arith, lo)) (omega (arith, hi, t.0))) held,
)

-- No element of a page stands outside it.
pub outside :
    (f : Ptr → Slot) (a old : Ptr) (room len : ℕ) (xs : List SpaceNode)
    → Tiled f a room xs
    → room ≤ len
    → (p : Ptr) → (leb a p && ltb p (a + len)) ≡ false
    → is_at (linked a old xs) p ≡ false
outside f a old room len xs t le p out = elim (dec_lt p a) [
  | yes below ↦ not-is_at_below p a old xs below
  | no above ↦ not-is_at_above f p a old room xs t (ground (arith, above, out, le))
]
