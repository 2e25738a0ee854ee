-- ===== src/Vm/Swap/Victim.antt =====
-- `getVictimPage`: the search back along the pages for one of another thread.
use osdesign.Base.{
  ℕ, zero, suc, ◌+◌, ◌%◌, ◌^◌, ◌<◌, ◌≡◌, refl, ap, ◌∙◌, ◌≢◌, ◌⊎◌, inl, inr, true, false, List, [],
  ◌∷◌, ◌++◌, arith, ltb, ◌==◌, length, contains,
}
use native.Mathlib.Decide.{ℕ_discrete}
use osdesign.Base.Command.{Run, ok, fault}
use osdesign.Vm.Memory.{Ptr, null, SpaceNode, Slot, header, Vm, put, store_slot}
use osdesign.Vm.Space.Find.{Entry, first, load-header, load-null, store-put}
use osdesign.Vm.Swap.{victim_loop}

-- A page and the id of the thread that it belongs to.
abbrev pub Owned : Type 0
Owned = Ptr × ℕ

abbrev pub owners : List Entry → List Owned
owners [] = []
owners (e ∷ es) = (e.0, e.1.pid) ∷ owners es

abbrev pub addresses : List Entry → List Ptr
addresses [] = []
addresses (e ∷ es) = e.0 ∷ addresses es

-- The pages that the `prev` pointers lead through, from a page back to the first one.
abbrev pub Back : (Ptr → Slot) → List Entry → Type 0
Back f [] = Unit {0}
Back f (e ∷ es) =
    (e.0 ≢ null)
    × (f e.0 ≡ header e.1)
    × (e.1.prev ≡ first es)
    × (e.1.swapclock < 2)
    × (contains (addresses es) e.0 ≡ false)
    × Back f es

abbrev pub AllOwn : ℕ → List Owned → Type 0
AllOwn pid [] = Unit {0}
AllOwn pid (p ∷ ps) = (p.1 ≡ pid) × AllOwn pid ps

-- The result of the search for a page that is not the thread's: the first one, or a wild access if
-- there is none.
abbrev pub IsVictim : ℕ → List Owned → Run Vm Ptr → Type 0
IsVictim pid ps r =
    (AllOwn pid ps × (r ≡ fault))
    ⊎ ((pre : List Owned) × (p : Owned) × (post : List Owned) × (ps ≡ pre ++ p ∷ post)
        × AllOwn pid pre
        × (p.1 ≢ pid)
        × (v' : Vm) × (r ≡ ok p.0 v'))

abbrev ticked : SpaceNode → SpaceNode
ticked y = record y { swapclock = (y.swapclock + 1) % 2 ^ 8 }

Back-store_slot :
    (f : Ptr → Slot) (p : Ptr) (s : Slot) (es : List Entry)
    → contains (addresses es) p ≡ false
    → Back f es
    → Back (store_slot f p s) es
Back-store_slot f p s [] out b = tt
Back-store_slot f p s (e ∷ es) out (ne, holds, prev, clock, apart, rest) = (
  ne,
  ground (arith, holds, out),
  prev,
  clock,
  apart,
  Back-store_slot f p s es (ground (arith, out)) rest,
)

module _ (k pid : ℕ) (v : Vm) (p : Ptr) (x : SpaceNode) (ne : p ≢ null)
    (holds : v.slots p ≡ header x) where
  victim_loop-stops : x.pid ≢ pid → victim_loop (suc k) pid p v ≡ ok p v
  unfolding victim_loop
  victim_loop-stops other =
      let some' : (p == null) ≡ false = ground (arith, ne) in
      let test : (x.pid == pid) ≡ false = ground (arith, other) in
      rw (some', load-header v p x ne holds, test)

  victim_loop-wild :
      x.pid ≡ pid → x.swapclock < 3 → x.prev ≡ null → victim_loop (suc k) pid p v ≡ fault
  unfolding victim_loop
  victim_loop-wild own clock prev =
      let some' : (p == null) ≡ false = ground (arith, ne) in
      let test : (x.pid == pid) ≡ true = ground (arith, own) in
      let young : ltb ((x.swapclock + 128) % 2 ^ 8) (3 + 128) ≡ true = ground (arith, clock) in
      rw (some', load-header v p x ne holds, test, young, prev, load-null v) refl

  victim_loop-back :
      (q : Ptr) (y : SpaceNode)
      → x.pid ≡ pid
      → x.swapclock < 3
      → x.prev ≡ q
      → q ≢ null
      → v.slots q ≡ header y
      → victim_loop (suc k) pid p v ≡ victim_loop k pid q (put q (ticked y) v)
  unfolding victim_loop
  victim_loop-back q y own clock prev there at =
      let some' : (p == null) ≡ false = ground (arith, ne) in
      let test : (x.pid == pid) ≡ true = ground (arith, own) in
      let young : ltb ((x.swapclock + 128) % 2 ^ 8) (3 + 128) ≡ true = ground (arith, clock) in
      rw
        (
          some',
          load-header v p x ne holds,
          test,
          young,
          prev,
          load-header v q y there at,
          store-put q (ticked y) v there,
        )
        refl

-- With more rounds than pages, from a page whose `prev` pointers lead through the pages `es`, at
-- different addresses, back to the first one, and with a `swapclock` below 3, below 2 for `es`, the
-- search of `getVictimPage` returns the first page on the way that belongs to another thread, or
-- reads and writes at NULL if all of them belong to the thread.
pub victim_loop-IsVictim :
    (es : List Entry) (k pid : ℕ) (v : Vm) (p : Ptr) (x : SpaceNode)
    → p ≢ null
    → v.slots p ≡ header x
    → x.prev ≡ first es
    → x.swapclock < 3
    → Back v.slots es
    → length es < k
    → IsVictim pid ((p, x.pid) ∷ owners es) (victim_loop k pid p v)
victim_loop-IsVictim es zero pid v p x ne holds prev clock b fuel = absurd (omega arith)
victim_loop-IsVictim [] (suc k) pid v p x ne holds prev clock b fuel = elim (ℕ_discrete x.pid pid) [
  | no other ↦
      inr ([], (p, x.pid), [], refl, tt, other, v, victim_loop-stops k pid v p x ne holds other)
  | yes own ↦ inl ((own, tt), victim_loop-wild k pid v p x ne holds own clock prev)
]
victim_loop-IsVictim (e ∷ es) (suc k) pid v p x ne holds prev clock
      (ne', at, prev', clock', apart, rest) fuel =
    elim (ℕ_discrete x.pid pid) [
      | no other ↦ inr (
        [],
        (p, x.pid),
        owners (e ∷ es),
        refl,
        tt,
        other,
        v,
        victim_loop-stops k pid v p x ne holds other,
      )
      | yes own ↦ behind own (victim_loop-back k pid v p x ne holds e.0 e.1 own clock prev ne' at) (
          victim_loop-IsVictim es k pid (put e.0 (ticked e.1) v) e.0 (ticked e.1) ne' (ground arith)
            prev' (omega (arith, clock'))
            (Back-store_slot v.slots e.0 (header (ticked e.1)) es apart rest) (omega arith))
    ]
  where
    behind :
        x.pid ≡ pid
        → victim_loop (suc k) pid p v ≡ victim_loop k pid e.0 (put e.0 (ticked e.1) v)
        → IsVictim pid (owners (e ∷ es)) (victim_loop k pid e.0 (put e.0 (ticked e.1) v))
        → IsVictim pid ((p, x.pid) ∷ owners (e ∷ es)) (victim_loop (suc k) pid p v)
    behind own step (inl (all, r)) = inl ((own, all), step ∙ r)
    behind own step (inr (pre, q, post, whole, all, other, v', r)) = inr (
      (p, x.pid) ∷ pre,
      q,
      post,
      ap (λ ps. (p, x.pid) ∷ ps) whole,
      (own, all),
      other,
      v',
      step ∙ r,
    )
