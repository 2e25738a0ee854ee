-- ===== src/Vm/Alloc/Guard.antt =====
-- `memoryProtect` and `memoryAllow`: which bytes they guard and which they open.
use osdesign.Base.{
  ℕ, zero, suc, ◌+◌, ◌<◌, ◌≡◌, refl, ap, ◌∙◌, Bool, true, false, ◌&&◌, ◌||◌, none, some, List,
  arith, ltb, leb, ◌==◌, if◌then◌else◌, length,
}
use osdesign.Base.Command.{ok, ◌>>=◌}
use osdesign.Vm.Memory.{Ptr, null, Vm, Cmd}
use osdesign.Vm.Space.Find.{Entry, first, load-header}
use osdesign.Vm.Pages.{find_page}
use osdesign.Vm.Alloc.{protect_loop, memory_protect}
use osdesign.Vm.Alloc.Table.{marked, Table, page_of, find_page-page_of, find_page-none}

-- The thread has `m` pages of the orders from `i` on, and none of the next order.
abbrev pub Owns : List Entry → ℕ → ℕ → ℕ → Type 0
Owns es pid i zero = page_of es pid i ≡ none
Owns es pid i (suc m) = ((e : Entry) × (page_of es pid i ≡ some e)) × Owns es pid (i + 1) m

-- Whether a byte is in a page of the thread, of one of the `m` orders from `i` on.
abbrev pub in_page : ℕ → Ptr → Entry → Bool
in_page page a e = leb e.1.start a && ltb a (e.1.start + page)

unfoldable pub in_pages : List Entry → ℕ → ℕ → ℕ → ℕ → Ptr → Bool
in_pages es pid page i zero a = false
in_pages es pid page i (suc m) a =
    elim (page_of es pid i) [ none ↦ false | some e ↦ in_page page a e ]
    || in_pages es pid page (i + 1) m a

-- The memory `v'` differs from `v` in the guards of the thread's pages and the marks of its table.
pub record Guards (none' : Bool) (es : List Entry) (pid i m : ℕ) (v v' : Vm) : Type 0 where
  pub table : Table v'.slots es
  pub guards :
      (a : Ptr) → v'.guarded a ≡ (if in_pages es pid v.page_size i m a then none' else v.guarded a)
  pub rest : v' ≡ record v { slots = v'.slots; guarded = v'.guarded }

-- A change of the table's marks before does not show.
pub Guards-behind :
    (none' : Bool) (es : List Entry) (pid i m : ℕ) (v w v' : Vm)
    → w ≡ record v { slots = w.slots }
    → Guards none' es pid i m w v'
    → Guards none' es pid i m v v'
Guards-behind none' es pid i m v w v' re g = record {
  table = g.table;
  guards = λ a.
      g.guards a ∙ ap (λ u. if in_pages es pid u.page_size i m a then none' else u.guarded a) re;
  rest =
      g.rest ∙ ap {A = Vm} {B = Vm} (λ u. record u { slots = v'.slots; guarded = v'.guarded }) re;
}

either :
    (x y b before after : Bool)
    → after ≡ (if x then b else before)
    → (if y then b else after) ≡ (if x || y then b else before)
either true true b before after p = refl
either true false b before after p = p
either false true b before after p = refl
either false false b before after p = p

module _ (rounds : ℕ) (none' : Bool) (pid : ℕ) (es : List Entry) (enough : length es < rounds) where
  -- what the loop does from its search for the page of order `i` on
  protect_from : ℕ → ℕ → Cmd (Unit {0})
  protect_from k i = find_page rounds pid i >>= (λ p. protect_loop rounds k none' pid p (i + 1))

  protect_from-none :
      (k i : ℕ) (v : Vm)
      → Table v.slots es
      → v.mem ≡ first es
      → page_of es pid i ≡ none
      → protect_from (suc k) i v ≡ ok tt v
  unfolding protect_from protect_loop
  protect_from-none k i v t top none'' =
      rw (find_page-none rounds pid i v es t top enough none'') refl

  protect_from-page :
      (k i : ℕ) (v : Vm) (e : Entry)
      → Table v.slots es
      → v.mem ≡ first es
      → page_of es pid i ≡ some e
      → (v' : Vm) × (protect_from (suc k) i v ≡ protect_from k (i + 1) v')
        × Table v'.slots es
        × ((a : Ptr) → v'.guarded a ≡ (if in_page v.page_size a e then none' else v.guarded a))
        × (v' ≡ record v { slots = v'.slots; guarded = v'.guarded })
  unfolding protect_from protect_loop
  protect_from-page k i v e t top found =
      let (w, runs, t', re, ne, (r, c, at)) =
        find_page-page_of rounds pid i v es e t top enough found in
      let some' : (e.0 == null) ≡ false = ground (arith, ne) in
      let page : w.page_size ≡ v.page_size = ap (λ u. u.page_size) re in
      let before : w.guarded ≡ v.guarded = ap (λ u. u.guarded) re in
      let v' : Vm = record w {
        guarded =
            λ a. if leb e.1.start a && ltb a (e.1.start + w.page_size) then none' else w.guarded a;
      } in
      (
        v',
        rw (runs, some', load-header w e.0 (marked e.1 r c) ne at) refl,
        t',
        λ a.
            ap (λ s. if leb e.1.start a && ltb a (e.1.start + s) then none' else w.guarded a) page
            ∙ ap (λ g. if in_page v.page_size a e then none' else g a) before,
        ap {A = Vm} {B = Vm} (λ u. record u { guarded = v'.guarded }) re,
      )

  protect_from-Guards :
      (m k i : ℕ) (v : Vm)
      → Table v.slots es
      → v.mem ≡ first es
      → Owns es pid i m
      → m < k
      → (v' : Vm) × (protect_from k i v ≡ ok tt v') × Guards none' es pid i m v v'
  unfolding in_pages
  protect_from-Guards m zero i v t top owns fuel = absurd (omega arith)
  protect_from-Guards zero (suc k) i v t top owns fuel =
      (v, protect_from-none k i v t top owns, record { table = t; guards = λ a. refl; rest = refl })
  protect_from-Guards (suc m) (suc k) i v t top ((e, found), owns) fuel =
      let (w, runs, t', guards, re) = protect_from-page k i v e t top found in
      let top' : w.mem ≡ first es = ap (λ u. u.mem) re ∙ top in
      let (v', on, done) = protect_from-Guards m k (i + 1) w t' top' owns (omega arith) in
      (
        v',
        runs ∙ on,
        record {
          table = done.table;
          guards = λ a. done.guards a ∙ composed a re guards;
          rest =
              done.rest
              ∙ ap {A = Vm} {B = Vm} (λ u. record u { slots = v'.slots; guarded = v'.guarded }) re;
        },
      )
    where
      composed :
          {w : Vm} (a : Ptr)
          → w ≡ record v { slots = w.slots; guarded = w.guarded }
          → ((b : Ptr) → w.guarded b ≡ (if in_page v.page_size b e then none' else v.guarded b))
          → (if in_pages es pid w.page_size (i + 1) m a then none' else w.guarded a)
            ≡ (if in_pages es pid v.page_size i (suc m) a then none' else v.guarded a)
      composed {w} a re guards =
          let page : w.page_size ≡ v.page_size = ap (λ u. u.page_size) re in
          rw (page, found)
            (either (in_page v.page_size a e) (in_pages es pid v.page_size (i + 1) m a) none'
              (v.guarded a) (w.guarded a) (guards a))

-- On a table of pages, with more rounds than pages, of which the thread has `m`, with the orders from
-- 1 to `m`, `memoryProtect` returns and guards the bytes of these pages; the other bytes keep their
-- guard, and the table keeps its pages, but for the marks of the swap strategies.
pub memory_protect-Guards :
    (rounds pid m : ℕ) (es : List Entry) (v : Vm)
    → Table v.slots es
    → v.mem ≡ first es
    → Owns es pid 1 m
    → length es < rounds
    → m < rounds
    → (v' : Vm) × (memory_protect rounds pid v ≡ ok tt v') × Guards true es pid 1 m v v'
unfolding memory_protect protect_from
memory_protect-Guards rounds pid m es v t top owns enough fuel =
    protect_from-Guards rounds true pid es enough m rounds 1 v t top owns fuel
