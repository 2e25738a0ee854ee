-- ===== src/Vm/Alloc/Handler.antt =====
-- The handler of vm.c, by which a thread gets its page back.
use osdesign.Base.{
  ℕ, ◌+◌, ◌-◌, ◌*◌, ◌<◌, ◌≤◌, ◌≡◌, refl, sym, ap, ◌∙◌, Bool, true, false, ◌&&◌, List, ◌∷◌, arith,
  ltb, leb, if◌then◌else◌, length,
}
use osdesign.Base.Command.{ok}
use osdesign.Vm.Memory.{Ptr, SpaceNode, Vm, put}
use osdesign.Vm.Space.Find.{Entry}
use osdesign.Vm.Pages.Exchange.Defs.{TwoPages, Exchanged}
use osdesign.Vm.Boot.{physical_size, memory_start}
use osdesign.Vm.Alloc.{whole_pages, handler, memory_allow_all}
use osdesign.Vm.Alloc.Load.{OnePage, load_process_pages-Exchanged}

-- Whether a byte lies where `memoryAllowAll` opens the memory, which it does in whole pages.
abbrev pub in_memory : Vm → Ptr → Bool
in_memory v a =
    leb (v.mem + memory_start) a
    && ltb a (
        v.mem
        + memory_start
        + whole_pages v.page_size (physical_size - memory_start - v.page_size * 4))

-- What the handler leaves: the memory open, and the first page of the table exchanged with the page of
-- the thread, whose clock is set back.
pub record Served (v v' : Vm) (p1 p2 : Ptr) (x1 x2 e1 e2 : SpaceNode) (es1 es2 : List SpaceNode)
    : Type 0 where
  pub exchanged :
      Exchanged
        (put p2 (record x2 { swapclock = 0 }) v)
        (record v' { guarded = v.guarded })
        p1
        p2
        x1
        (record x2 { swapclock = 0 })
        e1
        e2
        es1
        es2
  pub open_memory : (a : Ptr) → v'.guarded a ≡ (if in_memory v a then false else v.guarded a)

-- For a fault at an address of the pages, outside the handler, on a table of pages, with more
-- rounds than pages and elements of two pages, on which the thread has one page, other than the
-- first, the handler returns; then the memory of the pages is open, up to the next boundary of a
-- page of 4096 bytes, and the other bytes keep their guard, and the two pages are exchanged, so
-- that the page of the thread is the first, and nothing else changes but the clock of that page.
pub handler-Served :
    (rounds pid addr : ℕ) (v : Vm) (later : List Entry) (p1 p2 : Ptr) (x1 x2 e1 e2 : SpaceNode)
    (es1 es2 : List SpaceNode)
    → OnePage v pid later p1 p2 x1 x2
    → TwoPages v p1 p2 x1 x2 e1 e2 es1 es2
    → length later + 1 < rounds
    → length (e1 ∷ es1) < rounds
    → length (e2 ∷ es2) < rounds
    → v.in_handler ≡ false
    → v.mem + memory_start ≤ addr
    → addr < v.shared_memory_start
    → (v' : Vm) × (handler rounds addr pid v ≡ ok tt v') × Served v v' p1 p2 x1 x2 e1 e2 es1 es2
unfolding handler memory_allow_all
handler-Served rounds pid addr v later p1 p2 x1 x2 e1 e2 es1 es2 o w enough fuel1 fuel2 out lo hi =
    let u : Vm = record v {
      in_handler = true;
      guarded = λ a. if in_memory v a then false else v.guarded a;
    } in
    let o' : OnePage u pid later p1 p2 x1 x2 = record {
      nodes = o.nodes;
      top = o.top;
      found = o.found;
      no_other = o.no_other;
      below1 = o.below1;
      below2 = o.below2;
    } in
    let w' : TwoPages u p1 p2 x1 x2 e1 e2 es1 es2 = record {
      ne_null1 = w.ne_null1;
      ne_null2 = w.ne_null2;
      apart = w.apart;
      holds1 = w.holds1;
      holds2 = w.holds2;
      size1 = w.size1;
      size2 = w.size2;
      below11 = w.below11;
      below12 = w.below12;
      below21 = w.below21;
      below22 = w.below22;
      disjoint = w.disjoint;
      tiled1 = w.tiled1;
      tiled2 = w.tiled2;
    } in
    let (v', runs, ex) =
      load_process_pages-Exchanged rounds pid u later p1 p2 x1 x2 e1 e2 es1 es2 o' w' enough fuel1
        fuel2 in
    let inside' : (leb (v.mem + memory_start) addr && ltb addr v.shared_memory_start) ≡ true =
      ground (arith, lo, hi) in
    (
      record v' { in_handler = false },
      rw (out, inside', runs) refl,
      record {
        exchanged = record {
          entry1 = ex.entry1;
          entry2 = ex.entry2;
          elements1 = ex.elements1;
          elements2 = ex.elements2;
          bytes1 = ex.bytes1;
          bytes2 = ex.bytes2;
          others = ex.others;
          globals =
              ap {A = Vm} {B = Vm} (λ t. record t { guarded = v.guarded; in_handler = false })
                ex.globals
              ∙ ap {A = Bool} {B = Vm} (λ b. record v { slots = v'.slots; in_handler = b })
                  (sym out);
        };
        open_memory = λ a. ap (λ t. t.guarded a) ex.globals;
      },
    )
