-- ===== src/Pthread/Switch.antt =====
-- The switch of `scheduler` on the heap of LinkedList.c: the run queue and the cell `*running` are
-- what the tables of the module Pthread stand for.
use osdesign.Base.{
  ℕ, ◌≤◌, ◌≡◌, refl, sym, ap, ◌∙◌, ◌≢◌, Bool, Bool-cases, inl, inr, some, List, [], ◌∷◌, arith,
  length,
}
use osdesign.LinkedList.Memory.{Ptr, null, Heap, Cmd, ok, update, load_thread, ◌>>=◌}
use osdesign.LinkedList.Spec.{insert_from, insert_ordered}
use osdesign.LinkedList.Chain.{Cell, Chain, threads_of}
use osdesign.LinkedList.{LinkedList, Blocks, pop, push_ordered}
use osdesign.LinkedList.Queue.{
  IsList, IsFresh, new_cell, Inserted, cell_before, pop-cons, push_ordered-Inserted,
  threads_of-insert_ordered,
}
use osdesign.Pthread.{Sthread, comes_first, get_priority, get_time_created}

-- `my_pthread_t *nextThread = pop(run); pushOrdered(0, run, running); *running = *nextThread`
unfoldable pub switch_threads : List Sthread → ℕ → Blocks → LinkedList → Ptr → Cmd LinkedList
switch_threads ts rounds m run running = do
  (next, rest) ← pop run
  run' ← push_ordered (get_priority ts) (get_time_created ts) rounds m 0 rest running
  t ← load_thread next
  λ h. ok run' (record h { threads = update h.threads running t })

-- No cell of the list is the cell `p`.
abbrev pub Apart : Ptr → List Cell → Type 0
Apart p [] = Unit {0}
Apart p (c ∷ cs) = (c.slot ≢ p) × Apart p cs

abbrev written : Ptr → ℕ → Heap → Heap
written p t h = record h { threads = update h.threads p t }

Chain-written :
    (p : Ptr) (t : ℕ) (h : Heap) (cs : List Cell)
    → Apart p cs
    → Chain h cs
    → Chain (written p t h) cs
Chain-written p t h [] a ch = tt
Chain-written p t h (c ∷ cs) (ne, a) (n0, n1, node', holds, apart, rest) =
    (n0, n1, node', ground (arith, ne, holds), apart, Chain-written p t h cs a rest)

module _ (le : Cell → Cell → Bool) (p : Ptr) where
  Apart-insert_from :
      (n : Cell) (cs : List Cell) → n.slot ≢ p → Apart p cs → Apart p (insert_from le n cs)
  unfolding insert_from
  Apart-insert_from n [] ne a = (ne, tt)
  Apart-insert_from n (c ∷ cs) ne (d, a) = elim (Bool-cases (le c n)) [
    | inl on ↦ rw on (d, Apart-insert_from n cs ne a)
    | inr stop ↦ rw stop (ne, (d, a))
  ]

  Apart-insert_ordered :
      (n : Cell) (cs : List Cell) → n.slot ≢ p → Apart p cs → Apart p (insert_ordered le n cs)
  unfolding insert_ordered
  Apart-insert_ordered n [] ne a = (ne, tt)
  Apart-insert_ordered n (c ∷ cs) ne (d, a) = elim (Bool-cases (le c n)) [
    | inl on ↦ rw on (d, Apart-insert_from n cs ne a)
    | inr stop ↦ rw stop (d, (ne, a))
  ]

load_thread_of :
    (h : Heap) (p : Ptr) (v : ℕ) → p ≢ null → h.threads p ≡ some v → load_thread p h ≡ ok v h
unfolding load_thread
load_thread_of h p v ne e = ground arith

-- A heap with a run queue that holds the threads `q`, and the running thread in a cell apart.
pub record Holds (h : Heap) (run : LinkedList) (running : Ptr) (cs : List Cell) (q : List ℕ) (v : ℕ)
    : Type 0 where
  pub list : IsList h run cs
  pub queue : threads_of cs ≡ q
  pub apart : Apart running cs
  pub cell : h.threads running ≡ some v
  pub ne_null : running ≢ null

-- With fresh blocks from `malloc` and at least as many rounds as queued threads, the switch of the
-- scheduler on a heap that holds the run queue `n ∷ rest` and the running thread `v` returns, and the
-- heap then holds `n` as the running thread and, as the queue, `rest` with `v` inserted.
pub switch_threads-Holds :
    (ts : List Sthread) (rounds : ℕ) (m : Blocks) (h : Heap) (run : LinkedList) (running : Ptr)
    (c : Cell) (cs : List Cell) (n : ℕ) (rest : List ℕ) (v : ℕ)
    → Holds h run running (c ∷ cs) (n ∷ rest) v
    → IsFresh h m
    → length (c ∷ cs) ≤ rounds
    → (h' : Heap) × (run' : LinkedList) × (ds : List Cell) × (switch_threads ts rounds m run running
          h
        ≡ ok run' h')
      × Holds h' run' running ds (insert_ordered (comes_first ts 0) v rest) n
unfolding switch_threads
switch_threads-Holds ts rounds m h run running c cs n rest v w f fuel =
    let (run1, popped, list1) = pop-cons h run c cs w.list in
    let ins : Inserted h cs m
        (push_ordered (get_priority ts) (get_time_created ts) rounds m 0 run1 running)
        (insert_ordered (cell_before (get_priority ts) (get_time_created ts) 0) (new_cell m v) cs) =
      push_ordered-Inserted h run1 m running v f w.ne_null w.cell (get_priority ts)
        (get_time_created ts) 0 rounds cs list1 (omega arith) in
    let out : h.threads c.slot ≡ some c.thread = w.list.chain.3 in
    let fresh : c.slot ≢ m.1 = λ e. ground (arith, f.slot_unused, out, e) in
    let kept : ins.heap.threads c.slot ≡ some c.thread = ins.spares.1 c.slot fresh ∙ out in
    let other : running ≢ m.1 = λ e. ground (arith, f.slot_unused, w.cell, e) in
    let names : c.thread ≡ n = head_of _ _ _ _ w.queue in
    let rests : threads_of cs ≡ rest = tail_of _ _ _ _ w.queue in
    let ds : List Cell =
      insert_ordered (cell_before (get_priority ts) (get_time_created ts) 0) (new_cell m v) cs in
    let apart : Apart running ds =
      Apart-insert_ordered _ running (new_cell m v) cs (λ e. other (sym e)) w.apart.1 in
    (
      written running c.thread ins.heap,
      ins.list,
      ds,
      rw (popped, ins.runs, load_thread_of ins.heap c.slot c.thread w.list.chain.1 kept) refl,
      record {
        list = record {
          head = ins.holds.head;
          tail = ins.holds.tail;
          nitems = ins.holds.nitems;
          chain = Chain-written running c.thread ins.heap ds apart ins.holds.chain;
        };
        queue =
            threads_of-insert_ordered (get_priority ts) (get_time_created ts) 0 (new_cell m v) cs
            ∙ ap (insert_ordered (comes_first ts 0) v) rests;
        apart = apart;
        cell = ground (arith, names);
        ne_null = w.ne_null;
      },
    )
  where
    head_of : (x : ℕ) (xs : List ℕ) (y : ℕ) (ys : List ℕ) → x ∷ xs ≡ y ∷ ys → x ≡ y
    head_of x xs y ys e = cc

    tail_of : (x : ℕ) (xs : List ℕ) (y : ℕ) (ys : List ℕ) → x ∷ xs ≡ y ∷ ys → xs ≡ ys
    tail_of x xs y ys e = cc
