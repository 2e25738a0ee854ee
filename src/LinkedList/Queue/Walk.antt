-- ===== src/LinkedList/Queue/Walk.antt =====
-- The loop of `pushOrdered`.
use osdesign.Base.{
  ℕ, zero, suc, ◌<◌, ◌≡◌, refl, ap, inl, inr, Bool, List, [], ◌∷◌, ◌++◌, arith, if◌then◌else◌,
  Bool-cases, length,
}
use osdesign.LinkedList.Memory.{Ptr, null, Heap, Cmd, ok, load, load_thread}
use osdesign.LinkedList.Spec.{insert_from, insert_ordered}
use osdesign.LinkedList.Chain.{Cell, first, Chain, threads_of}
use osdesign.LinkedList.{goes_before, walk}

module _ (get_priority get_time_created : ℕ → ℕ) (order : ℕ) where
  abbrev pub before : ℕ → ℕ → Bool
  before = goes_before get_priority get_time_created order

  abbrev pub cell_before : Cell → Cell → Bool
  cell_before c d = before c.thread d.thread

  -- Where the loop of `pushOrdered` stops in the nodes behind `c`.
  record Stop (h : Heap) (v : ℕ) (c : Cell) (cs : List Cell) (run : Cmd Ptr) : Type 0 where
    pre : List Cell
    at : Cell
    post : List Cell
    whole : c ∷ cs ≡ pre ++ at ∷ post
    found : run h ≡ ok at.at h
    inserted : (n : Cell) → n.thread ≡ v → c ∷ insert_from cell_before n cs ≡ pre ++ at ∷ n ∷ post

  walk-step :
      (k : ℕ) (h : Heap) (v : ℕ) (last : Ptr) (d : Cell) (cs : List Cell)
      → Chain h (d ∷ cs)
      → walk get_priority get_time_created (suc k) order v d.at last h ≡ (
          if before d.thread v
          then walk get_priority get_time_created k order v (first cs) d.at h
          else ok last h)
  unfolding walk load load_thread
  walk-step k h v last d cs ch = elim (Bool-cases (before d.thread v)) [
    | inl further ↦ rw further (ground (arith, further))
    | inr stop ↦ rw stop (ground (arith, stop))
  ]

  walk-end :
      (k : ℕ) (h : Heap) (v : ℕ) (last : Ptr)
      → walk get_priority get_time_created (suc k) order v null last h ≡ ok last h
  unfolding walk
  walk-end k h v last = refl

  walk-Stop :
      (k : ℕ) (h : Heap) (v : ℕ) (c : Cell) (cs : List Cell)
      → Chain h (c ∷ cs)
      → length cs < k
      → Stop h v c cs (walk get_priority get_time_created k order v (first cs) c.at)
  unfolding insert_from
  walk-Stop zero h v c cs ch fuel = absurd (omega arith)
  walk-Stop (suc k) h v c [] ch fuel = record {
    pre = [];
    at = c;
    post = [];
    whole = refl;
    found = walk-end k h v c.at;
    inserted = λ n e. refl;
  }
  walk-Stop (suc k) h v c (d ∷ cs) ch fuel = elim (Bool-cases (before d.thread v)) [
    | inl further ↦
        let rest = walk-Stop k h v d cs ch.5 (omega arith) in
        record {
          pre = c ∷ rest.pre;
          at = rest.at;
          post = rest.post;
          whole = ap (λ xs. c ∷ xs) rest.whole;
          found = rw (walk-step k h v c.at d cs ch.5, further) rest.found;
          inserted = λ n e. ground (arith, further, rest.inserted n e);
        }
    | inr stop ↦ record {
      pre = [];
      at = c;
      post = d ∷ cs;
      whole = refl;
      found = rw (walk-step k h v c.at d cs ch.5, stop);
      inserted = λ n e. ground (arith, stop);
    }
  ]

  threads_of-insert_from :
      (n : Cell) (cs : List Cell)
      → threads_of (insert_from cell_before n cs) ≡ insert_from before n.thread (threads_of cs)
  unfolding insert_from
  threads_of-insert_from n [] = refl
  threads_of-insert_from n (c ∷ cs) = ground (arith, threads_of-insert_from n cs)

  pub threads_of-insert_ordered :
      (n : Cell) (cs : List Cell)
      → threads_of (insert_ordered cell_before n cs)
        ≡ insert_ordered before n.thread (threads_of cs)
  unfolding insert_ordered
  threads_of-insert_ordered n [] = refl
  threads_of-insert_ordered n (c ∷ cs) = ground (arith, threads_of-insert_from n cs)

  -- The node behind which `pushOrdered` links, on a list that is not empty.
  pub first-Stop :
      (k : ℕ) (h : Heap) (v : ℕ) (c : Cell) (cs : List Cell)
      → Chain h (c ∷ cs)
      → length (c ∷ cs) < k
      → (pre : List Cell) × (d : Cell) × (post : List Cell) × (c ∷ cs ≡ pre ++ d ∷ post)
        × (walk get_priority get_time_created k order v c.at c.at h ≡ ok d.at h)
        × ((n : Cell) → n.thread ≡ v → insert_ordered cell_before n (c ∷ cs) ≡ pre ++ d ∷ n ∷ post)
  unfolding insert_ordered
  first-Stop zero h v c cs ch fuel = absurd (omega arith)
  first-Stop (suc k) h v c cs ch fuel = elim (Bool-cases (before c.thread v)) [
    | inl further ↦
        let s = walk-Stop k h v c cs ch (omega arith) in
        (
          s.pre,
          s.at,
          s.post,
          s.whole,
          rw (walk-step k h v c.at c cs ch, further) s.found,
          λ n e. ground (arith, further, s.inserted n e),
        )
    | inr stop ↦
        ([], c, cs, refl, rw (walk-step k h v c.at c cs ch, stop), λ n e. ground (arith, stop))
  ]
