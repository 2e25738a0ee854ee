-- ===== src/Pthread/Waiting/Turn.antt =====
-- One tick, as seen from a thread of the run queue: it runs, or it is nearer to its turn.
use osdesign.Base.{
  ℕ, zero, suc, ◌+◌, ◌^◌, ◌≤◌, ◌<◌, ◌≡◌, refl, sym, ap, ◌∙◌, ◌≢◌, ◌⊎◌, inl, inr, false, Option,
  none, some, List, [], ◌∷◌, ◌++◌, arith, ◌==◌, if◌then◌else◌, get_elem?, count, count-append,
  length,
}
use mathlib.Core.Path.{subst}
use native.Mathlib.Decide.{dec_lt}
use osdesign.LinkedList.{goes_before}
use osdesign.LinkedList.Spec.{insert_ordered}
use osdesign.Pthread.{Sthread, System, comes_first, get_priority, raised, scheduler}
use osdesign.Pthread.Places.History.{IsPlaced, ticks, Step-IsPlaced}
use osdesign.Pthread.Priority.{queue, scheduler-Scheduled}
use osdesign.Pthread.Waiting.Insert.{
  AtMost, Lands, deficit, Lands-Nearer, insert_ordered-Lands, AtMost-other,
}

module _ {V : Type 0} (virtual_memory reserve : ℕ → V → V) where
  -- The thread `t` stands behind `front` in the run queue, and neither it nor these threads nor the
  -- running one have a priority number above `m`.
  pub record Waits (m t : ℕ) (front : List ℕ) (s : System V) : Type 0 where
    pub placed : IsPlaced virtual_memory reserve s
    pub rest : List ℕ
    pub queue : s.run ≡ front ++ t ∷ rest
    pub small : AtMost (get_priority s.threads) m (s.running ∷ t ∷ front)

  in_table :
      (ts : List Sthread) (a : ℕ) → a < length ts → (th : Sthread) × (get_elem? ts a ≡ some th)
  in_table [] a lt = absurd (omega (arith, lt))
  in_table (th ∷ ts) zero lt = (th, refl)
  in_table (th ∷ ts) (suc a) lt = in_table ts a (omega arith)

  scheduler-n_schedulings :
      (s s' : System V)
      → s.n_schedulings + 1 ≤ 150
      → scheduler virtual_memory s ≡ some s'
      → s'.n_schedulings ≡ s.n_schedulings + 1
  unfolding scheduler
  scheduler-n_schedulings s s' few e = by_thread (get_elem? s.threads s.running) refl
    where
      by_thread :
          (o : Option Sthread)
          → get_elem? s.threads s.running ≡ o
          → s'.n_schedulings ≡ s.n_schedulings + 1
      by_thread none z = ground arith
      by_thread (some th) z = by_run s.run refl
        where
          by_run : (ws : List ℕ) → s.run ≡ ws → s'.n_schedulings ≡ s.n_schedulings + 1
          by_run [] w = ground (arith, w, z, few)
          by_run (n ∷ rest) w = ground (arith, w, z, few)

  -- On small numbers a thread that does not go before another has a higher one.
  not_before :
      (pr tc : ℕ → ℕ) (m x v : ℕ)
      → m + 1 < 2 ^ 31
      → pr v ≤ m + 1
      → pr x ≤ m
      → goes_before pr tc 0 x v ≡ false
      → pr v < pr x
  unfolding goes_before
  not_before pr tc m x v small pv px e = ground (arith, e, small, pv, px)

  -- What a tick makes of the priorities.
  priority_after :
      (s s' : System V) (th : Sthread) (m a : ℕ)
      → get_elem? s.threads s.running ≡ some th
      → m + 1 < 2 ^ 31
      → get_priority s.threads s.running ≤ m
      → get_elem? s'.threads a
        ≡ (if s.running == a then some (raised th) else get_elem? s.threads a)
      → get_priority s'.threads a ≡ (
          if s.running == a then get_priority s.threads s.running + 1 else get_priority s.threads a)
  priority_after s s' th m a z small low e = ground (arith, z, small, low, e)

  -- Nobody stands in the queue twice, and the running thread does not stand there.
  apart :
      (s : System V) (m t : ℕ) (front : List ℕ)
      → (w : Waits m t front s) → count s.running (front ++ t ∷ w.rest) ≡ 0
  apart s m t front w =
      let alone : count s.running s.run ≡ 0 = ground (arith, w.placed.once s.running) in
      subst (λ q. count s.running q ≡ 0) w.queue alone

  running_in_table :
      (s : System V)
      → IsPlaced virtual_memory reserve s
      → (th : Sthread) × (get_elem? s.threads s.running ≡ some th)
  running_in_table s p = elim (dec_lt s.running (length s.threads)) [
    | yes lt ↦ in_table s.threads s.running lt
    | no past ↦ absurd (ground (arith, p.known s.running, past))
  ]

  -- How long `t` can still have to wait.
  abbrev pub patience : ℕ → List ℕ → System V → ℕ
  patience m front s = deficit (get_priority s.threads) m (s.running ∷ front)

  abbrev pub Closer : (m t : ℕ) (front : List ℕ) (s s' : System V) → Type 0
  Closer m t front s s' =
      (s'.running ≡ t)
      ⊎ ((front' : List ℕ) × Waits m t front' s' × (patience m front' s' < patience m front s))

  -- The tick that makes `f`, the first thread of the queue, the running one.
  turn :
      (s s' : System V) (m t f : ℕ) (front : List ℕ)
      → m + 1 < 2 ^ 31
      → (w : Waits m t (f ∷ front) s) → IsPlaced virtual_memory reserve s'
      → ((a : ℕ)
          → get_priority s'.threads a ≡ (
              if s.running == a
              then get_priority s.threads s.running + 1
              else get_priority s.threads a))
      → s'.running ≡ f
      → s'.run ≡ insert_ordered (comes_first s'.threads 0) s.running (front ++ t ∷ w.rest)
      → Closer m t (f ∷ front) s s'
  turn s s' m t f front small w p table on q =
      let v : ℕ = s.running in
      let pr : ℕ → ℕ = get_priority s.threads in
      let pr' : ℕ → ℕ = get_priority s'.threads in
      let none' : count v (f ∷ front ++ t ∷ w.rest) ≡ 0 = apart s m t (f ∷ front) w in
      let parts : count v (front ++ t ∷ w.rest) ≡ count v front + count v (t ∷ w.rest) =
        count-append v front (t ∷ w.rest) in
      let nf : v ≢ f = λ e. ground (arith, none', e) in
      let nt : v ≢ t = λ e. ground (arith, none', parts, e) in
      let up : pr' v ≡ pr v + 1 = ground (arith, table v) in
      let same : (a : ℕ) → v ≢ a → pr' a ≡ pr a = λ a ne. ground (arith, table a, ne) in
      let (v0, (t0, (f0, all))) = w.small in
      let lands : Lands pr' m v t w.rest front s'.run =
        subst (Lands pr' m v t w.rest front) (sym q) (
          insert_ordered-Lands pr' m v t w.rest (comes_first s'.threads 0)
            (λ x low stop. not_before pr' _ m x v small (omega (arith, up, v0)) low stop) front
            (omega (arith, same t nt, t0))
            (AtMost-other pr pr' m v front same (omega (arith, none', parts)) all)) in
      let (front', rest', e, all', less) =
        Lands-Nearer pr pr' m v t f up same front w.rest s'.run nf nt (omega (arith, none', parts))
          w.small lands in
      inr (
        front',
        record {
          placed = p;
          rest = rest';
          queue = e;
          small = subst (λ x. AtMost pr' m (x ∷ t ∷ front')) (sym on) all';
        },
        subst (λ x. deficit pr' m (x ∷ front') < deficit pr m (v ∷ f ∷ front)) (sym on) less,
      )

  pub tick :
      (s : System V) (m t : ℕ) (front : List ℕ)
      → m + 1 < 2 ^ 31
      → s.n_schedulings + 1 ≤ 150
      → Waits m t front s
      → (s' : System V) × (scheduler virtual_memory s ≡ some s')
        × (s'.n_schedulings ≡ s.n_schedulings + 1)
        × Closer m t front s s'
  tick s m t front small few w =
      let (th, z) = running_in_table s w.placed in
      let (s', ran, went, table) =
        scheduler-Scheduled virtual_memory s th z (λ late. absurd (omega (arith, few, late))) in
      let p : IsPlaced virtual_memory reserve s' =
        Step-IsPlaced virtual_memory reserve (ticks ran) w.placed in
      let same : queue virtual_memory s ≡ s.run = ground (arith, few) in
      (
        s',
        ran,
        scheduler-n_schedulings s s' few ran,
        elim went [
          | inl (e, _, _) ↦ absurd (not_empty front w.rest (sym w.queue ∙ sym same ∙ e))
          | inr (f, rest, e, on, q) ↦
              arrives s' front w f rest (sym w.queue ∙ sym same ∙ e) p
                (λ a. priority_after s s' th m a z small w.small.0 (table a)) on q
        ],
      )
    where
      not_empty : (xs rest : List ℕ) → xs ++ t ∷ rest ≡ [] → ⊥
      not_empty [] rest e = cc
      not_empty (x ∷ xs) rest e = cc

      head : (a b : ℕ) (xs ys : List ℕ) → a ∷ xs ≡ b ∷ ys → a ≡ b
      head a b xs ys e = cc

      tail : (a b : ℕ) (xs ys : List ℕ) → a ∷ xs ≡ b ∷ ys → xs ≡ ys
      tail a b xs ys e = cc

      arrives :
          (s' : System V) (front : List ℕ) (w : Waits m t front s) (f : ℕ) (rest : List ℕ)
          → front ++ t ∷ w.rest ≡ f ∷ rest
          → IsPlaced virtual_memory reserve s'
          → ((a : ℕ)
              → get_priority s'.threads a ≡ (
                  if s.running == a
                  then get_priority s.threads s.running + 1
                  else get_priority s.threads a))
          → s'.running ≡ f
          → s'.run ≡ insert_ordered (comes_first s'.threads 0) s.running rest
          → Closer m t front s s'
      arrives s' [] w f rest e p table on q = inl (on ∙ sym (head _ _ _ _ e))
      arrives s' (g ∷ front) w f rest e p table on q =
          turn s s' m t g front small w p table (on ∙ sym (head _ _ _ _ e))
            (q ∙ ap (insert_ordered (comes_first s'.threads 0) s.running) (sym (tail _ _ _ _ e)))
