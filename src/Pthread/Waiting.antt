-- ===== src/Pthread/Waiting.antt =====
-- How long a thread of the run queue of my_pthread.c waits.
pub mod Insert
pub mod Turn
use osdesign.Base.{
  ℕ, zero, suc, ◌+◌, ◌-◌, ◌^◌, ◌≤◌, ◌<◌, ◌≡◌, refl, inl, inr, Option, some, List, arith,
}
use osdesign.Pthread.{System, scheduler, ◌>>=◌}
use osdesign.Pthread.Waiting.Turn.{Waits, patience, tick}

module _ {V : Type 0} (virtual_memory : ℕ → V → V) where
  -- some ticks, one after another
  abbrev pub run_ticks : ℕ → System V → Option (System V)
  run_ticks zero s = some s
  run_ticks (suc k) s = scheduler virtual_memory s >>= run_ticks k

module _ {V : Type 0} (virtual_memory reserve : ℕ → V → V) where
  -- A thread `t` of the run queue runs after some ticks, if no ordering by age comes before: if
  -- neither it nor the threads in front of it nor the running one have a priority number above `m`,
  -- at most as many as the sum, over the running one and those in front, of what they lack to `m` + 1.
  pub run_ticks-running :
      (fuel : ℕ) (s : System V) (m t : ℕ) (front : List ℕ)
      → m + 1 < 2 ^ 31
      → s.n_schedulings + fuel ≤ 150
      → patience virtual_memory reserve m front s ≤ fuel
      → Waits virtual_memory reserve m t front s
      → (k : ℕ) × (s' : System V) × (k ≤ fuel)
        × (run_ticks virtual_memory k s ≡ some s')
        × (s'.running ≡ t)
  run_ticks-running zero s m t front small few enough w = absurd (omega (arith, enough, w.small.0))
  run_ticks-running (suc fuel) s m t front small few enough w =
      let (s1, ran, n, closer) = tick virtual_memory reserve s m t front small (omega arith) w in
      elim closer [
        | inl there ↦ (1, s1, omega arith, rw ran refl, there)
        | inr (front', w', less) ↦
            let (k, s', low, runs, there) =
              run_ticks-running fuel s1 m t front' small (omega (arith, n))
                (omega (arith, less, enough)) w' in
            (suc k, s', omega arith, rw ran runs, there)
      ]
