-- ===== src/Pthread/Entry.antt =====
-- How a thread begins and ends: the function that its context starts with, and `my_pthread_exit`.
use osdesign.Base.{
  ℕ, ◌+◌, ◌≤◌, ◌≡◌, refl, ap, ◌∙◌, Option, none, some, false, List, count, get_elem?,
}
use mathlib.Core.Path.{subst}
use osdesign.Pthread.{Sthread, System, ended, ◌>>=◌, join_result, join_wait, thread_exit}
use osdesign.Pthread.Wake.{ready, thread_exit-Woken}

module _ {V : Type 0} (virtual_memory : ℕ → V → V) where
  -- `my_pthread_exit`
  abbrev pub exit : ℕ → Option ℕ → System V → Option (System V)
  exit param value s = thread_exit virtual_memory param value s

  -- `call f a` is what happens while the function `f` of a thread runs on `a`, up to its return with
  -- a pointer, `none` for NULL; `deref` reads the pointer that stands behind a pointer.
  module _ (call : ℕ → ℕ → System V → Option (Option ℕ × System V))
      (deref : ℕ → Option (Option ℕ)) where
    -- `threadRun`; its call of `threadExit` has the parameter at the address `param`.
    unfoldable pub thread_run : ℕ → ℕ → System V → Option (System V)
    thread_run param t s = do
      th ← get_elem? s.threads t
      (res, s') ← call th.function th.arg s
      elim res [
        | none ↦ thread_exit virtual_memory param none s'
        | some p ↦ do value ← deref p; thread_exit virtual_memory param value s'
      ]

    -- If the function of a thread returns while the thread runs, with a pointer behind which another
    -- one stands, and some thread waits for it or is ready, `threadRun` returns; then a join of the
    -- thread, as long as nothing is written to the stack of the thread, does not wait and gets this
    -- other pointer, and each thread that waited for it or was ready runs or is ready, as often as
    -- before.
    pub join_result-thread_run :
        (param t : ℕ) (s s' : System V) (th th' : Sthread) (ws : List ℕ) (b p value : ℕ)
        → get_elem? s.threads t ≡ some th
        → call th.function th.arg s ≡ some (some p, s')
        → s'.running ≡ t
        → get_elem? s'.threads t ≡ some th'
        → th'.wait_join ≡ some ws
        → deref p ≡ some (some value)
        → 1 ≤ count b ws + count b s'.run
        → (s'' : System V) × (thread_run param t s ≡ some s'')
          × (join_wait virtual_memory t s'' ≡ some (false, s''))
          × (join_result t s'' ≡ some value)
          × ((a : ℕ) → ready virtual_memory a s'' ≡ count a ws + count a s'.run)
    unfolding thread_run join_result join_wait
    join_result-thread_run param t s s' th th' ws b p value z c me z' w d some' =
        let there : get_elem? s'.threads s'.running ≡ some th' =
          ap (λ i. get_elem? s'.threads i) me ∙ z' in
        let (s'', runs, (table, stands, woken)) =
          thread_exit-Woken virtual_memory param (some value) s' th' ws b there w some' in
        let at : get_elem? s''.threads t ≡ some (ended param (some value) th') =
          subst (λ i. get_elem? s''.threads i ≡ some (ended param (some value) th')) me table in
        (s'', rw (z, c, d) runs, rw at refl, rw at (ap some stands), woken)
