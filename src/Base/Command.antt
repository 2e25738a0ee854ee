-- ===== src/Base/Command.antt =====
-- Commands over a state: a result, a fault (a wild dereference or the end of the process), or a
-- loop that was given too few rounds.
pub data Run (S A : Type 0) : Type 0 where
  ok : A → S → Run S A
  fault : Run S A
  out_of_fuel : Run S A

abbrev pub Command : Type 0 → Type 0 → Type 0
Command S A = S → Run S A

abbrev pub pure : {S A : Type 0} → A → Command S A
pure a s = ok a s

abbrev pub crash : {S A : Type 0} → Command S A
crash s = fault

module _ {S A B : Type 0} where
  -- the commands behind one that has run
  abbrev pub go_on : (A → Command S B) → Run S A → Run S B
  go_on next out_of_fuel = out_of_fuel
  go_on next fault = fault
  go_on next (ok value state) = next value state

  infixl 5 ◌>>=◌ ◌>>◌
  abbrev pub ◌>>=◌ : Command S A → (A → Command S B) → Command S B
  (first >>= next) state = go_on next (first state)

  abbrev pub ◌>>◌ : Command S A → Command S B → Command S B
  (first >> next) state = go_on (λ value. next) (first state)
