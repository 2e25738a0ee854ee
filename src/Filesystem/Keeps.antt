-- ===== src/Filesystem/Keeps.antt =====
-- Rules for what a command of sfs.c keeps of a disk, and when it may fault.
use osdesign.Base.{◌⊎◌, inl, inr, ◌≡◌, refl, Bool, true, false, Option, none, some, if◌then◌else◌}
use mathlib.Core.Path.{subst}
use osdesign.Base.Command.{Run, ok, fault, out_of_fuel, pure, crash, go_on, ◌>>=◌}
use osdesign.Filesystem.Disk.{Disk, Cmd, on_found}

-- A run that returns has a disk in `I` and a result in `Q`; one that faults has the excuse `X`.
abbrev pub Ends : {A : Type 0} → Type 0 → (Disk → Type 0) → (A → Type 0) → Run Disk A → Type 0
Ends X I Q out_of_fuel = Unit {0}
Ends X I Q fault = X
Ends X I Q (ok a d) = I d × Q a

-- On every disk in `I` the command ends so.
pub record Keeps {A : Type 0} (X : Type 0) (I : Disk → Type 0) (Q : A → Type 0) (c : Cmd A)
    : Type 0 where
  pub kept : (d : Disk) → I d → Ends X I Q (c d)

abbrev pub Any : {A : Type 0} → A → Type 0
Any a = Unit {0}

module _ {A : Type 0} {X : Type 0} {I : Disk → Type 0} {Q : A → Type 0} where
  pub Keeps-pure : {a : A} → Q a → Keeps X I Q (pure a)
  Keeps-pure q = record { kept = λ d s. (s, q) }

  pub Keeps-crash : X → Keeps X I Q crash
  Keeps-crash x = record { kept = λ d s. x }

  pub Keeps-out_of_fuel : Keeps X I Q (λ d. out_of_fuel)
  Keeps-out_of_fuel = record { kept = λ d s. tt }

  pub Keeps-if :
      {c c' : Cmd A} (b : Bool)
      → (b ≡ true → Keeps X I Q c)
      → (b ≡ false → Keeps X I Q c')
      → Keeps X I Q (if b then c else c')
  Keeps-if true k k' = k refl
  Keeps-if false k k' = k' refl

  pub Keeps-on_found :
      {B : Type 0} {c : Cmd A} {f : B → Cmd A} (o : Option B)
      → Keeps X I Q c
      → ((b : B) → o ≡ some b → Keeps X I Q (f b))
      → Keeps X I Q (on_found o c f)
  Keeps-on_found none k k' = k
  Keeps-on_found (some b) k k' = k' b refl

  pub Keeps-elim :
      {B : Type 0} {c : Cmd A} {f : B → Cmd A} (o : Option B)
      → Keeps X I Q c
      → ((b : B) → o ≡ some b → Keeps X I Q (f b))
      → Keeps X I Q (elim o [ none ↦ c | some b ↦ f b ])
  Keeps-elim none k k' = k
  Keeps-elim (some b) k k' = k' b refl

  pub Keeps-bind :
      {B : Type 0} {R : B → Type 0} {c : Cmd B} {f : B → Cmd A}
      → Keeps X I R c
      → ((b : B) → R b → Keeps X I Q (f b))
      → Keeps X I Q (c >>= f)
  Keeps-bind {B} {R} {c} {f} first next = record { kept = λ d s. by_run (c d) (first.kept d s) }
    where
      by_run : (r : Run Disk B) → Ends X I R r → Ends X I Q (go_on f r)
      by_run (ok b d) (s, q) = (next b q).kept d s
      by_run fault x = x
      by_run out_of_fuel u = tt

  -- What a run that returns leaves.
  pub returned :
      {c : Cmd A} → Keeps X I Q c → (d d' : Disk) (a : A) → I d → c d ≡ ok a d' → I d' × Q a
  returned {c} k d d' a s e = subst (Ends X I Q) e (k.kept d s)

  -- Without an excuse there is no fault.
  pub no_fault : {c : Cmd A} → Keeps X I Q c → (d : Disk) → I d → c d ≡ fault → X
  no_fault {c} k d s e = subst (Ends X I Q) e (k.kept d s)

-- A part of what is known without an excuse.
module _ {X P Q : Type 0} where
  pub first_part : X ⊎ (P × Q) → X ⊎ P
  first_part (inl x) = inl x
  first_part (inr p) = inr p.0

  pub second_part : X ⊎ (P × Q) → X ⊎ Q
  second_part (inl x) = inl x
  second_part (inr p) = inr p.1
