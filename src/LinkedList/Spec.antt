-- ===== src/LinkedList/Spec.antt =====
-- What the list promises: a sequence of threads, oldest first, with ordered insertion.
use osdesign.Base.{ℕ, suc, ◌+◌, ◌≡◌, refl, Bool, List, [], ◌∷◌, arith, if◌then◌else◌, length, count}

module _ {ℓ} {A : Type ℓ} (le : A → A → Bool) where
  -- behind the leading elements that go before `t`
  unfoldable pub insert_from : A → List A → List A
  insert_from t [] = t ∷ []
  insert_from t (x ∷ xs) = if le x t then x ∷ insert_from t xs else t ∷ x ∷ xs

  -- The head of a list that is not empty stays the head.
  unfoldable pub insert_ordered : A → List A → List A
  unfolding insert_from
  insert_ordered t [] = t ∷ []
  insert_ordered t (x ∷ xs) = x ∷ (if le x t then insert_from t xs else t ∷ xs)

  -- one insertion for each element of the first list, in order
  unfoldable pub insert_all : List A → List A → List A
  insert_all [] ys = ys
  insert_all (x ∷ xs) ys = insert_all xs (insert_ordered x ys)

  length-insert_from : (t : A) (xs : List A) → length (insert_from t xs) ≡ suc (length xs)
  unfolding insert_from
  length-insert_from t [] = refl
  length-insert_from t (x ∷ xs) = ground (arith, length-insert_from t xs)

  pub length-insert_ordered : (t : A) (xs : List A) → length (insert_ordered t xs) ≡ suc (length xs)
  unfolding insert_ordered
  length-insert_ordered t [] = refl
  length-insert_ordered t (x ∷ xs) = ground (arith, length-insert_from t xs)

-- Nothing is lost, doubled or made up.
pub count-insert_from :
    (le : ℕ → ℕ → Bool) (a t : ℕ) (xs : List ℕ) → count a (insert_from le t xs) ≡ count a (t ∷ xs)
unfolding insert_from
count-insert_from le a t [] = refl
count-insert_from le a t (x ∷ xs) = ground (arith, count-insert_from le a t xs)

pub count-insert_ordered :
    (le : ℕ → ℕ → Bool) (a t : ℕ) (xs : List ℕ)
    → count a (insert_ordered le t xs) ≡ count a (t ∷ xs)
unfolding insert_ordered
count-insert_ordered le a t [] = refl
count-insert_ordered le a t (x ∷ xs) = ground (arith, count-insert_from le a t xs)

pub count-insert_all :
    (le : ℕ → ℕ → Bool) (a : ℕ) (xs ys : List ℕ)
    → count a (insert_all le xs ys) ≡ count a xs + count a ys
unfolding insert_all
count-insert_all le a [] ys = omega arith
count-insert_all le a (x ∷ xs) ys =
    omega (arith, count-insert_all le a xs (insert_ordered le x ys), count-insert_ordered le a x ys)
