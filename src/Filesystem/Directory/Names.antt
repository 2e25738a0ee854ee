-- ===== src/Filesystem/Directory/Names.antt =====
-- The division of a path by `sfs_create` and `sfs_mkdir`.
use osdesign.Base.{
  ◌≡◌, refl, ap, sym, Option, ◌∙◌, none, some, List, [], ◌∷◌, ◌++◌, ℕ, inl, inr, arith,
  Option-cases,
}
use osdesign.Filesystem.Path.{slash}
use osdesign.Filesystem.Path.Round.{IsName}
use osdesign.Filesystem.Directory.{split_last}

split_last-name : (name : List ℕ) → IsName name → split_last name ≡ none
unfolding split_last
split_last-name [] n = refl
split_last-name (c ∷ cs) n = ground (arith, split_last-name cs n.1, n.0)

-- For a name that holds no '/', the division of a path gives a directory and the name exactly if the
-- path is the directory, a '/' and the name.
pub split_last_iff :
    (path dir name : List ℕ)
    → IsName name
    → (path ≡ dir ++ slash ∷ name → split_last path ≡ some (dir, name))
      × (split_last path ≡ some (dir, name) → path ≡ dir ++ slash ∷ name)
unfolding split_last
split_last_iff path dir name n = (λ e. ap split_last e ∙ divides dir, λ e. joins path dir name e)
  where
    divides : (dir : List ℕ) → split_last (dir ++ slash ∷ name) ≡ some (dir, name)
    divides [] = rw (split_last-name name n) refl
    divides (c ∷ cs) = rw (divides cs) refl

    there :
        (c : ℕ) (cs d m : List ℕ)
        → split_last cs ≡ some (d, m)
        → split_last (c ∷ cs) ≡ some (c ∷ d, m)
    there c cs d m q = rw (q) refl

    whole : Option (List ℕ × List ℕ) → List ℕ
    whole none = []
    whole (some p) = p.0 ++ slash ∷ p.1

    grown :
        (c : ℕ) (d m cs dir name : List ℕ)
        → cs ≡ d ++ slash ∷ m
        → ◌≡◌ {A = Option (List ℕ × List ℕ)} (some (c ∷ d, m)) (some (dir, name))
        → c ∷ cs ≡ dir ++ slash ∷ name
    grown c d m cs dir name rest e = rw (rest) (ap (λ o. whole o) e)

    joins :
        (path dir name : List ℕ) → split_last path ≡ some (dir, name) → path ≡ dir ++ slash ∷ name
    joins [] dir name e = cc
    joins (c ∷ cs) dir name e = elim (Option-cases (split_last cs)) [
      | inl q ↦ ground (arith, q, e)
      | inr ((d, m), q) ↦ grown c d m cs dir name (joins cs d m q) (sym (there c cs d m q) ∙ e)
    ]
