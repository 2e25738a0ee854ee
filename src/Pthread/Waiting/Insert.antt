-- ===== src/Pthread/Waiting/Insert.antt =====
-- Where the ordered insertion puts a thread, as seen from a thread `t` of the queue.
use osdesign.Base.{
  ℕ, ◌+◌, ◌-◌, ◌≤◌, ◌<◌, ◌≡◌, refl, ap, ◌≢◌, ◌⊎◌, inl, inr, Bool, false, Bool-cases, List, [], ◌∷◌,
  ◌++◌, arith, count, total,
}
use osdesign.LinkedList.Spec.{insert_from, insert_ordered}

-- The threads have priority numbers of at most `m`.
abbrev pub AtMost : (ℕ → ℕ) → ℕ → List ℕ → Type 0
AtMost pr m [] = Unit {0}
AtMost pr m (x ∷ xs) = (pr x ≤ m) × AtMost pr m xs

module _ (pr : ℕ → ℕ) (m v t : ℕ) (rest : List ℕ) where
  -- The thread `v` is put in front of `t`, whose number is then at most `m`, or behind it.
  abbrev pub Lands : List ℕ → List ℕ → Type 0
  Lands front q =
      ((front' : List ℕ) × (q ≡ front' ++ t ∷ rest)
        × (pr v ≤ m)
        × AtMost pr m front'
        × ((g : ℕ → ℕ) → total g front' ≡ g v + total g front))
      ⊎ ((rest' : List ℕ) × (q ≡ front ++ t ∷ rest'))

  Lands-cons : (x : ℕ) (front q : List ℕ) → pr x ≤ m → Lands front q → Lands (x ∷ front) (x ∷ q)
  Lands-cons x front q small (inl (front', e, low, all, sum)) =
      inl (x ∷ front', ap (λ l. x ∷ l) e, low, (small, all), λ g. omega (arith, sum g))
  Lands-cons x front q small (inr (rest', e)) = inr (rest', ap (λ l. x ∷ l) e)

  module _ (le : ℕ → ℕ → Bool) (lower : (x : ℕ) → pr x ≤ m → le x v ≡ false → pr v < pr x) where
    insert_from-Lands :
        (front : List ℕ)
        → pr t ≤ m
        → AtMost pr m front
        → Lands front (insert_from le v (front ++ t ∷ rest))
    unfolding insert_from
    insert_from-Lands [] small all = elim (Bool-cases (le t v)) [
      | inl further ↦ inr (insert_from le v rest, rw further refl)
      | inr stop ↦ inl (
        v ∷ [],
        rw stop refl,
        omega (arith, lower t small stop, small),
        (omega (arith, lower t small stop, small), tt),
        λ g. refl,
      )
    ]
    insert_from-Lands (x ∷ xs) small all = elim (Bool-cases (le x v)) [
      | inl further ↦ rw further (Lands-cons x xs _ all.0 (insert_from-Lands xs small all.1))
      | inr stop ↦
          let low : pr v ≤ m = omega (arith, lower x all.0 stop, all.0) in
          inl (v ∷ x ∷ xs, rw stop refl, low, (low, all), λ g. refl)
    ]

    pub insert_ordered-Lands :
        (front : List ℕ)
        → pr t ≤ m
        → AtMost pr m front
        → Lands front (insert_ordered le v (front ++ t ∷ rest))
    unfolding insert_ordered
    insert_ordered-Lands [] small all = inr (_, refl)
    insert_ordered-Lands (x ∷ xs) small all = elim (Bool-cases (le x v)) [
      | inl further ↦ rw further (Lands-cons x xs _ all.0 (insert_from-Lands xs small all.1))
      | inr stop ↦
          let low : pr v ≤ m = omega (arith, lower x all.0 stop, all.0) in
          inl (x ∷ v ∷ xs, rw stop refl, low, (all.0, (low, all.1)), λ g. omega arith)
    ]

-- A change at one thread changes nothing for a list without it.
pub total-other :
    (g h : ℕ → ℕ) (v : ℕ) (xs : List ℕ)
    → ((a : ℕ) → v ≢ a → g a ≡ h a)
    → count v xs ≡ 0
    → total g xs ≡ total h xs
total-other g h v [] same none' = refl
total-other g h v (x ∷ xs) same none' =
    let other : v ≢ x = λ e. ground (arith, none', e) in
    omega (arith, same x other, total-other g h v xs same (omega (arith, none')))

pub AtMost-other :
    (pr pr' : ℕ → ℕ) (m v : ℕ) (xs : List ℕ)
    → ((a : ℕ) → v ≢ a → pr' a ≡ pr a)
    → count v xs ≡ 0
    → AtMost pr m xs
    → AtMost pr' m xs
AtMost-other pr pr' m v [] same none' all = tt
AtMost-other pr pr' m v (x ∷ xs) same none' all =
    let other : v ≢ x = λ e. ground (arith, none', e) in
    (
      omega (arith, same x other, all.0),
      AtMost-other pr pr' m v xs same (omega (arith, none')) all.1,
    )

-- How far the priority numbers of the threads are from above `m`, in sum.
abbrev pub deficit : (ℕ → ℕ) → ℕ → List ℕ → ℕ
deficit pr m xs = total (λ x. m + 1 - pr x) xs

-- The queue `q` behind a tick: in front of `t` there is less to wait for than before.
abbrev pub Nearer : (pr pr' : ℕ → ℕ) (m v t f : ℕ) → (front q : List ℕ) → Type 0
Nearer pr pr' m v t f front q =
    (front' : List ℕ) × (rest : List ℕ) × (q ≡ front' ++ t ∷ rest)
    × AtMost pr' m (f ∷ t ∷ front')
    × (deficit pr' m (f ∷ front') < deficit pr m (v ∷ f ∷ front))

-- The thread `v`, whose number was raised, goes into the queue, and `f` leaves it.
module _ (pr pr' : ℕ → ℕ) (m v t f : ℕ) (up : pr' v ≡ pr v + 1)
    (same : (a : ℕ) → v ≢ a → pr' a ≡ pr a) where
  pub Lands-Nearer :
      (front rest q : List ℕ)
      → v ≢ f
      → v ≢ t
      → count v front ≡ 0
      → AtMost pr m (v ∷ t ∷ f ∷ front)
      → Lands pr' m v t rest front q
      → Nearer pr pr' m v t f front q
  Lands-Nearer front rest q nf nt none' (v0, (t0, (f0, all))) (inl (front', e, low, all', sum)) = (
    front',
    rest,
    e,
    (omega (arith, same f nf, f0), (omega (arith, same t nt, t0), all')),
    omega (
      arith,
      sum (λ x. m + 1 - pr' x),
      total-other (λ x. m + 1 - pr' x) (λ x. m + 1 - pr x) v front
          (λ a ne. ap (λ y. m + 1 - y) (same a ne)) none',
      same f nf,
      up,
      low,
    ),
  )
  Lands-Nearer front rest q nf nt none' (v0, (t0, (f0, all))) (inr (rest', e)) = (
    front,
    rest',
    e,
    (
      omega (arith, same f nf, f0),
      (omega (arith, same t nt, t0), AtMost-other pr pr' m v front same none' all),
    ),
    omega (
      arith,
      total-other (λ x. m + 1 - pr' x) (λ x. m + 1 - pr x) v front
          (λ a ne. ap (λ y. m + 1 - y) (same a ne)) none',
      same f nf,
      v0,
    ),
  )
