-- ===== src/RingQueue/Ring.antt =====
-- Positions on the ring, and the stretch of the array that holds the queue.
use school_projects.Base.{
  ℕ, suc, ◌+◌, ◌-◌, ◌<◌, ◌≤◌, ◌≡◌, ◌≢◌, ◌++◌, Bool-cases, inl, inr, some, List, [], ◌∷◌, arith,
  ◌==◌, if◌then◌else◌, length, get_elem?, set, get_elem?-set_ne, leb,
}
use school_projects.Base.Int.{ℤ}
use school_projects.RingQueue.{next_index}
use native.Mathlib.Nat.{mod-eq_of_lt, mod_self}

module _ (n : ℕ) where
  pub next_index_lem : (i : ℕ) → i < n → next_index n i ≡ (if suc i == n then 0 else suc i)
  unfolding next_index
  next_index_lem i h = elim (Bool-cases (suc i == n)) [
    | inl last ↦ let last_is : n ≡ suc i = ground arith in rw last (rw last_is (mod_self (suc i)))
    | inr more ↦ rw more (mod-eq_of_lt (ground arith))
  ]

  -- How many steps lead from one position to another.
  abbrev pub distance : ℕ → ℕ → ℕ
  distance i j = if leb i j then j - i else (j + n) - i

  -- `Holds arr i xs`: the values are stored from position `i` on.
  abbrev pub Holds : List ℤ → ℕ → List ℤ → Type 0
  Holds arr i [] = Unit
  Holds arr i (x ∷ xs) = (get_elem? arr i ≡ some x) × Holds arr (next_index n i) xs

  -- A write beyond the stretch changes nothing of it.
  pub Holds-set :
      (arr : List ℤ) (i j : ℕ) (c : ℤ) (xs : List ℤ)
      → i < n
      → j < n
      → length xs ≤ distance i j
      → Holds arr i xs
      → Holds (set arr j c) i xs
  Holds-set arr i j c [] hi hj fits h = tt
  Holds-set arr i j c (x ∷ xs) hi hj fits (here, more) =
      let next = next_index_lem i hi in
      let ne : j ≢ i = λ e. ground (arith, e) in
      (
        rw (get_elem?-set_ne arr j i c ne) here,
        Holds-set arr (next_index n i) j c xs (ground arith) hj (ground arith) more,
      )

  -- The value behind the stretch extends it.
  pub Holds-snoc :
      (arr : List ℤ) (i j : ℕ) (c : ℤ) (xs : List ℤ)
      → i < n
      → j < n
      → length xs ≡ distance i j
      → get_elem? arr j ≡ some c
      → Holds arr i xs
      → Holds arr i (xs ++ (c ∷ []))
  Holds-snoc arr i j c [] hi hj fits holds h =
      let same : i ≡ j = ground arith in (rw same holds, tt)
  Holds-snoc arr i j c (x ∷ xs) hi hj fits holds (here, more) =
      let next = next_index_lem i hi in
      (here, Holds-snoc arr (next_index n i) j c xs (ground arith) hj (ground arith) holds more)
