-- ===== src/Psed/Round.antt =====
-- The stages of `main` in a round: which threads are released, how many are done, and which lines are read;
-- and how what holds of a thread carries over when another process takes a step.
use school_projects.Base.{
  ℕ, suc, ◌≤◌, ◌<◌, ◌≡◌, ◌≢◌, ◌⊎◌, inl, inr, refl, sym, ◌∙◌, arith, Option, none, some, List, [],
  ◌∷◌, ◌++◌, append-nil,
}
use school_projects.Psed.{
  Text, to_cstr, ThreadPc, lock_line, unlock_print, lock_done, load_done, store_done, exited,
  invalid_free, MainPc,
}
use school_projects.Psed.Thread.{turn, printed, stores, Lit, Fine}

-- The number of threads that were released, in this round or to end.
abbrev pub released : (n : ℕ) → MainPc → ℕ
released n (MainPc.release i) = i
released n MainPc.lock_wait = n
released n MainPc.check_wait = n
released n MainPc.unlock_wait = n
released n (MainPc.finish i) = i
released n (MainPc.join i) = n
released n MainPc.exited = n
released n _ = 0

-- `threadIdDone` counts the threads that are done with the line, from the reset until `main` sees that all are.
abbrev pub done_of : MainPc → ℕ → ℕ
done_of MainPc.unlock_reset d = d
done_of (MainPc.release i) d = d
done_of MainPc.lock_wait d = d
done_of MainPc.check_wait d = d
done_of MainPc.unlock_wait d = d
done_of _ d = 0

-- Between `threadIdMutex->lock()` and `threadIdMutex->unlock()`.
abbrev pub main_turn : MainPc → ℕ
main_turn MainPc.reset = 1
main_turn MainPc.unlock_reset = 1
main_turn MainPc.check_wait = 1
main_turn MainPc.unlock_wait = 1
main_turn MainPc.unlock_round = 1
main_turn _ = 0

-- The lines of the standard input are `before`, which are printed, the one at work, and what is left.
abbrev pub AtWork : (lines before input : List Text) → Option Text → Type 0
AtWork lines before input o = (l : Text) × (o ≡ some (to_cstr l)) × (lines ≡ before ++ l ∷ input)

abbrev pub During : (lines before input : List Text) → Option Text → MainPc → Type 0
During lines before input o MainPc.read = (o ≡ none) × (lines ≡ before ++ input)
During lines before input o MainPc.unlock_round = lines ≡ before ++ input
During lines before input o MainPc.clear = lines ≡ before ++ input
During lines before input o (MainPc.finish i) = (o ≡ none) × (lines ≡ before)
During lines before input o (MainPc.join i) = (o ≡ none) × (lines ≡ before)
During lines before input o MainPc.exited = (o ≡ none) × (lines ≡ before)
During lines before input o _ = AtWork lines before input o

pub in_round :
    (n i d : ℕ) (lines before input : List Text) (o : Option Text) (m : MainPc)
    → During lines before input o m
    → Lit o
    → i < released n m
    → done_of m d ≡ d
in_round n i d lines before input o (MainPc.release j) w lit h = refl
in_round n i d lines before input o MainPc.lock_wait w lit h = refl
in_round n i d lines before input o MainPc.check_wait w lit h = refl
in_round n i d lines before input o MainPc.unlock_wait w lit h = refl
in_round n i d lines before input o (MainPc.finish j) w lit h = absurd cc
in_round n i d lines before input o (MainPc.join j) w lit h = absurd cc
in_round n i d lines before input o MainPc.exited w lit h = absurd cc
in_round n i d lines before input o m w lit h = absurd (omega arith)

-- Either a line is at work, or nothing is printed of one.
pub During-cases :
    (n : ℕ) (lines before input : List Text) (o : Option Text) (m : MainPc)
    → During lines before input o m
    → AtWork lines before input o
      ⊎ ((rest : List Text) × (lines ≡ before ++ rest) × ((o ≡ none) ⊎ (released n m ≡ 0)))
During-cases n lines before input o MainPc.read (idle, rest) = inr (input, rest, inl idle)
During-cases n lines before input o MainPc.unlock_round rest = inr (input, rest, inr refl)
During-cases n lines before input o MainPc.clear rest = inr (input, rest, inr refl)
During-cases n lines before input o (MainPc.finish i) (idle, all) =
    inr ([], all ∙ sym (append-nil before), inl idle)
During-cases n lines before input o (MainPc.join i) (idle, all) =
    inr ([], all ∙ sym (append-nil before), inl idle)
During-cases n lines before input o MainPc.exited (idle, all) =
    inr ([], all ∙ sym (append-nil before), inl idle)
During-cases n lines before input o MainPc.lock_reset w = inl w
During-cases n lines before input o MainPc.reset w = inl w
During-cases n lines before input o MainPc.unlock_reset w = inl w
During-cases n lines before input o (MainPc.release i) w = inl w
During-cases n lines before input o MainPc.lock_wait w = inl w
During-cases n lines before input o MainPc.check_wait w = inl w
During-cases n lines before input o MainPc.unlock_wait w = inl w

-- A thread that is released while there is no line is to end, and all lines are done.
pub all_done :
    (n i : ℕ) (lines before input : List Text) (o : Option Text) (m : MainPc)
    → During lines before input o m
    → o ≡ none
    → i < released n m
    → lines ≡ before
all_done n i lines before input o (MainPc.release j) (l, lit, w) idle h = absurd cc
all_done n i lines before input o MainPc.lock_wait (l, lit, w) idle h = absurd cc
all_done n i lines before input o MainPc.check_wait (l, lit, w) idle h = absurd cc
all_done n i lines before input o MainPc.unlock_wait (l, lit, w) idle h = absurd cc
all_done n i lines before input o (MainPc.finish j) w idle h = w.1
all_done n i lines before input o (MainPc.join j) w idle h = w.1
all_done n i lines before input o MainPc.exited w idle h = w.1
all_done n i lines before input o m w idle h = absurd (omega arith)

module _ (edit : ℕ → Text → Text) (z c : ℕ) (o : Option Text) where
  pub carry :
      (i : ℕ) (p : ThreadPc) {r r' t t' : ℕ}
      → r' ≡ r
      → t' ≡ t
      → Fine edit i r t z c o p
      → Fine edit i r' t' z c o p
  carry i p same_r same_t v = rw same_r (rw same_t v)

  -- Between rounds a thread waits for its mutex, and no line concerns it.
  pub park :
      (i : ℕ) (p : ThreadPc) (o' : Option Text) → Fine edit i 0 0 z c o p → Fine edit i 0 0 z c o' p
  park i (lock_line b) o' v = ground arith
  park i p o' v = absurd (omega arith)

  pub end_round :
      (i n : ℕ) (p : ThreadPc)
      → i < n
      → turn p ≡ 0
      → Lit o
      → Fine edit i n n z c o p
      → Fine edit i 0 0 z (suc c) o p
  end_round i n (lock_line b) lt h lit v = ground arith
  end_round i n exited lt h lit v = absurd cc
  end_round i n invalid_free lt h lit v = absurd cc
  end_round i n p lt h lit v = absurd (omega arith)

  -- Another thread is released.
  pub raise :
      (i r t : ℕ) (p : ThreadPc) → i ≢ r → Fine edit i r t z c o p → Fine edit i (suc r) t z c o p
  raise i r t p ne v = ground arith

  pub let_go :
      (i t : ℕ) (p : ThreadPc)
      → t ≤ i
      → Fine edit i i t z c o p
      → Fine edit i (suc i) t (suc z) c o p
  let_go i t (lock_line b) le v = ground arith
  let_go i t p le v = absurd (omega arith)

  -- Another thread is done with the line.
  pub shift :
      (i r t : ℕ) (p : ThreadPc)
      → i ≢ t
      → turn p ≡ 0
      → Fine edit i r t z c o p
      → Fine edit i r (suc t) z c o p
  shift i r t p ne h v = ground arith

  pub printed-Fine :
      (i r t : ℕ) (p : ThreadPc)
      → Fine edit i r t z c o p
      → 0 < printed p
      → (t ≡ i) × (i < r) × Lit o
  printed-Fine i r t unlock_print v h = ground arith
  printed-Fine i r t lock_done v h = ground arith
  printed-Fine i r t load_done v h = ground arith
  printed-Fine i r t (store_done k) v h = ground arith
  printed-Fine i r t p v h = absurd (omega arith)

  pub store-Fine :
      (i r t : ℕ) (p : ThreadPc)
      → Fine edit i r t z c o p
      → stores p ≡ 1
      → (t ≡ i) × (i < r) × Lit o × (turn p ≡ 1)
  store-Fine i r t (store_done k) v h = ground arith
  store-Fine i r t p v h = absurd (omega arith)

  pub locked-Fine : (i r t : ℕ) (p : ThreadPc) → Fine edit i r t z c o p → z ≤ 1
  locked-Fine i r t (lock_line b) v = ground arith
  locked-Fine i r t p v = omega (arith, v.0)
