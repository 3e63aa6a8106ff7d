-- ===== src/SinglyLinked/Dispose.antt =====
-- `InitList` and `DisposeList`, whose loop follows the chain one element ahead.
use school_projects.Base.{
  ℕ, zero, suc, ◌<◌, ◌≡◌, refl, ◌≢◌, true, false, none, some, [], ◌∷◌, ◌++◌, arith, ◌==◌, ==_of_ne,
  ==_refl, length,
}
use school_projects.Base.Int.{ℤ}
use school_projects.Memory.{Ptr, null, Heap, write, load, free, undefined}
use school_projects.Memory.Cells.{Cells, has, front, Distinct}
use school_projects.ListView.{View, view}
use school_projects.Memory.Returns
use school_projects.Memory.Returns.{Returns}
use school_projects.SinglyLinked.{Elem, TList, ListWorld, init_list, dispose_loop, dispose_list}
use school_projects.SinglyLinked.Chain.{with_list, IsList}

abbrev pub empty_list : TList
empty_list = record { act = null; first = null }

abbrev pub last_of : Ptr × ℤ → Cells → Ptr × ℤ
last_of c [] = c
last_of c (d ∷ xs) = last_of d xs

-- An uninitialised list variable becomes an empty list, and no memory is touched.
pub init_list-empty :
    (w : ListWorld) → Returns (λ _ w'. IsList w.heap w' (view [] [] w.errflg)) (init_list w)
unfolding init_list
init_list-empty w = record {
  first = refl;
  act = refl;
  errflg = refl;
  memory = λ a. refl;
  distinct = tt;
  nonnull = refl;
  apart = λ a h. ground arith;
}

-- What the loop knows of the elements that are left.
record IsChain (g : Heap Elem) (w : ListWorld) (xs : Cells) : Type 0 where
  first : w.list.first ≡ front xs null
  memory : (a : Ptr) → w.heap a ≡ with_list g xs a
  distinct : Distinct xs
  nonnull : has null xs ≡ false
  apart : (a : Ptr) → has a xs ≡ true → g a ≡ none

module _ {g : Heap Elem} where
  IsList-IsChain :
      {w : ListWorld} {z : View} {xs : Cells}
      → IsList g w z
      → z.before ++ z.after ≡ xs
      → IsChain g w xs
  IsList-IsChain is same = record {
    first = rw (← same) is.first;
    memory = λ a. rw (← same) (is.memory a);
    distinct = rw (← same) is.distinct;
    nonnull = rw (← same) is.nonnull;
    apart = λ a. rw (← same) (is.apart a);
  }

  -- One round: the first element is freed, and the second becomes the first.
  dropped :
      {w : ListWorld} {p q : Ptr} {v u : ℤ} {xs : Cells}
      → IsChain g w ((p, v) ∷ (q, u) ∷ xs)
      → let w' = record w { heap = write w.heap p none; list = record (w.list) { first = q } } in
        IsChain g w' ((q, u) ∷ xs)
  dropped {p} is = record {
    first = refl;
    memory = λ a. ground (arith, is.memory a, is.apart p, is.distinct, ==_refl p);
    distinct = is.distinct.1;
    nonnull = ground (arith, is.nonnull);
    apart = λ a. ground (arith, is.apart a);
  }

  head-holds :
      {w : ListWorld} {p : Ptr} {v : ℤ} {xs : Cells}
      → IsChain g w ((p, v) ∷ xs)
      → (p ≢ null) × (w.heap p ≡ some (record { ptr = front xs null; value = v }))
  head-holds {p} is = (ground (arith, is.nonnull), ground (arith, is.memory p, ==_refl p))

  dispose_loop-last :
      (k : ℕ) {w : ListWorld} {p q : Ptr} {v u : ℤ} (xs : Cells)
      → IsChain g w ((p, v) ∷ (q, u) ∷ xs)
      → length xs < k
      → Returns
          (λ _ w'.
            (w'.errflg ≡ w.errflg)
            × ((a : Ptr) → w'.heap a ≡ with_list g (last_of (q, u) xs ∷ []) a))
          (dispose_loop k q w)
  unfolding dispose_loop load free
  dispose_loop-last zero xs is fuel = absurd (omega arith)
  dispose_loop-last (suc k) {w} {p} {q} [] is fuel =
      let (ne, holds) = head-holds is in
      let next = dropped is in
      let (ne', holds') = head-holds next in
      simp (is.first, ==_of_ne p null ne, ==_of_ne q null ne', holds, holds') (refl, next.memory)
  dispose_loop-last (suc k) {w} {p} {q} ((r, t) ∷ xs) is fuel =
      let (ne, holds) = head-holds is in
      let next = dropped is in
      let (ne', holds') = head-holds next in
      let rn : (r == null) ≡ false = ground (arith, is.nonnull) in
      simp (is.first, ==_of_ne p null ne, ==_of_ne q null ne', holds, holds', rn)
        (dispose_loop-last k xs next (omega arith))

  module _ {w : ListWorld} {z : View} (is : IsList g w z) {p : Ptr} {v : ℤ} where
    -- From a represented list of two elements or more, and with more fuel than elements behind the
    -- second, `DisposeList` leaves the variable as after `InitList` and frees all elements but the
    -- last, which stays allocated.
    pub dispose_list-leaks :
        {q : Ptr} {u : ℤ} {xs : Cells} (fuel : ℕ)
        → z.before ++ z.after ≡ (p, v) ∷ (q, u) ∷ xs
        → length xs < fuel
        → Returns
            (λ _ w'.
              (w'.list ≡ empty_list)
              × ((a : Ptr) → w'.heap a ≡ with_list g (last_of (q, u) xs ∷ []) a))
            (dispose_list fuel w)
    unfolding dispose_list load
    dispose_list-leaks {q} {u} {xs} fuel same enough =
        let chain = IsList-IsChain is same in
        let (ne, holds) = head-holds chain in
        let qn : (q == null) ≡ false = ground (arith, chain.nonnull) in
        simp (chain.first, ==_of_ne p null ne, holds, qn)
          (Returns.bind _ (dispose_loop fuel q w) _ (dispose_loop-last fuel xs chain enough)
            λ _ _ (_, memory). (refl, memory))

    -- From a represented list of one element, `DisposeList` reads through NULL, whatever the fuel
    -- above none.
    pub dispose_list-undefined :
        (k : ℕ) → z.before ++ z.after ≡ (p, v) ∷ [] → dispose_list (suc k) w ≡ undefined
    unfolding dispose_list dispose_loop load free
    dispose_list-undefined k same =
        let chain = IsList-IsChain is same in
        let (ne, holds) = head-holds chain in simp (chain.first, ==_of_ne p null ne, holds)
