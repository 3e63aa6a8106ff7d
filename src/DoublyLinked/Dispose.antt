-- ===== src/DoublyLinked/Dispose.antt =====
-- `DLInitList` and `DLDisposeList`.
use school_projects.Base.{
  ◌≡◌, refl, Bool, true, false, none, some, [], ◌∷◌, ◌++◌, arith, ◌==◌, ℕ, zero, suc, ◌<◌, length,
  if◌then◌else◌, ==_refl, ◌∙◌,
}
use school_projects.Memory.{Ptr, null, Heap, load, free}
use school_projects.Memory.Cells.{Cells, has, front, Distinct}
use school_projects.ListView.{view}
use school_projects.Memory.Returns.{Returns}
use school_projects.Memory.Returns
use school_projects.DoublyLinked.{Elem, ListWorld, init_list, dispose_loop, dispose_list}
use school_projects.DoublyLinked.Chain.{element, IsList, IsLinked}
use school_projects.DoublyLinked.{TdlList}

abbrev pub empty_list : TdlList
empty_list = record { first = null; act = null; last = null }

-- An uninitialised list variable becomes an empty list, and no memory is touched.
pub init_list-empty :
    (w : ListWorld) → Returns (λ _ w'. IsList w.heap w' (view [] [] w.errflg)) (init_list w)
unfolding init_list
init_list-empty w = record {
  first = refl;
  act_is = refl;
  last = refl;
  errflg_is = refl;
  chain = record { memory = λ a. refl; distinct = tt; nonnull = refl; apart = λ a h. ground arith };
}

-- What the loop knows of the elements that are left: they are linked forwards, but the first may lead
-- back to an element that is gone.
record IsLeft (g : Heap Elem) (w : ListWorld) (start : Ptr) (xs : Cells) : Type 0 where
  first : w.list.first ≡ front xs null
  memory : (a : Ptr) → w.heap a ≡ (if has a xs then element start xs null a else g a)
  distinct : Distinct xs
  nonnull : has null xs ≡ false
  apart : (a : Ptr) → has a xs ≡ true → g a ≡ none

module _ {g : Heap Elem} where
  dispose_loop-frees :
      (k : ℕ) {w : ListWorld} {start : Ptr} (xs : Cells)
      → IsLeft g w start xs
      → length xs < k
      → Returns (λ _ w'. (w'.errflg ≡ w.errflg) × ((a : Ptr) → w'.heap a ≡ g a)) (dispose_loop k w)
  unfolding dispose_loop load free
  dispose_loop-frees zero xs is fuel = absurd (omega arith)
  dispose_loop-frees (suc k) [] is fuel = simp (is.first) (refl, is.memory)
  dispose_loop-frees (suc k) {w} {start} ((p, v) ∷ xs) is fuel =
      let pn : (p == null) ≡ false = ground (arith, is.nonnull) in
      let holds : w.heap p ≡ some (record { value = v; lptr = start; rptr = front xs null }) =
        ground (arith, is.memory p, ==_refl p) in
      simp (is.first, pn, holds)
        (dispose_loop-frees k {start = p} xs
          (record {
            first = refl;
            memory = λ a. ground (arith, is.memory a, is.apart p, is.distinct, ==_refl p);
            distinct = is.distinct.1;
            nonnull = ground (arith, is.nonnull);
            apart = λ a. ground (arith, is.apart a);
          })
          (omega arith))

  dispose_list-linked :
      {w : ListWorld} (fuel : ℕ) (xs : Cells) {act : Ptr} {e : Bool}
      → IsLinked g w xs act e
      → length xs < fuel
      → Returns
          (λ _ w'. (w'.list ≡ empty_list) × (w'.errflg ≡ e) × ((a : Ptr) → w'.heap a ≡ g a))
          (dispose_list fuel w)
  unfolding dispose_list
  dispose_list-linked fuel [] is enough = simp (is.first) (refl, is.errflg_is, is.chain.memory)
  dispose_list-linked {w} fuel ((p, v) ∷ xs) is enough =
      let pn : (p == null) ≡ false = ground (arith, is.chain.nonnull) in
      simp (is.first, pn)
        (Returns.bind _ (dispose_loop fuel w) _
          (dispose_loop-frees fuel {start = null} ((p, v) ∷ xs)
            (record {
              first = is.first;
              memory = is.chain.memory;
              distinct = is.chain.distinct;
              nonnull = is.chain.nonnull;
              apart = is.chain.apart;
            })
            enough)
          λ _ w' (same, gone). (refl, same ∙ is.errflg_is, gone))

  -- From a represented list, and with more fuel than elements, `DLDisposeList` frees every element
  -- and nothing else, and leaves the variable as after `DLInitList` and the error flag as it was.
  pub dispose_list-frees :
      {w : ListWorld} (fuel : ℕ) (ys zs : Cells) {e : Bool}
      → IsList g w (view ys zs e)
      → length (ys ++ zs) < fuel
      → Returns
          (λ _ w'. (w'.list ≡ empty_list) × (w'.errflg ≡ e) × ((a : Ptr) → w'.heap a ≡ g a))
          (dispose_list fuel w)
  dispose_list-frees fuel ys zs is enough = dispose_list-linked fuel (ys ++ zs) is enough
