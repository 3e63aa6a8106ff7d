-- ===== src/SinglyLinked/Delete.antt =====
-- `DeleteFirst` and `PostDelete`.
use school_projects.Base.{
  ◌≡◌, refl, ◌≢◌, Bool, false, none, some, [], ◌∷◌, ◌++◌, arith, ◌==◌, if◌then◌else◌, ==_of_ne,
  ==_refl, append-nil,
}
use school_projects.Base.Int.{ℤ}
use school_projects.Memory.{Ptr, null, Heap, modify, load, free}
use school_projects.Memory.Cells.{Cells, has, front, has-append, append-Distinct, front-append}
use school_projects.ListView
use school_projects.ListView.{View, view}
use school_projects.Memory.Returns.{Returns}
use school_projects.SinglyLinked.{Elem, ListWorld, delete_first, post_delete}
use school_projects.SinglyLinked.Chain.{element-append, IsList, active_lem, first-holds}

not_front :
    (a : Ptr) (ys zs : Cells) → has a (ys ++ zs) ≡ false → a ≢ null → (a == front zs null) ≡ false
not_front a ys [] out ne = ==_of_ne a null ne
not_front a ys (z ∷ zs) out ne = ground (arith, has-append a ys (z ∷ zs))

module _ {g : Heap Elem} {w : ListWorld} where
  -- The element after the active one is allocated.
  second-holds :
      {ys zs : Cells} {a b : Ptr} {u t : ℤ} {e : Bool}
      → IsList g w (view ys ((a, u) ∷ (b, t) ∷ zs) e)
      → w.heap b ≡ some (record { ptr = front zs null; value = t })
  second-holds {ys} {zs} {a} {b} {u} {t} is =
      let ac = active_lem is in
      let xs = (a, u) ∷ (b, t) ∷ zs in
      ground (
        arith,
        is.memory b,
        ac.not_after,
        ac.disjoint b,
        ==_refl b,
        has-append b ys xs,
        element-append b null ys xs,
      )

  -- The effect of `PostDelete` on the memory, and what it makes of the list.
  linked_out :
      {ys zs : Cells} {a b : Ptr} {u t : ℤ} {e : Bool} {w' : ListWorld}
      → IsList g w (view ys ((a, u) ∷ (b, t) ∷ zs) e)
      → w'.list ≡ w.list
      → w'.errflg ≡ w.errflg
      → ((c : Ptr)
          → w'.heap c ≡ (
              if c == b
              then none
              else if c == a
              then some (record { ptr = front zs null; value = u })
              else w.heap c))
      → IsList g w' (view ys ((a, u) ∷ zs) e)
  linked_out {ys} {zs} {a} {b} {u} {t} {w'} is same_list same_errflg effect =
      let ac = active_lem is in
      let old = (a, u) ∷ (b, t) ∷ zs in
      let new = (a, u) ∷ zs in
      record {
        first = rw (same_list, front-append ys new) (rw (front-append ys old) at is.first);
        act = rw same_list is.act;
        errflg = rw same_errflg is.errflg;
        memory = λ c. ground (
          arith,
          effect c,
          is.memory c,
          is.apart b,
          ac.not_before,
          ac.not_after,
          ac.distinct_after,
          ac.disjoint c,
          ac.disjoint b,
          ==_refl b,
          has-append b ys old,
          has-append c ys old,
          has-append c ys new,
          element-append c null ys old,
          element-append c null ys new,
        );
        distinct =
            append-Distinct ys _ ac.distinct_before
              (ground (arith, ac.not_after, ac.distinct_after))
              λ c h. ground (arith, ac.disjoint c, ac.not_before);
        nonnull = ground (arith, is.nonnull, has-append null ys old, has-append null ys new);
        apart = λ c. ground (arith, is.apart c, has-append c ys old, has-append c ys new);
      }

  pub post_delete_lem :
      (ys zs : Cells) (e : Bool)
      → IsList g w (view ys zs e)
      → Returns (λ _ w'. IsList g w' (ListView.post_delete ys zs e)) (post_delete w)
  unfolding post_delete modify load free
  post_delete_lem ys [] e is = simp (is.act) is
  post_delete_lem ys ((a, u) ∷ []) e is =
      let ac = active_lem is in simp (is.act, ==_of_ne a null ac.nonnull, ac.holds) is
  post_delete_lem ys ((a, u) ∷ (b, t) ∷ zs) e is =
      let ac = active_lem is in
      let bn : (b == null) ≡ false = ground (arith, ac.nonnull_after) in
      let ba : (b == a) ≡ false = ground (arith, ac.not_after) in
      let holds : w.heap b ≡ some (record { ptr = front zs null; value = t }) = second-holds is in
      simp (is.act, ==_of_ne a null ac.nonnull, ac.holds, bn, ba, holds)
        (linked_out is (rw is.act) refl λ b. ground (arith, ac.holds))

  -- The effect of `DeleteFirst` on the memory, and what it makes of the list.
  unlinked :
      {z z' : View} {a : Ptr} {u : ℤ} {w' : ListWorld}
      → IsList g w z
      → z.before ++ z.after ≡ (a, u) ∷ (z'.before ++ z'.after)
      → w'.list.first ≡ front (z'.before ++ z'.after) null
      → w'.list.act ≡ front z'.after null
      → w'.errflg ≡ z'.errflg
      → ((c : Ptr) → w'.heap c ≡ (if c == a then none else w.heap c))
      → IsList g w' z'
  unlinked {z} {z'} {a} is same first act errflg effect =
      let distinct = rw same at is.distinct in
      record {
        first = first;
        act = act;
        errflg = errflg;
        memory = λ c.
            ground
              (arith, effect c, rw same at is.memory c, rw same at is.apart a, distinct, ==_refl a);
        distinct = distinct.1;
        nonnull = ground (arith, rw same at is.nonnull);
        apart = λ c. ground (arith, rw same at is.apart c);
      }

  pub delete_first_lem :
      (ys zs : Cells) (e : Bool)
      → IsList g w (view ys zs e)
      → Returns (λ _ w'. IsList g w' (ListView.delete_first ys zs e)) (delete_first w)
  unfolding delete_first load free
  delete_first_lem [] [] e is = simp (is.first) is
  delete_first_lem [] ((a, u) ∷ zs) e is =
      let (ne, holds) = first-holds a u is refl in
      simp (is.first, is.act, ==_of_ne a null ne, ==_refl a, holds)
        (unlinked {z' = view zs [] e} {u = u} is (rw append-nil) (rw append-nil) refl is.errflg
          λ c. refl)
  delete_first_lem ((a, u) ∷ ys) zs e is =
      let (ne, holds) = first-holds a u is refl in
      let kept : (a == w.list.act) ≡ false = rw is.act (not_front a ys zs is.distinct.0 ne) in
      simp (is.first, kept, ==_of_ne a null ne, holds)
        (unlinked {z' = view ys zs e} {u = u} is refl refl is.act is.errflg λ c. refl)
