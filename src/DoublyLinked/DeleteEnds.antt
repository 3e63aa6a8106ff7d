-- ===== src/DoublyLinked/DeleteEnds.antt =====
-- `DLDeleteFirst` and `DLDeleteLast`, by whether the element is the active one.
use school_projects.Base.{
  ◌≡◌, refl, Bool, false, some, [], ◌∷◌, ◌++◌, arith, ◌==◌, ==_refl, append_assoc, append-nil,
}
use school_projects.Base.Int.{ℤ}
use school_projects.Memory.{Ptr, null, Heap, modify, load, free}
use school_projects.Memory.Cells.{
  Cells, has, front, back, Distinct-append, has-append, has-back, front_ne, front-ne-null, is_empty,
  by_snoc, init, init-snoc,
}
use school_projects.ListView
use school_projects.ListView.{View, view}
use school_projects.Memory.Returns.{Returns}
use school_projects.DoublyLinked.{Elem, ListWorld, delete_first, delete_last}
use school_projects.DoublyLinked.Chain.{
  IsList, IsLinked, replaced, stretch, first_is, last_is, relinked,
}

abbrev clear_act : ListWorld → ListWorld
clear_act w = record w { list = record (w.list) { act = null } }

clear_act-IsLinked :
    {g : Heap Elem} {w : ListWorld} {xs : Cells} {act : Ptr} {e : Bool}
    → IsLinked g w xs act e
    → IsLinked g (clear_act w) xs null e
clear_act-IsLinked is = record {
  first = is.first;
  act_is = refl;
  last = is.last;
  errflg_is = is.errflg_is;
  chain = is.chain;
}

module _ {g : Heap Elem} {w : ListWorld} {e : Bool} where
  delete_first-keep :
      (xs : Cells) (a act : Ptr) (u : ℤ)
      → (act == a) ≡ false
      → IsLinked g w ((a, u) ∷ xs) act e
      → Returns (λ _ w'. IsLinked g w' xs act e) (delete_first w)
  unfolding delete_first modify load free
  delete_first-keep [] a act u miss is =
      let old : Cells = (a, u) ∷ [] in
      let st = stretch [] old [] is.chain in
      let an : (a == null) ≡ false = ground (arith, st.nonnull) in
      let at_a : w.heap a ≡ some (record { value = u; lptr = null; rptr = null }) =
        ground (arith, st.holds a, ==_refl a) in
      simp (is.act_is, is.first, is.last, miss, an, ==_refl a, at_a)
        (relinked [] [] [] refl refl refl is.errflg_is (
          replaced [] old [] [] is.chain (λ c. refl) (λ c. refl) (λ c. ground arith) tt refl
            λ c. ground arith))
  delete_first-keep ((b, t) ∷ xs) a act u miss is =
      let old : Cells = (a, u) ∷ (b, t) ∷ [] in
      let new : Cells = (b, t) ∷ [] in
      let st = stretch [] old xs is.chain in
      let an : (a == null) ≡ false = ground (arith, st.nonnull) in
      let bn : (b == null) ≡ false = ground (arith, st.nonnull) in
      let ab : (a == b) ≡ false = ground (arith, st.distinct) in
      let ba : (b == a) ≡ false = ground (arith, st.distinct) in
      let at_a : w.heap a ≡ some (record { value = u; lptr = null; rptr = b }) =
        ground (arith, st.holds a, ==_refl a) in
      let at_b : w.heap b ≡ some (record { value = t; lptr = a; rptr = front xs null }) =
        ground (arith, st.holds b, ba, ==_refl b) in
      let inner : (a == w.list.last) ≡ false =
        rw is.last (ground (arith, has-back b t xs, ab, st.not_right a, ==_refl a)) in
      simp (is.act_is, is.first, miss, inner, an, bn, ab, at_a, at_b)
        (relinked [] new xs refl refl is.last is.errflg_is (
          replaced [] old new xs is.chain (λ c. refl) (λ c. refl) (λ c. ground (arith, ab))
            (ground arith) (ground (arith, bn)) λ c. ground arith))

  delete_first-clear :
      (xs : Cells) (a : Ptr) (u : ℤ)
      → IsLinked g w ((a, u) ∷ xs) a e
      → delete_first w ≡ delete_first (clear_act w)
  unfolding delete_first
  delete_first-clear xs a u is =
      let an : (a == null) ≡ false = ground (arith, is.chain.nonnull) in
      let na : (null == a) ≡ false = ground (arith, is.chain.nonnull) in
      simp (is.act_is, is.first, ==_refl a, an, na)

  delete_last-keep :
      (xs : Cells) (a act : Ptr) (u : ℤ)
      → (act == a) ≡ false
      → IsLinked g w (xs ++ ((a, u) ∷ [])) act e
      → Returns (λ _ w'. IsLinked g w' xs act e) (delete_last w)
  unfolding delete_last modify load free
  delete_last-keep xs a act u miss is =
      by_snoc
        (λ xs.
          IsLinked g w (xs ++ ((a, u) ∷ [])) act e
          → Returns (λ _ w'. IsLinked g w' xs act e) (delete_last w))
        (λ is.
          let old : Cells = (a, u) ∷ [] in
          let st = stretch [] old [] is.chain in
          let an : (a == null) ≡ false = ground (arith, st.nonnull) in
          let at_a : w.heap a ≡ some (record { value = u; lptr = null; rptr = null }) =
            ground (arith, st.holds a, ==_refl a) in
          simp (is.act_is, is.first, is.last, miss, an, ==_refl a, at_a)
            (relinked [] [] [] refl refl refl is.errflg_is (
              replaced [] old [] [] is.chain (λ c. refl) (λ c. refl) (λ c. ground arith) tt refl
                λ c. ground arith)))
        (λ us b t is'.
          let old : Cells = (b, t) ∷ (a, u) ∷ [] in
          let new : Cells = (b, t) ∷ [] in
          let is : IsLinked g w (us ++ (old ++ [])) act e = rw append_assoc at is' in
          let st = stretch us old [] is.chain in
          let an : (a == null) ≡ false = ground (arith, st.nonnull) in
          let bn : (b == null) ≡ false = ground (arith, st.nonnull) in
          let ab : (a == b) ≡ false = ground (arith, st.distinct) in
          let at_a : w.heap a ≡ some (record { value = u; lptr = b; rptr = null }) =
            ground (arith, st.holds a, ab, ==_refl a) in
          let at_b : w.heap b ≡ some (record { value = t; lptr = back null us; rptr = a }) =
            ground (arith, st.holds b, ==_refl b) in
          let fst = first_is us old [] is in
          let fn : (w.list.first == null) ≡ false =
            rw fst
              (front-ne-null us b (ground (arith, is.chain.nonnull, has-append null us old)) bn) in
          let inner : (w.list.first == a) ≡ false =
            rw fst (front_ne us a b (st.not_left a (ground (arith, ==_refl a))) ab) in
          simp (is.act_is, last_is us old [] is, miss, fn, inner, an, bn, ab, at_a, at_b)
            (relinked us new [] fst refl refl is.errflg_is (
              replaced us old new [] is.chain (λ c. refl) (λ c. refl) (λ c. ground (arith, ab))
                (ground arith) (ground (arith, bn)) λ c. ground arith)))
        xs is

  delete_last-clear :
      (xs : Cells) (a : Ptr) (u : ℤ)
      → IsLinked g w (xs ++ ((a, u) ∷ [])) a e
      → delete_last w ≡ delete_last (clear_act w)
  unfolding delete_last
  delete_last-clear xs a u is =
      let old : Cells = (a, u) ∷ [] in
      let st = stretch xs old [] is.chain in
      let an : (a == null) ≡ false = ground (arith, st.nonnull) in
      let na : (null == a) ≡ false = ground (arith, st.nonnull) in
      let fn : (w.list.first == null) ≡ false =
        rw (first_is xs old [] is)
          (front-ne-null xs a (ground (arith, is.chain.nonnull, has-append null xs old)) an) in
      simp (is.act_is, last_is xs old [] is, ==_refl a, fn, na)

module _ {g : Heap Elem} {w : ListWorld} {e : Bool} where
  -- If the removed element is the active one, the cursor is lost.
  delete_first-lost :
      (xs : Cells) (a : Ptr) (u : ℤ)
      → IsLinked g w ((a, u) ∷ xs) a e
      → Returns (λ _ w'. IsLinked g w' xs null e) (delete_first w)
  delete_first-lost xs a u is =
      rw (delete_first-clear xs a u is)
        (delete_first-keep xs a null u (ground (arith, is.chain.nonnull)) (clear_act-IsLinked is))

  delete_last-lost :
      (xs : Cells) (a : Ptr) (u : ℤ)
      → IsLinked g w (xs ++ ((a, u) ∷ [])) a e
      → Returns (λ _ w'. IsLinked g w' xs null e) (delete_last w)
  delete_last-lost xs a u is =
      let st = stretch xs ((a, u) ∷ []) [] is.chain in
      rw (delete_last-clear xs a u is)
        (delete_last-keep xs a null u (ground (arith, st.nonnull)) (clear_act-IsLinked is))

  pub delete_first_lem :
      (ys zs : Cells)
      → IsList g w (view ys zs e)
      → Returns (λ _ w'. IsList g w' (ListView.delete_first ys zs e)) (delete_first w)
  unfolding delete_first
  delete_first_lem [] [] is = simp (is.first) is
  delete_first_lem [] ((a, u) ∷ zs) is = simp append-nil (delete_first-lost zs a u is)
  delete_first_lem ((a, u) ∷ ys) zs is =
      let an : (a == null) ≡ false = ground (arith, is.chain.nonnull) in
      let az : has a zs ≡ false = ground (arith, is.chain.distinct, has-append a ys zs) in
      delete_first-keep (ys ++ zs) a (front zs null) u (front_ne zs a null az an) is

  -- The last element of the list stands before the cursor, if there is no active element.
  delete_last-inactive :
      (ys : Cells)
      → IsLinked g w ys null e
      → Returns (λ _ w'. IsLinked g w' (init ys) null e) (delete_last w)
  unfolding delete_last
  delete_last-inactive ys is =
      by_snoc
        (λ ys.
          IsLinked g w ys null e → Returns (λ _ w'. IsLinked g w' (init ys) null e) (delete_last w))
        (λ is. simp (is.first) is)
        (λ us a u is.
          let st = stretch us ((a, u) ∷ []) [] is.chain in
          simp init-snoc (delete_last-keep us a null u (ground (arith, st.nonnull)) is))
        ys is

  delete_last-split :
      (ys us : Cells) (a : Ptr) (u : ℤ)
      → IsLinked g w (ys ++ (us ++ ((a, u) ∷ []))) (front (us ++ ((a, u) ∷ [])) null) e
      → Returns (λ _ w'. IsLinked g w' (ys ++ us) (front us null) e) (delete_last w)
  delete_last-split ys [] a u is = simp append-nil (delete_last-lost ys a u is)
  delete_last-split ys ((d, s) ∷ us) a u is =
      let xs : Cells = (d, s) ∷ (us ++ ((a, u) ∷ [])) in
      let distinct = Distinct-append ys xs is.chain.distinct in
      let da : (d == a) ≡ false = ground (arith, distinct.1.0, has-append d us ((a, u) ∷ [])) in
      delete_last-keep (ys ++ ((d, s) ∷ us)) a d u da (rw append_assoc is)

  delete_last-active :
      (ys zs : Cells)
      → is_empty zs ≡ false
      → IsLinked g w (ys ++ zs) (front zs null) e
      → Returns (λ _ w'. IsLinked g w' (ys ++ init zs) (front (init zs) null) e) (delete_last w)
  delete_last-active ys zs =
      by_snoc
        (λ zs.
          is_empty zs ≡ false
          → IsLinked g w (ys ++ zs) (front zs null) e
          → Returns (λ _ w'. IsLinked g w' (ys ++ init zs) (front (init zs) null) e)
              (delete_last w))
        (λ empty is. cc) (λ us a u some_left is. simp init-snoc (delete_last-split ys us a u is)) zs

  -- From a represented list, `DLDeleteLast` unlinks and frees the last element, with the cursor
  -- lost if it was active; it does nothing to an empty list.
  pub delete_last_lem :
      (ys zs : Cells)
      → IsList g w (view ys zs e)
      → Returns (λ _ w'. IsList g w' (ListView.delete_last ys zs e)) (delete_last w)
  delete_last_lem ys [] is = simp append-nil (delete_last-inactive ys (rw append-nil at is))
  delete_last_lem ys (z ∷ zs) is = delete_last-active ys (z ∷ zs) refl is
