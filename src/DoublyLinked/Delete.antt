-- ===== src/DoublyLinked/Delete.antt =====
-- `DLPostDelete` and `DLPreDelete`.
use school_projects.Base.{
  ◌≡◌, refl, Bool, false, some, [], ◌∷◌, ◌++◌, arith, ◌==◌, ==_of_ne, ==_refl, append_assoc,
}
use school_projects.Base.Int.{ℤ}
use school_projects.Memory.{Ptr, null, Heap, modify, load, free}
use school_projects.Memory.Cells.{Cells, front, back, has-back, ne_front, by_snoc, init-snoc}
use school_projects.ListView
use school_projects.ListView.{View, view}
use school_projects.Memory.Returns.{Returns}
use school_projects.DoublyLinked.{Elem, ListWorld, post_delete, pre_delete}
use school_projects.DoublyLinked.Chain.{
  IsList, IsLinked, replaced, stretch, first_is, last_is, relinked, active-ne-null,
}

module _ {g : Heap Elem} {w : ListWorld} {e : Bool} where
  post_delete-last :
      (ys : Cells) (a b : Ptr) (u t : ℤ)
      → IsLinked g w (ys ++ ((a, u) ∷ (b, t) ∷ [])) a e
      → Returns (λ _ w'. IsLinked g w' (ys ++ ((a, u) ∷ [])) a e) (post_delete w)
  unfolding post_delete modify load free
  post_delete-last ys a b u t is =
      let old : Cells = (a, u) ∷ (b, t) ∷ [] in
      let new : Cells = (a, u) ∷ [] in
      let st = stretch ys old [] is.chain in
      let an : (a == null) ≡ false = ground (arith, st.nonnull) in
      let bn : (b == null) ≡ false = ground (arith, st.nonnull) in
      let ab : (a == b) ≡ false = ground (arith, st.distinct) in
      let ba : (b == a) ≡ false = ground (arith, st.distinct) in
      let at_a : w.heap a ≡ some (record { value = u; lptr = back null ys; rptr = b }) =
        ground (arith, st.holds a, ==_refl a) in
      let at_b : w.heap b ≡ some (record { value = t; lptr = a; rptr = null }) =
        ground (arith, st.holds b, ba, ==_refl b) in
      simp (==_refl b, is.act_is, an, bn, ab, ba, last_is ys old [] is, at_a, at_b)
        (relinked ys new [] (first_is ys old [] is) refl refl is.errflg_is (
          replaced ys old new [] is.chain (λ c. refl) (λ c. refl) (λ c. ground (arith, ab))
            (ground arith) (ground (arith, an)) λ c. ground arith))

  post_delete-middle :
      (ys zs : Cells) (a b c : Ptr) (u t s : ℤ)
      → IsLinked g w (ys ++ ((a, u) ∷ (b, t) ∷ (c, s) ∷ zs)) a e
      → Returns (λ _ w'. IsLinked g w' (ys ++ ((a, u) ∷ (c, s) ∷ zs)) a e) (post_delete w)
  unfolding post_delete modify load free
  post_delete-middle ys zs a b c u t s is =
      let old : Cells = (a, u) ∷ (b, t) ∷ (c, s) ∷ [] in
      let new : Cells = (a, u) ∷ (c, s) ∷ [] in
      let st = stretch ys old zs is.chain in
      let an : (a == null) ≡ false = ground (arith, st.nonnull) in
      let bn : (b == null) ≡ false = ground (arith, st.nonnull) in
      let cn : (c == null) ≡ false = ground (arith, st.nonnull) in
      let ba : (b == a) ≡ false = ground (arith, st.distinct) in
      let bc : (b == c) ≡ false = ground (arith, st.distinct) in
      let ca : (c == a) ≡ false = ground (arith, st.distinct) in
      let at_a : w.heap a ≡ some (record { value = u; lptr = back null ys; rptr = b }) =
        ground (arith, st.holds a, ==_refl a) in
      let at_b : w.heap b ≡ some (record { value = t; lptr = a; rptr = c }) =
        ground (arith, st.holds b, ba, ==_refl b) in
      let at_c : w.heap c ≡ some (record { value = s; lptr = b; rptr = front zs null }) =
        ground (arith, st.holds c, ca, bc, ==_refl c) in
      let lst = last_is ys old zs is in
      let a_inner : (a == w.list.last) ≡ false =
        rw lst (ground (arith, has-back c s zs, ca, st.not_right a, ==_refl a)) in
      let b_inner : (b == w.list.last) ≡ false =
        rw lst (ground (arith, has-back c s zs, bc, st.not_right b, ==_refl b)) in
      simp (is.act_is, an, bn, cn, ba, bc, ca, a_inner, b_inner, at_a, at_b, at_c)
        (relinked ys new zs (first_is ys old zs is) is.act_is lst is.errflg_is (
          replaced ys old new zs is.chain (λ d. refl) (λ d. refl) (λ d. ground (arith, ba, bc, ca))
            (ground (arith, ca)) (ground (arith, an, cn)) λ d. ground arith))

  -- From a represented list, `DLPostDelete` unlinks and frees the element behind the active one,
  -- and does nothing if there is none or no active element.
  pub post_delete_lem :
      (ys zs : Cells)
      → IsList g w (view ys zs e)
      → Returns (λ _ w'. IsList g w' (ListView.post_delete ys zs e)) (post_delete w)
  unfolding post_delete
  post_delete_lem ys [] is = simp (is.act_is) is
  post_delete_lem ys ((a, u) ∷ []) is =
      let an : (a == null) ≡ false = ==_of_ne a null (active-ne-null ys [] a u is) in
      simp (is.act_is, an, last_is ys ((a, u) ∷ []) [] is, ==_refl a) is
  post_delete_lem ys ((a, u) ∷ (b, t) ∷ []) is = post_delete-last ys a b u t is
  post_delete_lem ys ((a, u) ∷ (b, t) ∷ (c, s) ∷ zs) is = post_delete-middle ys zs a b c u t s is

  pre_delete-first :
      (zs : Cells) (a b : Ptr) (u t : ℤ)
      → IsLinked g w ((b, t) ∷ (a, u) ∷ zs) a e
      → Returns (λ _ w'. IsLinked g w' ((a, u) ∷ zs) a e) (pre_delete w)
  unfolding pre_delete modify load free
  pre_delete-first zs a b u t is =
      let old : Cells = (b, t) ∷ (a, u) ∷ [] in
      let new : Cells = (a, u) ∷ [] in
      let st = stretch [] old zs is.chain in
      let an : (a == null) ≡ false = ground (arith, st.nonnull) in
      let bn : (b == null) ≡ false = ground (arith, st.nonnull) in
      let ab : (a == b) ≡ false = ground (arith, st.distinct) in
      let ba : (b == a) ≡ false = ground (arith, st.distinct) in
      let at_a : w.heap a ≡ some (record { value = u; lptr = b; rptr = front zs null }) =
        ground (arith, st.holds a, ab, ==_refl a) in
      let at_b : w.heap b ≡ some (record { value = t; lptr = null; rptr = a }) =
        ground (arith, st.holds b, ==_refl b) in
      simp (==_refl b, is.act_is, is.first, an, bn, ab, ba, at_a, at_b)
        (relinked [] new zs refl refl (last_is [] old zs is) is.errflg_is (
          replaced [] old new zs is.chain (λ c. refl) (λ c. refl) (λ c. ground (arith, ab))
            (ground arith) (ground (arith, an)) λ c. ground arith))

  pre_delete-middle :
      (ys zs : Cells) (a b c : Ptr) (u t s : ℤ)
      → IsLinked g w (ys ++ ((c, s) ∷ (b, t) ∷ (a, u) ∷ zs)) a e
      → Returns (λ _ w'. IsLinked g w' (ys ++ ((c, s) ∷ (a, u) ∷ zs)) a e) (pre_delete w)
  unfolding pre_delete modify load free
  pre_delete-middle ys zs a b c u t s is =
      let old : Cells = (c, s) ∷ (b, t) ∷ (a, u) ∷ [] in
      let new : Cells = (c, s) ∷ (a, u) ∷ [] in
      let st = stretch ys old zs is.chain in
      let an : (a == null) ≡ false = ground (arith, st.nonnull) in
      let bn : (b == null) ≡ false = ground (arith, st.nonnull) in
      let cn : (c == null) ≡ false = ground (arith, st.nonnull) in
      let ba : (b == a) ≡ false = ground (arith, st.distinct) in
      let bc : (b == c) ≡ false = ground (arith, st.distinct) in
      let ca : (c == a) ≡ false = ground (arith, st.distinct) in
      let ac : (a == c) ≡ false = ground (arith, st.distinct) in
      let at_c : w.heap c ≡ some (record { value = s; lptr = back null ys; rptr = b }) =
        ground (arith, st.holds c, ==_refl c) in
      let at_b : w.heap b ≡ some (record { value = t; lptr = c; rptr = a }) =
        ground (arith, st.holds b, bc, ==_refl b) in
      let at_a : w.heap a ≡ some (record { value = u; lptr = b; rptr = front zs null }) =
        ground (arith, st.holds a, ca, ba, ==_refl a) in
      let fst = first_is ys old zs is in
      let a_inner : (a == w.list.first) ≡ false =
        rw fst (ne_front ys a c (st.not_left a (ground (arith, ==_refl a))) ac) in
      let b_inner : (b == w.list.first) ≡ false =
        rw fst (ne_front ys b c (st.not_left b (ground (arith, ==_refl b))) bc) in
      simp (is.act_is, an, bn, cn, ba, bc, ca, a_inner, b_inner, at_a, at_b, at_c)
        (relinked ys new zs fst is.act_is (last_is ys old zs is) is.errflg_is (
          replaced ys old new zs is.chain (λ d. refl) (λ d. refl) (λ d. ground (arith, ba, bc, ca))
            (ground (arith, ca)) (ground (arith, an, cn)) λ d. ground arith))

  pre_delete-snoc :
      (ys zs : Cells) (a b : Ptr) (u t : ℤ)
      → IsLinked g w (ys ++ ((b, t) ∷ (a, u) ∷ zs)) a e
      → Returns (λ _ w'. IsLinked g w' (ys ++ ((a, u) ∷ zs)) a e) (pre_delete w)
  pre_delete-snoc ys zs a b u t =
      by_snoc
        (λ ys.
          IsLinked g w (ys ++ ((b, t) ∷ (a, u) ∷ zs)) a e
          → Returns (λ _ w'. IsLinked g w' (ys ++ ((a, u) ∷ zs)) a e) (pre_delete w))
        (pre_delete-first zs a b u t)
        (λ us c s is.
          simp append_assoc (pre_delete-middle us zs a b c u t s (rw append_assoc at is)))
        ys

  -- From a represented list, `DLPreDelete` unlinks and frees the element before the active one,
  -- and does nothing if there is none or no active element.
  pub pre_delete_lem :
      (ys zs : Cells)
      → IsList g w (view ys zs e)
      → Returns (λ _ w'. IsList g w' (ListView.pre_delete ys zs e)) (pre_delete w)
  unfolding pre_delete
  pre_delete_lem ys [] is = simp (is.act_is) is
  pre_delete_lem ys ((a, u) ∷ zs) is =
      by_snoc
        (λ ys.
          IsList g w (view ys ((a, u) ∷ zs) e)
          → Returns (λ _ w'. IsList g w' (ListView.pre_delete ys ((a, u) ∷ zs) e)) (pre_delete w))
        (λ is.
          let an : (a == null) ≡ false = ==_of_ne a null (active-ne-null [] zs a u is) in
          simp (is.act_is, an, is.first, ==_refl a) is)
        (λ us b t is. simp init-snoc (pre_delete-snoc us zs a b u t (rw append_assoc at is))) ys is
