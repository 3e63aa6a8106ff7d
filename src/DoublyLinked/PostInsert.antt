-- ===== src/DoublyLinked/PostInsert.antt =====
-- `DLPostInsert`: the new element stands last, or between two elements.
use school_projects.Base.{
  ◌≡◌, refl, ◌≢◌, inl, inr, Bool, true, false, some, [], ◌∷◌, ◌++◌, arith, ◌==◌, ==_of_ne, ==_refl,
  Bool-cases,
}
use school_projects.Base.Int.{ℤ}
use school_projects.Memory.{Ptr, null, Heap, Malloc, next_address, allocate, modify, load}
use school_projects.Memory.Cells.{Cells, front, back, has-append, has-back}
use school_projects.ListView
use school_projects.ListView.{View, view}
use school_projects.Memory.Returns.{Returns}
use school_projects.DoublyLinked.{Elem, ListWorld, post_insert}
use school_projects.DoublyLinked.Chain.{
  IsList, IsLinked, replaced, stretch, fresh, first_is, last_is, relinked, active-ne-null,
}

module _ {g : Heap Elem} {w : ListWorld} {e : Bool} (m : Malloc Elem) (v : ℤ) where
  post_insert-last :
      (ys : Cells) (a : Ptr) (u : ℤ)
      → IsLinked g w (ys ++ ((a, u) ∷ [])) a e
      → next_address m w ≢ null
      → Returns
          (λ _ w'. IsLinked g w' (ys ++ ((a, u) ∷ (next_address m w, v) ∷ [])) a e)
          (post_insert m v w)
  unfolding post_insert allocate modify load
  post_insert-last ys a u is ne =
      let p = next_address m w in
      let old : Cells = (a, u) ∷ [] in
      let new : Cells = (a, u) ∷ (p, v) ∷ [] in
      let st = stretch ys old [] is.chain in
      let an : (a == null) ≡ false = ground (arith, st.nonnull) in
      let fr = fresh m is.chain ne in
      let ap : (a == p) ≡ false = ground (arith, fr, has-append p ys old) in
      let at_a : w.heap a ≡ some (record { value = u; lptr = back null ys; rptr = null }) =
        ground (arith, st.holds a, ==_refl a) in
      simp (==_of_ne p null ne, ==_refl p, ==_refl a, is.act_is, an, ap, last_is ys old [] is, at_a)
        (relinked ys new [] (first_is ys old [] is) refl refl is.errflg_is (
          replaced ys old new [] is.chain (λ b. refl) (λ b. refl) (λ b. ground arith)
            (ground (arith, ap)) (ground (arith, an)) λ b. ground (arith, fr)))

  post_insert-middle :
      (ys zs : Cells) (a b : Ptr) (u t : ℤ)
      → IsLinked g w (ys ++ ((a, u) ∷ (b, t) ∷ zs)) a e
      → next_address m w ≢ null
      → Returns
          (λ _ w'. IsLinked g w' (ys ++ ((a, u) ∷ (next_address m w, v) ∷ (b, t) ∷ zs)) a e)
          (post_insert m v w)
  unfolding post_insert allocate modify load
  post_insert-middle ys zs a b u t is ne =
      let p = next_address m w in
      let old : Cells = (a, u) ∷ (b, t) ∷ [] in
      let new : Cells = (a, u) ∷ (p, v) ∷ (b, t) ∷ [] in
      let st = stretch ys old zs is.chain in
      let an : (a == null) ≡ false = ground (arith, st.nonnull) in
      let bn : (b == null) ≡ false = ground (arith, st.nonnull) in
      let ab : (a == b) ≡ false = ground (arith, st.distinct) in
      let fr = fresh m is.chain ne in
      let ap : (a == p) ≡ false = ground (arith, fr, has-append p ys (old ++ zs)) in
      let bp : (b == p) ≡ false = ground (arith, fr, has-append p ys (old ++ zs)) in
      let at_a : w.heap a ≡ some (record { value = u; lptr = back null ys; rptr = b }) =
        ground (arith, st.holds a, ==_refl a) in
      let at_b : w.heap b ≡ some (record { value = t; lptr = a; rptr = front zs null }) =
        ground (arith, st.holds b, ab, ==_refl b) in
      let inner : (a == w.list.last) ≡ false =
        rw (last_is ys old zs is)
          (ground (arith, has-back b t zs, ab, st.not_right a, ==_refl a)) in
      simp (==_of_ne p null ne, ==_refl p, is.act_is, an, bn, ap, bp, ab, inner, at_a, at_b)
        (relinked ys new zs (first_is ys old zs is) is.act_is (last_is ys old zs is) is.errflg_is (
          replaced ys old new zs is.chain (λ c. refl) (λ c. refl) (λ c. ground (arith, ab, bp, ap))
            (ground (arith, ap, ab, bp)) (ground (arith, an, bn)) λ c. ground (arith, fr)))

  post_insert-null :
      {xs : Cells} {a : Ptr}
      → IsLinked g w xs a e
      → a ≢ null
      → next_address m w ≡ null
      → Returns (λ _ w'. IsLinked g w' xs a true) (post_insert m v w)
  unfolding post_insert allocate
  post_insert-null {a} is an out =
      simp (is.act_is, ==_of_ne a null an, out)
        (record {
          first = is.first;
          act_is = is.act_is;
          last = is.last;
          errflg_is = refl;
          chain = is.chain;
        })

  -- From a represented list, `DLPostInsert` puts the value behind the active element and links it
  -- both ways; without memory it sets the error flag only, and without an active element it does
  -- nothing.
  pub post_insert_lem :
      (ys zs : Cells)
      → IsList g w (view ys zs e)
      → Returns
          (λ _ w'. IsList g w' (ListView.post_insert (next_address m w) v ys zs e))
          (post_insert m v w)
  unfolding post_insert
  post_insert_lem ys [] is = simp (is.act_is) is
  post_insert_lem ys ((a, u) ∷ []) is = elim (Bool-cases (next_address m w == null)) [
    | inl out ↦ rw out (post_insert-null is (active-ne-null ys [] a u is) (ground arith))
    | inr got ↦ rw got (post_insert-last ys a u is (ground arith))
  ]
  post_insert_lem ys ((a, u) ∷ (b, t) ∷ zs) is = elim (Bool-cases (next_address m w == null)) [
    | inl out ↦ rw out (post_insert-null is (active-ne-null ys ((b, t) ∷ zs) a u is) (ground arith))
    | inr got ↦ rw got (post_insert-middle ys zs a b u t is (ground arith))
  ]
