-- ===== src/DoublyLinked/PreInsert.antt =====
-- `DLPreInsert`: the new element stands first, or between two elements.
use school_projects.Base.{
  ◌≡◌, refl, ◌≢◌, inl, inr, Bool, true, false, some, [], ◌∷◌, ◌++◌, arith, ◌==◌, ==_of_ne, ==_refl,
  Bool-cases, append_assoc,
}
use school_projects.Base.Int.{ℤ}
use school_projects.Memory.{Ptr, null, Heap, Malloc, next_address, allocate, modify, load}
use school_projects.Memory.Cells.{Cells, front, back, has-append, ne_front, by_snoc}
use school_projects.ListView
use school_projects.ListView.{View, view}
use school_projects.Memory.Returns.{Returns}
use school_projects.DoublyLinked.{Elem, ListWorld, pre_insert}
use school_projects.DoublyLinked.Chain.{
  IsList, IsLinked, replaced, stretch, fresh, first_is, last_is, relinked, active-ne-null,
}

module _ {g : Heap Elem} {w : ListWorld} {e : Bool} (m : Malloc Elem) (v : ℤ) where
  pre_insert-first :
      (zs : Cells) (a : Ptr) (u : ℤ)
      → IsLinked g w ((a, u) ∷ zs) a e
      → next_address m w ≢ null
      → Returns (λ _ w'. IsLinked g w' ((next_address m w, v) ∷ (a, u) ∷ zs) a e) (pre_insert m v w)
  unfolding pre_insert allocate modify load
  pre_insert-first zs a u is ne =
      let p = next_address m w in
      let old : Cells = (a, u) ∷ [] in
      let new : Cells = (p, v) ∷ (a, u) ∷ [] in
      let st = stretch [] old zs is.chain in
      let an : (a == null) ≡ false = ground (arith, st.nonnull) in
      let fr = fresh m is.chain ne in
      let ap : (a == p) ≡ false = ground (arith, fr) in
      let at_a : w.heap a ≡ some (record { value = u; lptr = null; rptr = front zs null }) =
        ground (arith, st.holds a, ==_refl a) in
      simp (==_of_ne p null ne, ==_refl p, ==_refl a, is.act_is, an, ap, is.first, at_a)
        (relinked [] new zs refl refl is.last is.errflg_is (
          replaced [] old new zs is.chain (λ b. refl) (λ b. refl) (λ b. ground (arith, ap))
            (ground (arith, ap)) (ground (arith, an)) λ b. ground (arith, fr)))

  pre_insert-middle :
      (ys zs : Cells) (a b : Ptr) (u t : ℤ)
      → IsLinked g w (ys ++ ((b, t) ∷ (a, u) ∷ zs)) a e
      → next_address m w ≢ null
      → Returns
          (λ _ w'. IsLinked g w' (ys ++ ((b, t) ∷ (next_address m w, v) ∷ (a, u) ∷ zs)) a e)
          (pre_insert m v w)
  unfolding pre_insert allocate modify load
  pre_insert-middle ys zs a b u t is ne =
      let p = next_address m w in
      let old : Cells = (b, t) ∷ (a, u) ∷ [] in
      let new : Cells = (b, t) ∷ (p, v) ∷ (a, u) ∷ [] in
      let st = stretch ys old zs is.chain in
      let an : (a == null) ≡ false = ground (arith, st.nonnull) in
      let bn : (b == null) ≡ false = ground (arith, st.nonnull) in
      let ab : (a == b) ≡ false = ground (arith, st.distinct) in
      let fr = fresh m is.chain ne in
      let ap : (a == p) ≡ false = ground (arith, fr, has-append p ys (old ++ zs)) in
      let bp : (b == p) ≡ false = ground (arith, fr, has-append p ys (old ++ zs)) in
      let at_b : w.heap b ≡ some (record { value = t; lptr = back null ys; rptr = a }) =
        ground (arith, st.holds b, ==_refl b) in
      let at_a : w.heap a ≡ some (record { value = u; lptr = b; rptr = front zs null }) =
        ground (arith, st.holds a, ab, ==_refl a) in
      let inner : (a == w.list.first) ≡ false =
        rw (first_is ys old zs is)
          (ne_front ys a b (st.not_left a (ground (arith, ==_refl a))) ab) in
      simp (==_of_ne p null ne, ==_refl p, is.act_is, an, bn, ap, bp, ab, inner, at_a, at_b)
        (relinked ys new zs (first_is ys old zs is) is.act_is (last_is ys old zs is) is.errflg_is (
          replaced ys old new zs is.chain (λ c. refl) (λ c. refl) (λ c. ground (arith, ab, bp, ap))
            (ground (arith, ap, ab, bp)) (ground (arith, an, bn)) λ c. ground (arith, fr)))

  pre_insert-null :
      {xs : Cells} {a : Ptr}
      → IsLinked g w xs a e
      → a ≢ null
      → next_address m w ≡ null
      → Returns (λ _ w'. IsLinked g w' xs a true) (pre_insert m v w)
  unfolding pre_insert allocate
  pre_insert-null {a} is an out =
      simp (is.act_is, ==_of_ne a null an, out)
        (record {
          first = is.first;
          act_is = is.act_is;
          last = is.last;
          errflg_is = refl;
          chain = is.chain;
        })

  pre_insert-cons :
      (ys zs : Cells) (a : Ptr) (u : ℤ)
      → IsLinked g w (ys ++ ((a, u) ∷ zs)) a e
      → next_address m w ≢ null
      → Returns
          (λ _ w'. IsList g w' (view (ys ++ ((next_address m w, v) ∷ [])) ((a, u) ∷ zs) e))
          (pre_insert m v w)
  pre_insert-cons ys zs a u is ne =
      by_snoc
        (λ ys.
          IsLinked g w (ys ++ ((a, u) ∷ zs)) a e
          → Returns
              (λ _ w'. IsList g w' (view (ys ++ ((next_address m w, v) ∷ [])) ((a, u) ∷ zs) e))
              (pre_insert m v w))
        (λ is'. pre_insert-first zs a u is' ne)
        (λ us b t is'.
          simp append_assoc (pre_insert-middle us zs a b u t (rw append_assoc at is') ne))
        ys is

  -- From a represented list, `DLPreInsert` puts the value before the active element and links it
  -- both ways; without memory it sets the error flag only, and without an active element it does
  -- nothing.
  pub pre_insert_lem :
      (ys zs : Cells)
      → IsList g w (view ys zs e)
      → Returns
          (λ _ w'. IsList g w' (ListView.pre_insert (next_address m w) v ys zs e))
          (pre_insert m v w)
  unfolding pre_insert
  pre_insert_lem ys [] is = simp (is.act_is) is
  pre_insert_lem ys ((a, u) ∷ zs) is = elim (Bool-cases (next_address m w == null)) [
    | inl out ↦ rw out (pre_insert-null is (active-ne-null ys zs a u is) (ground arith))
    | inr got ↦ rw got (pre_insert-cons ys zs a u is (ground arith))
  ]
