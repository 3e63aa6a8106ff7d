-- ===== src/DoublyLinked/InsertEnds.antt =====
-- `DLInsertFirst` and `DLInsertLast`.
use school_projects.Base.{
  ◌≡◌, refl, ◌≢◌, inl, inr, Bool, true, false, some, [], ◌∷◌, ◌++◌, arith, ◌==◌, ==_of_ne, ==_refl,
  Bool-cases, append_assoc, append-nil,
}
use school_projects.Base.Int.{ℤ}
use school_projects.Memory.{Ptr, null, Heap, Malloc, next_address, allocate, modify, load}
use school_projects.Memory.Cells.{Cells, front, back, has-append, has-back, front-ne-null, by_snoc}
use school_projects.ListView
use school_projects.ListView.{View, view}
use school_projects.Memory.Returns.{Returns}
use school_projects.DoublyLinked.{Elem, ListWorld, insert_first, insert_last}
use school_projects.DoublyLinked.Chain.{
  IsList, IsLinked, replaced, stretch, fresh, first_is, last_is, relinked,
}

module _ {g : Heap Elem} {w : ListWorld} {e : Bool} {act : Ptr} (m : Malloc Elem) (v : ℤ) where
  insert_first-cons :
      (xs : Cells)
      → IsLinked g w xs act e
      → next_address m w ≢ null
      → Returns (λ _ w'. IsLinked g w' ((next_address m w, v) ∷ xs) act e) (insert_first m v w)
  unfolding insert_first allocate modify load
  insert_first-cons [] is ne =
      let p = next_address m w in
      let fr = fresh m is.chain ne in
      let new : Cells = (p, v) ∷ [] in
      simp (==_of_ne p null ne, ==_refl p, is.last, is.first)
        (relinked [] new [] refl is.act_is refl is.errflg_is (
          replaced [] [] new [] is.chain (λ c. refl) (λ c. refl) (λ c. ground arith) (ground arith)
            (ground arith) λ c. ground (arith, fr)))
  insert_first-cons ((a, u) ∷ xs) is ne =
      let p = next_address m w in
      let old : Cells = (a, u) ∷ [] in
      let new : Cells = (p, v) ∷ (a, u) ∷ [] in
      let st = stretch [] old xs is.chain in
      let an : (a == null) ≡ false = ground (arith, st.nonnull) in
      let fr = fresh m is.chain ne in
      let ap : (a == p) ≡ false = ground (arith, fr) in
      let pa : (p == a) ≡ false = ground (arith, fr) in
      let at_a : w.heap a ≡ some (record { value = u; lptr = null; rptr = front xs null }) =
        ground (arith, st.holds a, ==_refl a) in
      let ln : (w.list.last == null) ≡ false =
        rw is.last (ground (arith, has-back a u xs, is.chain.nonnull)) in
      simp (==_of_ne p null ne, ==_refl p, ln, is.first, an, ap, pa, at_a)
        (relinked [] new xs refl is.act_is is.last is.errflg_is (
          replaced [] old new xs is.chain (λ c. refl) (λ c. refl) (λ c. ground (arith, ap))
            (ground (arith, ap)) (ground (arith, an)) λ c. ground (arith, fr)))

  insert_first-null :
      {xs : Cells}
      → IsLinked g w xs act e
      → next_address m w ≡ null
      → Returns (λ _ w'. IsLinked g w' xs act true) (insert_first m v w)
  unfolding insert_first allocate
  insert_first-null is out = simp out (record {
    first = is.first;
    act_is = is.act_is;
    last = is.last;
    errflg_is = refl;
    chain = is.chain;
  })

  insert_last-snoc :
      (xs : Cells)
      → IsLinked g w xs act e
      → next_address m w ≢ null
      → Returns
          (λ _ w'. IsLinked g w' (xs ++ ((next_address m w, v) ∷ [])) act e)
          (insert_last m v w)
  unfolding insert_last allocate modify load
  insert_last-snoc xs is ne =
      let p = next_address m w in
      by_snoc
        (λ xs.
          IsLinked g w xs act e
          → Returns (λ _ w'. IsLinked g w' (xs ++ ((p, v) ∷ [])) act e) (insert_last m v w))
        (λ is.
          let new : Cells = (p, v) ∷ [] in
          let fr = fresh m is.chain ne in
          simp (==_of_ne p null ne, ==_refl p, is.last, is.first)
            (relinked [] new [] refl is.act_is refl is.errflg_is (
              replaced [] [] new [] is.chain (λ c. refl) (λ c. refl) (λ c. ground arith)
                (ground arith) (ground arith) λ c. ground (arith, fr))))
        (λ us b t is.
          let old : Cells = (b, t) ∷ [] in
          let new : Cells = (b, t) ∷ (p, v) ∷ [] in
          let st = stretch us old [] is.chain in
          let bn : (b == null) ≡ false = ground (arith, st.nonnull) in
          let fr = fresh m is.chain ne in
          let bp : (b == p) ≡ false = ground (arith, fr, has-append p us old) in
          let pb : (p == b) ≡ false = ground (arith, fr, has-append p us old) in
          let at_b : w.heap b ≡ some (record { value = t; lptr = back null us; rptr = null }) =
            ground (arith, st.holds b, ==_refl b) in
          let fn : (w.list.first == null) ≡ false =
            rw (first_is us old [] is)
              (front-ne-null us b (ground (arith, is.chain.nonnull, has-append null us old)) bn) in
          simp
            (
              ==_of_ne p null ne,
              ==_refl p,
              fn,
              last_is us old [] is,
              bn,
              bp,
              pb,
              at_b,
              append_assoc,
            )
            (relinked us new [] (first_is us old [] is) is.act_is refl is.errflg_is (
              replaced us old new [] is.chain (λ c. refl) (λ c. refl) (λ c. ground (arith, bp))
                (ground (arith, bp)) (ground (arith, bn)) λ c. ground (arith, fr))))
        xs is

  insert_last-null :
      {xs : Cells}
      → IsLinked g w xs act e
      → next_address m w ≡ null
      → Returns (λ _ w'. IsLinked g w' xs act true) (insert_last m v w)
  unfolding insert_last allocate
  insert_last-null is out = simp out (record {
    first = is.first;
    act_is = is.act_is;
    last = is.last;
    errflg_is = refl;
    chain = is.chain;
  })

module _ {g : Heap Elem} {w : ListWorld} (m : Malloc Elem) (v : ℤ) where
  pub insert_first_lem :
      (z : View)
      → IsList g w z
      → Returns
          (λ _ w'. IsList g w' (ListView.insert_first (next_address m w) v z))
          (insert_first m v w)
  insert_first_lem z is = elim (Bool-cases (next_address m w == null)) [
    | inl out ↦ rw out (insert_first-null m v is (ground arith))
    | inr got ↦ rw got (insert_first-cons m v (z.before ++ z.after) is (ground arith))
  ]

  -- From a represented list, `DLInsertLast` puts the value behind the last element and keeps the
  -- cursor; without memory it sets the error flag only.
  pub insert_last_lem :
      (ys zs : Cells) (e : Bool)
      → IsList g w (view ys zs e)
      → Returns
          (λ _ w'. IsList g w' (ListView.insert_last (next_address m w) v ys zs e))
          (insert_last m v w)
  insert_last_lem ys [] e is = elim (Bool-cases (next_address m w == null)) [
    | inl out ↦ rw out (insert_last-null m v is (ground arith))
    | inr got ↦
        rw got (simp append-nil (insert_last-snoc m v ys (rw append-nil at is) (ground arith)))
  ]
  insert_last_lem ys (z ∷ zs) e is = elim (Bool-cases (next_address m w == null)) [
    | inl out ↦ rw out (insert_last-null m v is (ground arith))
    | inr got ↦
        rw got (rw (← append_assoc) (insert_last-snoc m v (ys ++ (z ∷ zs)) is (ground arith)))
  ]
