-- ===== src/SinglyLinked/Cursor.antt =====
-- The operations that read, or that move the cursor: `First`, `CopyFirst`, `Copy`, `Actualize`,
-- `Succ`, `Active`.
use school_projects.Base.{
  ◌≡◌, refl, Bool, true, false, not, [], ◌∷◌, ◌++◌, arith, ◌==◌, ==_of_ne, append_assoc,
}
use school_projects.Base.Int.{ℤ}
use school_projects.Memory.{Ptr, null, Heap, modify, load}
use school_projects.Memory.Cells.{
  Cells, is_empty, has, front, has-append, append-Distinct, front-append,
}
use school_projects.ListView
use school_projects.ListView.{View, view}
use school_projects.Memory.Returns.{Returns}
use school_projects.SinglyLinked.{Elem, ListWorld, first, copy_first, copy, actualize, succ, active}
use school_projects.SinglyLinked.Chain.{element-append, IsList, active_lem, first-holds}

front-is_empty :
    (zs : Cells) → has null zs ≡ false → not (front zs null == null) ≡ not (is_empty zs)
front-is_empty [] h = refl
front-is_empty (z ∷ zs) h = ground arith

module _ {g : Heap Elem} {w : ListWorld} where
  -- A call that moves the cursor only.
  moved :
      {z : View} (ys zs : Cells) {p : Ptr}
      → IsList g w z
      → z.before ++ z.after ≡ ys ++ zs
      → p ≡ front zs null
      → IsList g (record w { list = record (w.list) { act = p } }) (view ys zs z.errflg)
  moved ys zs is same act = record {
    first = rw (← same) is.first;
    act = act;
    errflg = is.errflg;
    memory = λ a. rw (← same) (is.memory a);
    distinct = rw (← same) is.distinct;
    nonnull = rw (← same) is.nonnull;
    apart = λ a. rw (← same) (is.apart a);
  }

  -- A failed read sets the error flag only.
  failed :
      {z : View} → IsList g w z → IsList g (record w { errflg = true }) (record z { errflg = true })
  failed is = record {
    first = is.first;
    act = is.act;
    errflg = refl;
    memory = is.memory;
    distinct = is.distinct;
    nonnull = is.nonnull;
    apart = is.apart;
  }

  pub first_lem :
      {z : View} → IsList g w z → Returns (λ _ w'. IsList g w' (ListView.first z)) (first w)
  unfolding first
  first_lem {z} is = moved [] (z.before ++ z.after) is refl is.first

  pub succ_lem :
      (ys zs : Cells) (e : Bool)
      → IsList g w (view ys zs e)
      → Returns (λ _ w'. IsList g w' (ListView.succ ys zs e)) (succ w)
  unfolding succ load
  succ_lem ys [] e is = simp (is.act) is
  succ_lem ys ((a, u) ∷ zs) e is =
      let ac = active_lem is in
      simp (is.act, ==_of_ne a null ac.nonnull, ac.holds)
        (moved (ys ++ ((a, u) ∷ [])) zs is (rw append_assoc) refl)

  pub copy_lem :
      (v : ℤ) (ys zs : Cells) (e : Bool)
      → IsList g w (view ys zs e)
      → Returns
          (λ r w'. (r ≡ ListView.value_of zs v) × IsList g w' (ListView.read zs (view ys zs e)))
          (copy v w)
  unfolding copy load
  copy_lem v ys [] e is = simp (is.act) (refl, failed is)
  copy_lem v ys ((a, u) ∷ zs) e is =
      let ac = active_lem is in simp (is.act, ==_of_ne a null ac.nonnull, ac.holds) (refl, is)

  copy_first-of :
      (v : ℤ) (z : View) (xs : Cells)
      → IsList g w z
      → z.before ++ z.after ≡ xs
      → Returns
          (λ r w'. (r ≡ ListView.value_of xs v) × IsList g w' (ListView.read xs z))
          (copy_first v w)
  unfolding copy_first load
  copy_first-of v z [] is same = simp (is.first, same) (refl, failed is)
  copy_first-of v z ((a, u) ∷ xs) is same =
      let (ne, holds) = first-holds a u is same in
      simp (is.first, same, ==_of_ne a null ne, holds) (refl, is)

  pub copy_first_lem :
      (v : ℤ) {z : View}
      → IsList g w z
      → let xs = z.before ++ z.after in
        Returns
          (λ r w'. (r ≡ ListView.value_of xs v) × IsList g w' (ListView.read xs z))
          (copy_first v w)
  copy_first_lem v {z} is = copy_first-of v z (z.before ++ z.after) is refl

  pub active-is_empty :
      {z : View} → IsList g w z → Returns (λ r w'. (r ≡ ListView.active z) × (w' ≡ w)) (active w)
  unfolding active
  active-is_empty {z} is =
      let nonnull : has null z.after ≡ false =
        ground (arith, is.nonnull, has-append null z.before z.after) in
      simp (is.act) (front-is_empty z.after nonnull, refl)

  pub actualize_lem :
      (v : ℤ) (ys zs : Cells) (e : Bool)
      → IsList g w (view ys zs e)
      → Returns (λ _ w'. IsList g w' (ListView.actualize v ys zs e)) (actualize v w)
  unfolding actualize modify load
  actualize_lem v ys [] e is = simp (is.act) is
  actualize_lem v ys ((a, u) ∷ zs) e is =
      let ac = active_lem is in
      let old = (a, u) ∷ zs in
      let new = (a, v) ∷ zs in
      simp (is.act, ==_of_ne a null ac.nonnull, ac.holds)
        (record {
          first = rw (front-append ys new) (rw (front-append ys old) at is.first);
          act = is.act;
          errflg = is.errflg;
          memory = λ b. ground (
            arith,
            is.memory b,
            ac.not_before,
            has-append b ys old,
            has-append b ys new,
            element-append b null ys old,
            element-append b null ys new,
          );
          distinct =
              append-Distinct ys _ ac.distinct_before (ac.not_after, ac.distinct_after)
                λ b h. ground (arith, ac.disjoint b, ac.not_before);
          nonnull = ground (arith, is.nonnull, has-append null ys old, has-append null ys new);
          apart = λ b. ground (arith, is.apart b, has-append b ys old, has-append b ys new);
        })
