-- ===== src/SinglyLinked/Insert.antt =====
-- `InsertFirst` and `PostInsert`.
use school_projects.Base.{
  ◌≡◌, refl, ◌≢◌, inl, inr, Bool, true, false, some, [], ◌∷◌, arith, ◌==◌, if◌then◌else◌, ==_of_ne,
  ==_refl, Bool-cases,
}
use school_projects.Base.Int.{ℤ}
use school_projects.Memory.{Ptr, null, Heap, Malloc, next_address, allocate, modify, load}
use school_projects.Memory.Cells.{Cells, front, has-append, append-Distinct, front-append}
use school_projects.ListView
use school_projects.ListView.{View, view}
use school_projects.Memory.Returns.{Returns}
use school_projects.SinglyLinked.{Elem, ListWorld, insert_first, post_insert}
use school_projects.SinglyLinked.Chain.{element-append, IsList, fresh, active_lem}

module _ {g : Heap Elem} {w : ListWorld} (m : Malloc Elem) (v : ℤ) where
  insert_first-cons :
      {z : View}
      → IsList g w z
      → next_address m w ≢ null
      → Returns
          (λ _ w'. IsList g w' (record z { before = (next_address m w, v) ∷ z.before }))
          (insert_first m v w)
  unfolding insert_first allocate modify load
  insert_first-cons is ne =
      simp (==_of_ne (next_address m w) null ne, ==_refl (next_address m w))
        (record {
          first = refl;
          act = is.act;
          errflg = is.errflg;
          memory = λ a. ground (arith, is.memory a, is.first);
          distinct = ((fresh m is ne).0, is.distinct);
          nonnull = ground (arith, is.nonnull);
          apart = λ a. ground (arith, is.apart a, fresh m is ne);
        })

  insert_first-null :
      {z : View}
      → IsList g w z
      → next_address m w ≡ null
      → Returns (λ _ w'. IsList g w' (record z { errflg = true })) (insert_first m v w)
  unfolding insert_first allocate
  insert_first-null is e = rw e (record {
    first = is.first;
    act = is.act;
    errflg = refl;
    memory = is.memory;
    distinct = is.distinct;
    nonnull = is.nonnull;
    apart = is.apart;
  })

  pub insert_first_lem :
      {z : View}
      → IsList g w z
      → Returns
          (λ _ w'. IsList g w' (ListView.insert_first (next_address m w) v z))
          (insert_first m v w)
  insert_first_lem is = elim (Bool-cases (next_address m w == null)) [
    | inl e ↦ rw e (insert_first-null is (ground arith))
    | inr e ↦ rw e (insert_first-cons is (ground arith))
  ]

  -- The effect of `PostInsert` on the memory, and what it makes of the list.
  linked_in :
      {ys zs : Cells} {a : Ptr} {u : ℤ} {e : Bool} {w' : ListWorld}
      → IsList g w (view ys ((a, u) ∷ zs) e)
      → next_address m w ≢ null
      → w'.list ≡ w.list
      → w'.errflg ≡ w.errflg
      → ((b : Ptr)
          → w'.heap b ≡ (
              if b == a
              then some (record { ptr = next_address m w; value = u })
              else if b == next_address m w
              then some (record { ptr = front zs null; value = v })
              else w.heap b))
      → IsList g w' (view ys ((a, u) ∷ (next_address m w, v) ∷ zs) e)
  linked_in {ys} {zs} {a} {u} {w'} is ne same_list same_errflg effect =
      let ac = active_lem is in
      let p = next_address m w in
      let fr = fresh m is ne in
      let has_p = has-append p ys ((a, u) ∷ zs) in
      let has_null = has-append null ys ((a, u) ∷ zs) in
      record {
        first =
            rw (same_list, front-append ys ((a, u) ∷ (p, v) ∷ zs))
              (rw (front-append ys ((a, u) ∷ zs)) at is.first);
        act = rw same_list is.act;
        errflg = rw same_errflg is.errflg;
        memory = λ b. ground (
          arith,
          effect b,
          is.memory b,
          fr,
          ac.not_before,
          has_p,
          ac.disjoint b,
          has-append b ys ((a, u) ∷ zs),
          has-append b ys ((a, u) ∷ (p, v) ∷ zs),
          element-append b null ys ((a, u) ∷ zs),
          element-append b null ys ((a, u) ∷ (p, v) ∷ zs),
        );
        distinct =
            append-Distinct ys _ ac.distinct_before
              (ground (arith, fr, has_p, ac.not_after, ac.distinct_after))
              λ b h. ground (arith, ac.disjoint b, fr, has_p, ac.not_before);
        nonnull = ground (arith, is.nonnull, has_null, has-append null ys ((a, u) ∷ (p, v) ∷ zs));
        apart = λ b. ground (
          arith,
          is.apart b,
          fr,
          has-append b ys ((a, u) ∷ zs),
          has-append b ys ((a, u) ∷ (p, v) ∷ zs),
        );
      }

  post_insert-cons :
      (ys zs : Cells) {a : Ptr} {u : ℤ} {e : Bool}
      → IsList g w (view ys ((a, u) ∷ zs) e)
      → next_address m w ≢ null
      → Returns
          (λ _ w'. IsList g w' (view ys ((a, u) ∷ (next_address m w, v) ∷ zs) e))
          (post_insert m v w)
  unfolding post_insert allocate modify load
  post_insert-cons ys [] {a} is ne =
      let ac = active_lem is in
      let p = next_address m w in
      let ap : (a == p) ≡ false = ground (arith, fresh m is ne, m.fresh w.heap ne, ac.holds) in
      simp (==_of_ne p null ne, ==_refl p, is.act, ap, ac.holds, ==_of_ne a null ac.nonnull)
        (linked_in is ne (rw is.act) refl λ b. ground (arith, ac.holds))
  post_insert-cons ys ((b, t) ∷ zs) {a} is ne =
      let ac = active_lem is in
      let p = next_address m w in
      let ap : (a == p) ≡ false = ground (arith, fresh m is ne, m.fresh w.heap ne, ac.holds) in
      let bn : (b == null) ≡ false = ground (arith, ac.nonnull_after) in
      simp (==_of_ne p null ne, ==_refl p, is.act, ap, ac.holds, ==_of_ne a null ac.nonnull, bn)
        (linked_in is ne (rw is.act) refl λ b. ground (arith, ac.holds))

  post_insert-null :
      {ys zs : Cells} {a : Ptr} {u : ℤ} {e : Bool}
      → IsList g w (view ys ((a, u) ∷ zs) e)
      → next_address m w ≡ null
      → Returns (λ _ w'. IsList g w' (view ys ((a, u) ∷ zs) true)) (post_insert m v w)
  unfolding post_insert allocate
  post_insert-null {a} is out =
      simp (is.act, ==_of_ne a null (active_lem is).nonnull, out)
        (record {
          first = is.first;
          act = rw is.act;
          errflg = refl;
          memory = is.memory;
          distinct = is.distinct;
          nonnull = is.nonnull;
          apart = is.apart;
        })

  pub post_insert_lem :
      (ys zs : Cells) (e : Bool)
      → IsList g w (view ys zs e)
      → Returns
          (λ _ w'. IsList g w' (ListView.post_insert (next_address m w) v ys zs e))
          (post_insert m v w)
  unfolding post_insert
  post_insert_lem ys [] e is = simp (is.act) is
  post_insert_lem ys ((a, u) ∷ zs) e is = elim (Bool-cases (next_address m w == null)) [
    | inl out ↦ rw out (post_insert-null is (ground arith))
    | inr got ↦ rw got (post_insert-cons ys zs is (ground arith))
  ]
