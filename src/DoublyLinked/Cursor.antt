-- ===== src/DoublyLinked/Cursor.antt =====
-- The operations that read, or that move the cursor: `DLFirst`, `DLLast`, `DLCopyFirst`, `DLCopyLast`,
-- `DLCopy`, `DLActualize`, `DLSucc`, `DLPred`, `DLActive`.
use school_projects.Base.{
  ◌≡◌, refl, Bool, true, false, some, [], ◌∷◌, ◌++◌, arith, ◌==◌, if◌then◌else◌, ==_refl,
  append_assoc, append-nil, not,
}
use school_projects.Base.Int.{ℤ}
use school_projects.Memory.{Ptr, null, Heap, modify, load}
use school_projects.Memory.Cells.{
  Cells, front, back, back-append, is_empty, is_empty-snoc, by_snoc, last_cells, init-snoc,
  init-append-last_cells, front-last_cells, last_cells-snoc,
}
use school_projects.ListView
use school_projects.ListView.{View, view}
use school_projects.Memory.Returns.{Returns}
use school_projects.DoublyLinked.{
  Elem, ListWorld, first, last, copy_first, copy_last, copy, actualize, succ, pred, active,
}
use school_projects.DoublyLinked.Chain.{
  IsList, IsLinked, replaced, stretch, first_is, last_is, relinked,
}

read-view :
    (xs ys zs : Cells) (e : Bool)
    → ListView.read xs (view ys zs e) ≡ view ys zs (if is_empty xs then true else e)
read-view [] ys zs e = refl
read-view (x ∷ xs) ys zs e = refl

module _ {g : Heap Elem} {w : ListWorld} {e : Bool} where
  -- A call that moves the cursor only.
  moved :
      {xs : Cells} {act act' p : Ptr}
      → p ≡ act'
      → IsLinked g w xs act e
      → IsLinked g (record w { list = record (w.list) { act = p } }) xs act' e
  moved same is = record {
    first = is.first;
    act_is = same;
    last = is.last;
    errflg_is = is.errflg_is;
    chain = is.chain;
  }

  -- A failed read sets the error flag only.
  failed :
      {xs : Cells} {act : Ptr}
      → IsLinked g w xs act e
      → IsLinked g (record w { errflg = true }) xs act true
  failed is = record {
    first = is.first;
    act_is = is.act_is;
    last = is.last;
    errflg_is = refl;
    chain = is.chain;
  }

  -- The block of an element, wherever it stands.
  at :
      {act : Ptr} (ys zs : Cells) (a : Ptr) (u : ℤ)
      → IsLinked g w (ys ++ ((a, u) ∷ zs)) act e
      → ((a == null) ≡ false)
        × (w.heap a ≡ some (record { value = u; lptr = back null ys; rptr = front zs null }))
  at ys zs a u is =
      let st = stretch ys ((a, u) ∷ []) zs is.chain in
      (ground (arith, st.nonnull), ground (arith, st.holds a, ==_refl a))

  pub first_lem :
      (ys zs : Cells)
      → IsList g w (view ys zs e)
      → Returns (λ _ w'. IsList g w' (ListView.first (view ys zs e))) (first w)
  unfolding first
  first_lem ys zs is = moved is.first is

  pub last_lem :
      (ys zs : Cells)
      → IsList g w (view ys zs e)
      → Returns (λ _ w'. IsList g w' (ListView.last (view ys zs e))) (last w)
  unfolding last
  last_lem ys zs is =
      let xs = ys ++ zs in rw (init-append-last_cells xs, front-last_cells xs) (moved is.last is)

  pub succ_lem :
      (ys zs : Cells)
      → IsList g w (view ys zs e)
      → Returns (λ _ w'. IsList g w' (ListView.succ ys zs e)) (succ w)
  unfolding succ load
  succ_lem ys [] is = simp (is.act_is) is
  succ_lem ys ((a, u) ∷ zs) is =
      let (an, holds) = at ys zs a u is in simp (is.act_is, an, holds, append_assoc) (moved refl is)

  pub pred_lem :
      (ys zs : Cells)
      → IsList g w (view ys zs e)
      → Returns (λ _ w'. IsList g w' (ListView.pred ys zs e)) (pred w)
  unfolding pred load
  pred_lem ys [] is = simp (is.act_is) is
  pred_lem ys ((a, u) ∷ zs) is =
      by_snoc
        (λ ys.
          IsList g w (view ys ((a, u) ∷ zs) e)
          → Returns (λ _ w'. IsList g w' (ListView.pred ys ((a, u) ∷ zs) e)) (pred w))
        (λ is.
          let (an, holds) = at [] zs a u is in
          simp (is.act_is, an, holds, append-nil) (moved refl is))
        (λ us b t is.
          let (an, holds) = at (us ++ ((b, t) ∷ [])) zs a u is in
          simp (is.act_is, an, holds, is_empty-snoc, init-snoc, last_cells-snoc, back-append)
            (moved refl (rw append_assoc at is)))
        ys is

  pub copy_lem :
      (v : ℤ) (ys zs : Cells)
      → IsList g w (view ys zs e)
      → Returns
          (λ r w'. (r ≡ ListView.value_of zs v) × IsList g w' (ListView.read zs (view ys zs e)))
          (copy v w)
  unfolding copy load
  copy_lem v ys [] is = simp (is.act_is) (refl, failed is)
  copy_lem v ys ((a, u) ∷ zs) is =
      let (an, holds) = at ys zs a u is in simp (is.act_is, an, holds) (refl, is)

  copy_first-of :
      (v : ℤ) (xs : Cells) (act : Ptr)
      → IsLinked g w xs act e
      → Returns
          (λ r w'.
            (r ≡ ListView.value_of xs v) × IsLinked g w' xs act (if is_empty xs then true else e))
          (copy_first v w)
  unfolding copy_first load
  copy_first-of v [] act is = simp (is.first) (refl, failed is)
  copy_first-of v ((a, u) ∷ xs) act is =
      let (an, holds) = at [] xs a u is in simp (is.first, an, holds) (refl, is)

  copy_last-of :
      (v : ℤ) (xs : Cells) (act : Ptr)
      → IsLinked g w xs act e
      → Returns
          (λ r w'.
            (r ≡ ListView.value_of (last_cells xs) v)
            × IsLinked g w' xs act (if is_empty xs then true else e))
          (copy_last v w)
  unfolding copy_last load
  copy_last-of v xs act is =
      by_snoc
        (λ xs.
          IsLinked g w xs act e
          → Returns
              (λ r w'.
                (r ≡ ListView.value_of (last_cells xs) v)
                × IsLinked g w' xs act (if is_empty xs then true else e))
              (copy_last v w))
        (λ is. simp (is.last) (refl, failed is))
        (λ us b t is.
          let (bn, holds) = at us [] b t is in
          simp (last_is us ((b, t) ∷ []) [] is, bn, holds, last_cells-snoc, is_empty-snoc)
            (refl, is))
        xs is

  pub actualize_lem :
      (v : ℤ) (ys zs : Cells)
      → IsList g w (view ys zs e)
      → Returns (λ _ w'. IsList g w' (ListView.actualize v ys zs e)) (actualize v w)
  unfolding actualize modify load
  actualize_lem v ys [] is = simp (is.act_is) is
  actualize_lem v ys ((a, u) ∷ zs) is =
      let old : Cells = (a, u) ∷ [] in
      let new : Cells = (a, v) ∷ [] in
      let (an, holds) = at ys zs a u is in
      simp (is.act_is, an, holds)
        (relinked ys new zs (first_is ys old zs is) is.act_is (last_is ys old zs is) is.errflg_is (
          replaced ys old new zs is.chain (λ c. refl) (λ c. refl) (λ c. ground arith) (ground arith)
            (ground (arith, an)) λ c. ground arith))

  pub active-is_empty :
      (ys zs : Cells)
      → IsList g w (view ys zs e)
      → Returns (λ r w'. (r ≡ not (is_empty zs)) × (w' ≡ w)) (active w)
  unfolding active
  active-is_empty ys [] is = simp (is.act_is) (refl, refl)
  active-is_empty ys ((a, u) ∷ zs) is =
      let (an, holds) = at ys zs a u is in simp (is.act_is, an) (refl, refl)

  pub copy_first_lem :
      (v : ℤ) (ys zs : Cells)
      → IsList g w (view ys zs e)
      → Returns
          (λ r w'.
            (r ≡ ListView.value_of (ys ++ zs) v)
            × IsList g w' (ListView.read (ys ++ zs) (view ys zs e)))
          (copy_first v w)
  copy_first_lem v ys zs is = simp read-view (copy_first-of v (ys ++ zs) (front zs null) is)

  pub copy_last_lem :
      (v : ℤ) (ys zs : Cells)
      → IsList g w (view ys zs e)
      → Returns
          (λ r w'.
            (r ≡ ListView.value_of (last_cells (ys ++ zs)) v)
            × IsList g w' (ListView.read (ys ++ zs) (view ys zs e)))
          (copy_last v w)
  copy_last_lem v ys zs is = simp read-view (copy_last-of v (ys ++ zs) (front zs null) is)
