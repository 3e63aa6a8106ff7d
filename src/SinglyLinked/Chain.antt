-- ===== src/SinglyLinked/Chain.antt =====
-- The representation of a singly linked list: which memory a list of cells stands for.
use school_projects.Base.{
  ◌≡◌, refl, ◌≢◌, Bool, true, false, Option, none, some, [], ◌∷◌, ◌++◌, arith, ◌==◌, if◌then◌else◌,
  ==_refl,
}
use school_projects.Base.Int.{ℤ}
use school_projects.Memory.{Ptr, null, Heap, Malloc, next_address}
use school_projects.Memory.Cells.{Cells, has, front, Distinct, has-append, Distinct-append}
use school_projects.ListView.{View, view}
use school_projects.SinglyLinked.{Elem, ListWorld}

-- The block at address `a`, if the elements `xs` are linked in this order and the last leads to
-- `stop`.
abbrev pub element : Cells → Ptr → Ptr → Option Elem
element [] stop a = none
element ((p, v) ∷ xs) stop a =
    if a == p then some (record { ptr = front xs stop; value = v }) else element xs stop a

pub element-append :
    (a stop : Ptr) (xs ys : Cells)
    → element (xs ++ ys) stop a
      ≡ (if has a xs then element xs (front ys stop) a else element ys stop a)
element-append a stop [] ys = refl
element-append a stop (x ∷ []) ys = ground arith
element-append a stop (x ∷ y ∷ xs) ys = ground (arith, element-append a stop (y ∷ xs) ys)

pub element-ne-none : (a stop : Ptr) (xs : Cells) → has a xs ≡ true → element xs stop a ≢ none
element-ne-none a stop [] h = cc
element-ne-none a stop (x ∷ xs) h = ground (arith, element-ne-none a stop xs)

-- The memory `g` with the elements `xs` in it.
abbrev pub with_list : Heap Elem → Cells → Heap Elem
with_list g xs a = if has a xs then element xs null a else g a

-- The list variable and the memory hold the elements of the view, and nothing else beside `g`.
pub record IsList (g : Heap Elem) (w : ListWorld) (z : View) : Type 0 where
  pub first : w.list.first ≡ front (z.before ++ z.after) null
  pub act : w.list.act ≡ front z.after null
  pub errflg : w.errflg ≡ z.errflg
  pub memory : (a : Ptr) → w.heap a ≡ with_list g (z.before ++ z.after) a
  pub distinct : Distinct (z.before ++ z.after)
  pub nonnull : has null (z.before ++ z.after) ≡ false
  pub apart : (a : Ptr) → has a (z.before ++ z.after) ≡ true → g a ≡ none

-- What is known of the active element `a` and of its neighbours.
pub record IsActive (w : ListWorld) (ys : Cells) (a : Ptr) (v : ℤ) (zs : Cells) : Type 0 where
  pub nonnull : a ≢ null
  pub holds : w.heap a ≡ some (record { ptr = front zs null; value = v })
  pub nonnull_after : has null zs ≡ false
  pub not_before : has a ys ≡ false
  pub not_after : has a zs ≡ false
  pub distinct_before : Distinct ys
  pub distinct_after : Distinct zs
  pub disjoint : (b : Ptr) → has b ys ≡ true → has b zs ≡ false

module _ {g : Heap Elem} {w : ListWorld} where
  -- A block that `malloc` returns belongs neither to the list nor to the rest of the memory.
  pub fresh :
      {z : View} (m : Malloc Elem)
      → IsList g w z
      → next_address m w ≢ null
      → (has (next_address m w) (z.before ++ z.after) ≡ false) × (g (next_address m w) ≡ none)
  fresh {z} m is ne =
      let p = next_address m w in
      ground (
        arith,
        m.fresh w.heap ne,
        is.memory p,
        is.apart p,
        element-ne-none p null (z.before ++ z.after),
      )

  pub active_lem :
      {ys zs : Cells} {a : Ptr} {v : ℤ} {e : Bool}
      → IsList g w (view ys ((a, v) ∷ zs) e)
      → IsActive w ys a v zs
  active_lem {ys} {zs} {a} {v} is =
      let (dy, dz, apart) = Distinct-append ys ((a, v) ∷ zs) is.distinct in
      let has_append = has-append null ys ((a, v) ∷ zs) in
      record {
        nonnull = ground (arith, is.nonnull, has_append, ==_refl a);
        holds = ground (
          arith,
          is.memory a,
          has-append a ys ((a, v) ∷ zs),
          element-append a null ys ((a, v) ∷ zs),
          apart a,
        );
        nonnull_after = ground (arith, is.nonnull, has_append);
        not_before = ground (arith, apart a, ==_refl a);
        not_after = dz.0;
        distinct_before = dy;
        distinct_after = dz.1;
        disjoint = λ b h. ground (arith, apart b);
      }

  -- The first element is allocated.
  pub first-holds :
      {z : View} {xs : Cells} (a : Ptr) (v : ℤ)
      → IsList g w z
      → z.before ++ z.after ≡ (a, v) ∷ xs
      → (a ≢ null) × (w.heap a ≡ some (record { ptr = front xs null; value = v }))
  first-holds a v is same =
      (ground (arith, rw same at is.nonnull), ground (arith, rw same at is.memory a, ==_refl a))
