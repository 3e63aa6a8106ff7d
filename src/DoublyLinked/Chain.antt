-- ===== src/DoublyLinked/Chain.antt =====
-- The representation of a doubly linked list, and what replacing a stretch of it does.
use school_projects.Base.{
  ◌≡◌, refl, ◌≢◌, ◌⊎◌, Bool, true, false, Option, none, some, [], ◌∷◌, ◌++◌, arith, ◌==◌,
  if◌then◌else◌, ap, sym, ◌∙◌,
}
use school_projects.Base.Int.{ℤ}
use school_projects.Memory.{Ptr, null, Heap, Malloc}
use school_projects.Memory.Cells.{
  Cells, has, front, back, Distinct, has-append, front-append, back-append, Distinct-append,
  append-Distinct,
}
use school_projects.ListView.{View}
use school_projects.DoublyLinked.{Elem, ListWorld}

-- The block at address `a`, if the elements `xs` are linked in this order, the first leads back to
-- `start` and the last leads on to `stop`.
abbrev pub element : Ptr → Cells → Ptr → Ptr → Option Elem
element start [] stop a = none
element start ((p, v) ∷ xs) stop a =
    if a == p
    then some (record { value = v; lptr = start; rptr = front xs stop })
    else element p xs stop a

pub element-append :
    (a start stop : Ptr) (xs ys : Cells)
    → element start (xs ++ ys) stop a
      ≡ (if has a xs then element start xs (front ys stop) a else element (back start xs) ys stop a)
element-append a start stop [] ys = refl
element-append a start stop ((p, v) ∷ xs) ys =
    ground (arith, element-append a p stop xs ys, front-append xs ys stop)

pub element-ne-none :
    (a start stop : Ptr) (xs : Cells) → has a xs ≡ true → element start xs stop a ≢ none
element-ne-none a start stop [] h = cc
element-ne-none a start stop ((p, v) ∷ xs) h = ground (arith, element-ne-none a p stop xs)

-- The memory `g` with the elements `xs` in it.
abbrev pub with_list : Heap Elem → Cells → Heap Elem
with_list g xs a = if has a xs then element null xs null a else g a

-- The memory `h` holds the elements `xs`, linked both ways, and nothing else beside `g`.
pub record IsChain (g h : Heap Elem) (xs : Cells) : Type 0 where
  pub memory : (a : Ptr) → h a ≡ with_list g xs a
  pub distinct : Distinct xs
  pub nonnull : has null xs ≡ false
  pub apart : (a : Ptr) → has a xs ≡ true → g a ≡ none

-- The address `a` is in `new` for a reason: it was in `old`, or it is unused.
abbrev pub Comes : Heap Elem → Cells → Cells → Cells → Ptr → Type 0
Comes g old new xs a = has a new ≡ true → (has a old ≡ true) ⊎ ((g a ≡ none) × (has a xs ≡ false))

module _ {g h h' : Heap Elem} (ls old new rs : Cells) (is : IsChain g h (ls ++ (old ++ rs)))
    (same_left : (a : Ptr)
      → element null ls (front new (front rs null)) a
        ≡ element null ls (front old (front rs null)) a)
    (same_right : (a : Ptr)
      → element (back (back null ls) new) rs null a ≡ element (back (back null ls) old) rs null a)
    (effect : (a : Ptr)
      → h' a ≡ (
          if has a new
          then element (back null ls) new (front rs null) a
          else if has a old
          then none
          else h a))
    (distinct : Distinct new) (nonnull : has null new ≡ false)
    (comes : (a : Ptr) → Comes g old new (ls ++ (old ++ rs)) a) where
  -- The stretch `old` of the chain has become `new`.
  pub replaced : IsChain g h' (ls ++ (new ++ rs))
  replaced =
      let (dl, dm, apart) = Distinct-append ls (old ++ rs) is.distinct in
      let (do_, dr, apart') = Distinct-append old rs dm in
      record {
        memory = λ a. ground (
          arith,
          effect a,
          is.memory a,
          is.apart a,
          same_left a,
          same_right a,
          comes a,
          apart a,
          apart' a,
          has-append a ls (old ++ rs),
          has-append a old rs,
          has-append a ls (new ++ rs),
          has-append a new rs,
          element-append a null null ls (old ++ rs),
          element-append a (back null ls) null old rs,
          element-append a null null ls (new ++ rs),
          element-append a (back null ls) null new rs,
          front-append old rs null,
          front-append new rs null,
        );
        distinct =
            append-Distinct ls (new ++ rs) dl
              (append-Distinct new rs distinct dr λ a i.
                ground (arith, comes a, apart' a, has-append a ls (old ++ rs), has-append a old rs))
              λ a i. ground (
                arith,
                comes a,
                apart a,
                has-append a ls (old ++ rs),
                has-append a old rs,
                has-append a new rs,
              );
        nonnull = ground (
          arith,
          is.nonnull,
          nonnull,
          has-append null ls (old ++ rs),
          has-append null old rs,
          has-append null ls (new ++ rs),
          has-append null new rs,
        );
        apart = λ a. ground (
          arith,
          is.apart a,
          comes a,
          has-append a ls (old ++ rs),
          has-append a old rs,
          has-append a ls (new ++ rs),
          has-append a new rs,
        );
      }

-- The list variable and the memory hold the elements `xs`, and nothing else beside `g`; the cursor
-- and the error flag are as given.
pub record IsLinked (g : Heap Elem) (w : ListWorld) (xs : Cells) (act : Ptr) (errflg : Bool)
    : Type 0 where
  pub first : w.list.first ≡ front xs null
  pub act_is : w.list.act ≡ act
  pub last : w.list.last ≡ back null xs
  pub errflg_is : w.errflg ≡ errflg
  pub chain : IsChain g w.heap xs

-- The same for what a client sees of a list.
abbrev pub IsList : Heap Elem → ListWorld → View → Type 0
IsList g w z = IsLinked g w (z.before ++ z.after) (front z.after null) z.errflg

-- What a chain says of a stretch of it.
pub record Stretch (h : Heap Elem) (ls xs rs : Cells) : Type 0 where
  pub holds : (a : Ptr) → has a xs ≡ true → h a ≡ element (back null ls) xs (front rs null) a
  pub nonnull : has null xs ≡ false
  pub distinct : Distinct xs
  pub not_left : (a : Ptr) → has a xs ≡ true → has a ls ≡ false
  pub not_right : (a : Ptr) → has a xs ≡ true → has a rs ≡ false

module _ {g h : Heap Elem} where
  pub stretch : (ls xs rs : Cells) → IsChain g h (ls ++ (xs ++ rs)) → Stretch h ls xs rs
  stretch ls xs rs is =
      let (dl, dm, apart) = Distinct-append ls (xs ++ rs) is.distinct in
      let (dx, dr, apart') = Distinct-append xs rs dm in
      record {
        holds = λ a i. ground (
          arith,
          is.memory a,
          apart a,
          has-append a ls (xs ++ rs),
          has-append a xs rs,
          element-append a null null ls (xs ++ rs),
          element-append a (back null ls) null xs rs,
        );
        nonnull = ground (arith, is.nonnull, has-append null ls (xs ++ rs), has-append null xs rs);
        distinct = dx;
        not_left = λ a i. ground (arith, apart a, has-append a xs rs);
        not_right = apart';
      }

  -- A block that `malloc` returns belongs neither to the list nor to the rest of the memory.
  pub fresh :
      {xs : Cells} (m : Malloc Elem)
      → IsChain g h xs
      → (m.block h).address ≢ null
      → (has (m.block h).address xs ≡ false) × (g (m.block h).address ≡ none)
  fresh {xs} m is ne =
      let p = (m.block h).address in
      ground (arith, m.fresh h ne, is.memory p, is.apart p, element-ne-none p null null xs)

module _ {g : Heap Elem} {w : ListWorld} {act : Ptr} {e : Bool} (ls xs rs : Cells)
    (is : IsLinked g w (ls ++ (xs ++ rs)) act e) where
  pub first_is : w.list.first ≡ front ls (front xs (front rs null))
  first_is = is.first ∙ front-append ls (xs ++ rs) null ∙ ap (front ls) (front-append xs rs null)

  pub last_is : w.list.last ≡ back (back (back null ls) xs) rs
  last_is = is.last ∙ back-append null ls (xs ++ rs) ∙ back-append (back null ls) xs rs

-- The list variable after a stretch has been replaced.
pub relinked :
    {g : Heap Elem} {w' : ListWorld} {act : Ptr} {e : Bool} (ls xs rs : Cells)
    → w'.list.first ≡ front ls (front xs (front rs null))
    → w'.list.act ≡ act
    → w'.list.last ≡ back (back (back null ls) xs) rs
    → w'.errflg ≡ e
    → IsChain g w'.heap (ls ++ (xs ++ rs))
    → IsLinked g w' (ls ++ (xs ++ rs)) act e
relinked ls xs rs first act last errflg chain = record {
  first =
      first ∙ sym (ap (front ls) (front-append xs rs null)) ∙ sym (front-append ls (xs ++ rs) null);
  act_is = act;
  last = last ∙ sym (back-append (back null ls) xs rs) ∙ sym (back-append null ls (xs ++ rs));
  errflg_is = errflg;
  chain = chain;
}

pub active-ne-null :
    {g : Heap Elem} {w : ListWorld} {e : Bool} (ys zs : Cells) (a : Ptr) (u : ℤ)
    → IsLinked g w (ys ++ ((a, u) ∷ zs)) a e
    → a ≢ null
active-ne-null ys zs a u is = ground (arith, (stretch ys ((a, u) ∷ []) zs is.chain).nonnull)
