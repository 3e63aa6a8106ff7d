-- ===== src/ListView.antt =====
-- The list with a cursor that c201.h and c206.h promise their clients, as data: the elements before
-- the active one, and those from it on. There is no active element if `after` is empty. An element
-- is its address and its value.
pub mod Client
use school_projects.Base.{Bool, true, not, [], ◌∷◌, ◌++◌, ◌==◌, if◌then◌else◌}
use school_projects.Base.Int.{ℤ}
use school_projects.Memory.{Ptr, null}
use school_projects.Memory.Cells.{Cells, is_empty, init, last_cells}

pub record View : Type 0 where
  pub before : Cells
  pub after : Cells
  pub errflg : Bool

abbrev pub view : Cells → Cells → Bool → View
view ys zs e = record { before = ys; after = zs; errflg = e }

-- What a caller gets: nothing, a value, or a truth value.
pub data Reply : Type 0 where
  nothing : Reply
  value : ℤ → Reply
  truth : Bool → Reply

-- `p` is the address of the new element; NULL means that there is no memory.
abbrev pub insert_first : Ptr → ℤ → View → View
insert_first p v z =
    if p == null then record z { errflg = true } else record z { before = (p, v) ∷ z.before }

abbrev pub first : View → View
first z = view [] (z.before ++ z.after) z.errflg

abbrev pub value_of : Cells → ℤ → ℤ
value_of [] v = v
value_of ((_, u) ∷ _) v = u

-- A read of an element that is not there is an error.
abbrev pub read : Cells → View → View
read xs z = if is_empty xs then record z { errflg = true } else z

-- The cursor is lost with its element.
abbrev pub delete_first : Cells → Cells → Bool → View
delete_first (_ ∷ ys) zs e = view ys zs e
delete_first [] (_ ∷ zs) e = view zs [] e
delete_first [] [] e = view [] [] e

abbrev pub post_delete : Cells → Cells → Bool → View
post_delete ys (c ∷ _ ∷ zs) e = view ys (c ∷ zs) e
post_delete ys zs e = view ys zs e

abbrev pub post_insert : Ptr → ℤ → Cells → Cells → Bool → View
post_insert p v ys [] e = view ys [] e
post_insert p v ys (c ∷ zs) e =
    if p == null then view ys (c ∷ zs) true else view ys (c ∷ (p, v) ∷ zs) e

abbrev pub actualize : ℤ → Cells → Cells → Bool → View
actualize v ys [] e = view ys [] e
actualize v ys ((p, _) ∷ zs) e = view ys ((p, v) ∷ zs) e

abbrev pub succ : Cells → Cells → Bool → View
succ ys [] e = view ys [] e
succ ys (c ∷ zs) e = view (ys ++ (c ∷ [])) zs e

abbrev pub active : View → Bool
active z = not (is_empty z.after)

-- The operations that only the doubly linked list has.
abbrev pub insert_last : Ptr → ℤ → Cells → Cells → Bool → View
insert_last p v ys [] e = if p == null then view ys [] true else view (ys ++ ((p, v) ∷ [])) [] e
insert_last p v ys (c ∷ zs) e =
    if p == null then view ys (c ∷ zs) true else view ys ((c ∷ zs) ++ ((p, v) ∷ [])) e

abbrev pub last : View → View
last z = view (init (z.before ++ z.after)) (last_cells (z.before ++ z.after)) z.errflg

abbrev pub delete_last : Cells → Cells → Bool → View
delete_last ys [] e = view (init ys) [] e
delete_last ys (c ∷ zs) e = view ys (init (c ∷ zs)) e

abbrev pub pre_delete : Cells → Cells → Bool → View
pre_delete ys [] e = view ys [] e
pre_delete ys (c ∷ zs) e = view (init ys) (c ∷ zs) e

abbrev pub pre_insert : Ptr → ℤ → Cells → Cells → Bool → View
pre_insert p v ys [] e = view ys [] e
pre_insert p v ys (c ∷ zs) e =
    if p == null then view ys (c ∷ zs) true else view (ys ++ ((p, v) ∷ [])) (c ∷ zs) e

-- Before the first element there is none: the cursor is lost.
abbrev pub pred : Cells → Cells → Bool → View
pred ys [] e = view ys [] e
pred ys (c ∷ zs) e =
    if is_empty ys then view (c ∷ zs) [] e else view (init ys) (last_cells ys ++ (c ∷ zs)) e
