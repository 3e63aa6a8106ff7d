-- ===== src/DoublyLinked.antt =====
-- sem_3/ial/proj_1/c206/c206.c and c206.h: a doubly linked list of `int` with an active element.
-- A `tDLList` is the list variable of the world; every operation is a command. The prefix `DL` of the
-- names is dropped. `DLError` prints a message, which is output only, and sets `errflg`.
pub mod Chain
pub mod Delete
pub mod Cursor
pub mod DeleteEnds
pub mod Dispose
pub mod InsertEnds
pub mod PostInsert
pub mod PreInsert
pub mod Run
mod Tests
use school_projects.Base.{ℕ, zero, suc, Bool, not, ◌||◌, ◌==◌, if◌then◌else◌}
use school_projects.Base.Int.{ℤ}
use school_projects.Memory.{
  Ptr, null, World, Cmd, Malloc, exhausted, pure, ◌>>=◌, ◌>>◌, get, put, set_errflg, load, modify,
  free, allocate,
}

-- `struct tDLElem`; its field `data` is `value` here.
pub record Elem : Type 0 where
  pub value : ℤ
  pub lptr : Ptr
  pub rptr : Ptr

-- `tDLList`
pub record TdlList : Type 0 where
  pub first : Ptr
  pub act : Ptr
  pub last : Ptr

abbrev pub ListWorld : Type 0
ListWorld = World Elem TdlList

abbrev pub Op : Type 0 → Type 0
Op A = Cmd ListWorld A

-- The assignments `p->data = v`, `p->lptr = q` and `p->rptr = q`.
abbrev pub set_value : Ptr → ℤ → Op (Unit {0})
set_value p v = modify p (λ e. record e { value = v })

abbrev pub set_lptr : Ptr → Ptr → Op (Unit {0})
set_lptr p q = modify p (λ e. record e { lptr = q })

abbrev pub set_rptr : Ptr → Ptr → Op (Unit {0})
set_rptr p q = modify p (λ e. record e { rptr = q })

unfoldable pub error : Op (Unit {0})
error = set_errflg

unfoldable pub init_list : Op (Unit {0})
init_list = put (record { first = null; act = null; last = null })

-- The `while` loop of `DLDisposeList`.
unfoldable pub dispose_loop : ℕ → Op (Unit {0})
dispose_loop zero = λ _. exhausted
dispose_loop (suc k) = do
  l ← get
  if l.first == null
      then pure tt
      else do f ← load l.first; put (record l { first = f.rptr }); free l.first; dispose_loop k

-- The fuel bounds the rounds of the loop.
unfoldable pub dispose_list : ℕ → Op (Unit {0})
unfolding dispose_loop
dispose_list fuel = do
  l ← get
  if l.first == null
      then put (record l { act = null; last = null })
      else do dispose_loop fuel; put (record { first = null; act = null; last = null })

unfoldable pub insert_first : Malloc Elem → ℤ → Op (Unit {0})
unfolding error
insert_first m val = do
  tmp ← allocate m
  if tmp == null then error else do
    l ← get
    (if l.last == null then put (record l { last = tmp }) else set_lptr l.first tmp)
    set_value tmp val
    set_lptr tmp null
    l' ← get
    set_rptr tmp l'.first
    put (record l' { first = tmp })

unfoldable pub insert_last : Malloc Elem → ℤ → Op (Unit {0})
unfolding error
insert_last m val = do
  tmp ← allocate m
  if tmp == null then error else do
    l ← get
    (if l.first == null then put (record l { first = tmp }) else set_rptr l.last tmp)
    l' ← get
    set_lptr tmp l'.last
    set_value tmp val
    set_rptr tmp null
    put (record l' { last = tmp })

unfoldable pub first : Op (Unit {0})
first = do l ← get; put (record l { act = l.first })

unfoldable pub last : Op (Unit {0})
last = do l ← get; put (record l { act = l.last })

-- An output parameter `*val` is a value that is passed in and returned.
unfoldable pub copy_first : ℤ → Op ℤ
unfolding error
copy_first val = do
  l ← get
  if l.first == null then (do error; pure val) else do f ← load l.first; pure f.value

unfoldable pub copy_last : ℤ → Op ℤ
unfolding error
copy_last val = do
  l ← get
  if l.last == null then (do error; pure val) else do f ← load l.last; pure f.value

unfoldable pub delete_first : Op (Unit {0})
delete_first = do
  l ← get
  if l.first == null then pure tt else do
    (if l.act == l.first then put (record l { act = null }) else pure tt)
    l' ← get
    (if l'.first == l'.last
        then put (record l' { first = null; last = null })
        else (do tmp ← load l.first; put (record l' { first = tmp.rptr }); set_lptr tmp.rptr null))
    free l.first

unfoldable pub delete_last : Op (Unit {0})
delete_last = do
  l ← get
  if l.first == null then pure tt else do
    (if l.act == l.last then put (record l { act = null }) else pure tt)
    l' ← get
    (if l'.first == l'.last
        then put (record l' { first = null; last = null })
        else (do tmp ← load l.last; put (record l' { last = tmp.lptr }); set_rptr tmp.lptr null))
    free l.last

unfoldable pub post_delete : Op (Unit {0})
post_delete = do
  l ← get
  if (l.act == null) || (l.act == l.last) then pure tt else do
    a ← load l.act
    t ← load a.rptr
    (if a.rptr == l.last
        then (do put (record l { last = t.lptr }); set_rptr t.lptr null)
        else (do set_rptr l.act t.rptr; set_lptr t.rptr l.act))
    free a.rptr

unfoldable pub pre_delete : Op (Unit {0})
pre_delete = do
  l ← get
  if (l.act == null) || (l.act == l.first) then pure tt else do
    a ← load l.act
    t ← load a.lptr
    (if a.lptr == l.first
        then (do put (record l { first = t.rptr }); set_lptr t.rptr null)
        else (do set_lptr l.act t.lptr; set_rptr t.lptr l.act))
    free a.lptr

unfoldable pub post_insert : Malloc Elem → ℤ → Op (Unit {0})
unfolding error
post_insert m val = do
  l ← get
  if l.act == null then pure tt else do
    tmp ← allocate m
    if tmp == null then error else do
      set_value tmp val
      set_lptr tmp l.act
      (if l.act == l.last
          then (do put (record l { last = tmp }); set_rptr tmp null)
          else (do a ← load l.act; set_rptr tmp a.rptr; t ← load tmp; set_lptr t.rptr tmp))
      set_rptr l.act tmp

unfoldable pub pre_insert : Malloc Elem → ℤ → Op (Unit {0})
unfolding error
pre_insert m val = do
  l ← get
  if l.act == null then pure tt else do
    tmp ← allocate m
    if tmp == null then error else do
      set_value tmp val
      set_rptr tmp l.act
      (if l.act == l.first
          then (do put (record l { first = tmp }); set_lptr tmp null)
          else (do a ← load l.act; set_lptr tmp a.lptr; t ← load tmp; set_rptr t.lptr tmp))
      set_lptr l.act tmp

unfoldable pub copy : ℤ → Op ℤ
unfolding error
copy val = do
  l ← get
  if l.act == null then (do error; pure val) else do a ← load l.act; pure a.value

unfoldable pub actualize : ℤ → Op (Unit {0})
actualize val = do l ← get; if l.act == null then pure tt else set_value l.act val

unfoldable pub succ : Op (Unit {0})
succ = do
  l ← get
  if l.act == null then pure tt else do a ← load l.act; put (record l { act = a.rptr })

unfoldable pub pred : Op (Unit {0})
pred = do
  l ← get
  if l.act == null then pure tt else do a ← load l.act; put (record l { act = a.lptr })

unfoldable pub active : Op Bool
active = do l ← get; pure (not (l.act == null))
