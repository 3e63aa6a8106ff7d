-- ===== src/SinglyLinked.antt =====
-- sem_3/ial/proj_1/c201/c201.c and c201.h: a singly linked list of `int` with an active element.
-- A `tList` is the list variable of the world; every operation is a command. `Error` prints a
-- message, which is output only, and sets `errflg`.
pub mod Chain
pub mod Cursor
pub mod Delete
pub mod Dispose
pub mod Insert
pub mod Run
mod Tests
use school_projects.Base.{ℕ, zero, suc, Bool, not, ◌&&◌, ◌==◌, if◌then◌else◌}
use school_projects.Base.Int.{ℤ}
use school_projects.Memory.{
  Ptr, null, World, Cmd, Malloc, exhausted, pure, ◌>>=◌, ◌>>◌, get, put, set_errflg, load, modify,
  free, allocate,
}

-- `struct tElem`; its field `data` is `value` here.
pub record Elem : Type 0 where
  pub ptr : Ptr
  pub value : ℤ

-- `tList`
pub record TList : Type 0 where
  pub act : Ptr
  pub first : Ptr

abbrev pub ListWorld : Type 0
ListWorld = World Elem TList

abbrev pub Op : Type 0 → Type 0
Op A = Cmd ListWorld A

unfoldable pub error : Op (Unit {0})
error = set_errflg

unfoldable pub init_list : Op (Unit {0})
init_list = put (record { act = null; first = null })

-- The `while` loop of `DisposeList`, with its variable `second`.
unfoldable pub dispose_loop : ℕ → Ptr → Op (Unit {0})
dispose_loop zero second = λ _. exhausted
dispose_loop (suc k) second = do
  l ← get
  if l.first == null then pure tt else do
    free l.first
    put (record l { first = second })
    s ← load second
    if s.ptr == null then pure tt else dispose_loop k s.ptr

-- The fuel bounds the rounds of the loop.
unfoldable pub dispose_list : ℕ → Op (Unit {0})
unfolding dispose_loop
dispose_list fuel = do
  l ← get
  if l.first == null then pure tt else do
    f ← load l.first
    second ← (if f.ptr == null then pure null else do g ← load l.first; pure g.ptr)
    dispose_loop fuel second
    put (record { act = null; first = null })

unfoldable pub insert_first : Malloc Elem → ℤ → Op (Unit {0})
unfolding error
insert_first m val = do
  element ← allocate m
  if element == null then error else do
    l ← get
    modify element (λ e. record e { ptr = l.first })
    modify element (λ e. record e { value = val })
    put (record l { first = element })

unfoldable pub first : Op (Unit {0})
first = do l ← get; put (record l { act = l.first })

-- An output parameter `*val` is a value that is passed in and returned.
unfoldable pub copy_first : ℤ → Op ℤ
unfolding error
copy_first val = do
  l ← get
  if not (l.first == null) then (do f ← load l.first; pure f.value) else do error; pure val

unfoldable pub delete_first : Op (Unit {0})
delete_first = do
  l ← get
  if l.first == null then pure tt else do
    (if l.first == l.act then put (record l { act = null }) else pure tt)
    f ← load l.first
    l' ← get
    put (record l' { first = f.ptr })
    free l.first

-- `L->Act != NULL && L->Act->ptr != NULL`: the second test reads memory only after the first.
unfoldable pub post_delete : Op (Unit {0})
post_delete = do
  l ← get
  if l.act == null then pure tt else do
    a ← load l.act
    if a.ptr == null
        then pure tt
        else do t ← load a.ptr; modify l.act (λ e. record e { ptr = t.ptr }); free a.ptr

unfoldable pub post_insert : Malloc Elem → ℤ → Op (Unit {0})
unfolding error
post_insert m val = do
  l ← get
  if l.act == null then pure tt else do
    element ← allocate m
    if element == null then error else do
      modify element (λ e. record e { value = val })
      a ← load l.act
      (if a.ptr == null
          then modify element (λ e. record e { ptr = null })
          else modify element (λ e. record e { ptr = a.ptr }))
      modify l.act (λ e. record e { ptr = element })

unfoldable pub copy : ℤ → Op ℤ
unfolding error
copy val = do
  l ← get
  if not (l.act == null) then (do a ← load l.act; pure a.value) else do error; pure val

unfoldable pub actualize : ℤ → Op (Unit {0})
actualize val = do
  l ← get
  if not (l.act == null) then modify l.act (λ e. record e { value = val }) else pure tt

unfoldable pub succ : Op (Unit {0})
succ = do
  l ← get
  if not (l.act == null) then (do a ← load l.act; put (record l { act = a.ptr })) else pure tt

unfoldable pub active : Op Bool
active = do l ← get; pure (not (l.act == null))
