-- ===== src/SinglyLinked/Run.antt =====
-- A client's calls in order, on the program and on the abstract list.
use school_projects.Base.{◌≡◌, refl, ap, List, ◌++◌}
use school_projects.Base.Int.{ℤ}
use school_projects.Memory.{Ptr, Heap, Malloc, pure, ◌>>=◌, ◌>>◌, next_address}
use school_projects.ListView
use school_projects.ListView.{View, Reply, nothing, value, truth}
use school_projects.ListView.Client.{Spec, Follows, run, run-Follows}
use school_projects.Memory.Returns
use school_projects.Memory.Returns.{Returns}
use school_projects.SinglyLinked
use school_projects.SinglyLinked.{Elem, ListWorld, Op}
use school_projects.SinglyLinked.Chain.{IsList}
use school_projects.SinglyLinked.Insert.{insert_first_lem, post_insert_lem}
use school_projects.SinglyLinked.Delete.{delete_first_lem, post_delete_lem}
use school_projects.SinglyLinked.Cursor.{
  first_lem, succ_lem, copy_lem, copy_first_lem, actualize_lem, active-is_empty,
}

-- The operations of c201.h without `InitList` and `DisposeList`, between which they are called.
pub data Call : Type 0 where
  insert_first : ℤ → Call
  first : Call
  copy_first : ℤ → Call
  delete_first : Call
  post_delete : Call
  post_insert : ℤ → Call
  copy : ℤ → Call
  actualize : ℤ → Call
  succ : Call
  active : Call

module _ (m : Malloc Elem) where
  unfoldable pub step : Call → Op Reply
  step (insert_first v) = SinglyLinked.insert_first m v >> pure nothing
  step first = SinglyLinked.first >> pure nothing
  step (copy_first v) = do r ← SinglyLinked.copy_first v; pure (value r)
  step delete_first = SinglyLinked.delete_first >> pure nothing
  step post_delete = SinglyLinked.post_delete >> pure nothing
  step (post_insert v) = SinglyLinked.post_insert m v >> pure nothing
  step (copy v) = do r ← SinglyLinked.copy v; pure (value r)
  step (actualize v) = SinglyLinked.actualize v >> pure nothing
  step succ = SinglyLinked.succ >> pure nothing
  step active = do r ← SinglyLinked.active; pure (truth r)

-- The same calls on the abstract list; `p` is what `malloc` returns, if the call asks for memory.
abbrev pub reply : Call → View → Reply
reply (copy_first v) z = value (ListView.value_of (z.before ++ z.after) v)
reply (copy v) z = value (ListView.value_of z.after v)
reply active z = truth (ListView.active z)
reply _ z = nothing

abbrev pub next : Ptr → Call → View → View
next p (insert_first v) z = ListView.insert_first p v z
next p first z = ListView.first z
next p (copy_first v) z = ListView.read (z.before ++ z.after) z
next p delete_first z = ListView.delete_first z.before z.after z.errflg
next p post_delete z = ListView.post_delete z.before z.after z.errflg
next p (post_insert v) z = ListView.post_insert p v z.before z.after z.errflg
next p (copy v) z = ListView.read z.after z
next p (actualize v) z = ListView.actualize v z.before z.after z.errflg
next p succ z = ListView.succ z.before z.after z.errflg
next p active z = z

abbrev pub spec : Spec Call
spec = record { reply = reply; next = next }

module _ {g : Heap Elem} (m : Malloc Elem) where
  -- From a variable and a memory that represent an abstract list, each operation between
  -- `InitList` and `DisposeList` is defined, replies what the abstract list replies, and leaves
  -- the variable and the memory representing the abstract list after that operation, the rest of
  -- the memory untouched.
  pub step_refines :
      (c : Call) {w : ListWorld} (z : View)
      → IsList g w z
      → Returns (λ r w'. (r ≡ reply c z) × IsList g w' (next (next_address m w) c z)) (step m c w)
  unfolding step
  step_refines (insert_first v) {w} z is =
      Returns.bind _ (SinglyLinked.insert_first m v w) _ (insert_first_lem m v is)
        λ _ _ i. (refl, i)
  step_refines first {w} z is =
      Returns.bind _ (SinglyLinked.first w) _ (first_lem is) λ _ _ i. (refl, i)
  step_refines (copy_first v) {w} z is =
      Returns.bind _ (SinglyLinked.copy_first v w) _ (copy_first_lem v is)
        λ _ _ (e, i). (ap value e, i)
  step_refines delete_first {w} z is =
      Returns.bind _ (SinglyLinked.delete_first w) _ (delete_first_lem z.before z.after z.errflg is)
        λ _ _ i. (refl, i)
  step_refines post_delete {w} z is =
      Returns.bind _ (SinglyLinked.post_delete w) _ (post_delete_lem z.before z.after z.errflg is)
        λ _ _ i. (refl, i)
  step_refines (post_insert v) {w} z is =
      Returns.bind _ (SinglyLinked.post_insert m v w) _
        (post_insert_lem m v z.before z.after z.errflg is) λ _ _ i. (refl, i)
  step_refines (copy v) {w} z is =
      Returns.bind _ (SinglyLinked.copy v w) _ (copy_lem v z.before z.after z.errflg is)
        λ _ _ (e, i). (ap value e, i)
  step_refines (actualize v) {w} z is =
      Returns.bind _ (SinglyLinked.actualize v w) _ (actualize_lem v z.before z.after z.errflg is)
        λ _ _ i. (refl, i)
  step_refines succ {w} z is =
      Returns.bind _ (SinglyLinked.succ w) _ (succ_lem z.before z.after z.errflg is)
        λ _ _ i. (refl, i)
  step_refines active {w} z is =
      Returns.bind _ (SinglyLinked.active w) _ (active-is_empty is)
        λ _ _ (e, same). (ap truth e, rw same is)

  -- From a variable and a memory that represent an abstract list, any operations other than `InitList` and
  -- `DisposeList`, in any order, are defined, reply as the abstract list does for some results of `malloc`, and leave exactly the
  -- elements that the abstract list ends with allocated beside the rest of the memory.
  pub run_refines :
      (cs : List Call) {w : ListWorld} (z : View)
      → IsList g w z
      → Returns
          (λ rs w'. (z' : View) × Follows spec z cs rs z' × IsList g w' z')
          (run (step m) cs w)
  run_refines cs z is = run-Follows (record { refines = λ c {w} z is. step_refines c z is }) cs z is
