-- ===== src/DoublyLinked/Run.antt =====
-- A client's calls in order, on the program and on the abstract list.
use school_projects.Base.{◌≡◌, refl, ap, List, ◌++◌}
use school_projects.Base.Int.{ℤ}
use school_projects.Memory.{Ptr, Heap, Malloc, pure, ◌>>=◌, ◌>>◌, next_address}
use school_projects.ListView
use school_projects.ListView.{View, Reply, nothing, value, truth}
use school_projects.ListView.Client.{Spec, Follows, run, run-Follows}
use school_projects.Memory.Returns
use school_projects.Memory.Returns.{Returns}
use school_projects.DoublyLinked
use school_projects.DoublyLinked.{Elem, ListWorld, Op}
use school_projects.DoublyLinked.Chain.{IsList}
use school_projects.DoublyLinked.InsertEnds.{insert_first_lem, insert_last_lem}
use school_projects.DoublyLinked.PostInsert.{post_insert_lem}
use school_projects.DoublyLinked.PreInsert.{pre_insert_lem}
use school_projects.DoublyLinked.Delete.{post_delete_lem, pre_delete_lem}
use school_projects.DoublyLinked.DeleteEnds.{delete_first_lem, delete_last_lem}
use school_projects.Memory.Cells.{last_cells}
use school_projects.DoublyLinked.Cursor.{
  first_lem, last_lem, succ_lem, pred_lem, copy_lem, copy_first_lem, copy_last_lem, actualize_lem,
  active-is_empty,
}

-- The operations of c206.h without `DLInitList` and `DLDisposeList`, between which they are called.
pub data Call : Type 0 where
  insert_first : ℤ → Call
  first : Call
  copy_first : ℤ → Call
  delete_first : Call
  post_delete : Call
  post_insert : ℤ → Call
  copy : ℤ → Call
  actualize : ℤ → Call
  succ : Call
  active : Call
  insert_last : ℤ → Call
  last : Call
  copy_last : ℤ → Call
  delete_last : Call
  pre_delete : Call
  pre_insert : ℤ → Call
  pred : Call

module _ (m : Malloc Elem) where
  unfoldable pub step : Call → Op Reply
  step (insert_first v) = DoublyLinked.insert_first m v >> pure nothing
  step first = DoublyLinked.first >> pure nothing
  step (copy_first v) = do r ← DoublyLinked.copy_first v; pure (value r)
  step delete_first = DoublyLinked.delete_first >> pure nothing
  step post_delete = DoublyLinked.post_delete >> pure nothing
  step (post_insert v) = DoublyLinked.post_insert m v >> pure nothing
  step (copy v) = do r ← DoublyLinked.copy v; pure (value r)
  step (actualize v) = DoublyLinked.actualize v >> pure nothing
  step succ = DoublyLinked.succ >> pure nothing
  step active = do r ← DoublyLinked.active; pure (truth r)
  step (insert_last v) = DoublyLinked.insert_last m v >> pure nothing
  step last = DoublyLinked.last >> pure nothing
  step (copy_last v) = do r ← DoublyLinked.copy_last v; pure (value r)
  step delete_last = DoublyLinked.delete_last >> pure nothing
  step pre_delete = DoublyLinked.pre_delete >> pure nothing
  step (pre_insert v) = DoublyLinked.pre_insert m v >> pure nothing
  step pred = DoublyLinked.pred >> pure nothing

-- The same calls on the abstract list; `p` is what `malloc` returns, if the call asks for memory.
abbrev pub reply : Call → View → Reply
reply (copy_first v) z = value (ListView.value_of (z.before ++ z.after) v)
reply (copy_last v) z = value (ListView.value_of (last_cells (z.before ++ z.after)) v)
reply (copy v) z = value (ListView.value_of z.after v)
reply active z = truth (ListView.active z)
reply _ z = nothing

abbrev pub next : Ptr → Call → View → View
next p (insert_first v) z = ListView.insert_first p v z
next p first z = ListView.first z
next p (copy_first v) z = ListView.read (z.before ++ z.after) z
next p delete_first z = ListView.delete_first z.before z.after z.errflg
next p post_delete z = ListView.post_delete z.before z.after z.errflg
next p (post_insert v) z = ListView.post_insert p v z.before z.after z.errflg
next p (copy v) z = ListView.read z.after z
next p (actualize v) z = ListView.actualize v z.before z.after z.errflg
next p succ z = ListView.succ z.before z.after z.errflg
next p active z = z
next p (insert_last v) z = ListView.insert_last p v z.before z.after z.errflg
next p last z = ListView.last z
next p (copy_last v) z = ListView.read (z.before ++ z.after) z
next p delete_last z = ListView.delete_last z.before z.after z.errflg
next p pre_delete z = ListView.pre_delete z.before z.after z.errflg
next p (pre_insert v) z = ListView.pre_insert p v z.before z.after z.errflg
next p pred z = ListView.pred z.before z.after z.errflg

abbrev pub spec : Spec Call
spec = record { reply = reply; next = next }

module _ {g : Heap Elem} (m : Malloc Elem) where
  -- From a variable and a memory that represent an abstract list linked both ways, each operation
  -- between `DLInitList` and `DLDisposeList` is defined, replies what the abstract list replies,
  -- and leaves the variable and the memory representing the abstract list after that operation,
  -- the rest of the memory untouched.
  pub step_refines_both_ways :
      (c : Call) {w : ListWorld} (z : View)
      → IsList g w z
      → Returns (λ r w'. (r ≡ reply c z) × IsList g w' (next (next_address m w) c z)) (step m c w)
  unfolding step
  step_refines_both_ways (insert_first v) {w} z is =
      Returns.bind _ (DoublyLinked.insert_first m v w) _ (insert_first_lem m v z is)
        λ _ _ i. (refl, i)
  step_refines_both_ways (insert_last v) {w} z is =
      Returns.bind _ (DoublyLinked.insert_last m v w) _
        (insert_last_lem m v z.before z.after z.errflg is) λ _ _ i. (refl, i)
  step_refines_both_ways first {w} z is =
      Returns.bind _ (DoublyLinked.first w) _ (first_lem z.before z.after is) λ _ _ i. (refl, i)
  step_refines_both_ways last {w} z is =
      Returns.bind _ (DoublyLinked.last w) _ (last_lem z.before z.after is) λ _ _ i. (refl, i)
  step_refines_both_ways (copy_first v) {w} z is =
      Returns.bind _ (DoublyLinked.copy_first v w) _ (copy_first_lem v z.before z.after is)
        λ _ _ (e, i). (ap value e, i)
  step_refines_both_ways (copy_last v) {w} z is =
      Returns.bind _ (DoublyLinked.copy_last v w) _ (copy_last_lem v z.before z.after is)
        λ _ _ (e, i). (ap value e, i)
  step_refines_both_ways delete_first {w} z is =
      Returns.bind _ (DoublyLinked.delete_first w) _ (delete_first_lem z.before z.after is)
        λ _ _ i. (refl, i)
  step_refines_both_ways delete_last {w} z is =
      Returns.bind _ (DoublyLinked.delete_last w) _ (delete_last_lem z.before z.after is)
        λ _ _ i. (refl, i)
  step_refines_both_ways post_delete {w} z is =
      Returns.bind _ (DoublyLinked.post_delete w) _ (post_delete_lem z.before z.after is)
        λ _ _ i. (refl, i)
  step_refines_both_ways pre_delete {w} z is =
      Returns.bind _ (DoublyLinked.pre_delete w) _ (pre_delete_lem z.before z.after is)
        λ _ _ i. (refl, i)
  step_refines_both_ways (post_insert v) {w} z is =
      Returns.bind _ (DoublyLinked.post_insert m v w) _ (post_insert_lem m v z.before z.after is)
        λ _ _ i. (refl, i)
  step_refines_both_ways (pre_insert v) {w} z is =
      Returns.bind _ (DoublyLinked.pre_insert m v w) _ (pre_insert_lem m v z.before z.after is)
        λ _ _ i. (refl, i)
  step_refines_both_ways (copy v) {w} z is =
      Returns.bind _ (DoublyLinked.copy v w) _ (copy_lem v z.before z.after is)
        λ _ _ (e, i). (ap value e, i)
  step_refines_both_ways (actualize v) {w} z is =
      Returns.bind _ (DoublyLinked.actualize v w) _ (actualize_lem v z.before z.after is)
        λ _ _ i. (refl, i)
  step_refines_both_ways succ {w} z is =
      Returns.bind _ (DoublyLinked.succ w) _ (succ_lem z.before z.after is) λ _ _ i. (refl, i)
  step_refines_both_ways pred {w} z is =
      Returns.bind _ (DoublyLinked.pred w) _ (pred_lem z.before z.after is) λ _ _ i. (refl, i)
  step_refines_both_ways active {w} z is =
      Returns.bind _ (DoublyLinked.active w) _ (active-is_empty z.before z.after is)
        λ _ _ (e, same). (ap truth e, rw same is)

  -- From a variable and a memory that represent an abstract list linked both ways, any operations
  -- other than `DLInitList` and `DLDisposeList`, in any order, are defined, reply as the abstract list does for some results of `malloc`, and
  -- leave exactly the elements that the abstract list ends with allocated beside the rest of the
  -- memory.
  pub run_refines_both_ways :
      (cs : List Call) {w : ListWorld} (z : View)
      → IsList g w z
      → Returns
          (λ rs w'. (z' : View) × Follows spec z cs rs z' × IsList g w' z')
          (run (step m) cs w)
  run_refines_both_ways cs z is =
      run-Follows (record { refines = λ c {w} z is. step_refines_both_ways c z is }) cs z is
