-- ===== src/TreeTraversal.antt =====
-- The binary tree without recursion of sem_3/ial/proj_2/c402/c402.c and c402.h: the two stacks in arrays,
-- `BTInsert`, the three traversals and `BTDisposeTree`. A subtree is reached by one pointer only, so a
-- tree is a value; a node holds its address.
pub mod Stacks
pub mod Spine
pub mod Preorder
pub mod Inorder
pub mod Postorder
pub mod Insert
pub mod Dispose
mod Tests
use school_projects.Base.{
  ℕ, zero, suc, ◌-◌, ◌&&◌, Bool, true, false, Option, none, some, List, [], ◌∷◌, ◌++◌, ◌==◌,
  get_elem?, set, if◌then◌else◌,
}
use school_projects.Base.Int.{ℤ, ltb_ℤ}
use school_projects.Memory.{Ptr, null, Cmd, Outcome, done, undefined, exhausted, pure, ◌>>=◌, ◌>>◌}

-- `tBTNode` and the pointer to it; `leaf` is NULL.
pub data Tree : Type 0 where
  leaf : Tree
  node : (address : Ptr) (cont : ℤ) (l r : Tree) → Tree

abbrev pub maxstack : ℕ
maxstack = 30

-- `tStackP` and `tStackB`
pub record Stack (A : Type 0) : Type 0 where
  pub a : List A
  pub top : ℕ

-- What is printed, and which nodes are freed: `visit` is the value that `BTWorkOut` prints.
pub data Event : Type 0 where
  visit : ℤ → Event
  no_node : Event
  overflow : Event
  underflow : Event
  freed : Ptr → Event

-- The stacks, and what has happened.
pub record Machine : Type 0 where
  pub pointers : Stack Tree
  pub flags : Stack Bool
  pub events : List Event

abbrev pub Op : Type 0 → Type 0
Op = Cmd Machine

abbrev pub emit : Event → Op (Unit {0})
emit e w = done tt (record w { events = w.events ++ (e ∷ []) })

-- `S->a[S->top]` on either side of an assignment: outside the array it is undefined.
module _ {A : Type 0} where
  unfoldable pub read_top : Stack A → Op A
  read_top s w = elim (get_elem? s.a s.top) [ none ↦ undefined | some x ↦ done x w ]

  unfoldable pub write_top : Stack A → A → Op (Stack A)
  write_top s x w = elim (get_elem? s.a s.top) [
    | none ↦ undefined
    | some _ ↦ done (record s { a = set s.a s.top x }) w
  ]

abbrev pub set_pointers : Stack Tree → Op (Unit {0})
set_pointers s w = done tt (record w { pointers = s })

abbrev pub set_flags : Stack Bool → Op (Unit {0})
set_flags s w = done tt (record w { flags = s })

unfoldable pub s_init_p : Op (Unit {0})
s_init_p w = done tt (record w { pointers = record (w.pointers) { top = 0 } })

unfoldable pub s_push_p : Tree → Op (Unit {0})
unfolding write_top
s_push_p ptr w =
    (if w.pointers.top == maxstack then emit overflow else (do
      s ← write_top (record (w.pointers) { top = suc w.pointers.top }) ptr
      set_pointers s))
      w

unfoldable pub s_top_pop_p : Op Tree
unfolding read_top
s_top_pop_p w =
    (if w.pointers.top == 0 then (do emit underflow; pure leaf) else (do
      x ← read_top w.pointers
      set_pointers (record (w.pointers) { top = w.pointers.top - 1 })
      pure x))
      w

unfoldable pub s_empty_p : Op Bool
s_empty_p w = done (w.pointers.top == 0) w

unfoldable pub s_init_b : Op (Unit {0})
s_init_b w = done tt (record w { flags = record (w.flags) { top = 0 } })

unfoldable pub s_push_b : Bool → Op (Unit {0})
unfolding write_top
s_push_b val w =
    (if w.flags.top == maxstack
        then emit overflow
        else (do s ← write_top (record (w.flags) { top = suc w.flags.top }) val; set_flags s))
      w

-- `NULL` as a `bool` is false.
unfoldable pub s_top_pop_b : Op Bool
unfolding read_top
s_top_pop_b w =
    (if w.flags.top == 0 then (do emit underflow; pure false) else (do
      x ← read_top w.flags
      set_flags (record (w.flags) { top = w.flags.top - 1 })
      pure x))
      w

unfoldable pub s_empty_b : Op Bool
s_empty_b w = done (w.flags.top == 0) w

unfoldable pub bt_work_out : Tree → Op (Unit {0})
bt_work_out leaf = emit no_node
bt_work_out (node p cont l r) = emit (visit cont)

-- `ptr->RPtr`
unfoldable pub right : Tree → Op Tree
right leaf w = undefined
right (node p cont l r) w = done r w

abbrev pub bt_init : Tree
bt_init = leaf

-- The way from the root to a node: the node that was left behind, without the subtree that was taken.
pub data Step : Type 0 where
  to_left : (address : Ptr) (cont : ℤ) (r : Tree) → Step
  to_right : (address : Ptr) (cont : ℤ) (l : Tree) → Step

-- The tree with `t` at the end of the way.
abbrev pub plug : List Step → Tree → Tree
plug [] t = t
plug (to_left p cont r ∷ way) t = plug way (node p cont t r)
plug (to_right p cont l ∷ way) t = plug way (node p cont l t)

-- `found`, and `where` with the way to it.
pub record Place : Type 0 where
  pub found : Bool
  pub way : List Step
  pub where_ : Tree

-- The `do` loop of `BTInsert`: `tmp` at the end of `way`, and the place of the last round.
unfoldable pub insert_loop : Place → List Step → Tree → ℤ → Place
insert_loop last way leaf content = last
insert_loop last way (node p cont l r) content =
    let here : Place = record { found = false; way = way; where_ = node p cont l r } in
    let go_left = insert_loop here (to_left p cont r ∷ way) l content in
    let go_right = insert_loop here (to_right p cont l ∷ way) r content in
    if ltb_ℤ content cont
    then go_left
    else (if ltb_ℤ cont content
        then go_right
        else record { found = true; way = way; where_ = node p cont l r })

-- The assignment of the new node.
unfoldable pub attach : Tree → List Step → Tree → ℤ → Tree
attach to_be_added way leaf content = to_be_added
attach to_be_added way (node q cont l r) content =
    if ltb_ℤ content cont
    then plug way (node q cont to_be_added r)
    else plug way (node q cont l to_be_added)

-- `p` is what `malloc` returns, if it is called.
unfoldable pub bt_insert : Ptr → Tree → ℤ → Tree
unfolding insert_loop attach
bt_insert p root content =
    let place = insert_loop (record { found = false; way = []; where_ = leaf }) [] root content in
    if place.found
    then root
    else (if p == null
        then root
        else attach (node p content leaf leaf) place.way place.where_ content)

unfoldable pub leftmost_preorder : Tree → Op (Unit {0})
leftmost_preorder leaf = pure tt
leftmost_preorder (node p cont l r) = do
  bt_work_out (node p cont l r)
  s_push_p (node p cont l r)
  leftmost_preorder l

-- The fuel of a loop bounds its rounds.
unfoldable pub preorder_loop : ℕ → Op (Unit {0})
preorder_loop zero = λ _. exhausted
preorder_loop (suc k) = do
  stop ← s_empty_p
  if stop
      then pure tt
      else do tmp ← s_top_pop_p; r ← right tmp; leftmost_preorder r; preorder_loop k

unfoldable pub bt_preorder : ℕ → Tree → Op (Unit {0})
bt_preorder fuel leaf = pure tt
bt_preorder fuel (node p cont l r) = do
  s_init_p
  leftmost_preorder (node p cont l r)
  preorder_loop fuel

unfoldable pub leftmost_inorder : Tree → Op (Unit {0})
leftmost_inorder leaf = pure tt
leftmost_inorder (node p cont l r) = do s_push_p (node p cont l r); leftmost_inorder l

unfoldable pub inorder_loop : ℕ → Op (Unit {0})
inorder_loop zero = λ _. exhausted
inorder_loop (suc k) = do
  stop ← s_empty_p
  if stop
      then pure tt
      else do tmp ← s_top_pop_p; bt_work_out tmp; r ← right tmp; leftmost_inorder r; inorder_loop k

unfoldable pub bt_inorder : ℕ → Tree → Op (Unit {0})
bt_inorder fuel leaf = pure tt
bt_inorder fuel (node p cont l r) = do
  s_init_p
  leftmost_inorder (node p cont l r)
  inorder_loop fuel

unfoldable pub leftmost_postorder : Tree → Op (Unit {0})
leftmost_postorder leaf = pure tt
leftmost_postorder (node p cont l r) = do
  s_push_p (node p cont l r)
  s_push_b true
  leftmost_postorder l

unfoldable pub postorder_loop : ℕ → Op (Unit {0})
postorder_loop zero = λ _. exhausted
postorder_loop (suc k) = do
  stop ← s_empty_p
  if stop then pure tt else do
    tmp ← s_top_pop_p
    s_push_p tmp
    left ← s_top_pop_b
    (if left
        then (do s_push_b false; r ← right tmp; leftmost_postorder r)
        else (do s_top_pop_p; bt_work_out tmp))
    postorder_loop k

unfoldable pub bt_postorder : ℕ → Tree → Op (Unit {0})
bt_postorder fuel leaf = pure tt
bt_postorder fuel (node p cont l r) = do
  s_init_p
  s_init_b
  leftmost_postorder (node p cont l r)
  postorder_loop fuel

-- The body of the `do` loop of `BTDisposeTree`, from `*RootPtr` to `*RootPtr`.
unfoldable pub dispose_body : Tree → Op Tree
dispose_body leaf = do stop ← s_empty_p; if stop then pure leaf else s_top_pop_p
dispose_body (node p cont l leaf) = do emit (freed p); pure l
dispose_body (node p cont l (node q cont' l' r')) = do
  s_push_p (node q cont' l' r')
  emit (freed p)
  pure l

abbrev pub is_leaf : Tree → Bool
is_leaf leaf = true
is_leaf (node p cont l r) = false

unfoldable pub dispose_rounds : ℕ → Tree → Op Tree
dispose_rounds zero root = λ _. exhausted
dispose_rounds (suc k) root = do
  root' ← dispose_body root
  stop ← s_empty_p
  if is_leaf root' && stop then pure root' else dispose_rounds k root'

unfoldable pub bt_dispose_tree : ℕ → Tree → Op Tree
bt_dispose_tree fuel leaf = pure leaf
bt_dispose_tree fuel (node p cont l r) = do s_init_p; dispose_rounds fuel (node p cont l r)
