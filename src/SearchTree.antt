-- ===== src/SearchTree.antt =====
-- The binary search tree of sem_3/ial/proj_2/c401/c401.c and c401.h. A subtree is reached by one pointer
-- only, so a tree is a value: a node holds its address, and a function that is given `RootPtr` returns
-- what it leaves at `*RootPtr`, with the addresses that it frees, in order.
pub mod Order
pub mod Insert
pub mod Delete
pub mod Memory
mod Tests
use school_projects.Base.{Bool, true, false, List, [], ◌∷◌, ◌++◌, ◌==◌, ◌&&◌, if◌then◌else◌}
use school_projects.Base.Int.{ℤ, ltb_ℤ, eqb_ℤ}
use school_projects.Memory.{Ptr, null}

-- `tBSTNode` and the pointer to it; `leaf` is NULL.
pub data Tree : Type 0 where
  leaf : Tree
  node : (address : Ptr) (key cont : ℤ) (l r : Tree) → Tree

abbrev pub init : Tree
init = leaf

-- What is returned, and what `*Content` holds afterwards.
unfoldable pub search : Tree → ℤ → ℤ → Bool × ℤ
search leaf k content = (false, content)
search (node p key cont l r) k content =
    if eqb_ℤ key k
    then (true, cont)
    else (if ltb_ℤ k key then search l k content else search r k content)

-- `p` is what `malloc` returns, if it is called.
unfoldable pub insert : Ptr → Tree → ℤ → ℤ → Tree
insert p leaf k content = if p == null then leaf else node p k content leaf leaf
insert p (node q key cont l r) k content =
    if ltb_ℤ k key
    then node q key cont (insert p l k content) r
    else (if ltb_ℤ key k then node q key cont l (insert p r k content) else node q key content l r)

-- `PtrReplaced` is the key and the content of the node that it points to.
unfoldable pub replace_by_rightmost : ℤ × ℤ → Tree → (ℤ × ℤ) × Tree × List Ptr
replace_by_rightmost replaced leaf = (replaced, leaf, [])
replace_by_rightmost replaced (node p key cont l (node q key' cont' l' r')) =
    let (moved, r, freed) = replace_by_rightmost replaced (node q key' cont' l' r') in
    (moved, node p key cont l r, freed)
replace_by_rightmost replaced (node p key cont l leaf) = ((key, cont), l, p ∷ [])

-- `BSTDelete` of the node that is found.
unfoldable pub delete_root : Ptr → ℤ × ℤ → Tree → Tree → Tree × List Ptr
unfolding replace_by_rightmost
delete_root p replaced leaf leaf = (leaf, p ∷ [])
delete_root p replaced (node q key cont l r) leaf = (node q key cont l r, p ∷ [])
delete_root p replaced leaf (node q key cont l r) = (node q key cont l r, p ∷ [])
delete_root p replaced (node q key cont l r) (node q' key' cont' l' r') =
    let (moved, left, freed) = replace_by_rightmost replaced (node q key cont l r) in
    (node p moved.0 moved.1 left (node q' key' cont' l' r'), freed)

unfoldable pub delete : Tree → ℤ → Tree × List Ptr
unfolding delete_root
delete leaf k = (leaf, [])
delete (node p key cont l r) k =
    let (left, freed_left) = delete l k in
    let (right, freed_right) = delete r k in
    if ltb_ℤ k key
    then (node p key cont left r, freed_left)
    else (if ltb_ℤ key k
        then (node p key cont l right, freed_right)
        else delete_root p (key, cont) l r)

unfoldable pub dispose : Tree → Tree × List Ptr
dispose leaf = (leaf, [])
dispose (node p key cont l r) =
    let (_, freed_right) = dispose r in
    let (_, freed_left) = dispose l in (leaf, freed_right ++ (freed_left ++ (p ∷ [])))
